-- ===== src/Loop/Payload.antt =====
-- loop/payload.cpp: the plaintexts of the workers.
use itb_cpp.Base.{
  Bool, true, false, ℕ, zero, suc, ◌+◌, ◌-◌, ◌*◌, ◌/◌, ◌%◌, ◌^◌, ◌≤◌, ◌<◌, ◌≡◌, refl, ap, arith,
  bit_xor, [], ◌∷◌, ◌++◌, Bytes, some, get_elem?, length, length-append, length-take, length-drop,
  take, drop, ltb, ltb→lt, if◌then◌else◌, u64_mod, replicate, length-replicate, ◌==◌,
}
use itb_cpp.Base.Int.{ℤ}
use itb_cpp.Binding.World.{
  World, Outcome, ret, raise, spin, itb_error, invalid_argument, M, pure, ◌>>=◌, ffi,
}
use itb_cpp.Binding.World.Ends.{Comes}
use itb_cpp.Binding.World.Ways.{Any, Nowhere, Ways, Leads, bind-Leads, known-Leads}
use itb_cpp.Binding.Memory.{overwrite, length-overwrite}
use itb_cpp.Loop.Names.{PayloadMode, fixed, rotating, pattern_zero, pattern_ff, pattern_ascii}
use itb_cpp.Binding.Runtime.{count_of}
use itb_cpp.Loop.Host.{Host}

abbrev mixed : ℕ → ℕ → ℕ → ℕ
mixed z shift factor = bit_xor z (z / 2 ^ shift) * factor % u64_mod

-- The value drawn, and the generator's state behind it.
unfoldable pub splitmix64 : ℕ → ℕ × ℕ
splitmix64 state =
    let next = (state + 0x9E3779B97F4A7C15) % u64_mod in
    let z = mixed (mixed next 30 0xBF58476D1CE4E5B9) 27 0x94D049BB133111EB in
    (bit_xor z (z / 2 ^ 31), next)

-- A worker's id is not negative.
unfoldable pub seed_worker : ℕ → ℕ → ℕ
seed_worker seed worker_id = (seed + worker_id + 1) % u64_mod

-- The storage of a 64-bit value on a little-endian machine: lowest byte first.
unfoldable pub le_bytes : ℕ → ℕ → Bytes
le_bytes zero v = []
le_bytes (suc n) v = v % 256 ∷ le_bytes n (v / 256)

-- `for (i = 0; i < size; i += 8)` with so many bytes left; a word fills eight of them at most.
unfoldable pub fill_words : ℕ → ℕ → ℕ → Bytes × ℕ
unfolding splitmix64 le_bytes
fill_words zero left rng = ([], rng)
fill_words (suc rounds) left rng =
    let (v, rng') = splitmix64 rng in
    let (rest, rng'') = fill_words rounds (left - 8) rng' in
    (take left (le_bytes 8 v) ++ rest, rng'')

-- `buf[i] = 'A' + (i % 26)` from the place `i`, for so many places.
unfoldable pub ascii_ramp : ℕ → ℕ → Bytes
ascii_ramp i zero = []
ascii_ramp i (suc n) = (b'A' + i % 26) ∷ ascii_ramp (suc i) n

module _ {L : Type 0} (host : Host L) where
  -- `while (off < buf.size())`, in at most so many rounds.
  unfoldable pub random_from : ℕ → ℕ → Bytes → M L (Bool × Bytes)
  random_from zero off buf = if ltb off (length buf) then (λ w. spin w) else pure (true, buf)
  random_from (suc rounds) off buf =
      let more =
        (ffi (host.getrandom (length buf - off)) >>= λ got.
        let rest =
          random_from rounds (off + count_of got.0)
            (take off buf ++ overwrite got.1 (drop off buf)) in
        if count_of got.0 == 0 then pure (false, buf) else rest) in
      if ltb off (length buf) then more else pure (true, buf)

  unfoldable pub fill_random : Bytes → M L (Bool × Bytes)
  fill_random buf = random_from (length buf) 0 buf

  -- The fixed and rotating modes.
  unfoldable pub fill_drawn : Bool → ℕ → Bytes → M L (Bool × ℕ × Bytes)
  unfolding fill_words
  fill_drawn seeded rng buf =
      if seeded
      then (let (filled, rng') = fill_words ((length buf + 7) / 8) (length buf) rng in
          pure (true, rng', filled))
      else (fill_random buf >>= λ r. pure (r.0, rng, r.1))

  -- Whether the buffer was filled, the generator's state behind, and the buffer.
  unfoldable pub fill_payload : PayloadMode → Bool → ℕ → Bytes → M L (Bool × ℕ × Bytes)
  unfolding fill_drawn ascii_ramp
  fill_payload fixed seeded rng buf = fill_drawn seeded rng buf
  fill_payload rotating seeded rng buf = fill_drawn seeded rng buf
  fill_payload pattern_zero seeded rng buf = pure (true, rng, replicate (length buf) 0)
  fill_payload pattern_ff seeded rng buf = pure (true, rng, replicate (length buf) 255)
  fill_payload pattern_ascii seeded rng buf = pure (true, rng, ascii_ramp 0 (length buf))

length-ascii_ramp : (i n : ℕ) → length (ascii_ramp i n) ≡ n
unfolding ascii_ramp
length-ascii_ramp i zero = refl
length-ascii_ramp i (suc n) = ap suc (length-ascii_ramp (suc i) n)

-- The ramp from the place `i` holds the letter of the place `i + j` at `j`.
pub ascii_ramp_lem : (i n j : ℕ) → j < n → get_elem? (ascii_ramp i n) j ≡ some (b'A' + (i + j) % 26)
unfolding ascii_ramp
ascii_ramp_lem i zero j h = absurd (omega arith)
ascii_ramp_lem i (suc n) zero h = let e : i + 0 ≡ i = omega arith in rw e refl
ascii_ramp_lem i (suc n) (suc j) h =
    let e : i + suc j ≡ suc i + j = omega arith in rw e (ascii_ramp_lem (suc i) n j (omega arith))

length-le_bytes : (n v : ℕ) → length (le_bytes n v) ≡ n
unfolding le_bytes
length-le_bytes zero v = refl
length-le_bytes (suc n) v = ap suc (length-le_bytes n (v / 256))

length-fill_words :
    (rounds left rng : ℕ) → left ≤ 8 * rounds → length (fill_words rounds left rng).0 ≡ left
unfolding fill_words
length-fill_words zero left rng h = omega arith
length-fill_words (suc rounds) left rng h =
    let v = (splitmix64 rng).0 in
    let rest = fill_words rounds (left - 8) (splitmix64 rng).1 in
    let k = length-append {0} (take left (le_bytes 8 v)) rest.0 in
    let t = length-take {0} left (le_bytes 8 v) in
    let b = length-le_bytes 8 v in
    let r = length-fill_words rounds (left - 8) (splitmix64 rng).1 (omega arith) in
    omega (arith, k, t, b, r)

module _ {L : Type 0} (host : Host L) where
  -- A fill ends, with the buffer's size unchanged.
  abbrev Kept : ℕ → Bool × Bytes → World L → Type 0
  Kept size r w = length r.1 ≡ size

  random_from-Leads :
      (rounds off size : ℕ) (buf : Bytes)
      → length buf ≡ size
      → size ≤ off + rounds
      → Leads Any (random_from host rounds off buf) (Kept size) Nowhere
  unfolding random_from
  random_from-Leads zero off size buf e h =
      known-Leads Any (Kept size) Nowhere (ltb off (length buf))
        (λ more. absurd (omega (arith, e, h, ltb→lt off (length buf) more)))
        (λ done. record { leads = λ w u. e })
  random_from-Leads (suc rounds) off size buf e h =
      known-Leads Any (Kept size) Nowhere (ltb off (length buf))
        (λ more.
          bind-Leads {A = ℤ × Bytes} Any (λ got. Any) (Kept size) Nowhere
            (ffi (host.getrandom (length buf - off))) _ (record { leads = λ w u. u })
            (λ got.
              known-Leads Any (Kept size) Nowhere (count_of got.0 == 0) {m = pure (false, buf)}
                (λ none. record { leads = λ w u. e })
                (λ some.
                  let l = length-append {0} (take off buf) (overwrite got.1 (drop off buf)) in
                  random_from-Leads rounds (off + count_of got.0) size
                    (take off buf ++ overwrite got.1 (drop off buf))
                    (omega (
                      arith,
                      l,
                      e,
                      length-take {0} off buf,
                      length-drop {0} off buf,
                      length-overwrite got.1 (drop off buf),
                      ltb→lt off (length buf) more,
                    ))
                    (ground (arith, some, h)))))
        (λ done. record { leads = λ w u. e })

  drawn-Leads :
      (seeded : Bool) (rng : ℕ) (buf : Bytes)
      → Leads Any (fill_drawn host seeded rng buf) (λ r w. length r.2 ≡ length buf) Nowhere
  unfolding fill_drawn fill_random
  drawn-Leads seeded rng buf =
      known-Leads Any (λ r w. length r.2 ≡ length buf) Nowhere seeded
        (λ yes'. record {
          leads = λ w u. length-fill_words ((length buf + 7) / 8) (length buf) rng (omega arith);
        })
        (λ no'.
          bind-Leads Any (Kept (length buf)) (λ r w. length r.2 ≡ length buf) Nowhere _ _
            (random_from-Leads (length buf) 0 (length buf) buf refl (omega arith))
            (λ r. record { leads = λ w k. k }))

  pub fill_payload-Leads :
      (mode : PayloadMode) (seeded : Bool) (rng : ℕ) (buf : Bytes)
      → Leads Any (fill_payload host mode seeded rng buf) (λ r w. length r.2 ≡ length buf) Nowhere
  unfolding fill_payload
  fill_payload-Leads fixed seeded rng buf = drawn-Leads seeded rng buf
  fill_payload-Leads rotating seeded rng buf = drawn-Leads seeded rng buf
  fill_payload-Leads pattern_zero seeded rng buf = record {
    leads = λ w u. length-replicate (length buf) 0;
  }
  fill_payload-Leads pattern_ff seeded rng buf = record {
    leads = λ w u. length-replicate (length buf) 255;
  }
  fill_payload-Leads pattern_ascii seeded rng buf = record {
    leads = λ w u. length-ascii_ramp 0 (length buf);
  }

  returned :
      {A : Type 0} (Q : A → World L → Type 0) (o : Outcome L A) → Ways Q Nowhere o → Comes Q o
  returned Q (ret a w) h = h
  returned Q (raise (itb_error status text) w) h = absurd h
  returned Q (raise (invalid_argument text) w) h = absurd h
  returned Q (spin w) h = absurd h

  -- In every mode and whatever `getrandom` answers, filling a plaintext ends, and the buffer keeps
  -- its size.
  pub fill_payload-Comes :
      (mode : PayloadMode) (seeded : Bool) (rng : ℕ) (buf : Bytes) (w : World L)
      → Comes (λ r w'. length r.2 ≡ length buf) (fill_payload host mode seeded rng buf w)
  fill_payload-Comes mode seeded rng buf w =
      returned (λ r w'. length r.2 ≡ length buf) _
        ((fill_payload-Leads mode seeded rng buf).leads w tt)
