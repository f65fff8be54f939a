-- ===== src/Binding/Stream/Progress.antt =====
-- The rounds of the loops of `pump_into` in src/stream.cpp.
use itb_cpp.Base.{
  Bool, true, false, ℕ, zero, suc, ◌+◌, ◌-◌, ◌≤◌, ◌<◌, ◌≡◌, ◌⊎◌, refl, ap, arith, ◌∷◌, Bytes,
  length, take, drop, min, ltb, ltb→lt, or_else, not, inl, inr, codes, length-take, length-drop,
  length-append, ◌==◌,
}
use itb_cpp.Base.Int.{pos, is_nat}
use itb_cpp.Binding.World.{Library, World, stream_wrote, stream_ended, ◌>>=◌, ◌>>◌}
use itb_cpp.Binding.World.Ends.{Ends, bind-Ends, if-Ends}
use itb_cpp.Binding.Memory.{overwrite, length-overwrite}
use itb_cpp.Binding.Errors.Throws.{check-cases, fail-Throws}
use itb_cpp.Binding.Stream.{
  Stream, StreamRead, Pump, pump_buf, read_entry, read, write, end, advance, drain_one, drain_some,
  feed, finish, pump_into,
}

-- The documented behaviour of reads behind the end: with room in the buffer, a read that succeeds
-- brings a byte or reports the finish (it blocks until it can).
pub record EndsItself {L : Type 0} (lib : Library L) (h : ℕ) (ended : L → Type 0) : Type 0 where
  pub ends : (l : L) → (lib.stream_end h l).0 ≡ pos 0 → ended (lib.stream_end h l).1
  pub reads :
      (cap : ℕ) (l : L)
      → ended l
      → 0 < cap
      → (lib.stream_read h cap l).0.rc ≡ pos 0
      → ended (lib.stream_read h cap l).1
        × ((is_nat (or_else (lib.stream_read h cap l).0.fin (pos 0)) 0 ≡ false)
            ⊎ (0 < or_else (lib.stream_read h cap l).0.len 0))

-- The cursor lies within a buffer of that size.
abbrev Fits : ℕ → Pump → Type 0
Fits size p = (p.used ≤ size) × (length p.buf ≡ size)

abbrev Always : {L : Type 0} → World L → Type 0
Always w = Unit {0}

module _ {L : Type 0} (lib : Library L) (s : Stream) where
  abbrev Reads : (StreamRead → World L → Type 0) → Bytes → StreamRead → World L → Type 0
  Reads J dst r w = J r w × (length r.dst ≡ length dst)

  read-Ends :
      (I : World L → Type 0) (J : StreamRead → World L → Type 0) (dst : Bytes)
      → ((w : World L)
          → I w
          → (lib.stream_read s.handle (length dst) w.lib).0.rc ≡ pos 0
          → let (d, l) = lib.stream_read s.handle (length dst) w.lib in
            J
              (record {
                n = or_else d.len 0;
                finished = not (is_nat (or_else d.fin (pos 0)) 0);
                dst = overwrite d.out dst;
              })
              (record w { lib = l; calls = read_entry dst d ∷ w.calls }))
      → Ends I (read lib s dst) (Reads J dst)
  unfolding read
  read-Ends I J dst k = record {
    comes = λ w i.
        let r = lib.stream_read s.handle (length dst) w.lib in
        let called = record w { lib = r.1; calls = read_entry dst r.0 ∷ w.calls } in
        elim (check-cases lib r.0.rc (codes "Stream::read") called) [
          | inl (z, t) ↦ rw (t, ◌>>=◌) (k w i z, length-overwrite r.0.out dst)
          | inr (nz, (diag, w', t)) ↦ rw (t, ◌>>=◌) tt
        ];
  }

  -- What is known behind one drain.
  abbrev Drains : (StreamRead → World L → Type 0) → ℕ → Pump → StreamRead × Pump → World L → Type 0
  Drains J size p rp w = J rp.0 w × Fits size rp.1 × (rp.1.used ≡ p.used + rp.0.n)

  advance-Ends :
      (J : StreamRead → World L → Type 0) (size : ℕ) (p : Pump) (r : StreamRead)
      → Fits size p
      → Ends (Reads J (drop p.used p.buf) r) (advance lib p r) (Drains J size p)
  unfolding advance
  advance-Ends J size p r f =
      if-Ends (Reads J (drop p.used p.buf) r) (Drains J size p) (ltb (length p.buf - p.used) r.n) _
        _
        (λ over. record {
          comes = λ w h.
              let (diag, w', t) =
                fail-Throws lib (StreamRead × Pump) (pos 99) (codes "stream pump read") w in
              rw t tt;
        })
        (λ fits. record {
          comes = λ w h.
              let l = length-append {0} (take p.used p.buf) r.dst in
              let t = length-take {0} p.used p.buf in
              let d = length-drop {0} p.used p.buf in
              (h.0, (ground (arith, f), omega (arith, f, l, t, d, h.1)), refl);
        })

  drain_one-Ends :
      (I : World L → Type 0) (J : StreamRead → World L → Type 0) (size : ℕ) (p : Pump)
      → Fits size p
      → (p.used < size → Ends I (read lib s (drop p.used p.buf)) (Reads J (drop p.used p.buf)))
      → Ends I (drain_one lib s p) (Drains J size p)
  unfolding drain_one
  drain_one-Ends I J size p f k =
      if-Ends I (Drains J size p) (p.used == length p.buf) _ _
        (λ full. record { comes = λ w i. tt })
        (λ free.
          bind-Ends I (Reads J (drop p.used p.buf)) (Drains J size p) _ _ (k (ground (arith, f)))
            (λ r. advance-Ends J size p r f))

  abbrev AnyRead : StreamRead → World L → Type 0
  AnyRead r w = Unit {0}

  once :
      (size : ℕ) (p : Pump) → Fits size p → Ends Always (drain_one lib s p) (Drains AnyRead size p)
  once size p f =
      drain_one-Ends Always AnyRead size p f
        (λ _. read-Ends Always AnyRead (drop p.used p.buf) (λ w u z. tt))

  -- A drain loop ends for every library: each round but the last uses up a byte of the free tail.
  drain_some-Ends :
      (rounds size : ℕ) (p : Pump)
      → Fits size p
      → size - p.used < rounds
      → Ends Always (drain_some lib rounds s p) (λ p' w. Fits size p')
  unfolding drain_some
  drain_some-Ends zero size p f h = absurd (omega arith)
  drain_some-Ends (suc rounds) size p f h =
      bind-Ends Always (Drains AnyRead size p) (λ p' w. Fits size p') _ _ (once size p f)
        (λ rp. record {
          comes = λ w d.
              (if-Ends Always (λ p' w. Fits size p') (rp.0.n == 0) _ _
                  (λ none. record { comes = λ w' u. d.1 })
                  (λ some.
                    drain_some-Ends rounds size rp.1 d.1 (ground (arith, some, d.2, h)))).comes
                w tt;
        })

  feed-more :
      (rounds size : ℕ) (src : Bytes) (slice offset : ℕ) (p : Pump)
      → Fits size p
      → ((p' : Pump)
          → Fits size p'
          → Ends Always (feed lib rounds s src (offset + slice) p') (λ p'' w. Fits size p''))
      → Ends Always
          (write lib s (take slice (drop offset src))
            >> (drain_some lib (suc (length p.buf)) s p >>= λ p'.
                feed lib rounds s src (offset + slice) p'))
          (λ p' w. Fits size p')
  unfolding write
  feed-more rounds size src slice offset p f k =
      let after =
        bind-Ends Always (λ p' w. Fits size p') (λ p' w. Fits size p')
          (drain_some lib (suc (length p.buf)) s p)
          (λ p'. feed lib rounds s src (offset + slice) p')
          (drain_some-Ends (suc (length p.buf)) size p f (omega (arith, f)))
          (λ p'. record { comes = λ w d. (k p' d).comes w tt }) in
      record {
        comes = λ w u.
            let c = take slice (drop offset src) in
            let r = lib.stream_write s.handle c w.lib in
            let called = record w { lib = r.1; calls = stream_wrote r.0 c ∷ w.calls } in
            elim (check-cases lib r.0 (codes "Stream::write") called) [
              | inl (z, t) ↦ rw (t, ◌>>=◌) (after.comes called tt)
              | inr (nz, (diag, w', t)) ↦ rw (t, ◌>>=◌) tt
            ];
      }

  feed-Ends :
      (rounds size : ℕ) (src : Bytes) (offset : ℕ) (p : Pump)
      → Fits size p
      → length src ≤ offset + rounds
      → Ends Always (feed lib rounds s src offset p) (λ p' w. Fits size p')
  unfolding feed
  feed-Ends zero size src offset p f h =
      if-Ends Always (λ p' w. Fits size p') (ltb offset (length src)) _ _
        (λ more. absurd (omega (arith, h, ltb→lt offset (length src) more)))
        (λ done. record { comes = λ w u. f })
  feed-Ends (suc rounds) size src offset p f h =
      if-Ends Always (λ p' w. Fits size p') (ltb offset (length src)) _ _
        (λ more. feed-more rounds size src (min (length src - offset) pump_buf) offset p f (λ p' f'.
          feed-Ends rounds size src (offset + min (length src - offset) pump_buf) p' f'
            (ground (arith, h, ltb→lt offset (length src) more))))
        (λ done. record { comes = λ w u. f })

  module _ (ended : L → Type 0) (law : EndsItself lib s.handle ended) where
    abbrev Over : World L → Type 0
    Over w = ended w.lib

    abbrev OrFinished : StreamRead → World L → Type 0
    OrFinished r w = ended w.lib × ((r.finished ≡ true) ⊎ (0 < r.n))

    flag_or_byte : (b : Bool) (n : ℕ) → (b ≡ false) ⊎ (0 < n) → (not b ≡ true) ⊎ (0 < n)
    flag_or_byte b n (inl e) = inl (ap not e)
    flag_or_byte b n (inr l) = inr l

    last-once :
        (size : ℕ) (p : Pump)
        → Fits size p
        → Ends Over (drain_one lib s p) (Drains OrFinished size p)
    last-once size p f = drain_one-Ends Over OrFinished size p f (λ free.
        read-Ends Over OrFinished (drop p.used p.buf) (λ w e z.
          let l = length-drop {0} p.used p.buf in
          let a = law.reads (length (drop p.used p.buf)) w.lib e (omega (arith, l, free, f)) z in
          (a.0, flag_or_byte _ _ a.1)))

    finish-Ends :
        (rounds size : ℕ) (p : Pump)
        → Fits size p
        → size - p.used < rounds
        → Ends Over (finish lib rounds s p) (λ p' w. Fits size p')
    unfolding finish
    finish-Ends zero size p f h = absurd (omega arith)
    finish-Ends (suc rounds) size p f h =
        bind-Ends Over (Drains OrFinished size p) (λ p' w. Fits size p') _ _ (last-once size p f)
          (λ rp. record {
            comes = λ w d.
                (if-Ends Over (λ p' w. Fits size p') rp.0.finished _ _
                    (λ over. record { comes = λ w' u. d.1 })
                    (λ more. finish-Ends rounds size rp.1 d.1 (ground (arith, more, d, h)))).comes
                  w d.0.0;
          })

    end-Ends : Ends Always (end lib s) (λ _ w. Over w)
    unfolding end
    end-Ends = record {
      comes = λ w u.
          let r = lib.stream_end s.handle w.lib in
          let called = record w { lib = r.1; calls = stream_ended r.0 ∷ w.calls } in
          elim (check-cases lib r.0 (codes "Stream::end") called) [
            | inl (z, t) ↦ rw (t, ◌>>=◌) (law.ends w.lib z)
            | inr (nz, (diag, w', t)) ↦ rw (t, ◌>>=◌) tt
          ];
    }

    -- A pump of any source into any buffer comes back with the buffer's size unchanged or throws; none
    -- of its loops uses its rounds up.
    pub pump_into-Ends :
        (src dst : Bytes) → Ends Always (pump_into lib s src dst) (λ p w. Fits (length dst) p)
    unfolding pump_into
    pump_into-Ends src dst =
        bind-Ends Always (λ p w. Fits (length dst) p) _ _ _
          (feed-Ends (length src) (length dst) src 0 (record { used = 0; buf = dst })
            (omega arith, refl) (omega arith))
          (λ p. record {
            comes = λ w f.
                (bind-Ends Always (λ _ w. Over w) (λ p w. Fits (length dst) p) _ _ end-Ends
                    (λ _. finish-Ends (suc (length dst)) (length dst) p f (omega (arith, f)))).comes
                  w tt;
          })
