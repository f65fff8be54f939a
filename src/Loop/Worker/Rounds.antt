-- ===== src/Loop/Worker/Rounds.antt =====
-- The rounds of the pump loop of loop/worker.cpp.
use itb_cpp.Base.{
  Bool, true, false, ℕ, zero, suc, ◌+◌, ◌-◌, ◌≤◌, ◌<◌, ◌≡◌, ◌⊎◌, sym, ap, arith, inl, inr, Bytes,
  codes, length, take, drop, min, ltb, ltb→lt, or_else, not, ◌==◌, length-take, length-drop,
  length-append,
}
use itb_cpp.Base.Int.{pos}
use itb_cpp.Binding.World.{Library, World}
use itb_cpp.Binding.World.Ways.{Any, Nowhere, known-Leads, Leads, pure-Leads, before-Leads}
use itb_cpp.Binding.Memory.{overwrite, length-overwrite}
use itb_cpp.Binding.Stream.{Stream, StreamRead, read, write}
use itb_cpp.Binding.Stream.Progress.{EndsItself}
use itb_cpp.Loop.Host.{Host}
use itb_cpp.Loop.Main.Caught.{Seen, caught-Leads}
use itb_cpp.Loop.Worker.{Drain, kept, pump_slice, drain_some, feed, finish, pump_body}
use itb_cpp.Loop.Worker.Steps.{then-Leads, read-Leads, write-Leads, end-Leads}

-- What a session can still deliver is bounded: `load rest l` bounds the bytes that come out from the
-- state `l` on when `rest` more bytes go in. A write uses up the bytes that it takes, and a read the
-- bytes that it brings.
pub record Spends {L : Type 0} (lib : Library L) (h : ℕ) (load : ℕ → L → ℕ) : Type 0 where
  pub writes :
      (src : Bytes) (rest : ℕ) (l : L)
      → (lib.stream_write h src l).0 ≡ pos 0
      → load rest (lib.stream_write h src l).1 ≤ load (length src + rest) l
  pub ends : (l : L) → (lib.stream_end h l).0 ≡ pos 0 → load 0 (lib.stream_end h l).1 ≤ load 0 l
  pub reads :
      (cap rest : ℕ) (l : L)
      → (lib.stream_read h cap l).0.rc ≡ pos 0
      → load rest (lib.stream_read h cap l).1 + or_else (lib.stream_read h cap l).0.len 0
        ≤ load rest l

module _ {L : Type 0} (host : Host L) (s : Stream) (load : ℕ → L → ℕ)
    (law : Spends host.lib s.handle load) (size most : ℕ) (room : 0 < size) where
  -- What has come out and what still can stay within the bound; the slice keeps its size.
  abbrev Kept : ℕ → Drain → World L → Type 0
  Kept rest d w = (length d.out + load rest w.lib ≤ most) × (length d.scratch ≡ size)

  -- A state of the session with fewer bytes to come than there are rounds.
  abbrev Few : ℕ → ℕ → Drain → World L → Type 0
  Few rounds rest d w = (load rest w.lib < rounds) × Kept rest d w

  -- Behind a read that brought `r`.
  abbrev Brought : ℕ → ℕ → Drain → StreamRead → World L → Type 0
  Brought rounds rest d r w =
      (load rest w.lib + r.n < rounds)
      × (length d.out + (load rest w.lib + r.n) ≤ most)
      × (length r.dst ≡ size)

  brought :
      (rounds before after n out dst : ℕ)
      → (before < rounds) × ((out + before ≤ most) × (dst ≡ size))
      → after + n ≤ before
      → (after + n < rounds) × (out + (after + n) ≤ most) × (dst ≡ size)
  brought rounds before after n out dst h l = (omega (arith, h, l), omega (arith, h, l), h.1.1)

  read-Brought :
      (rounds rest : ℕ) (d : Drain) (w : World L)
      → Few rounds rest d w
      → (host.lib.stream_read s.handle (length d.scratch) w.lib).0.rc ≡ pos 0
      → let r = host.lib.stream_read s.handle (length d.scratch) w.lib in
        let n = or_else r.0.len 0 in
        (load rest r.1 + n < rounds)
        × (length d.out + (load rest r.1 + n) ≤ most)
        × (length (overwrite r.0.out d.scratch) ≡ size)
  read-Brought rounds rest d w p z =
      rw (length-overwrite (host.lib.stream_read s.handle (length d.scratch) w.lib).0.out d.scratch)
        (brought rounds (load rest w.lib) _ _ (length d.out) (length d.scratch) p
          (law.reads (length d.scratch) rest w.lib z))

  drain-Brought :
      (rounds rest : ℕ) (d : Drain)
      → Leads (Few rounds rest d) (read host.lib s d.scratch) (Brought rounds rest d) Any
  drain-Brought rounds rest d =
      read-Leads host.lib s (Few rounds rest d) (Brought rounds rest d) d.scratch
        (read-Brought rounds rest d)

  length-kept : (d : Drain) (r : StreamRead) → length (kept d r).out ≤ length d.out + r.n
  length-kept d r =
      let a = length-append {0} d.out (take r.n r.dst) in
      let t = length-take {0} r.n r.dst in ground (arith, a, t)

  -- The accumulator behind a read that was not the last.
  Brought-Few :
      (rounds rest : ℕ) (d : Drain) (r : StreamRead) (w : World L)
      → 0 < r.n
      → Brought (suc rounds) rest d r w
      → Few rounds rest (kept d r) w
  Brought-Few rounds rest d r w some h =
      (omega (arith, some, h), (omega (arith, h, length-kept d r), h.2))

  module _ (fuel : ℕ) where
    drain_some-Leads :
        (rounds rest : ℕ) (d : Drain)
        → Leads (Few rounds rest d) (drain_some host fuel rounds s d) (Seen (Kept rest) Any) Nowhere
    unfolding drain_some
    drain_some-Leads zero rest d = record { leads = λ w h. absurd (omega (arith, h.0)) }
    drain_some-Leads (suc rounds) rest d =
        then-Leads (Few (suc rounds) rest d) (Brought (suc rounds) rest d) (Kept rest) _ _
          (caught-Leads _ _ Any Nowhere (codes "StreamRead") _ (drain-Brought (suc rounds) rest d))
          (λ r.
            known-Leads _ (Seen (Kept rest) Any) Nowhere (r.n == 0)
              (λ none. pure-Leads _ Nowhere _ _ (λ w h. (omega (arith, h), h.2)))
              (λ some.
                before-Leads _ (Few rounds rest (kept d r)) _ _ _
                  (λ w h. Brought-Few rounds rest d r w (ground (arith, some)) h)
                  (drain_some-Leads rounds rest (kept d r))))

    nothing_left : (n off : ℕ) → ltb off n ≡ false → n - off ≡ 0
    nothing_left n off done = ground (arith, done)

    -- The slice and the input behind it are the input that was left.
    slice-rest :
        (src : Bytes) (off : ℕ)
        → let slice = min (length src - off) pump_slice in
          length (take slice (drop off src)) + (length src - (off + slice)) ≡ length src - off
    slice-rest src off =
        let slice = min (length src - off) pump_slice in
        let a = length-take {0} slice (drop off src) in
        let b = length-drop {0} off src in ground (arith, a, b)

    sent-Leads :
        (rest rest' : ℕ) (chunk : Bytes) (d : Drain)
        → most < fuel
        → length chunk + rest' ≡ rest
        → Leads (Kept rest d) (write host.lib s chunk) (λ u. Few fuel rest' d) Any
    sent-Leads rest rest' chunk d enough e =
        write-Leads host.lib s (Kept rest d) (Few fuel rest' d) chunk (λ w p z.
          let l = law.writes chunk rest' w.lib z in
          let same = ap (λ n. load n w.lib) e in
          (omega (arith, p, l, same, enough), (omega (arith, p, l, same), p.1)))

    feed-Leads :
        (rounds : ℕ) (src : Bytes) (off : ℕ) (d : Drain)
        → most < fuel
        → length src ≤ off + rounds
        → Leads
            (Kept (length src - off) d)
            (feed host fuel rounds s src off d)
            (Seen (Kept 0) Any)
            Nowhere
    unfolding feed
    feed-Leads zero src off d enough h =
        known-Leads _ (Seen (Kept 0) Any) Nowhere (ltb off (length src))
          (λ more. absurd (omega (arith, h, ltb→lt off (length src) more)))
          (λ done.
            pure-Leads _ Nowhere _ (inr d) (λ w p. rw (sym (nothing_left (length src) off done)) p))
    feed-Leads (suc rounds) src off d enough h =
        let slice = min (length src - off) pump_slice in
        let rest = length src - (off + slice) in
        known-Leads _ (Seen (Kept 0) Any) Nowhere (ltb off (length src))
          (λ more.
            then-Leads _ (λ u. Few fuel rest d) (Kept 0) _ _
              (caught-Leads _ _ Any Nowhere (codes "StreamWrite") _ (
                sent-Leads (length src - off) rest (take slice (drop off src)) d enough
                  (slice-rest src off)))
              (λ u. then-Leads _ (Kept rest) (Kept 0) _ _ (drain_some-Leads fuel rest d) (λ d'.
                feed-Leads rounds src (off + slice) d' enough
                  (ground (arith, h, ltb→lt off (length src) more)))))
          (λ done.
            pure-Leads _ Nowhere _ (inr d) (λ w p. rw (sym (nothing_left (length src) off done)) p))

    -- Behind the end of the input, each read but the last brings a byte.
    module _ (ended : L → Type 0) (over : EndsItself host.lib s.handle ended) where
      abbrev Over : ℕ → Drain → World L → Type 0
      Over rounds d w = ended w.lib × Few rounds 0 d w

      abbrev Last : ℕ → Drain → StreamRead → World L → Type 0
      Last rounds d r w = ended w.lib × ((r.finished ≡ true) ⊎ (0 < r.n)) × Brought rounds 0 d r w

      flag_or_byte : (b : Bool) (n : ℕ) → (b ≡ false) ⊎ (0 < n) → (not b ≡ true) ⊎ (0 < n)
      flag_or_byte b n (inl e) = inl (ap not e)
      flag_or_byte b n (inr l) = inr l

      final_read-Leads :
          (rounds : ℕ) (d : Drain)
          → Leads (Over rounds d) (read host.lib s d.scratch) (Last rounds d) Any
      final_read-Leads rounds d =
          read-Leads host.lib s (Over rounds d) (Last rounds d) d.scratch (λ w p z.
            let r = over.reads (length d.scratch) w.lib p.0 (omega (arith, room, p)) z in
            (r.0, flag_or_byte _ _ r.1, read-Brought rounds 0 d w p.1 z))

      some_byte : (b : Bool) (n : ℕ) → b ≡ false → (b ≡ true) ⊎ (0 < n) → 0 < n
      some_byte b n e (inl t) = absurd (cc (e, t))
      some_byte b n e (inr l) = l

      finish-Leads :
          (rounds : ℕ) (d : Drain)
          → Leads (Over rounds d) (finish host fuel rounds s d) (Seen (Kept 0) Any) Nowhere
      unfolding finish
      finish-Leads zero d = record { leads = λ w h. absurd (omega (arith, h.1.0)) }
      finish-Leads (suc rounds) d =
          then-Leads (Over (suc rounds) d) (Last (suc rounds) d) (Kept 0) _ _
            (caught-Leads _ _ Any Nowhere (codes "StreamRead") _ (final_read-Leads (suc rounds) d))
            (λ r.
              known-Leads _ (Seen (Kept 0) Any) Nowhere r.finished
                (λ done.
                  pure-Leads _ Nowhere _ _ (λ w h. (omega (arith, h.2, length-kept d r), h.2.2)))
                (λ more.
                  before-Leads _ (Over rounds (kept d r)) _ _ _
                    (λ w h.
                      (h.0, Brought-Few rounds 0 d r w (some_byte r.finished r.n more h.1) h.2))
                    (finish-Leads rounds (kept d r))))

      none_taken : (n : ℕ) → n - 0 ≡ n
      none_taken n = omega arith

      pub body-Leads :
          (src : Bytes) (d : Drain)
          → most < fuel
          → Leads (Kept (length src) d) (pump_body host fuel s src d) (Seen (Kept 0) Any) Nowhere
      unfolding pump_body
      body-Leads src d enough =
          then-Leads _ (Kept 0) (Kept 0) _ _
            (before-Leads _ (Kept (length src - 0) d) _ _ _ (λ w p. rw (none_taken (length src)) p)
              (feed-Leads (length src) src 0 d enough (omega arith)))
            (λ d'.
              then-Leads _ (λ u. Over fuel d') (Kept 0) _ _
                (caught-Leads _ _ Any Nowhere (codes "StreamEnd") _ (
                  end-Leads host.lib s (Kept 0 d') (Over fuel d') (λ w p z.
                    let l = law.ends w.lib z in
                    (
                      over.ends w.lib z,
                      (omega (arith, p, l, enough), (omega (arith, p, l), p.1)),
                    ))))
                (λ u. finish-Leads fuel d'))
