-- ===== src/Binding/Stream/Transport.antt =====
-- `pump_into` of src/stream.cpp: what has gone into the session and come out of it, call by call.
use itb_cpp.Base.{
  codes, ℕ, zero, suc, ◌+◌, ◌-◌, ◌≤◌, ◌<◌, ◌≡◌, refl, sym, ap, ◌∙◌, arith, List, [], ◌∷◌, ◌++◌,
  Bytes, length, take, drop, min, ltb, ltb→lt, inl, inr, take_add-append, take-drop-append,
  length-take, length-drop, length-append, Bool-cases, ◌==◌,
}
use itb_cpp.Base.Int.{pos}
use itb_cpp.Binding.World.{
  Library, World, Call, stream_wrote, stream_ended, stream_drained, pure, ◌>>=◌,
}
use itb_cpp.Binding.World.Returned.{Returned, bind-Returned, if-Returned, weaken-Returned}
use itb_cpp.Binding.Memory.{length-overwrite}
use itb_cpp.Binding.Errors.Throws.{check-cases, fail-Throws}
use itb_cpp.Binding.Stream.{
  Stream, StreamRead, Pump, pump_buf, read_entry, read, write, end, advance, drain_one, drain_some,
  feed, finish, pump_into,
}
use itb_cpp.Binding.Stream.Session.{
  written, drained, phase, Phase, feeding, ending, finished, after_read, after_write, after_end,
  AreSlices,
}

-- The state of a pump between two calls.
pub record Tracks (src : Bytes) (size offset : ℕ) (ph : Phase) (p : Pump) {L : Type 0} (w : World L)
    : Type 0 where
  pub sent : written w.calls ≡ take offset src
  pub got : drained w.calls ≡ take p.used p.buf
  pub room : p.used ≤ length p.buf
  pub kept : length p.buf ≡ size
  pub stands : phase w.calls ≡ ph
  pub slices : AreSlices w.calls

-- The cursor behind a read that brought `n` bytes.
abbrev behind : Pump → StreamRead → Pump
behind p r = record { used = p.used + r.n; buf = take p.used p.buf ++ r.dst }

behind_front :
    (p : Pump) (r : StreamRead)
    → p.used ≤ length p.buf
    → take (behind p r).used (behind p r).buf ≡ take p.used p.buf ++ take r.n r.dst
behind_front p r h =
    let e : length (take p.used p.buf) ≡ p.used = omega (arith, length-take {0} p.used p.buf) in
    rw e at (take_add-append (take p.used p.buf) r.dst r.n)

behind_size :
    (p : Pump) (r : StreamRead)
    → p.used ≤ length p.buf
    → length r.dst ≡ length p.buf - p.used
    → length (behind p r).buf ≡ length p.buf
behind_size p r h e =
    omega (arith, length-append {0} (take p.used p.buf) r.dst, length-take {0} p.used p.buf)

module _ {L : Type 0} (lib : Library L) where
  -- A read that returns has been answered with 0, and left the buffer's size alone.
  read-Returned :
      (s : Stream) (dst : Bytes) (cs : List Call)
      → Returned
          (λ (w : World L). w.calls ≡ cs)
          (read lib s dst)
          λ r w.
            (w.calls ≡ stream_drained (pos 0) (take r.n r.dst) r.finished ∷ cs)
            × (length r.dst ≡ length dst)
  unfolding read
  read-Returned s dst cs = record {
    holds = λ w e.
        let r = (lib.stream_read s.handle (length dst) w.lib).0 in
        let called = record w {
          lib = (lib.stream_read s.handle (length dst) w.lib).1;
          calls = read_entry dst r ∷ w.calls;
        } in
        elim (check-cases lib r.rc (codes "Stream::read") called) [
          | inl (z, t) ↦ rw (t, ◌>>=◌) (rw (z, e) refl, length-overwrite r.out dst)
          | inr (nz, (diag, w', t)) ↦ rw (t, ◌>>=◌) tt
        ];
  }

  abbrev Advanced : Pump → StreamRead → (World L → Type 0) → StreamRead × Pump → World L → Type 0
  Advanced p r P rp w = P w × (rp.0 ≡ r) × (rp.1 ≡ behind p r) × (r.n ≤ length p.buf - p.used)

  -- A count beyond the free tail never moves the cursor.
  advance-Returned :
      (p : Pump) (r : StreamRead) (P : World L → Type 0)
      → Returned P (advance lib p r) (Advanced p r P)
  unfolding advance
  advance-Returned p r P =
      if-Returned P (Advanced p r P) (ltb (length p.buf - p.used) r.n) _ _
        (λ over. record {
          holds = λ w h.
              let (diag, w', t) =
                fail-Throws lib (StreamRead × Pump) (pos 99) (codes "stream pump read") w in
              rw t tt;
        })
        (λ fits. record { holds = λ w h. (h, refl, refl, ground arith) })

  module _ (src : Bytes) (size offset : ℕ) (s : Stream) where
    abbrev Drains : Phase → StreamRead × Pump → World L → Type 0
    Drains ph rp w = Tracks src size offset (after_read (pos 0) rp.0.finished ph) rp.1 w

    Tracks-behind :
        (ph : Phase) (p : Pump) (r : StreamRead) (w w' : World L)
        → Tracks src size offset ph p w
        → w'.calls ≡ stream_drained (pos 0) (take r.n r.dst) r.finished ∷ w.calls
        → length r.dst ≡ length (drop p.used p.buf)
        → r.n ≤ length p.buf - p.used
        → Tracks src size offset (after_read (pos 0) r.finished ph) (behind p r) w'
    unfolding written drained phase
    Tracks-behind ph p r w w' t e l fits =
        let tail : length r.dst ≡ length p.buf - p.used =
          omega (arith, length-drop {0} p.used p.buf) in
        record {
          sent = ap written e ∙ t.sent;
          got = ap drained e ∙ ap (λ b. b ++ take r.n r.dst) t.got ∙ sym (behind_front p r t.room);
          room = omega (arith, behind_size p r t.room tail, t.room);
          kept = behind_size p r t.room tail ∙ t.kept;
          stands = ap phase e ∙ ap (after_read (pos 0) r.finished) t.stands;
          slices = rw e t.slices;
        }

    -- A read's bytes land behind those of the reads before it.
    drain_one-Returned :
        (ph : Phase) (p : Pump)
        → Returned (Tracks src size offset ph p) (drain_one lib s p) (Drains ph)
    unfolding drain_one
    drain_one-Returned ph p = record {
      holds = λ w t. elim (Bool-cases (p.used == length p.buf)) [
        | inl full ↦ rw full tt
        | inr free ↦ rw free (
            (bind-Returned (λ w'. w'.calls ≡ w.calls) (Read w) (Drains ph) _ _
                (read-Returned s (drop p.used p.buf) w.calls) (λ r. step w t r)).holds
              w refl)
      ];
    }
      where
        Read : World L → StreamRead → World L → Type 0
        Read w r w' =
            (w'.calls ≡ stream_drained (pos 0) (take r.n r.dst) r.finished ∷ w.calls)
            × (length r.dst ≡ length (drop p.used p.buf))

        step :
            (w : World L)
            → Tracks src size offset ph p w
            → (r : StreamRead) → Returned (Read w r) (advance lib p r) (Drains ph)
        step w t r =
            weaken-Returned (Read w r) (Advanced p r (Read w r)) (Drains ph) (advance lib p r)
              (advance-Returned p r (Read w r))
              λ rp w' a. rw (a.1, a.2) (Tracks-behind ph p r w w' t a.0.0 a.0.1 a.3)

    -- The drain loop before the end.
    drain_some-Returned :
        (rounds : ℕ) (p : Pump)
        → Returned
            (Tracks src size offset feeding p)
            (drain_some lib rounds s p)
            (λ p' w. Tracks src size offset feeding p' w)
    unfolding drain_some
    drain_some-Returned zero p = record { holds = λ w t. tt }
    drain_some-Returned (suc rounds) p =
        bind-Returned _ (Drains feeding) _ (drain_one lib s p) _ (drain_one-Returned feeding p)
          λ rp.
            if-Returned _ _ (rp.0.n == 0) _ _ (λ _. record { holds = λ w t. t })
              (λ _. drain_some-Returned rounds rp.1)

    -- The loop behind the end stops at the first read that reports the finish.
    finish-Returned :
        (rounds : ℕ) (p : Pump)
        → Returned
            (Tracks src size offset ending p)
            (finish lib rounds s p)
            (λ p' w. Tracks src size offset finished p' w)
    unfolding finish
    finish-Returned zero p = record { holds = λ w t. tt }
    finish-Returned (suc rounds) p =
        bind-Returned _ (Drains ending) _ (drain_one lib s p) _ (drain_one-Returned ending p) λ rp.
          if-Returned _ _ rp.0.finished _ _ (λ e. record { holds = λ w t. rw e at t })
            (λ e. record { holds = λ w t. (finish-Returned rounds rp.1).holds w (rw e at t) })

  module _ (src : Bytes) (size : ℕ) (s : Stream) where
    -- The next slice.
    abbrev slice_at : ℕ → ℕ
    slice_at offset = min (length src - offset) pump_buf

    Tracks-wrote :
        (offset : ℕ) (p : Pump) (w w' : World L)
        → offset < length src
        → Tracks src size offset feeding p w
        → w'.calls ≡ stream_wrote (pos 0) (take (slice_at offset) (drop offset src)) ∷ w.calls
        → Tracks src size (offset + slice_at offset) feeding p w'
    unfolding written drained phase
    Tracks-wrote offset p w w' lt t e =
        let l = length-take {0} (slice_at offset) (drop offset src) in
        let d = length-drop {0} offset src in
        record {
          sent =
              ap written e
              ∙ ap (λ b. b ++ take (slice_at offset) (drop offset src)) t.sent
              ∙ take-drop-append offset (slice_at offset) src;
          got = ap drained e ∙ t.got;
          room = t.room;
          kept = t.kept;
          stands = ap phase e ∙ ap (after_write (pos 0)) t.stands;
          slices = rw e (omega (arith, l, d), omega (arith, l, d), t.slices);
        }

    write-Returned :
        (offset : ℕ) (p : Pump)
        → offset < length src
        → Returned
            (Tracks src size offset feeding p)
            (write lib s (take (slice_at offset) (drop offset src)))
            (λ _ w. Tracks src size (offset + slice_at offset) feeding p w)
    unfolding write
    write-Returned offset p lt = record {
      holds = λ w t.
          let b = take (slice_at offset) (drop offset src) in
          let r = (lib.stream_write s.handle b w.lib) in
          let called = record w { lib = r.1; calls = stream_wrote r.0 b ∷ w.calls } in
          elim (check-cases lib r.0 (codes "Stream::write") called) [
            | inl (z, e) ↦
                rw e
                  (Tracks-wrote offset p w called lt t (ap (λ rc. stream_wrote rc b ∷ w.calls) z))
            | inr (nz, (diag, w', e)) ↦ rw e tt
          ];
    }

    abbrev Fed : Pump → World L → Type 0
    Fed p w = Tracks src size (length src) feeding p w

    -- The loop has reached the end of the source.
    reached :
        (offset : ℕ) (p : Pump)
        → offset ≡ length src
        → Returned (Tracks src size offset feeding p) (pure p) Fed
    reached offset p e = record { holds = λ w t. rw e at t }

    feed-Returned :
        (rounds offset : ℕ) (p : Pump)
        → offset ≤ length src
        → Returned (Tracks src size offset feeding p) (feed lib rounds s src offset p) Fed
    unfolding feed
    feed-Returned zero offset p le =
        if-Returned _ Fed (ltb offset (length src)) _ _ (λ _. record { holds = λ w t. tt })
          (λ done. reached offset p (ground arith))
    feed-Returned (suc rounds) offset p le =
        if-Returned _ Fed (ltb offset (length src)) _ _
          (λ more.
            bind-Returned _ _ Fed (write lib s (take (slice_at offset) (drop offset src))) _
              (write-Returned offset p (ltb→lt offset (length src) more))
              λ _.
                bind-Returned _ _ Fed (drain_some lib (suc (length p.buf)) s p) _
                  (drain_some-Returned src size (offset + slice_at offset) s _ p)
                  λ p'. feed-Returned rounds (offset + slice_at offset) p' (omega arith))
          (λ done. reached offset p (ground arith))

    Tracks-ended :
        (p : Pump) (w w' : World L)
        → Tracks src size (length src) feeding p w
        → w'.calls ≡ stream_ended (pos 0) ∷ w.calls
        → Tracks src size (length src) ending p w'
    unfolding written drained phase
    Tracks-ended p w w' t e = record {
      sent = ap written e ∙ t.sent;
      got = ap drained e ∙ t.got;
      room = t.room;
      kept = t.kept;
      stands = ap phase e ∙ ap (after_end (pos 0)) t.stands;
      slices = rw e t.slices;
    }

    end-Returned :
        (p : Pump)
        → Returned
            (Tracks src size (length src) feeding p)
            (end lib s)
            (λ _ w. Tracks src size (length src) ending p w)
    unfolding end
    end-Returned p = record {
      holds = λ w t.
          let r = (lib.stream_end s.handle w.lib) in
          let called = record w { lib = r.1; calls = stream_ended r.0 ∷ w.calls } in
          elim (check-cases lib r.0 (codes "Stream::end") called) [
            | inl (z, e) ↦ rw e (Tracks-ended p w called t (ap (λ rc. stream_ended rc ∷ w.calls) z))
            | inr (nz, (diag, w', e)) ↦ rw e tt
          ];
    }

  -- From a fresh session a pump that returns has written the source whole, in slices of at most
  -- 1 MiB, then ended the session, and then read it up to the finish; the bytes that the reads
  -- delivered are exactly the used front of the buffer, which has kept its size.
  pub pump_into-Returned :
      (src dst : Bytes) (s : Stream)
      → Returned
          (λ (w : World L).
            (written w.calls ≡ [])
            × (drained w.calls ≡ [])
            × (phase w.calls ≡ feeding)
            × AreSlices w.calls)
          (pump_into lib s src dst)
          (λ p w. Tracks src (length dst) (length src) finished p w)
  unfolding pump_into
  pump_into-Returned src dst s =
      bind-Returned _ (Fed src (length dst) s) _ (feed lib (length src) s src 0 _) _
        (record {
          holds = λ w f.
              (feed-Returned src (length dst) s (length src) 0 (record { used = 0; buf = dst })
                  (omega arith)).holds
                w
                (record {
                  sent = f.0;
                  got = f.1;
                  room = omega arith;
                  kept = refl;
                  stands = f.2;
                  slices = f.3;
                });
        })
        λ p.
          bind-Returned _ (λ _ w. Tracks src (length dst) (length src) ending p w) _ (end lib s) _
            (end-Returned src (length dst) s p)
            λ _. finish-Returned src (length dst) (length src) s (suc (length dst)) p
