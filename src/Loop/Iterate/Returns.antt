-- ===== src/Loop/Iterate/Returns.antt =====
-- How `iterate` of loop/worker.cpp comes back.
use itb_cpp.Base.{
  Option, Bool, true, false, ℕ, ◌≤◌, ◌<◌, ◌≡◌, refl, arith, inr, ◌++◌, Bytes, codes, length,
  or_else, if◌then◌else◌,
}
use itb_cpp.Binding.World.{World, pure, ◌>>=◌}
use itb_cpp.Binding.World.Ways.{
  Any, Nowhere, Leads, Returns, bind-Leads, sum-Leads, if-Leads, Leads-Returns,
}
use itb_cpp.Binding.Pipeline.{Pipeline, no_pipeline}
use itb_cpp.Binding.Stream.Progress.{EndsItself}
use itb_cpp.Loop.Names.{Shape, stream, message, stream_one_shot, both, rotating}
use itb_cpp.Loop.Host.{Host}
use itb_cpp.Loop.Payload.{fill_payload-Leads}
use itb_cpp.Loop.State.{Worker, Site, worker_fail}
use itb_cpp.Loop.Worker.{Drain, cipher_fail, surface, letters_iter}
use itb_cpp.Loop.Worker.Rounds.{Spends}
use itb_cpp.Loop.Worker.Returns.{Opens}
use itb_cpp.Loop.Iterate.{
  gave_up, encrypted, decrypted, with_worker, settled, decrypt_part, round_trip, refill, iterate,
  is_rotating,
}
use itb_cpp.Loop.Iterate.Steps.{
  Stepped, Completed, Clocked, Back, failed-worker, give_up-Leads, timed-Leads, settled-Completed,
  encrypt_step-Leads, decrypt_step-Leads,
}

module _ {L : Type 0} (host : Host L) (ended : ℕ → L → Type 0) (load : ℕ → ℕ → L → ℕ)
    (over : (h : ℕ) → EndsItself host.lib h (ended h)) (law : (h : ℕ) → Spends host.lib h (load h))
    (most fuel : ℕ) (enough : most < fuel) where
  -- What a step leaves of the worker that the iteration began with.
  abbrev Alike : Worker → Worker → Type 0
  Alike w0 w =
      (w.iters ≡ w0.iters)
      × (w.bytes_enc ≡ w0.bytes_enc)
      × (length w.plaintext ≡ length w0.plaintext)
      × (length w.scratch ≡ length w0.scratch)

  encrypted-Alike :
      (shape : Shape) (w0 w : Worker) (d : Drain) (nanos : ℕ)
      → Alike w0 w
      → Stepped shape most w.scratch (inr d)
      → Alike w0 (encrypted shape w d nanos)
  encrypted-Alike stream w0 w d nanos h k = (h.0, h.1, h.2, cc (h.3, k.1))
  encrypted-Alike message w0 w d nanos h k = h
  encrypted-Alike stream_one_shot w0 w d nanos h k = h
  encrypted-Alike both w0 w d nanos h k = h

  decrypted-Alike :
      (shape : Shape) (w0 w : Worker) (d : Drain) (nanos : ℕ)
      → Alike w0 w
      → Stepped shape most w.scratch (inr d)
      → Alike w0 (decrypted shape w d nanos)
  decrypted-Alike stream w0 w d nanos h k = (h.0, h.1, h.2, cc (h.3, k.1))
  decrypted-Alike message w0 w d nanos h k = h
  decrypted-Alike stream_one_shot w0 w d nanos h k = h
  decrypted-Alike both w0 w d nanos h k = h

  decrypt_part-Leads :
      (iter : ℕ) (shape : Shape) (st0 st : Site) (sent : Drain)
      → Alike st0.worker st.worker
      → 0 < length st.worker.scratch
      → Stepped shape most st.worker.scratch (inr sent)
      → Back host ended load over law most fuel enough st
      → Leads Any (decrypt_part host fuel iter shape st sent) (λ r w. Completed st0 r) Nowhere
  unfolding decrypt_part
  decrypt_part-Leads iter shape st0 st sent same room k d =
      bind-Leads Any (λ r w. Clocked (Stepped shape most st.worker.scratch) r) _ Nowhere _ _
        (timed-Leads host (Stepped shape most st.worker.scratch) _
          (decrypt_step-Leads host ended load over law most fuel enough shape st sent room k d))
        (λ r.
          sum-Leads _ Nowhere (λ r' w. Clocked (Stepped shape most st.worker.scratch) r') r
            {f = λ failure. cipher_fail host st iter shape (codes "decrypt") failure >>= λ st'.
              pure (gave_up, st')}
            {g = λ e.
              pure
                (settled (with_worker st (decrypted shape st.worker e.0 e.1)) iter shape e.0.out)}
            (λ failure. record {
              leads = λ w u.
                  (give_up-Leads host st0 st iter shape (codes "decrypt") failure same.0).leads w
                    tt;
            })
            (λ e. record {
              leads = λ w back.
                  let a = decrypted-Alike shape st0.worker st.worker e.0 e.1 same back in
                  settled-Completed host st0 (with_worker st (decrypted shape st.worker e.0 e.1))
                    iter shape e.0.out a.0 a.1 a.2 a.3;
            }))

  Stepped-on :
      (shape : Shape) (w : Worker) (d : Drain) (nanos : ℕ)
      → Stepped shape most w.scratch (inr d)
      → Stepped shape most (encrypted shape w d nanos).scratch (inr d)
  Stepped-on stream w d nanos k = (k.0, refl)
  Stepped-on message w d nanos k = tt
  Stepped-on stream_one_shot w d nanos k = tt
  Stepped-on both w d nanos k = tt

  -- What the sessions of an iteration need: a slice with room, and sessions of bounded output on the
  -- way out and on the way back.
  abbrev pub Fit : Option Pipeline → ℕ → ℕ → Type 0
  Fit pipe size room =
      (0 < room)
      × Opens host ended load over law (or_else pipe no_pipeline) size most
          host.lib.encrypt_stream_begin
      × ((n : ℕ)
          → n ≤ most
          → Opens host ended load over law (or_else pipe no_pipeline) n most
              host.lib.decrypt_stream_begin)

  round_trip-Leads :
      (iter : ℕ) (shape : Shape) (st0 st : Site)
      → Alike st0.worker st.worker
      → Fit st.run.stream_pipe (length st.worker.plaintext) (length st.worker.scratch)
      → Leads Any (round_trip host fuel iter shape st) (λ r w. Completed st0 r) Nowhere
  unfolding round_trip
  round_trip-Leads iter shape st0 st same fit =
      bind-Leads Any (λ r w. Clocked (Stepped shape most st.worker.scratch) r) _ Nowhere _ _
        (timed-Leads host (Stepped shape most st.worker.scratch) _
          (encrypt_step-Leads host ended load over law most fuel enough shape st fit.0 fit.1))
        (λ r.
          sum-Leads _ Nowhere (λ r' w. Clocked (Stepped shape most st.worker.scratch) r') r
            {f = λ failure. cipher_fail host st iter shape (codes "encrypt") failure >>= λ st'.
              pure (gave_up, st')}
            {g = λ e.
              decrypt_part host fuel iter shape (with_worker st (encrypted shape st.worker e.0 e.1))
                e.0}
            (λ failure. record {
              leads = λ w u.
                  (give_up-Leads host st0 st iter shape (codes "encrypt") failure same.0).leads w
                    tt;
            })
            (λ e. record {
              leads = λ w out.
                  let a = encrypted-Alike shape st0.worker st.worker e.0 e.1 same out in
                  (decrypt_part-Leads iter shape st0
                      (with_worker st (encrypted shape st.worker e.0 e.1)) e.0 a
                      (omega (arith, a.3, same.3, fit.0)) (Stepped-on shape st.worker e.0 e.1 out)
                      fit.2).leads
                    w tt;
            }))

  -- Behind the refill.
  abbrev Refilled : Site → Bool × Site → Type 0
  Refilled st (true, st') = Alike st.worker st'.worker × (st'.run.stream_pipe ≡ st.run.stream_pipe)
  Refilled st (false, st') = Completed st (gave_up, st')

  refill-Leads :
      (iter : ℕ) (st : Site) → Leads Any (refill host fuel iter st) (λ r w. Refilled st r) Nowhere
  unfolding refill
  refill-Leads iter st =
      if-Leads _ Nowhere Any (is_rotating st.worker.payload_mode)
        (bind-Leads Any (λ r w. length r.2 ≡ length st.worker.plaintext) _ Nowhere _ _
          (fill_payload-Leads host rotating st.worker.seeded st.worker.rng st.worker.plaintext)
          (λ r. record { leads = λ w e. drawn r.0 r.1 r.2 e }))
        (record { leads = λ w u. ((refl, refl, refl, refl), refl) })
    where
      drawn :
          (b : Bool) (rng : ℕ) (buf : Bytes)
          → length buf ≡ length st.worker.plaintext
          → Refilled st (
              if b
              then (true, with_worker st (record st.worker { rng = rng; plaintext = buf }))
              else (
                false,
                worker_fail
                    (with_worker st (record st.worker { rng = rng; plaintext = buf }))
                    (letters_iter st.worker iter ++ codes ": payload refill: csprng"),
              ))
      drawn true rng buf e = ((refl, refl, e, refl), refl)
      drawn false rng buf e =
          failed-worker host (with_worker st (record st.worker { rng = rng; plaintext = buf }))
            (letters_iter st.worker iter ++ codes ": payload refill: csprng")

  -- Against a library whose reads behind the end bring a byte or the finish, an iteration with more
  -- rounds than `most` returns, whatever the world, the random source and the ciphers answer, if the
  -- drain slice has room and no session delivers more than `most` bytes, neither for the plaintext
  -- nor, on the way back, for an input of up to `most` bytes. It is counted, with the plaintext's size
  -- added to the bytes encrypted; or no iteration is counted, with a failure noted and a stop asked
  -- for; or no iteration is counted, with a mismatch. Nothing is thrown.
  pub iterate-Returns :
      (iter : ℕ) (st : Site)
      → Fit st.run.stream_pipe (length st.worker.plaintext) (length st.worker.scratch)
      → (w : World L) → Returns (λ r w'. Completed st r) (iterate host fuel iter st) w
  unfolding iterate
  iterate-Returns iter st fit w =
      Leads-Returns Any _ _ w
        (bind-Leads Any (λ r w'. Refilled st r) (λ r w'. Completed st r) Nowhere _ _
          (refill-Leads iter st) behind)
        tt
    where
      behind :
          (r : Bool × Site)
          → Leads
              (λ w'. Refilled st r)
              (if r.0
                then round_trip host fuel iter (surface r.1.run.cfg.shape iter) r.1
                else pure (gave_up, r.1))
              (λ r' w'. Completed st r')
              Nowhere
      behind (true, st') = record {
        leads = λ w' h.
            (round_trip-Leads iter (surface st'.run.cfg.shape iter) st st' h.0
                (rw (h.1, h.0.2, h.0.3) fit)).leads
              w' tt;
      }
      behind (false, st') = record { leads = λ w' h. h }
