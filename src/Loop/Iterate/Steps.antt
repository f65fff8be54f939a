-- ===== src/Loop/Iterate/Steps.antt =====
-- The steps of `iterate` of loop/worker.cpp: a cipher step in either direction, its clock, the failure
-- that it notes, and the comparison.
use itb_cpp.Base.{
  Bool, true, false, ℕ, ◌+◌, ◌-◌, ◌≤◌, ◌<◌, ◌≡◌, ◌⊎◌, arith, inl, inr, [], Bytes, length, or_else,
  if◌then◌else◌,
}
use itb_cpp.Binding.World.{Library, Reply, M, pure, ◌>>=◌, ffi}
use itb_cpp.Binding.World.Ways.{
  Any, Nowhere, Leads, Never, bind-Leads, sum-Leads, Quiet-Leads, bind-Quiet, pure-Quiet,
  quiet_rules,
}
use itb_cpp.Binding.Buffers.{cipher_call}
use itb_cpp.Binding.Buffers.Quiet.{AnyCall, call-Quiet}
use itb_cpp.Binding.Pipeline.{
  no_pipeline, encrypt_message, decrypt_message, encrypt_stream_one_shot, decrypt_stream_one_shot,
}
use itb_cpp.Binding.Pipeline.Quiet.{last_error-Quiet}
use itb_cpp.Binding.Stream.Progress.{EndsItself}
use itb_cpp.Loop.Names.{Shape, stream, message, stream_one_shot, both}
use itb_cpp.Loop.Host.{Host}
use itb_cpp.Loop.State.{Site, worker_fail, log_line}
use itb_cpp.Loop.Main.Caught.{caught-Quiet}
use itb_cpp.Loop.Worker.{Failure, Drain, caught, detail, cipher_fail, timed}
use itb_cpp.Loop.Worker.Rounds.{Spends}
use itb_cpp.Loop.Worker.Returns.{Sent, Opens, encrypting-Leads, decrypting-Leads}
use itb_cpp.Loop.Iterate.{
  Verdict, went, gave_up, mismatch, with_worker, counted, differ, settled, mismatch_line,
  encrypt_step, decrypt_step, whole,
}

module _ {L : Type 0} (lib : Library L) where
  -- A step on the message or the one-shot surface returns.
  whole_call-Leads :
      (fn : ℕ → L → Reply × L) (src what : Bytes)
      → Leads Any
          (caught [] (cipher_call lib fn src what >>= λ out. pure (whole [] out)))
          (λ r w. Unit {0})
          Nowhere
  whole_call-Leads fn src what =
      Quiet-Leads AnyCall Never
        (caught-Quiet [] (bind-Quiet (call-Quiet lib fn src what) (λ out. pure-Quiet)))

-- The result of a step: on the session surface, that of a pump.
abbrev pub Stepped : Shape → ℕ → Bytes → Failure ⊎ Drain → Type 0
Stepped stream most buf r = Sent most buf r
Stepped message most buf r = Unit {0}
Stepped stream_one_shot most buf r = Unit {0}
Stepped both most buf r = Unit {0}

-- How an iteration ends: counted, with the failure noted and a stop asked for, or with a mismatch,
-- that counts nothing. A counted iteration keeps the slice's size.
abbrev pub Completed : Site → Verdict × Site → Type 0
Completed st (went, st') =
    (st'.worker.iters ≡ st.worker.iters + 1)
    × (st'.worker.bytes_enc ≡ st.worker.bytes_enc + length st.worker.plaintext)
    × (length st'.worker.scratch ≡ length st.worker.scratch)
Completed st (gave_up, st') =
    (st'.worker.iters ≡ st.worker.iters) × (st'.worker.failed ≡ true) × (st'.run.stop ≡ true)
Completed st (mismatch, st') = st'.worker.iters ≡ st.worker.iters

abbrev pub Clocked : {A : Type 0} → (Failure ⊎ A → Type 0) → Failure ⊎ (A × ℕ) → Type 0
Clocked K (inl failure) = Unit {0}
Clocked K (inr (a, nanos)) = K (inr a)

module _ {L : Type 0} (host : Host L) where
  detail-Leads : (failure : Failure) → Leads Any (detail host failure.1) (λ t w. Any w) Nowhere
  unfolding detail
  detail-Leads failure = Quiet-Leads AnyCall Never (search (quiet_rules, last_error-Quiet))

  pub failed-worker :
      (st : Site) (text : Bytes)
      → ((worker_fail st text).worker.iters ≡ st.worker.iters)
        × ((worker_fail st text).worker.failed ≡ true)
        × ((worker_fail st text).run.stop ≡ true)
  unfolding worker_fail
  failed-worker st text = ground arith

  -- An iteration that gives up behind a step.
  pub give_up-Leads :
      (st0 st : Site) (iter : ℕ) (shape : Shape) (direction : Bytes) (failure : Failure)
      → st.worker.iters ≡ st0.worker.iters
      → Leads Any
          (cipher_fail host st iter shape direction failure >>= λ st'. pure (gave_up, st'))
          (λ r w. Completed st0 r)
          Nowhere
  unfolding cipher_fail
  give_up-Leads st0 st iter shape direction failure same =
      bind-Leads Any (λ st' w. Completed st0 (gave_up, st')) _ Nowhere
        (cipher_fail host st iter shape direction failure) _
        (bind-Leads Any (λ text. Any) _ Nowhere (detail host failure.1) _ (detail-Leads failure)
          (λ text. record {
            leads = λ w u. let f = failed-worker st _ in (cc (f.0, same), f.1, f.2);
          }))
        (λ st'. record { leads = λ w e. e })

  pub timed-Leads :
      {A : Type 0} (K : Failure ⊎ A → Type 0) (m : M L (Failure ⊎ A))
      → Leads Any m (λ r w. K r) Nowhere
      → Leads Any (timed host m) (λ r w. Clocked K r) Nowhere
  timed-Leads K m h =
      bind-Leads Any (λ t0. Any) _ Nowhere (ffi host.now_ns) _ (record { leads = λ w u. u })
        (λ t0.
          bind-Leads Any (λ r w. K r) _ Nowhere m _ h
            (λ r.
              sum-Leads _ Nowhere (λ r' w. K r') r {f = λ failure. pure (inl failure)}
                {g = λ a. ffi host.now_ns >>= λ t1. pure (inr (a, t1 - t0))}
                (λ failure. record { leads = λ w k. tt {0} }) (λ a. record { leads = λ w k. k })))

  pub settled-Completed :
      (st0 st : Site) (iter : ℕ) (shape : Shape) (got : Bytes)
      → st.worker.iters ≡ st0.worker.iters
      → st.worker.bytes_enc ≡ st0.worker.bytes_enc
      → length st.worker.plaintext ≡ length st0.worker.plaintext
      → length st.worker.scratch ≡ length st0.worker.scratch
      → Completed st0 (settled st iter shape got)
  unfolding settled log_line
  settled-Completed st0 st iter shape got i b p s = by_test (differ st.worker.plaintext got)
    where
      by_test :
          (d : Bool)
          → Completed st0 (
              if d
              then (mismatch, log_line st (mismatch_line st.worker iter shape got))
              else (went, with_worker st (counted st.worker got)))
      by_test true = i
      by_test false = (omega (arith, i), omega (arith, b, p), s)

module _ {L : Type 0} (host : Host L) (ended : ℕ → L → Type 0) (load : ℕ → ℕ → L → ℕ)
    (over : (h : ℕ) → EndsItself host.lib h (ended h)) (law : (h : ℕ) → Spends host.lib h (load h))
    (most fuel : ℕ) (enough : most < fuel) where
  pub encrypt_step-Leads :
      (shape : Shape) (st : Site)
      → 0 < length st.worker.scratch
      → Opens host ended load over law
          (or_else st.run.stream_pipe no_pipeline)
          (length st.worker.plaintext)
          most
          host.lib.encrypt_stream_begin
      → Leads Any
          (encrypt_step host fuel shape st)
          (λ r w. Stepped shape most st.worker.scratch r)
          Nowhere
  unfolding encrypt_step encrypt_message encrypt_stream_one_shot
  encrypt_step-Leads stream st room e =
      encrypting-Leads host ended load over law fuel most _ _ _ room enough e
  encrypt_step-Leads message st room e = whole_call-Leads host.lib _ _ _
  encrypt_step-Leads stream_one_shot st room e = whole_call-Leads host.lib _ _ _
  encrypt_step-Leads both st room e = whole_call-Leads host.lib _ _ _

  -- A session for the way back, for whatever the way out has delivered.
  abbrev pub Back : Site → Type 0
  Back st =
      (n : ℕ)
      → n ≤ most
      → Opens host ended load over law (or_else st.run.stream_pipe no_pipeline) n most
          host.lib.decrypt_stream_begin

  pub decrypt_step-Leads :
      (shape : Shape) (st : Site) (sent : Drain)
      → 0 < length st.worker.scratch
      → Stepped shape most st.worker.scratch (inr sent)
      → Back st
      → Leads Any
          (decrypt_step host fuel shape st sent.out)
          (λ r w. Stepped shape most st.worker.scratch r)
          Nowhere
  unfolding decrypt_step decrypt_message decrypt_stream_one_shot
  decrypt_step-Leads stream st sent room k d =
      decrypting-Leads host ended load over law fuel most _ _ _ room enough
        (d (length sent.out) k.0)
  decrypt_step-Leads message st sent room k d = whole_call-Leads host.lib _ _ _
  decrypt_step-Leads stream_one_shot st sent room k d = whole_call-Leads host.lib _ _ _
  decrypt_step-Leads both st sent room k d = whole_call-Leads host.lib _ _ _
