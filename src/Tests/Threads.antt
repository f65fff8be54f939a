-- ===== src/Tests/Threads.antt =====
-- Runs of the harness's threads.
use itb_cpp.Base.{replicate, true, false, ℕ, suc, ◌+◌, ◌*◌, ◌≤◌, ◌≡◌, ◌⊎◌, refl, arith, All}
use itb_cpp.Loop.Threads.{
  Plan, System, Steps, Step, begin, next, start, worker_step, main_step, main_arrives, main_passes,
  main_opens, main_goes, requests_stop, joins, lock_shared, completes, arrive_warmup, pass_warmup,
  arrive_release, pass_release, goes_on, lock_rekey, rekeys, skips_cycle, heeds_stop, leaves,
  rekeying, at_release, gone, joined,
}
use itb_cpp.Loop.Threads.Invariant.{reads, writes}
use itb_cpp.Loop.Threads.Safety.{
  IsParked, rekeying-IsExclusive, IsHeld, lock-IsHeld, baseline-IsParked, joined-IsOver,
}
use itb_cpp.Loop.Threads.Progress.{Advances, Reach-Advances}
use itb_cpp.Loop.Threads.Rounds.{Reach-bounded, stop-drains}

-- Two workers, two iterations each, a rekey behind every one.
abbrev two_workers : Plan
two_workers = record { workers = 2; iterations = 2; rekey_every = 1; blob_cycle_every = 0 }

abbrev Run : System → ℕ → Type 0
Run s n = (t : System) × Steps two_workers s n t

abbrev onward :
    {s : System} {n : ℕ} {t : System} (r : Run s n) → Step two_workers r.0 t → Run s (suc n)
onward r st = (_, next r.1 st)

abbrev parked : Run (start two_workers) 10
unfolding replicate
parked =
    onward
      (onward
        (onward
          (onward
            (onward
              (onward
                (onward
                  (onward
                    (onward
                      (onward (start two_workers, begin)
                        (worker_step 0 refl refl (lock_shared 0 refl)))
                      (worker_step 0 refl refl (completes 0)))
                    (worker_step 0 refl refl (arrive_warmup true)))
                  (worker_step 1 refl refl (lock_shared 0 refl)))
                (main_step refl main_arrives))
              (worker_step 1 refl refl (completes 0)))
            (worker_step 1 refl refl (arrive_warmup true)))
          (main_step refl (main_passes refl)))
        (worker_step 1 refl refl (pass_warmup true refl)))
      (worker_step 1 refl refl (arrive_release true))

abbrev before : Run (start two_workers) 17
unfolding replicate
before =
    onward
      (onward
        (onward
          (onward
            (onward
              (onward (onward parked (main_step refl main_opens))
                (worker_step 0 refl refl (pass_warmup true refl)))
              (worker_step 0 refl refl (arrive_release true)))
            (worker_step 0 refl refl (pass_release true refl)))
          (worker_step 0 refl refl (goes_on 1 refl refl)))
        (worker_step 0 refl refl (lock_shared 1 refl)))
      (worker_step 0 refl refl (completes 1))

abbrev rotating : Run (start two_workers) 18
unfolding replicate
rotating = onward before (worker_step 0 refl refl (lock_rekey 1 refl refl refl))

abbrev stopping : Run (start two_workers) 20
unfolding replicate
stopping =
    onward (onward rotating (main_step refl (main_goes refl)))
      (main_step refl (requests_stop (omega arith) refl))

abbrev drained : Run stopping.0 8
unfolding replicate
drained =
    onward
      (onward
        (onward
          (onward
            (onward
              (onward
                (onward (onward (stopping.0, begin) (worker_step 0 refl refl (rekeys 1)))
                  (worker_step 0 refl refl (skips_cycle 1 refl)))
                (worker_step 0 refl refl (heeds_stop 2 refl)))
              (worker_step 1 refl refl (pass_release true refl)))
            (worker_step 1 refl refl (heeds_stop 1 refl)))
          (worker_step 1 refl refl (leaves)))
        (worker_step 0 refl refl (leaves)))
      (main_step refl (joins refl))

abbrev over : Run (start two_workers) 28
unfolding replicate
over =
    onward
      (onward
        (onward
          (onward
            (onward
              (onward
                (onward (onward stopping (worker_step 0 refl refl (rekeys 1)))
                  (worker_step 0 refl refl (skips_cycle 1 refl)))
                (worker_step 0 refl refl (heeds_stop 2 refl)))
              (worker_step 1 refl refl (pass_release true refl)))
            (worker_step 1 refl refl (heeds_stop 1 refl)))
          (worker_step 1 refl refl (leaves)))
        (worker_step 0 refl refl (leaves)))
      (main_step refl (joins refl))

rekeying-IsExclusive_example : (reads (at_release true) ≡ 0) × (writes (at_release true) ≡ 0)
unfolding replicate
rekeying-IsExclusive_example =
    rekeying-IsExclusive two_workers 18 rotating.0 0 1 (rekeying 1) (at_release true) rotating.1
      (λ e. cc) refl refl refl

lock-IsHeld_example : IsHeld rotating.0.shared rotating.0.pcs
unfolding replicate
lock-IsHeld_example = lock-IsHeld two_workers 18 rotating.0 rotating.1

baseline-IsParked_example : All IsParked parked.0.pcs
unfolding replicate
baseline-IsParked_example = baseline-IsParked two_workers 10 parked.0 parked.1 refl

joined-IsOver_example :
    All (λ p. p ≡ gone) over.0.pcs
    × (over.0.shared.stamped ≡ true)
    × (over.0.shared.readers ≡ 0)
    × (over.0.shared.writer ≡ false)
unfolding replicate
joined-IsOver_example = joined-IsOver two_workers 28 over.0 over.1 (omega arith) refl

Reach-Advances_example : (rotating.0.main ≡ joined) ⊎ Advances two_workers rotating.0
unfolding replicate
Reach-Advances_example = Reach-Advances two_workers 18 rotating.0 rotating.1 refl

Reach-bounded_example : 28 ≤ 2 * (7 * 2 + 9) + 7
unfolding replicate
Reach-bounded_example = Reach-bounded two_workers 28 over.0 (omega arith) over.1

stop-drains_example : 8 ≤ 2 * 9 + 7
unfolding replicate
stop-drains_example = stop-drains two_workers 20 8 stopping.0 drained.0 stopping.1 refl drained.1
