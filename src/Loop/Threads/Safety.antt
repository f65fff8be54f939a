-- ===== src/Loop/Threads/Safety.antt =====
-- What the lock and the barriers of the harness keep apart.
use itb_cpp.Base.{
  All, true, false, ℕ, ◌<◌, ◌≡◌, ◌≢◌, refl, arith, some, get_elem?, List, ◌⊎◌, inl, inr, Bool-cases,
  length,
}
use itb_cpp.Loop.Threads.{Pc, gone, baseline, joined, Shared, Plan, System, Reach}
use itb_cpp.Loop.Threads.Counts.{
  tally, tally-le, tally-full, tally-zero, tally-one, tally-apart, tally-two, All-map, All-zip,
}
use itb_cpp.Loop.Threads.Invariant.{
  reads, writes, flag, arrived_warm, arrived_open, passed_open, is_gone, Inv,
}
use itb_cpp.Loop.Threads.Moves.{Reach-Inv}

-- Between its warmup and the main loop.
abbrev pub IsParked : Pc → Type 0
IsParked p = (arrived_warm p ≡ 1) × (passed_open p ≡ 0)

-- In every state that the threads reach, while the worker `i` holds the exclusive lock of a rekey or of
-- a blob cycle, no other worker is in an iteration and none holds the exclusive lock.
pub rekeying-IsExclusive :
    (c : Plan) (n : ℕ) (s : System) (i j : ℕ) (p p' : Pc)
    → Reach c n s
    → i ≢ j
    → get_elem? s.pcs i ≡ some p
    → get_elem? s.pcs j ≡ some p'
    → writes p ≡ 1
    → (reads p' ≡ 0) × (writes p' ≡ 0)
rekeying-IsExclusive c n s i j p p' r ne ei ej w =
    ground
      (arith, Reach-Inv r, tally-one reads s.pcs j p' ej, tally-two writes s.pcs i j p p' ne ei ej)

-- The lock is held by the threads inside it: its readers are as many as the workers in an iteration,
-- its exclusive flag is set for one worker in a rekey or in a blob cycle, and never beside a reader.
abbrev pub IsHeld : Shared → List Pc → Type 0
IsHeld m pcs =
    (m.readers ≡ tally reads pcs)
    × (flag m.writer ≡ tally writes pcs)
    × ((m.writer ≡ false) ⊎ (m.readers ≡ 0))

-- In every state that the threads reach, the lock has as many readers as there are workers in an
-- iteration, its exclusive flag is set exactly when a worker is in a rekey or in a blob cycle, which at
-- most one is, and never beside a reader: no way out of an iteration or of a maintenance keeps the
-- lock, and none of them runs without it.
pub lock-IsHeld : (c : Plan) (n : ℕ) (s : System) → Reach c n s → IsHeld s.shared s.pcs
lock-IsHeld c n s r = (
  inv.readers,
  inv.writer,
  elim (Bool-cases s.shared.writer) [ inl held ↦ inr (inv.exclusive held) | inr free ↦ inl free ],
)
  where
    inv : Inv c s.shared s.main s.pcs
    inv = Reach-Inv r

-- In every state that the threads reach, while the main thread reads the baselines, between its two
-- barriers, every worker is between them too: it has done its warmup, and is not in the main loop.
pub baseline-IsParked :
    (c : Plan) (n : ℕ) (s : System) → Reach c n s → s.main ≡ baseline → All IsParked s.pcs
baseline-IsParked c n s r e =
    All-zip (λ p. arrived_warm p ≡ 1) (λ p. passed_open p ≡ 0) s.pcs
      (tally-full arrived_warm s.pcs (λ p. omega arith) (gate (Reach-Inv r) e))
      (tally-zero passed_open s.pcs (shut (Reach-Inv r) e))
  where
    gate : Inv c s.shared s.main s.pcs → s.main ≡ baseline → tally arrived_warm s.pcs ≡ length s.pcs
    gate inv e = ground (arith, inv.warm_gate, inv.warm, inv.size)

    shut : Inv c s.shared s.main s.pcs → s.main ≡ baseline → tally passed_open s.pcs ≡ 0
    shut inv e = ground (
      arith,
      inv.open_gate,
      inv.open_count,
      inv.size,
      tally-le arrived_open s.pcs (λ p. ground arith),
    )

gone-IsGone : (p : Pc) → is_gone p ≡ 1 → p ≡ gone
gone-IsGone gone e = refl
gone-IsGone p e = cc

-- In every state that the threads reach where the main thread has joined them, with a worker to run:
-- every worker is gone, `finish_ns` is set, and nobody holds the lock.
pub joined-IsOver :
    (c : Plan) (n : ℕ) (s : System)
    → Reach c n s
    → 0 < c.workers
    → s.main ≡ joined
    → All (λ p. p ≡ gone) s.pcs
      × (s.shared.stamped ≡ true)
      × (s.shared.readers ≡ 0)
      × (s.shared.writer ≡ false)
joined-IsOver c n s r w e = (
  All-map (λ p. is_gone p ≡ 1) (λ p. p ≡ gone) s.pcs gone-IsGone
      (tally-full is_gone s.pcs (λ p. ground arith) all_gone),
  ground (arith, inv.stamp, inv.over),
  omega (arith, all_gone, tally-apart reads is_gone s.pcs (λ p. ground arith), inv.readers),
  ground (arith, all_gone, tally-apart writes is_gone s.pcs (λ p. ground arith), inv.writer),
)
  where
    inv : Inv c s.shared s.main s.pcs
    inv = Reach-Inv r

    all_gone : tally is_gone s.pcs ≡ length s.pcs
    all_gone = ground (arith, inv.over, inv.counted, inv.size)
