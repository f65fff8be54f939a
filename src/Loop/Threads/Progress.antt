-- ===== src/Loop/Threads/Progress.antt =====
-- No state in which the threads wait for each other.
use itb_cpp.Base.{
  true, false, ℕ, zero, suc, ◌<◌, ◌≡◌, ◌≢◌, ◌⊎◌, inl, inr, refl, arith, List, some, get_elem?,
  Bool-cases,
}
use itb_cpp.Loop.Ops.{is_due}
use itb_cpp.Loop.Threads.{
  Pc, fresh, inside, warmed, at_warmup, opened, at_release, head, upkeep, rekeying, cycling,
  reopening, leaving, gone, MainPc, launched, main_warmup, baseline, main_release, polling, joined,
  Shared, Plan, System, Reach, Move, Step, worker_step, main_step, is_spent, lock_shared, completes,
  arrive_warmup, pass_warmup, arrive_release, pass_release, spends, heeds_stop, goes_on,
  skips_rekey, lock_rekey, rekeys, skips_cycle, lock_cycle, reopens, leaves, main_arrives,
  main_passes, main_opens, main_goes, joins,
}
use itb_cpp.Loop.Threads.Counts.{tally-find, tally-short, set-differs}
use itb_cpp.Loop.Threads.Invariant.{reads, writes, arrived_warm, arrived_open, is_gone, Inv}
use itb_cpp.Loop.Threads.Moves.{Reach-Inv}

abbrev CanMove : Plan → Shared → Pc → Type 0
CanMove c m p = (m' : Shared) × (p' : Pc) × Move c m p m' p' × (p' ≢ p)

-- What a barrier wants of the shared state.
abbrev IsOpen : Plan → Shared → Pc → Type 0
IsOpen c m (at_warmup b) = m.at_warm ≡ suc c.workers
IsOpen c m (at_release b) = m.at_open ≡ suc c.workers
IsOpen c m gone = ⊥
IsOpen c m _ = Unit

-- With the lock free and its barrier open, a worker has a move.
can_move :
    (c : Plan) (m : Shared) (p : Pc)
    → m.writer ≡ false
    → m.readers ≡ 0
    → IsOpen c m p
    → CanMove c m p
can_move c m (fresh k) w r o = (_, _, lock_shared k w, λ e. cc)
can_move c m (inside zero) w r o = (_, _, completes 0, λ e. cc)
can_move c m (inside (suc k)) w r o = (_, _, completes (suc k), λ e. cc)
can_move c m (warmed b) w r o = (_, _, arrive_warmup b, λ e. cc)
can_move c m (at_warmup b) w r o = (_, _, pass_warmup b o, λ e. cc)
can_move c m (opened b) w r o = (_, _, arrive_release b, λ e. cc)
can_move c m (at_release true) w r o = (_, _, pass_release true o, λ e. cc)
can_move c m (at_release false) w r o = (_, _, pass_release false o, λ e. cc)
can_move c m (head k) w r o = elim (Bool-cases (is_spent c k)) [
  | inl spent ↦ (_, _, spends k spent, λ e. cc)
  | inr more ↦ elim (Bool-cases m.stop) [
    | inl stopped ↦ (_, _, heeds_stop k stopped, λ e. cc)
    | inr on ↦ (_, _, goes_on k more on, λ e. cc)
  ]
]
can_move c m (upkeep k) w r o = elim (Bool-cases (is_due c.rekey_every k)) [
  | inl due ↦ (_, _, lock_rekey k due w r, λ e. cc)
  | inr not_due ↦ (_, _, skips_rekey k not_due, λ e. cc)
]
can_move c m (rekeying k) w r o = (_, _, rekeys k, λ e. cc)
can_move c m (cycling k) w r o = elim (Bool-cases (is_due c.blob_cycle_every k)) [
  | inl due ↦ (_, _, lock_cycle k due w r, λ e. cc)
  | inr not_due ↦ (_, _, skips_cycle k not_due, λ e. cc)
]
can_move c m (reopening k) w r o = (_, _, reopens k, λ e. cc)
can_move c m leaving w r o = (_, _, leaves, λ e. cc)
can_move c m gone w r o = absurd o

-- Some thread takes a step to another place.
abbrev pub Advances : Plan → System → Type 0
Advances c s = (t : System) × Step c s t × ((t.pcs ≢ s.pcs) ⊎ (t.main ≢ s.main))

abbrev system : Shared → MainPc → List Pc → System
system m q pcs = record { shared = m; main = q; pcs = pcs }

module _ (c : Plan) (m : Shared) (pcs : List Pc) (live : m.exited ≡ false) where
  by_worker :
      (q : MainPc) (i : ℕ) (p : Pc)
      → get_elem? pcs i ≡ some p
      → CanMove c m p
      → Advances c (system m q pcs)
  by_worker q i p e (m', p', mv, other) =
      (_, worker_step i live e mv, inl (set-differs pcs i p p' e other))

  -- The lock is held: its holder steps.
  by_writer :
      (q : MainPc) (i : ℕ) (p : Pc)
      → get_elem? pcs i ≡ some p
      → 0 < writes p
      → Advances c (system m q pcs)
  by_writer q i (rekeying k) e h = by_worker q i (rekeying k) e (_, _, rekeys k, λ e. cc)
  by_writer q i (reopening k) e h = by_worker q i (reopening k) e (_, _, reopens k, λ e. cc)
  by_writer q i p e h = absurd (omega arith)

  by_reader :
      (q : MainPc) (i : ℕ) (p : Pc)
      → get_elem? pcs i ≡ some p
      → 0 < reads p
      → Advances c (system m q pcs)
  by_reader q i (inside zero) e h = by_worker q i (inside zero) e (_, _, completes 0, λ e. cc)
  by_reader q i (inside (suc k)) e h =
      by_worker q i (inside (suc k)) e (_, _, completes (suc k), λ e. cc)
  by_reader q i p e h = absurd (omega arith)

  before_warmup-IsOpen : (p : Pc) → arrived_warm p ≡ 0 → IsOpen c m p
  before_warmup-IsOpen (at_warmup b) e = cc
  before_warmup-IsOpen (at_release b) e = cc
  before_warmup-IsOpen gone e = cc
  before_warmup-IsOpen p e = tt

  before_release-IsOpen : (p : Pc) → m.at_warm ≡ suc c.workers → arrived_open p ≡ 0 → IsOpen c m p
  before_release-IsOpen (at_warmup b) w e = w
  before_release-IsOpen (at_release b) w e = cc
  before_release-IsOpen gone w e = cc
  before_release-IsOpen p w e = tt

  not_gone-IsOpen :
      (p : Pc)
      → m.at_warm ≡ suc c.workers
      → m.at_open ≡ suc c.workers
      → is_gone p ≡ 0
      → IsOpen c m p
  not_gone-IsOpen (at_warmup b) w o e = w
  not_gone-IsOpen (at_release b) w o e = o
  not_gone-IsOpen gone w o e = cc
  not_gone-IsOpen p w o e = tt

  -- The lock is free: the main thread steps, or the worker it waits for.
  by_any :
      (q : MainPc)
      → Inv c m q pcs
      → m.writer ≡ false
      → m.readers ≡ 0
      → (q ≡ joined) ⊎ Advances c (system m q pcs)
  by_any launched inv w r = inr (_, main_step live main_arrives, inr (λ e. cc))
  by_any main_warmup inv w r = elim (tally-short arrived_warm pcs (λ p. omega arith)) [
    | inl full ↦
        inr
          (_, main_step live (main_passes (omega (arith, full, inv.warm, inv.size))), inr (λ e. cc))
    | inr (i, p, e, late) ↦
        inr (by_worker main_warmup i p e (can_move c m p w r (before_warmup-IsOpen p late)))
  ]
  by_any baseline inv w r = inr (_, main_step live main_opens, inr (λ e. cc))
  by_any main_release inv w r = elim (tally-short arrived_open pcs (λ p. ground arith)) [
    | inl full ↦ inr (
      _,
      main_step live (main_goes (omega (arith, full, inv.open_count, inv.size))),
      inr (λ e. cc),
    )
    | inr (i, p, e, late) ↦ inr (
        by_worker main_release i p e
          (can_move c m p w r (before_release-IsOpen p (inv.warm_gate (omega arith)) late)))
  ]
  by_any polling inv w r = elim (tally-short is_gone pcs (λ p. ground arith)) [
    | inl full ↦
        inr (_, main_step live (joins (omega (arith, full, inv.counted, inv.size))), inr (λ e. cc))
    | inr (i, p, e, late) ↦ inr (
        by_worker polling i p e (
          can_move c m p w r
            (not_gone-IsOpen p (inv.warm_gate (omega arith)) (inv.open_gate (omega arith)) late)))
  ]
  by_any joined inv w r = inl refl

  Inv-Advances : (q : MainPc) → Inv c m q pcs → (q ≡ joined) ⊎ Advances c (system m q pcs)
  Inv-Advances q inv = elim (Bool-cases m.writer) [
    | inl held ↦
        let (i, p, e, h) = tally-find writes pcs (ground (arith, inv.writer)) in
        inr (by_writer q i p e h)
    | inr free ↦ elim (ℕ-cases m.readers) [
      | inl none ↦ by_any q inv free none
      | inr some_readers ↦
          let (i, p, e, h) = tally-find reads pcs (omega (arith, inv.readers)) in
          inr (by_reader q i p e h)
    ]
  ]
    where
      ℕ-cases : (n : ℕ) → (n ≡ 0) ⊎ (0 < n)
      ℕ-cases zero = inl refl
      ℕ-cases (suc n) = inr (omega arith)

-- In every state that the threads reach, unless the process has exited or the main thread has joined
-- the workers, some thread can take a step to another place: the lock and the barriers never leave
-- the threads waiting for each other.
pub Reach-Advances :
    (c : Plan) (n : ℕ) (s : System)
    → Reach c n s
    → s.shared.exited ≡ false
    → (s.main ≡ joined) ⊎ Advances c s
Reach-Advances c n s r live = Inv-Advances c s.shared s.pcs live s.main (Reach-Inv r)
