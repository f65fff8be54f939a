-- ===== src/Loop/Threads/Invariant.antt =====
-- What the lock, the two barriers and the count of active workers say of where the threads stand.
use itb_cpp.Base.{
  All, Bool, true, false, ℕ, zero, suc, ◌+◌, ◌-◌, ◌≤◌, ◌<◌, ◌≡◌, refl, arith, List, length,
  length-replicate, replicate, ◌==◌,
}
use itb_cpp.Loop.Threads.{
  Pc, fresh, inside, warmed, at_warmup, opened, at_release, head, upkeep, rekeying, cycling,
  reopening, gone, MainPc, launched, main_warmup, main_release, polling, joined, Shared, Plan,
  start,
}
use itb_cpp.Loop.Threads.Counts.{tally, tally-replicate, All-replicate}

abbrev pub reads : Pc → ℕ
reads (inside k) = 1
reads _ = 0

abbrev pub writes : Pc → ℕ
writes (rekeying k) = 1
writes (reopening k) = 1
writes _ = 0

-- Has not arrived at the first barrier, has not passed it; so too for the second one.
abbrev pub before_warm : Pc → ℕ
before_warm (fresh zero) = 1
before_warm (inside zero) = 1
before_warm (warmed b) = 1
before_warm _ = 0

abbrev pub arrived_warm : Pc → ℕ
arrived_warm p = 1 - before_warm p

abbrev pub passed_warm : Pc → ℕ
passed_warm (at_warmup b) = 0
passed_warm p = 1 - before_warm p

abbrev pub arrived_open : Pc → ℕ
arrived_open (opened b) = 0
arrived_open (at_warmup b) = 0
arrived_open p = 1 - before_warm p

abbrev pub passed_open : Pc → ℕ
passed_open (at_release b) = 0
passed_open (opened b) = 0
passed_open (at_warmup b) = 0
passed_open p = 1 - before_warm p

abbrev pub is_gone : Pc → ℕ
is_gone gone = 1
is_gone _ = 0

abbrev pub main_arrived_warm : MainPc → ℕ
main_arrived_warm launched = 0
main_arrived_warm _ = 1

abbrev pub main_passed_warm : MainPc → ℕ
main_passed_warm launched = 0
main_passed_warm main_warmup = 0
main_passed_warm _ = 1

abbrev pub main_arrived_open : MainPc → ℕ
main_arrived_open main_release = 1
main_arrived_open polling = 1
main_arrived_open joined = 1
main_arrived_open _ = 0

abbrev pub main_passed_open : MainPc → ℕ
main_passed_open polling = 1
main_passed_open joined = 1
main_passed_open _ = 0

abbrev pub flag : Bool → ℕ
flag true = 1
flag false = 0

-- The iteration of a worker in the main loop is in the loop's range.
abbrev pub IsPlaced : Plan → Pc → Type 0
IsPlaced c (fresh k) = 0 < c.iterations → k < c.iterations
IsPlaced c (inside k) = 0 < c.iterations → k < c.iterations
IsPlaced c (head k) = (0 < k) × (0 < c.iterations → k ≤ c.iterations)
IsPlaced c (upkeep k) = (0 < k) × (0 < c.iterations → k < c.iterations)
IsPlaced c (rekeying k) = (0 < k) × (0 < c.iterations → k < c.iterations)
IsPlaced c (cycling k) = (0 < k) × (0 < c.iterations → k < c.iterations)
IsPlaced c (reopening k) = (0 < k) × (0 < c.iterations → k < c.iterations)
IsPlaced c _ = Unit

pub record Inv (c : Plan) (m : Shared) (q : MainPc) (pcs : List Pc) : Type 0 where
  pub size : length pcs ≡ c.workers
  pub readers : m.readers ≡ tally reads pcs
  pub writer : flag m.writer ≡ tally writes pcs
  pub exclusive : m.writer ≡ true → m.readers ≡ 0
  pub warm : m.at_warm ≡ tally arrived_warm pcs + main_arrived_warm q
  pub open_count : m.at_open ≡ tally arrived_open pcs + main_arrived_open q
  pub warm_gate : 0 < tally passed_warm pcs + main_passed_warm q → m.at_warm ≡ suc c.workers
  pub open_gate : 0 < tally passed_open pcs + main_passed_open q → m.at_open ≡ suc c.workers
  pub counted : m.active + tally is_gone pcs ≡ c.workers
  pub stamp : 0 < c.workers → m.stamped ≡ (m.active == 0)
  pub over : q ≡ joined → m.active ≡ 0
  pub placed : All (IsPlaced c) pcs

tally-fresh : (w : Pc → ℕ) (n : ℕ) → w (fresh 0) ≡ 0 → tally w (replicate n (fresh 0)) ≡ 0
tally-fresh w n e = grind (arith, tally-replicate w n (fresh 0))

pub start-Inv : (c : Plan) → Inv c (start c).shared (start c).main (start c).pcs
start-Inv c = record {
  size = length-replicate c.workers (fresh 0);
  readers = omega (arith, tally-fresh reads c.workers refl);
  writer = omega (arith, tally-fresh writes c.workers refl);
  exclusive = λ e. refl;
  warm = omega (arith, tally-fresh arrived_warm c.workers refl);
  open_count = omega (arith, tally-fresh arrived_open c.workers refl);
  warm_gate = λ h. absurd (omega (arith, tally-fresh passed_warm c.workers refl));
  open_gate = λ h. absurd (omega (arith, tally-fresh passed_open c.workers refl));
  counted = omega (arith, tally-fresh is_gone c.workers refl);
  stamp = λ h. ground arith;
  over = λ e. cc;
  placed = All-replicate (IsPlaced c) c.workers (fresh 0) (λ h. h);
}
