-- ===== src/Loop/Threads/Moves.antt =====
-- A step of one worker, or of the main thread, keeps each field of `Inv`.
use itb_cpp.Base.{
  true, false, ℕ, suc, ◌+◌, ◌≤◌, ◌<◌, ◌≡◌, arith, List, some, get_elem?, set, length, length-set,
  ◌==◌,
}
use itb_cpp.Loop.Threads.{
  Pc, MainPc, joined, Shared, Plan, is_spent, Move, goes_on, leaves, lock_shared, pass_warmup,
  pass_release, lock_rekey, lock_cycle, MainMove, main_passes, main_goes, requests_stop, joins,
  System, Step, worker_step, main_step, Reach, begin, next,
}
use itb_cpp.Loop.Threads.Counts.{All-get_elem?, All-set, tally, tally-set, tally-le}
use itb_cpp.Loop.Threads.Invariant.{
  reads, writes, arrived_warm, passed_warm, arrived_open, passed_open, is_gone, main_arrived_warm,
  main_passed_warm, main_arrived_open, main_passed_open, flag, IsPlaced, Inv, start-Inv,
}

-- The premise of a move that the lock and the barriers wait for.
abbrev Guard : {c : Plan} {m m' : Shared} {p p' : Pc} → Move c m p m' p' → Type 0
Guard {m} (lock_shared k g) = m.writer ≡ false
Guard {c} {m} (pass_warmup b g) = m.at_warm ≡ suc c.workers
Guard {c} {m} (pass_release b g) = m.at_open ≡ suc c.workers
Guard {c} (goes_on k g s) = is_spent c k ≡ false
Guard {m} (lock_rekey k d w r) = (m.writer ≡ false) × (m.readers ≡ 0)
Guard {m} (lock_cycle k d w r) = (m.writer ≡ false) × (m.readers ≡ 0)
Guard _ = Unit

guard : {c : Plan} {m m' : Shared} {p p' : Pc} (mv : Move c m p m' p') → Guard mv
guard (lock_shared k g) = g
guard (pass_warmup b g) = g
guard (pass_release b g) = g
guard (goes_on k g s) = g
guard (lock_rekey k d w r) = (w, r)
guard (lock_cycle k d w r) = (w, r)
guard _ = tt

module _ {c : Plan} {m : Shared} {q : MainPc} {pcs : List Pc} (inv : Inv c m q pcs) (i : ℕ) where
  open inv use {
    size, readers, writer, exclusive, warm, open_count, warm_gate, open_gate, counted, stamp, over,
    placed,
  }

  -- The worker `i` goes from `p` to `p'`: the sums behind.
  record Shift (p p' : Pc) : Type 0 where
    kept_size : length (set pcs i p') ≡ length pcs
    reading : tally reads (set pcs i p') + reads p ≡ tally reads pcs + reads p'
    writing : tally writes (set pcs i p') + writes p ≡ tally writes pcs + writes p'
    warms :
        tally arrived_warm (set pcs i p') + arrived_warm p
        ≡ tally arrived_warm pcs + arrived_warm p'
    opens :
        tally arrived_open (set pcs i p') + arrived_open p
        ≡ tally arrived_open pcs + arrived_open p'
    past_warm :
        tally passed_warm (set pcs i p') + passed_warm p ≡ tally passed_warm pcs + passed_warm p'
    past_open :
        tally passed_open (set pcs i p') + passed_open p ≡ tally passed_open pcs + passed_open p'
    going : tally is_gone (set pcs i p') + is_gone p ≡ tally is_gone pcs + is_gone p'
    warm_room : tally arrived_warm (set pcs i p') ≤ c.workers
    gone_room : tally is_gone (set pcs i p') ≤ c.workers
    own : IsPlaced c p
    open_room : tally arrived_open (set pcs i p') ≤ c.workers

  shift : (p p' : Pc) → get_elem? pcs i ≡ some p → Shift p p'
  shift p p' e = record {
    kept_size = length-set pcs i p';
    reading = tally-set reads pcs i p p' e;
    writing = tally-set writes pcs i p p' e;
    warms = tally-set arrived_warm pcs i p p' e;
    opens = tally-set arrived_open pcs i p p' e;
    past_warm = tally-set passed_warm pcs i p p' e;
    past_open = tally-set passed_open pcs i p p' e;
    going = tally-set is_gone pcs i p p' e;
    warm_room =
        omega (
          arith,
          tally-le arrived_warm (set pcs i p') (λ a. omega arith),
          length-set pcs i p',
          size,
        );
    gone_room =
        omega
          (arith, tally-le is_gone (set pcs i p') (λ a. ground arith), length-set pcs i p', size);
    own = All-get_elem? (IsPlaced c) pcs i p placed e;
    open_room = omega (
      arith,
      tally-le arrived_open (set pcs i p') (λ a. ground arith),
      length-set pcs i p',
      size,
    );
  }

  Move-reads :
      {p p' : Pc} {m' : Shared}
      → Move c m p m' p'
      → Shift p p'
      → m'.readers ≡ tally reads (set pcs i p')
  Move-reads leaves f = omega arith
  Move-reads mv f = ground (arith, guard mv)

  Move-writes :
      {p p' : Pc} {m' : Shared}
      → Move c m p m' p'
      → Shift p p'
      → flag m'.writer ≡ tally writes (set pcs i p')
  Move-writes leaves f = omega arith
  Move-writes mv f = ground (arith, guard mv)

  Move-excludes :
      {p p' : Pc} {m' : Shared} → Move c m p m' p' → Shift p p' → m'.writer ≡ true → m'.readers ≡ 0
  Move-excludes leaves f = exclusive
  Move-excludes mv f = ground (arith, guard mv)

  Move-warm :
      {p p' : Pc} {m' : Shared}
      → Move c m p m' p'
      → Shift p p'
      → m'.at_warm ≡ tally arrived_warm (set pcs i p') + main_arrived_warm q
  Move-warm leaves f = omega arith
  Move-warm mv f = ground (arith, guard mv)

  Move-open :
      {p p' : Pc} {m' : Shared}
      → Move c m p m' p'
      → Shift p p'
      → m'.at_open ≡ tally arrived_open (set pcs i p') + main_arrived_open q
  Move-open leaves f = omega arith
  Move-open mv f = ground (arith, guard mv)

  Move-warm_gate :
      {p p' : Pc} {m' : Shared}
      → Move c m p m' p'
      → Shift p p'
      → 0 < tally passed_warm (set pcs i p') + main_passed_warm q
      → m'.at_warm ≡ suc c.workers
  Move-warm_gate leaves f = ground arith
  Move-warm_gate mv f = ground (arith, guard mv)

  Move-open_gate :
      {p p' : Pc} {m' : Shared}
      → Move c m p m' p'
      → Shift p p'
      → 0 < tally passed_open (set pcs i p') + main_passed_open q
      → m'.at_open ≡ suc c.workers
  Move-open_gate leaves f = ground arith
  Move-open_gate mv f = ground (arith, guard mv)

  Move-counted :
      {p p' : Pc} {m' : Shared}
      → Move c m p m' p'
      → Shift p p'
      → m'.active + tally is_gone (set pcs i p') ≡ c.workers
  Move-counted leaves f = ground arith
  Move-counted mv f = ground (arith, guard mv)

  Move-stamp :
      {p p' : Pc} {m' : Shared}
      → Move c m p m' p'
      → Shift p p'
      → 0 < c.workers
      → m'.stamped ≡ (m'.active == 0)
  Move-stamp leaves f = ground arith
  Move-stamp mv f = stamp

  Move-over : {p p' : Pc} {m' : Shared} → Move c m p m' p' → Shift p p' → q ≡ joined → m'.active ≡ 0
  Move-over leaves f = ground arith
  Move-over mv f = over

  Move-IsPlaced : {p p' : Pc} {m' : Shared} → Move c m p m' p' → Shift p p' → IsPlaced c p'
  Move-IsPlaced leaves f = tt
  Move-IsPlaced mv f = ground (arith, guard mv)

  Move-Inv :
      {p p' : Pc} {m' : Shared}
      → get_elem? pcs i ≡ some p
      → Move c m p m' p'
      → Inv c m' q (set pcs i p')
  Move-Inv {p} {p'} e mv = record {
    size = omega (arith, length-set pcs i p', size);
    readers = Move-reads mv f;
    writer = Move-writes mv f;
    exclusive = Move-excludes mv f;
    warm = Move-warm mv f;
    open_count = Move-open mv f;
    warm_gate = Move-warm_gate mv f;
    open_gate = Move-open_gate mv f;
    counted = Move-counted mv f;
    stamp = Move-stamp mv f;
    over = Move-over mv f;
    placed = All-set (IsPlaced c) pcs i p' placed (Move-IsPlaced mv f);
  }
    where
      f : Shift p p'
      f = shift p p' e

abbrev MainGuard : {c : Plan} {m m' : Shared} {q q' : MainPc} → MainMove c m q m' q' → Type 0
MainGuard {c} {m} (main_passes g) = m.at_warm ≡ suc c.workers
MainGuard {c} {m} (main_goes g) = m.at_open ≡ suc c.workers
MainGuard {m} (joins g) = m.active ≡ 0
MainGuard _ = Unit

main_guard : {c : Plan} {m m' : Shared} {q q' : MainPc} (mv : MainMove c m q m' q') → MainGuard mv
main_guard (main_passes g) = g
main_guard (main_goes g) = g
main_guard (joins g) = g
main_guard _ = tt

module _ {c : Plan} {m : Shared} {pcs : List Pc} where
  Inv-warm_room : {q : MainPc} → Inv c m q pcs → tally arrived_warm pcs ≤ c.workers
  Inv-warm_room inv = omega (arith, tally-le arrived_warm pcs (λ a. omega arith), inv.size)

  Inv-open_room : {q : MainPc} → Inv c m q pcs → tally arrived_open pcs ≤ c.workers
  Inv-open_room inv = omega (arith, tally-le arrived_open pcs (λ a. ground arith), inv.size)

  MainMove-Inv :
      {q q' : MainPc} {m' : Shared} → Inv c m q pcs → MainMove c m q m' q' → Inv c m' q' pcs
  MainMove-Inv inv (requests_stop a s) = record {
    size = inv.size;
    readers = inv.readers;
    writer = inv.writer;
    exclusive = inv.exclusive;
    warm = inv.warm;
    open_count = inv.open_count;
    warm_gate = inv.warm_gate;
    open_gate = inv.open_gate;
    counted = inv.counted;
    stamp = inv.stamp;
    over = λ e. cc;
    placed = inv.placed;
  }
  MainMove-Inv inv mv = record {
    size = inv.size;
    readers = inv.readers;
    writer = inv.writer;
    exclusive = inv.exclusive;
    warm = omega (arith, inv.warm);
    open_count = omega (arith, inv.open_count);
    warm_gate = ground (arith, main_guard mv, Inv-warm_room inv, inv.warm, inv.warm_gate);
    open_gate = ground (arith, main_guard mv, Inv-open_room inv, inv.open_count, inv.open_gate);
    counted = inv.counted;
    stamp = inv.stamp;
    over = ground (arith, main_guard mv);
    placed = inv.placed;
  }

pub Step-Inv :
    {c : Plan} {s t : System}
    → Inv c s.shared s.main s.pcs
    → Step c s t
    → Inv c t.shared t.main t.pcs
Step-Inv inv (worker_step i x e mv) = Move-Inv inv i e mv
Step-Inv inv (main_step x mv) = MainMove-Inv inv mv

pub Reach-Inv : {c : Plan} {n : ℕ} {s : System} → Reach c n s → Inv c s.shared s.main s.pcs
Reach-Inv begin = start-Inv _
Reach-Inv (next r st) = Step-Inv (Reach-Inv r) st
