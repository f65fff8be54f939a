-- ===== src/Loop/Threads/Rounds.antt =====
-- How many steps the threads take.
use itb_cpp.Base.{true, false, ℕ, ◌+◌, ◌*◌, ◌≤◌, ◌<◌, ◌≡◌, refl, arith, length, ap}
use itb_cpp.Loop.Threads.{
  Pc, fresh, inside, warmed, at_warmup, opened, at_release, head, upkeep, rekeying, cycling,
  reopening, leaving, gone, MainPc, launched, main_warmup, baseline, main_release, polling, joined,
  Shared, Plan, System, Reach, Steps, begin, next, Move, MainMove, Step, worker_step, main_step,
  is_spent, goes_on, leaves, requests_stop,
}
use itb_cpp.Loop.Threads.Counts.{tally, tally-set, tally-most, All-get_elem?, All-every, All-map}
use itb_cpp.Loop.Threads.Invariant.{flag, Inv, IsPlaced}
use itb_cpp.Loop.Threads.Moves.{Reach-Inv, Step-Inv}

-- How far a worker is in a run of so many iterations.
abbrev rank : ℕ → Pc → ℕ
rank n (head k) = 7 * k
rank n (fresh k) = 7 * k + 1
rank n (inside k) = 7 * k + 2
rank n (warmed b) = 3
rank n (at_warmup b) = 4
rank n (opened b) = 5
rank n (at_release b) = 6
rank n (upkeep k) = 7 * k + 3
rank n (rekeying k) = 7 * k + 4
rank n (cycling k) = 7 * k + 5
rank n (reopening k) = 7 * k + 6
rank n leaving = 7 * n + 8
rank n gone = 7 * n + 9

-- How far it is from its end once a stop is asked for.
abbrev nearness : Pc → ℕ
nearness (fresh k) = 1
nearness (inside k) = 2
nearness (warmed b) = 3
nearness (at_warmup b) = 4
nearness (opened b) = 5
nearness (at_release b) = 6
nearness (upkeep k) = 3
nearness (rekeying k) = 4
nearness (cycling k) = 5
nearness (reopening k) = 6
nearness (head k) = 7
nearness leaving = 8
nearness gone = 9

abbrev main_rank : MainPc → ℕ
main_rank launched = 0
main_rank main_warmup = 1
main_rank baseline = 2
main_rank main_release = 3
main_rank polling = 4
main_rank joined = 5

abbrev marks : Shared → ℕ
marks m = flag m.stop + flag m.exited

MainMove-grows :
    {c : Plan} {m m' : Shared} {q q' : MainPc}
    → MainMove c m q m' q'
    → main_rank q + marks m < main_rank q' + marks m'
MainMove-grows (requests_stop a s) = ground (arith, s)
MainMove-grows mv = omega arith

abbrev NotSpent : {c : Plan} {m m' : Shared} {p p' : Pc} → Move c m p m' p' → Type 0
NotSpent {c} {m} (goes_on k g s) = (is_spent c k ≡ false) × (m.stop ≡ false)
NotSpent _ = Unit

not_spent : {c : Plan} {m m' : Shared} {p p' : Pc} (mv : Move c m p m' p') → NotSpent mv
not_spent (goes_on k g s) = (g, s)
not_spent _ = tt

Move-grows :
    {c : Plan} {m m' : Shared} {p p' : Pc}
    → 0 < c.iterations
    → m.exited ≡ false
    → Move c m p m' p'
    → IsPlaced c p
    → rank c.iterations p + marks m < rank c.iterations p' + marks m'
Move-grows more live leaves own = omega arith
Move-grows more live mv own = ground (arith, not_spent mv)

Move-nears :
    {c : Plan} {m m' : Shared} {p p' : Pc}
    → m.stop ≡ true
    → m.exited ≡ false
    → Move c m p m' p'
    → nearness p + marks m < nearness p' + marks m'
Move-nears halt live leaves = omega arith
Move-nears halt live mv = ground (arith, not_spent mv)

Move-halts :
    {c : Plan} {m m' : Shared} {p p' : Pc} → m.stop ≡ true → Move c m p m' p' → m'.stop ≡ true
Move-halts halt leaves = halt
Move-halts halt mv = ground (arith, halt)

abbrev potential : (Pc → ℕ) → System → ℕ
potential weight s = tally weight s.pcs + main_rank s.main + marks s.shared

Step-grows :
    (c : Plan) {s t : System}
    → 0 < c.iterations
    → Inv c s.shared s.main s.pcs
    → Step c s t
    → potential (rank c.iterations) s < potential (rank c.iterations) t
Step-grows c {s} more inv (worker_step i {p} {p'} live e mv) = omega (
  arith,
  tally-set (rank c.iterations) s.pcs i p p' e,
  Move-grows more live mv (All-get_elem? (IsPlaced c) s.pcs i p inv.placed e),
)
Step-grows c more inv (main_step live mv) = omega (arith, MainMove-grows mv)

Step-nears :
    {c : Plan} {s t : System}
    → s.shared.stop ≡ true
    → Step c s t
    → potential nearness s < potential nearness t
Step-nears {s} halt (worker_step i {p} {p'} live e mv) =
    omega (arith, tally-set nearness s.pcs i p p' e, Move-nears halt live mv)
Step-nears halt (main_step live mv) = omega (arith, MainMove-grows mv)

Step-halts : {c : Plan} {s t : System} → s.shared.stop ≡ true → Step c s t → t.shared.stop ≡ true
Step-halts halt (worker_step i live e mv) = Move-halts halt mv
Step-halts halt (main_step live (requests_stop a s)) = refl
Step-halts halt (main_step live mv) = halt

Steps-halts :
    {c : Plan} {s : System} {n : ℕ} {t : System}
    → s.shared.stop ≡ true
    → Steps c s n t
    → t.shared.stop ≡ true
Steps-halts halt begin = halt
Steps-halts halt (next r st) = Step-halts (Steps-halts halt r) st

Steps-grows :
    (c : Plan) {n : ℕ} {s : System}
    → 0 < c.iterations
    → Reach c n s
    → n ≤ potential (rank c.iterations) s
Steps-grows c more begin = omega arith
Steps-grows c more (next r st) =
    omega (arith, Steps-grows c more r, Step-grows c more (Reach-Inv r) st)

Steps-nears :
    {c : Plan} {s : System} {n : ℕ} {t : System}
    → s.shared.stop ≡ true
    → Steps c s n t
    → n + potential nearness s ≤ potential nearness t
Steps-nears halt begin = omega arith
Steps-nears halt (next r st) = omega (arith, Steps-nears halt r, Step-nears (Steps-halts halt r) st)

Steps-Inv :
    {c : Plan} {s : System} {n : ℕ} {t : System}
    → Inv c s.shared s.main s.pcs
    → Steps c s n t
    → Inv c t.shared t.main t.pcs
Steps-Inv inv begin = inv
Steps-Inv inv (next r st) = Step-Inv (Steps-Inv inv r) st

rank-le :
    (c : Plan) (p : Pc)
    → 0 < c.iterations
    → IsPlaced c p
    → rank c.iterations p ≤ 7 * c.iterations + 9
rank-le c gone more own = omega arith
rank-le c p more own = ground (arith, own)

main_rank-le : (q : MainPc) → main_rank q ≤ 5
main_rank-le q = ground arith

marks-le : (m : Shared) → marks m ≤ 2
marks-le m = ground arith

-- With a bound on the iterations, any interleaving of the threads, whatever the ciphers answer and
-- whenever a stop is asked for, ends after at most 7 * iterations + 9 steps of every worker and
-- seven more.
pub Reach-bounded :
    (c : Plan) (n : ℕ) (s : System)
    → 0 < c.iterations
    → Reach c n s
    → n ≤ c.workers * (7 * c.iterations + 9) + 7
Reach-bounded c n s more r = omega (
  arith,
  Steps-grows c more r,
  main_rank-le s.main,
  marks-le s.shared,
  inv.size,
  ranks-le,
  ap (λ w. w * (7 * c.iterations + 9)) inv.size,
)
  where
    inv : Inv c s.shared s.main s.pcs
    inv = Reach-Inv r

    ranks-le : tally (rank c.iterations) s.pcs ≤ length s.pcs * (7 * c.iterations + 9)
    ranks-le = tally-most (rank c.iterations) (7 * c.iterations + 9) s.pcs (
        All-map (IsPlaced c) (λ p. rank c.iterations p ≤ 7 * c.iterations + 9) s.pcs
          (λ p. rank-le c p more) inv.placed)

-- From any state the threads reach in which a stop is asked for, they take at most nine steps for
-- every worker and seven more, with or without a bound on the iterations.
pub stop-drains :
    (c : Plan) (k n : ℕ) (s t : System)
    → Reach c k s
    → s.shared.stop ≡ true
    → Steps c s n t
    → n ≤ c.workers * 9 + 7
stop-drains c k n s t r halt run = omega (
  arith,
  Steps-nears halt run,
  main_rank-le t.main,
  marks-le t.shared,
  tally-most nearness 9 t.pcs (All-every (λ p. nearness p ≤ 9) t.pcs (λ p. ground arith)),
  inv.size,
)
  where
    inv : Inv c t.shared t.main t.pcs
    inv = Steps-Inv (Reach-Inv r) run
