-- ===== src/Loop/Threads.antt =====
-- The threads of the harness: `worker_main` and `iterate` of loop/worker.cpp, the locked parts of
-- loop/ops.cpp, and the main thread of `run` in loop/main.cpp, as steps that interleave in any order.
-- What a cipher call answers, a signal and the deadline are choices of the environment.
pub mod Counts
pub mod Invariant
pub mod Moves
pub mod Safety
pub mod Progress
pub mod Rounds
use itb_cpp.Base.{
  Bool, true, false, ℕ, zero, suc, ◌+◌, ◌-◌, ◌≤◌, ◌<◌, ◌≡◌, ◌⊎◌, List, [], ◌∷◌, some, get_elem?,
  set, replicate, ltb, leb, ◌==◌, ◌&&◌, if◌then◌else◌,
}
use itb_cpp.Loop.Ops.{is_due}

-- Where a worker stands; a number is the iteration, and a flag is whether the warmup succeeded.
pub data Pc : Type 0 where
  fresh : ℕ → Pc  -- the start of `iterate`, before the lock
  inside : ℕ → Pc  -- in `iterate`, with the shared lock
  warmed : Bool → Pc  -- before `warmup_done`
  at_warmup : Bool → Pc  -- arrived there
  opened : Bool → Pc  -- before `release`
  at_release : Bool → Pc  -- arrived there
  head : ℕ → Pc  -- the head of the main loop
  upkeep : ℕ → Pc  -- before `rekey_pipes`
  rekeying : ℕ → Pc  -- in it, with the exclusive lock
  cycling : ℕ → Pc  -- before `blob_cycle_pipes`
  reopening : ℕ → Pc  -- in it, with the exclusive lock
  leaving : Pc  -- before `worker_done`
  gone : Pc

-- Where the main thread stands.
pub data MainPc : Type 0 where
  launched : MainPc  -- before `warmup_done`
  main_warmup : MainPc  -- arrived there
  baseline : MainPc  -- reads the baselines, before `release`
  main_release : MainPc  -- arrived there
  polling : MainPc  -- waits for the workers
  joined : MainPc

-- What the threads share. `pipe_lock` is a number of readers and a flag for a writer, and a barrier
-- the number of arrivals; `stamped` tells that `finish_ns` was set, `exited` that `std::_Exit` ran.
pub record Shared : Type 0 where
  pub readers : ℕ
  pub writer : Bool
  pub at_warm : ℕ
  pub at_open : ℕ
  pub stop : Bool
  pub active : ℕ
  pub stamped : Bool
  pub exited : Bool

-- The parameters of a run that steer the threads.
pub record Plan : Type 0 where
  pub workers : ℕ
  pub iterations : ℕ
  pub rekey_every : ℕ
  pub blob_cycle_every : ℕ

-- Behind a completed iteration, and behind a failed one.
abbrev pub after_ok : ℕ → Pc
after_ok zero = warmed true
after_ok (suc k) = upkeep (suc k)

abbrev pub after_fail : ℕ → Pc
after_fail zero = warmed false
after_fail (suc k) = leaving

abbrev pub past_release : Bool → Pc
past_release true = head 1
past_release false = leaving

-- `cfg.iterations > 0 && iter >= cfg.iterations`.
abbrev pub is_spent : Plan → ℕ → Bool
is_spent c k = ltb 0 c.iterations && leb c.iterations k

-- One step of one worker.
pub data Move (c : Plan) (m : Shared) : Pc → Shared → Pc → Type 0 where
  refill_fails : (k : ℕ) → Move c m (fresh k) (record m { stop = true }) (after_fail k)
  lock_shared :
      (k : ℕ)
      → m.writer ≡ false
      → Move c m (fresh k) (record m { readers = m.readers + 1 }) (inside k)
  completes : (k : ℕ) → Move c m (inside k) (record m { readers = m.readers - 1 }) (after_ok k)
  cipher_fails :
      (k : ℕ)
      → Move c m (inside k) (record m { stop = true; readers = m.readers - 1 }) (after_fail k)
  mismatches : (k : ℕ) → Move c m (inside k) (record m { exited = true }) (inside k)
  arrive_warmup :
      (b : Bool) → Move c m (warmed b) (record m { at_warm = m.at_warm + 1 }) (at_warmup b)
  pass_warmup : (b : Bool) → m.at_warm ≡ suc c.workers → Move c m (at_warmup b) m (opened b)
  arrive_release :
      (b : Bool) → Move c m (opened b) (record m { at_open = m.at_open + 1 }) (at_release b)
  pass_release : (b : Bool) → m.at_open ≡ suc c.workers → Move c m (at_release b) m (past_release b)
  spends : (k : ℕ) → is_spent c k ≡ true → Move c m (head k) m leaving
  heeds_stop : (k : ℕ) → m.stop ≡ true → Move c m (head k) m leaving
  goes_on : (k : ℕ) → is_spent c k ≡ false → m.stop ≡ false → Move c m (head k) m (fresh k)
  skips_rekey : (k : ℕ) → is_due c.rekey_every k ≡ false → Move c m (upkeep k) m (cycling k)
  csprng_fails :
      (k : ℕ)
      → is_due c.rekey_every k ≡ true
      → Move c m (upkeep k) (record m { stop = true }) leaving
  lock_rekey :
      (k : ℕ)
      → is_due c.rekey_every k ≡ true
      → m.writer ≡ false
      → m.readers ≡ 0
      → Move c m (upkeep k) (record m { writer = true }) (rekeying k)
  rekeys : (k : ℕ) → Move c m (rekeying k) (record m { writer = false }) (cycling k)
  rekey_fails : (k : ℕ) → Move c m (rekeying k) (record m { stop = true; writer = false }) leaving
  skips_cycle :
      (k : ℕ) → is_due c.blob_cycle_every k ≡ false → Move c m (cycling k) m (head (suc k))
  lock_cycle :
      (k : ℕ)
      → is_due c.blob_cycle_every k ≡ true
      → m.writer ≡ false
      → m.readers ≡ 0
      → Move c m (cycling k) (record m { writer = true }) (reopening k)
  reopens : (k : ℕ) → Move c m (reopening k) (record m { writer = false }) (head (suc k))
  reopen_fails : (k : ℕ) → Move c m (reopening k) (record m { stop = true; writer = false }) leaving
  leaves :
      Move c m leaving
        (record m {
          active = m.active - 1;
          stamped = if m.active - 1 == 0 then true else m.stamped;
        })
        gone

-- One step of the main thread. Under its mutex it sees `active`, and asks for a stop on a signal or
-- at the deadline.
pub data MainMove (c : Plan) (m : Shared) : MainPc → Shared → MainPc → Type 0 where
  main_arrives : MainMove c m launched (record m { at_warm = m.at_warm + 1 }) main_warmup
  main_passes : m.at_warm ≡ suc c.workers → MainMove c m main_warmup m baseline
  main_opens : MainMove c m baseline (record m { at_open = m.at_open + 1 }) main_release
  main_goes : m.at_open ≡ suc c.workers → MainMove c m main_release m polling
  requests_stop :
      0 < m.active → m.stop ≡ false → MainMove c m polling (record m { stop = true }) polling
  joins : m.active ≡ 0 → MainMove c m polling m joined

pub record System : Type 0 where
  pub shared : Shared
  pub main : MainPc
  pub pcs : List Pc

-- Any worker, or the main thread, takes a step, as long as the process has not exited.
pub data Step (c : Plan) (s : System) : System → Type 0 where
  worker_step :
      (i : ℕ) {p p' : Pc} {m' : Shared}
      → s.shared.exited ≡ false
      → get_elem? s.pcs i ≡ some p
      → Move c s.shared p m' p'
      → Step c s (record { shared = m'; main = s.main; pcs = set s.pcs i p' })
  main_step :
      {q : MainPc} {m' : Shared}
      → s.shared.exited ≡ false
      → MainMove c s.shared s.main m' q
      → Step c s (record { shared = m'; main = q; pcs = s.pcs })

abbrev pub start : Plan → System
start c = record {
  shared = record {
    readers = 0;
    writer = false;
    at_warm = 0;
    at_open = 0;
    stop = false;
    active = c.workers;
    stamped = false;
    exited = false;
  };
  main = launched;
  pcs = replicate c.workers (fresh 0);
}

-- So many steps lead from one state to another.
pub data Steps (c : Plan) (s : System) : ℕ → System → Type 0 where
  begin : Steps c s 0 s
  next : {n : ℕ} {t u : System} → Steps c s n t → Step c t u → Steps c s (suc n) u

abbrev pub Reach : Plan → ℕ → System → Type 0
Reach c n s = Steps c (start c) n s
