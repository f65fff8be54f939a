-- ===== src/Loop/Main.antt =====
-- `run` of loop/main.cpp on the main thread: the set-up from the pipelines to the threads' start. The
-- phases around it are Loop/Main/Phases, and what the threads do is Loop/Threads.
pub mod Texts
pub mod Phases
pub mod Caught
pub mod Quiet
pub mod Balance
pub mod Exits
use itb_cpp.Base.{
  Bool, true, false, ℕ, zero, suc, ◌+◌, ◌-◌, ◌⊎◌, inl, inr, List, [], ◌∷◌, ◌++◌, Option, some, none,
  Bytes, codes, length, ◌==◌, not, or_else, if◌then◌else◌, replicate,
}
use itb_cpp.Base.Int.{ℤ, pos, is_nat}
use itb_cpp.Binding.World.{M, pure, ffi, ◌>>=◌, ◌>>◌}
use itb_cpp.Binding.Errors.{last_error}
use itb_cpp.Binding.Pipeline.{Pipeline, destroy}
use itb_cpp.Binding.Runtime.{write_heap_profile}
use itb_cpp.Loop.Host.{Host}
use itb_cpp.Loop.Real.{Real}
use itb_cpp.Loop.Size.Durations.{parse_duration}
use itb_cpp.Loop.State.{Config, Worker, RunState}
use itb_cpp.Loop.Worker.{caught, pump_slice}
use itb_cpp.Loop.Payload.{seed_worker, fill_payload}
use itb_cpp.Loop.Flags.Resolve.{parse_flags}
use itb_cpp.Loop.Launch.{Line, log, err, uses_stream, uses_message, build_pipeline, shape_runtime}
use itb_cpp.Loop.Summary.Pools.{pool_snapshot_alloc, pool_snapshot_take, pool_diff, no_delta}
use itb_cpp.Loop.Summary.Rss.{read_rss}
use itb_cpp.Loop.Summary.Final.{Ended}
use itb_cpp.Loop.Summary.Final.Lines.{final_summary}
use itb_cpp.Loop.Main.Texts.{start_line, overrides_line, policy_line, warmup_line}

-- A pipeline with its blob, for a shape that uses it.
abbrev pub Slot : Type 0
Slot = Option (Pipeline × Bytes)

abbrev pub piped : Slot → Option Pipeline
piped none = none
piped (some (p, blob)) = some p

abbrev blob_of : Slot → Bytes
blob_of none = []
blob_of (some (p, blob)) = blob

-- The shared state before the threads start.
pub record Ready : Type 0 where
  pub stream : Slot
  pub message : Slot
  pub workers : List Worker
  pub pool_warmup : List ℤ
  pub pool_steady : List ℤ

-- The lines printed so far, and the exit status or the state to go on with.
abbrev pub Stage : Type 0 → Type 0
Stage A = List Line × (ℕ ⊎ A)

abbrev chosen : Bytes → Bytes → Bytes
chosen profile default' = if length profile == 0 then default' else profile

abbrev pub stream_profile_of : Config → Bytes
stream_profile_of cfg = chosen cfg.profile (codes "streaming-aead-triple-mac-v1")

abbrev pub msg_profile_of : Config → Bytes
msg_profile_of cfg = chosen cfg.profile (codes "singlemsg-triple-mac-v1")

abbrev fresh_worker : Config → ℕ → Worker
fresh_worker cfg i = record {
  id = i;
  plaintext = replicate cfg.payload 0;
  payload_mode = cfg.payload_mode;
  seeded = not (cfg.seed == 0);
  rng = seed_worker cfg.seed i;
  wire = [];
  plain = [];
  scratch = replicate pump_slice 0;
  iters = 0;
  bytes_enc = 0;
  bytes_dec = 0;
  nanos_enc = 0;
  nanos_dec = 0;
  failed = false;
  error = [];
}

-- The state that the constructor of `RunState` and the assignments before the threads leave.
unfoldable pub run_state : Config → Ready → RunState
run_state cfg r = record {
  cfg = cfg;
  stream_pipe = piped r.stream;
  msg_pipe = piped r.message;
  stream_profile = stream_profile_of cfg;
  msg_profile = msg_profile_of cfg;
  stream_blob = blob_of r.stream;
  msg_blob = blob_of r.message;
  rekeys = 0;
  blob_cycles = 0;
  stop = false;
  active = cfg.workers;
  finish_ns = 0;
  log = [];
}

module _ {L : Type 0} (host : Host L) where
  -- The member of type `std::optional<Pipeline>` at its end.
  unfoldable pub drop_pipe : Option Pipeline → M L (Unit {0})
  drop_pipe none = pure tt
  drop_pipe (some p) = destroy host.lib p >>= λ _. pure tt

  -- A failing return destroys the run state: its members go in the reverse order.
  unfoldable pub abandon : {A : Type 0} → Slot → Slot → List Line → M L (Stage A)
  abandon stream message lines =
      drop_pipe (piped message) >>= λ _. drop_pipe (piped stream) >>= λ _. pure (lines, inl 1)

  unfoldable pub with_message : Config → Slot → List Line → M L (Stage (Slot × Slot))
  with_message cfg stream lines =
      if uses_message cfg.shape
      then (build_pipeline host cfg (msg_profile_of cfg) >>= λ b. elim b.built [
        | none ↦ abandon stream none (lines ++ b.printed)
        | some s ↦ pure (lines ++ b.printed, inr (stream, some s))
      ])
      else pure (lines, inr (stream, none))

  -- One pipeline for each family of surfaces that the shape exercises.
  unfoldable pub build_pipelines : Config → M L (Stage (Slot × Slot))
  unfolding with_message
  build_pipelines cfg =
      if uses_stream cfg.shape
      then (build_pipeline host cfg (stream_profile_of cfg) >>= λ b. elim b.built [
        | none ↦ pure (b.printed, inl 1)
        | some s ↦ with_message cfg (some s) b.printed
      ])
      else with_message cfg none []

  -- The workers from number `i` on; `none` if a plaintext cannot be filled.
  unfoldable pub make_workers : Config → ℕ → ℕ → M L (Option (List Worker))
  make_workers cfg zero i = pure (some [])
  make_workers cfg (suc rounds) i =
      let w = fresh_worker cfg i in
      let rest = make_workers cfg rounds (suc i) in
      fill_payload host cfg.payload_mode w.seeded w.rng w.plaintext >>= λ r.
      if r.0
      then (rest >>= λ ws. elim ws [
        | none ↦ pure none
        | some more ↦ pure (some (record w { rng = r.1; plaintext = r.2 } ∷ more))
      ])
      else pure none

  -- The two snapshot buffers: the second is not asked for if the first fails.
  unfoldable pub snapshot_buffers : M L (Option (List ℤ × List ℤ))
  snapshot_buffers = pool_snapshot_alloc host.lib >>= λ a. elim a [
    | none ↦ pure none
    | some warmup ↦ pool_snapshot_alloc host.lib >>= λ b. elim b [
      | none ↦ pure none
      | some steady ↦ pure (some (warmup, steady))
    ]
  ]

  -- From the pipelines to the threads' start.
  unfoldable pub equip : Config → Slot → Slot → List Line → M L (Stage Ready)
  equip cfg stream message lines = make_workers cfg cfg.workers 0 >>= λ ws. elim ws [
    | none ↦ abandon stream message (lines ++ err (codes "payload fill: csprng") ∷ [])
    | some workers ↦ snapshot_buffers >>= λ buffers. elim buffers [
      | none ↦ abandon stream message (lines ++ err (codes "pool snapshot alloc failed") ∷ [])
      | some (warmup, steady) ↦ pure (
        lines,
        inr (record {
          stream = stream;
          message = message;
          workers = workers;
          pool_warmup = warmup;
          pool_steady = steady;
        }),
      )
    ]
  ]

  unfoldable pub set_up : Config → M L (Stage Ready)
  set_up cfg = build_pipelines cfg >>= λ r. elim r.1 [
    | inl status ↦ pure (r.0, inl status)
    | inr (stream, message) ↦ equip cfg stream message r.0
  ]
