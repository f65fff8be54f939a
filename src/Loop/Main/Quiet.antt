-- ===== src/Loop/Main/Quiet.antt =====
-- The steps of the main thread that open and free no pipeline: they return, and an invariant of the
-- calls made is kept.
use itb_cpp.Base.{
  Bool, true, false, ℕ, zero, suc, ◌+◌, ◌-◌, ◌≤◌, ◌≡◌, arith, List, [], ◌++◌, Bytes, length, take,
  drop, length-append, length-take, length-drop, ltb, ltb→lt, ◌==◌, if◌then◌else◌,
}
use itb_cpp.Base.Int.{ℤ, pos, negsuc}
use itb_cpp.Binding.Status.{Status}
use itb_cpp.Binding.World.{spin, Call, pure}
use itb_cpp.Binding.World.Ways.{Quiet, quiet_rules, bind-Quiet, if-Quiet, pure-Quiet, ffi-Quiet}
use itb_cpp.Binding.Memory.{overwrite, length-overwrite}
use itb_cpp.Binding.Opts.{Opts}
use itb_cpp.Binding.Runtime.{count_of, set_gc_percent, set_gomaxprocs}
use itb_cpp.Binding.Pipeline.Quiet.{
  last_error-Quiet, inspect-Quiet, lookup-Quiet, pool_stats_len-Quiet, pool_stats-Quiet,
  write_heap_profile-Quiet, drbg_auto_tier-Quiet,
}
use itb_cpp.Loop.Host.{Host}
use itb_cpp.Loop.Names.{PayloadMode, fixed, rotating, pattern_zero, pattern_ff, pattern_ascii}
use itb_cpp.Loop.Worker.{detail}
use itb_cpp.Loop.Payload.{random_from, fill_random, fill_drawn, fill_payload}
use itb_cpp.Loop.Profiles.{fill_keystream_layers}
use itb_cpp.Loop.Launch.{log_pipeline_initialised}
use itb_cpp.Loop.Real.{Real}
use itb_cpp.Loop.State.{Config}
use itb_cpp.Loop.Summary.Pools.{pool_snapshot_alloc, pool_snapshot_take, effective_gogc}
use itb_cpp.Loop.Summary.Final.{Ended}
use itb_cpp.Loop.Summary.Final.Lines.{final_summary}
use itb_cpp.Loop.Main.{make_workers, snapshot_buffers}
use itb_cpp.Loop.Main.Phases.{heap_profile}
use itb_cpp.Loop.Main.Caught.{caught-Quiet, sum-Quiet, known-Quiet, option-Quiet}

ruleset main_rules = (quiet_rules, sum-Quiet, option-Quiet, caught-Quiet, last_error-Quiet)

module _ {L : Type 0} (host : Host L) {I T : List Call → Type 0} where
  pub detail-Quiet : (status : Status) → Quiet I T (detail host status)
  unfolding detail
  detail-Quiet status = search main_rules

  pub log_pipeline_initialised-Quiet :
      (profile blob : Bytes) → Quiet I T (log_pipeline_initialised host profile blob)
  unfolding log_pipeline_initialised
  log_pipeline_initialised-Quiet profile blob =
      bind-Quiet (caught-Quiet [] (inspect-Quiet host.lib blob))
        (λ r. sum-Quiet r (λ failure. search main_rules) (λ json. search main_rules))

  pub fill_keystream_layers-Quiet :
      (name : Bytes) (opts : Opts) (parallax wrapper : Bool)
      → Quiet I T (fill_keystream_layers host.lib name opts parallax wrapper)
  unfolding fill_keystream_layers
  fill_keystream_layers-Quiet name opts parallax wrapper =
      bind-Quiet (caught-Quiet [] (lookup-Quiet host.lib name))
        (λ r. sum-Quiet r (λ failure. search main_rules) (λ json. search main_rules))

  pool_snapshot_alloc-Quiet : Quiet I T (pool_snapshot_alloc host.lib)
  unfolding pool_snapshot_alloc
  pool_snapshot_alloc-Quiet = search (main_rules, pool_stats_len-Quiet) depth 12

  pub snapshot_buffers-Quiet : Quiet I T (snapshot_buffers host)
  unfolding snapshot_buffers
  snapshot_buffers-Quiet = bind-Quiet pool_snapshot_alloc-Quiet (λ a.
      option-Quiet a pure-Quiet (λ warmup.
        bind-Quiet pool_snapshot_alloc-Quiet
          (λ b. option-Quiet b pure-Quiet (λ steady. pure-Quiet))))

  pub pool_snapshot_take-Quiet : (dst : List ℤ) → Quiet I T (pool_snapshot_take host.lib dst)
  unfolding pool_snapshot_take
  pool_snapshot_take-Quiet dst =
      bind-Quiet (caught-Quiet [] (pool_stats-Quiet host.lib dst))
        (λ r. sum-Quiet r (λ failure. search main_rules) (λ written. search main_rules))

  pub heap_profile-Quiet : (path : Bytes) → Quiet I T (heap_profile host path)
  unfolding heap_profile
  heap_profile-Quiet path = if-Quiet (length path == 0) pure-Quiet (
      bind-Quiet (caught-Quiet [] (write_heap_profile-Quiet host.lib path))
        (λ r. sum-Quiet r (λ failure. search main_rules) (λ done. search main_rules)))

  pub effective_gogc-Quiet : (z : ℤ) → Quiet I T (effective_gogc host.lib z)
  unfolding effective_gogc set_gc_percent
  effective_gogc-Quiet (pos zero) = search main_rules
  effective_gogc-Quiet (pos (suc n)) = search main_rules
  effective_gogc-Quiet (negsuc n) = search main_rules

  pub final_summary-Quiet :
      {F : Type 0} (real : Real F) (e : Ended) → Quiet I T (final_summary real host.lib e)
  unfolding final_summary set_gomaxprocs
  final_summary-Quiet real e =
      search (main_rules, drbg_auto_tier-Quiet, effective_gogc-Quiet) depth 14

  spin-Quiet :
      {A : Type 0} (b : Bool) (a : A)
      → b ≡ false
      → Quiet {L = L} I T (if b then (λ w. spin w) else pure a)
  spin-Quiet true a h = cc
  spin-Quiet false a h = pure-Quiet

  random_from-Quiet :
      (rounds off : ℕ) (buf : Bytes)
      → length buf ≤ off + rounds
      → Quiet I T (random_from host rounds off buf)
  unfolding random_from
  random_from-Quiet zero off buf h = spin-Quiet _ _ (ground arith)
  random_from-Quiet (suc rounds) off buf h =
      known-Quiet (ltb off (length buf))
        (λ more. bind-Quiet {A = ℤ × Bytes} (ffi-Quiet (host.getrandom (length buf - off))) (λ got.
          known-Quiet (count_of got.0 == 0) {m = pure {L = L} (false, buf)}
            (λ none'. pure-Quiet {a = (false, buf)})
            (λ some'.
              random_from-Quiet rounds (off + count_of got.0)
                (take off buf ++ overwrite got.1 (drop off buf))
                (let l = length-append {0} (take off buf) (overwrite got.1 (drop off buf)) in
                  let t = length-take {0} off buf in
                  let d = length-drop {0} off buf in
                  let o = length-overwrite got.1 (drop off buf) in
                  ground (arith, l, t, d, o, some', ltb→lt off (length buf) more, h)))))
        (λ done. pure-Quiet)

  pub fill_random-Quiet : (buf : Bytes) → Quiet I T (fill_random host buf)
  unfolding fill_random
  fill_random-Quiet buf = random_from-Quiet (length buf) 0 buf (omega arith)

  fill_drawn-Quiet :
      (seeded : Bool) (rng : ℕ) (buf : Bytes) → Quiet I T (fill_drawn host seeded rng buf)
  unfolding fill_drawn
  fill_drawn-Quiet seeded rng buf =
      if-Quiet seeded pure-Quiet (bind-Quiet (fill_random-Quiet buf) (λ r. pure-Quiet))

  fill_payload-Quiet :
      (mode : PayloadMode) (seeded : Bool) (rng : ℕ) (buf : Bytes)
      → Quiet I T (fill_payload host mode seeded rng buf)
  unfolding fill_payload
  fill_payload-Quiet fixed seeded rng buf = fill_drawn-Quiet seeded rng buf
  fill_payload-Quiet rotating seeded rng buf = fill_drawn-Quiet seeded rng buf
  fill_payload-Quiet pattern_zero seeded rng buf = pure-Quiet
  fill_payload-Quiet pattern_ff seeded rng buf = pure-Quiet
  fill_payload-Quiet pattern_ascii seeded rng buf = pure-Quiet

  pub make_workers-Quiet :
      (cfg : Config) (rounds i : ℕ) → Quiet I T (make_workers host cfg rounds i)
  unfolding make_workers
  make_workers-Quiet cfg zero i = pure-Quiet
  make_workers-Quiet cfg (suc rounds) i =
      bind-Quiet (fill_payload-Quiet cfg.payload_mode _ _ _) (λ r.
        if-Quiet r.0
          (bind-Quiet (make_workers-Quiet cfg rounds (suc i))
            (λ ws. option-Quiet ws pure-Quiet (λ more. pure-Quiet)))
          pure-Quiet)
