-- ===== src/Loop/Main/Phases.antt =====
-- The phases of `run` of loop/main.cpp around the threads: up to their start, behind the warmup
-- barrier, and from the last join on.
use itb_cpp.Base.{
  ℕ, ◌-◌, inl, inr, List, [], ◌∷◌, ◌++◌, Option, Bytes, codes, length, ◌==◌, or_else, if◌then◌else◌,
}
use itb_cpp.Base.Int.{ℤ, is_nat}
use itb_cpp.Binding.World.{M, pure, ffi, ◌>>=◌}
use itb_cpp.Binding.Errors.{last_error}
use itb_cpp.Binding.Runtime.{write_heap_profile}
use itb_cpp.Loop.Host.{Host}
use itb_cpp.Loop.Real.{Real}
use itb_cpp.Loop.Size.Durations.{parse_duration}
use itb_cpp.Loop.State.{Config, Worker, RunState}
use itb_cpp.Loop.Worker.{caught}
use itb_cpp.Loop.Flags.Resolve.{parse_flags}
use itb_cpp.Loop.Launch.{Line, log, err, shape_runtime}
use itb_cpp.Loop.Summary.Pools.{pool_snapshot_take, pool_diff, no_delta}
use itb_cpp.Loop.Summary.Rss.{read_rss}
use itb_cpp.Loop.Summary.Final.{Ended}
use itb_cpp.Loop.Summary.Final.Lines.{final_summary}
use itb_cpp.Loop.Main.Texts.{start_line, overrides_line, policy_line, warmup_line}
use itb_cpp.Loop.Main.{Ready, Stage, set_up, drop_pipe}

module _ {L : Type 0} (host : Host L) where
  -- A snapshot of the library's pools into the buffer; a failure leaves it as it is.
  abbrev pub snapshot : List ℤ → M L (List ℤ)
  snapshot buffer = pool_snapshot_take host.lib buffer >>= λ r. pure r.1

  -- `--memprofile`.
  unfoldable pub heap_profile : Bytes → M L (List Line)
  heap_profile path =
      if length path == 0
      then pure []
      else (caught [] (write_heap_profile host.lib path) >>= λ r. elim r [
        | inl failure ↦
            last_error host.lib >>= λ text. pure (err (codes "memprofile: " ++ text) ∷ [])
        | inr done ↦ pure (log (codes "memprofile: heap profile written to " ++ path) ∷ [])
      ])

  module _ {F : Type 0} (real : Real F) (tiers starters : Option Bytes) where
    -- Up to the workers' start: what `parse_flags` writes to stderr, and the stage behind it with the
    -- configuration in force.
    unfoldable pub prepare : List Bytes → M L (Bytes × Stage (Config × Ready))
    prepare args = parse_flags host.lib (parse_duration real) args >>= λ r. elim r [
      | inl (rc, text) ↦ pure (text, ([], inl (if is_nat rc 1 then 0 else 2)))
      | inr flags ↦ shape_runtime host flags >>= λ cfg. set_up host cfg >>= λ s.
          let opening =
            log (start_line real cfg)
            ∷ log (overrides_line real cfg)
            ∷ log (policy_line tiers starters)
            ∷ [] in
          elim s.1 [
            | inl status ↦ pure ([], (opening ++ s.0, inl status))
            | inr r ↦ pure ([], (opening ++ s.0, inr (cfg, r)))
          ]
    ]

    -- What the summary is given, from the file's lines and the second snapshot.
    abbrev pub ended :
        RunState → List Worker → ℕ → ℕ → List ℤ → Option (List Bytes) → List ℤ → Ended
    ended run workers start_ns rss_warmup pool_warmup file pools = record {
      run = run;
      workers = workers;
      elapsed_ns = run.finish_ns - start_ns;
      rss_warmup = rss_warmup;
      rss_peak = (read_rss file).1;
      rss_final = (read_rss file).0;
      pools = or_else (pool_diff pool_warmup pools) no_delta;
      microbatch_tiers = tiers;
      hashpool_starters = starters;
    }

    -- The summary, and the end of the run state.
    unfoldable pub sum_up : RunState → Ended → List Line → M L (List Line × Bytes × ℕ)
    sum_up run e lines = final_summary real host.lib e >>= λ printed.
        drop_pipe host run.msg_pipe >>= λ _.
        drop_pipe host run.stream_pipe >>= λ _. pure (lines, printed.0, printed.1)

    -- `status_file` reads /proc/self/status.
    module _ (status_file : L → Option (List Bytes) × L) where
      -- Behind the warmup barrier: the resident set with its peak, the first snapshot, and the line.
      unfoldable pub take_baseline : Config → ℕ → List ℤ → M L ((ℕ × ℕ) × List ℤ × Line)
      take_baseline cfg warmup_start buffer = ffi status_file >>= λ file.
          snapshot buffer >>= λ pools. ffi host.now_ns >>= λ now.
          let rss = read_rss file in
          pure (rss, pools, log (warmup_line real cfg (now - warmup_start) rss.0))

      -- Behind the last join: the measurements, the heap profile and the summary. The pipelines go when
      -- `run` returns.
      unfoldable pub conclude :
          RunState → List Worker → ℕ → ℕ → List ℤ → List ℤ → M L (List Line × Bytes × ℕ)
      conclude run workers start_ns rss_warmup pool_warmup pool_steady = ffi status_file >>= λ file.
          snapshot pool_steady >>= λ pools. heap_profile run.cfg.memprofile >>= λ lines.
          sum_up run (ended run workers start_ns rss_warmup pool_warmup file pools) lines
