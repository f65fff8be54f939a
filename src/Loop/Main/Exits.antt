-- ===== src/Loop/Main/Exits.antt =====
-- The ways through `run` of loop/main.cpp, with the pipelines held and the exit status.
use itb_cpp.Base.{ℕ, ◌≡◌, ◌⊎◌, inl, inr, refl, List, [], ◌++◌, Option, Bytes}
use itb_cpp.Base.Int.{ℤ, pos}
use itb_cpp.Binding.World.{World, ffi}
use itb_cpp.Binding.World.Ways.{
  Returns, Leads-Returns, Leads, bind-Leads, if-Leads, pure-Leads, frame-Leads, ffi-Quiet,
  bind-Quiet, pure-Quiet,
}
use itb_cpp.Binding.Pipeline.{Pipeline}
use itb_cpp.Binding.Pipeline.Opening.{Constructs}
use itb_cpp.Binding.Pipeline.Ownership.{Balanced}
use itb_cpp.Binding.Pipeline.Quiet.{drbg_auto_tier-Quiet}
use itb_cpp.Binding.Runtime.{set_gomaxprocs}
use itb_cpp.Loop.Host.{Host}
use itb_cpp.Loop.Real.{Real}
use itb_cpp.Loop.Worker.{Failure}
use itb_cpp.Loop.State.{Config, Worker, RunState}
use itb_cpp.Loop.Summary.Verdict.{verdict}
use itb_cpp.Loop.Summary.Final.{Ended, final_json}
use itb_cpp.Loop.Summary.Final.Lines.{final_summary, final_lines, lines_text}
use itb_cpp.Loop.Launch.{Line}
use itb_cpp.Loop.Main.{set_up, drop_pipe}
use itb_cpp.Loop.Main.Phases.{snapshot, heap_profile, ended, sum_up, conclude}
use itb_cpp.Loop.Main.Caught.{caught-Quiet}
use itb_cpp.Loop.Main.Quiet.{pool_snapshot_take-Quiet, heap_profile-Quiet, effective_gogc-Quiet}
use itb_cpp.Loop.Main.Balance.{
  Holding, None, listed, quiet, drop_pipe-Leads, Settled, pipes_of, set_up-Leads,
}

module _ {L : Type 0} (host : Host L) where
  -- From a world without open pipelines, against a library whose sessions come with a blob that fits
  -- the buffer, and whatever else it, the random source and the configuration are, the set-up returns:
  -- with the status 1 and every pipeline freed that the library has opened, or with the pipelines of
  -- the state that it hands on as the only ones that are open.
  pub set_up-Settled :
      (law : Constructs host.lib) (cfg : Config) (w : World L)
      → Balanced w.calls []
      → Returns (λ r. Settled pipes_of r.1) (set_up host cfg) w
  set_up-Settled law cfg w b = Leads-Returns _ _ _ w (set_up-Leads host law cfg) b

  module _ {F : Type 0} (real : Real F) where
    abbrev Summed : List Pipeline → Ended → Bytes × ℕ → World L → Type 0
    Summed objs e r w = Holding objs w × (r.1 ≡ verdict e.workers)

    abbrev json_answer : Ended → ℤ → Failure ⊎ Bytes → ℤ → Bytes × ℕ
    json_answer e n r z = (
      final_json real e (record {
        gomaxprocs = n;
        auto_tier = elim r [ inl failure ↦ [] | inr name ↦ name ];
        gogc = z;
      }),
      verdict e.workers,
    )

    final_summary-Leads :
        (objs : List Pipeline) (e : Ended)
        → Leads (Holding objs) (final_summary real host.lib e) (Summed objs e) None
    unfolding final_summary set_gomaxprocs
    final_summary-Leads objs e =
        bind-Leads _ (λ n. Holding objs) (Summed objs e) _ (set_gomaxprocs host.lib (pos 0)) _
          (quiet host objs (λ cs. ⊥) (ffi-Quiet (host.lib.set_gomaxprocs (pos 0))))
          (λ n.
            if-Leads (Summed objs e) None _ e.run.cfg.json_output
              (bind-Leads _ (λ r. Holding objs) (Summed objs e) _ _ _
                (quiet host objs (λ cs. ⊥) (caught-Quiet [] (drbg_auto_tier-Quiet host.lib)))
                (λ r.
                  bind-Leads _ (λ z. Holding objs) (Summed objs e) _ _ _
                    (quiet host objs (λ cs. ⊥) (effective_gogc-Quiet host e.run.cfg.gogc))
                    (λ z.
                      pure-Leads (Summed objs e) None _ (json_answer e n r z) (λ w b. (b, refl)))))
              (pure-Leads (Summed objs e) None _
                (lines_text (final_lines real e), verdict e.workers) (λ w b. (b, refl))))

    module _ (tiers starters : Option Bytes) (status_file : L → Option (List Bytes) × L) where
      abbrev pub Finished : List Worker → List Line × Bytes × ℕ → World L → Type 0
      Finished workers r w = Balanced w.calls [] × (r.2 ≡ verdict workers)

      sum_up-Leads :
          (run : RunState) (e : Ended) (lines : List Line)
          → Leads
              (Holding (listed run.msg_pipe ++ (listed run.stream_pipe ++ [])))
              (sum_up host real tiers starters run e lines)
              (Finished e.workers)
              None
      unfolding sum_up
      sum_up-Leads run e lines =
          bind-Leads _ (Summed (listed run.msg_pipe ++ (listed run.stream_pipe ++ [])) e)
            (Finished e.workers) _ (final_summary real host.lib e) _ (final_summary-Leads _ e)
            (λ printed.
              bind-Leads _
                (λ u w. Holding (listed run.stream_pipe ++ []) w × (printed.1 ≡ verdict e.workers))
                (Finished e.workers) _ (drop_pipe host run.msg_pipe) _
                (frame-Leads (printed.1 ≡ verdict e.workers) _ _ _ _
                  (drop_pipe-Leads host (listed run.stream_pipe ++ []) None run.msg_pipe))
                (λ u.
                  bind-Leads _ (λ u w. Holding [] w × (printed.1 ≡ verdict e.workers))
                    (Finished e.workers) _ (drop_pipe host run.stream_pipe) _
                    (frame-Leads (printed.1 ≡ verdict e.workers) _ _ _ _
                      (drop_pipe-Leads host [] None run.stream_pipe))
                    (λ u.
                      pure-Leads (Finished e.workers) None _ (lines, printed.0, printed.1)
                        (λ w b. (b.0, b.1)))))

      module _ (run : RunState) (workers : List Worker) (start_ns rss_warmup : ℕ)
          (pool_warmup pool_steady : List ℤ) where
        abbrev objs : List Pipeline
        objs = listed run.msg_pipe ++ (listed run.stream_pipe ++ [])

        conclude-Leads :
            Leads
              (Holding objs)
              (conclude host real tiers starters status_file run workers start_ns rss_warmup
                pool_warmup pool_steady)
              (Finished workers)
              None
        unfolding conclude
        conclude-Leads =
            bind-Leads _ (λ file. Holding objs) (Finished workers) _ (ffi status_file) _
              (quiet host objs (λ cs. ⊥) (ffi-Quiet status_file))
              (λ file.
                bind-Leads _ (λ pools. Holding objs) (Finished workers) _
                  (snapshot host pool_steady) _
                  (quiet host objs (λ cs. ⊥)
                    (bind-Quiet (pool_snapshot_take-Quiet host pool_steady) (λ r. pure-Quiet)))
                  (λ pools.
                    bind-Leads _ (λ lines. Holding objs) (Finished workers) _
                      (heap_profile host run.cfg.memprofile) _
                      (quiet host objs (λ cs. ⊥) (heap_profile-Quiet host run.cfg.memprofile))
                      (λ lines.
                        sum_up-Leads run
                          (ended host real tiers starters run workers start_ns rss_warmup
                            pool_warmup file pools)
                          lines)))

      -- When the main thread owns the pipelines of the run state and no others are open, what follows the
      -- last join returns, whatever the library and the files answer: every pipeline is freed, and the
      -- exit status is the verdict on the workers.
      pub conclude-Finished :
          (run : RunState) (workers : List Worker) (start_ns rss_warmup : ℕ)
          (pool_warmup pool_steady : List ℤ) (w : World L)
          → Balanced w.calls (listed run.msg_pipe ++ (listed run.stream_pipe ++ []))
          → Returns
              (Finished workers)
              (conclude host real tiers starters status_file run workers start_ns rss_warmup
                pool_warmup pool_steady)
              w
      conclude-Finished run workers start_ns rss_warmup pool_warmup pool_steady w b =
          Leads-Returns _ _ _ w
            (conclude-Leads run workers start_ns rss_warmup pool_warmup pool_steady) b
