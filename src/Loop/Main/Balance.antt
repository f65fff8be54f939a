-- ===== src/Loop/Main/Balance.antt =====
-- The pipelines that the main thread holds, from phase to phase.
use itb_cpp.Base.{
  ℕ, ◌≡◌, ◌⊎◌, inl, inr, refl, arith, List, [], ◌∷◌, ◌++◌, Option, some, none, Bytes, length, ◌==◌,
}
use itb_cpp.Binding.World.{World, Call, M, ◌>>=◌}
use itb_cpp.Binding.World.Ways.{
  Leads, bind-Leads, sum-Leads, option-Leads, if-Leads, pure-Leads, Quiet, Quiet-Leads,
}
use itb_cpp.Binding.Opts.{Opts}
use itb_cpp.Binding.Pipeline.{Pipeline, destroy}
use itb_cpp.Binding.Pipeline.Opening.{Constructs, init-Leads}
use itb_cpp.Binding.Pipeline.Ownership.{held, Balanced, free_handle_lem}
use itb_cpp.Binding.Pipeline.Quiet.{save-Quiet}
use itb_cpp.Loop.Host.{Host}
use itb_cpp.Loop.State.{Config}
use itb_cpp.Loop.Launch.{
  Line, Built, build_with, build_pipeline, options, uses_message, uses_stream,
}
use itb_cpp.Loop.Main.{
  Slot, piped, Ready, Stage, drop_pipe, abandon, with_message, build_pipelines, equip, set_up,
}
use itb_cpp.Loop.Main.Caught.{Seen, caught-Leads}
use itb_cpp.Loop.Main.Quiet.{
  detail-Quiet, log_pipeline_initialised-Quiet, fill_keystream_layers-Quiet, snapshot_buffers-Quiet,
  make_workers-Quiet,
}

-- Each handle has been opened as often as it has been freed or is held by these objects.
abbrev pub Holding : {L : Type 0} → List Pipeline → World L → Type 0
Holding objs w = Balanced w.calls objs

abbrev pub None : {L : Type 0} → World L → Type 0
None w = ⊥

-- The object of an optional pipeline.
abbrev pub listed : Option Pipeline → List Pipeline
listed none = []
listed (some p) = p ∷ []

module _ {L : Type 0} (host : Host L) where
  pub quiet :
      {A : Type 0} (objs : List Pipeline) (T : List Call → Type 0) {m : M L A}
      → Quiet (λ cs. Balanced cs objs) T m
      → Leads (Holding objs) m (λ a. Holding objs) (λ w. T w.calls)
  quiet objs T q = Quiet-Leads (λ cs. Balanced cs objs) T q

  pub destroy-Leads :
      (objs : List Pipeline) (E : World L → Type 0) (p : Pipeline)
      → Leads (Holding (p ∷ objs)) (destroy host.lib p) (λ q. Holding objs) E
  unfolding destroy
  destroy-Leads objs E p = record {
    leads = λ w b.
        let (w', e, counts) = free_handle_lem host.lib p.handle w in
        rw (e, ◌>>=◌) (λ k nz. unfold held in omega (arith, b k nz, counts k nz));
  }

  pub drop_pipe-Leads :
      (objs : List Pipeline) (E : World L → Type 0) (p : Option Pipeline)
      → Leads (Holding (listed p ++ objs)) (drop_pipe host p) (λ u. Holding objs) E
  unfolding drop_pipe
  drop_pipe-Leads objs E none = record { leads = λ w b. b }
  drop_pipe-Leads objs E (some p) =
      bind-Leads _ (λ q. Holding objs) (λ u. Holding objs) _ _ _ (destroy-Leads objs E p)
        (λ q. record { leads = λ w b. b })

  -- With the pipeline that was built, if any.
  abbrev Building : List Pipeline → Built → World L → Type 0
  Building objs b = Holding (listed (piped b.built) ++ objs)

module _ {L : Type 0} (host : Host L) (law : Constructs host.lib) where
  build_with-Leads :
      (objs : List Pipeline) (profile : Bytes) (opts : Opts) (before : List Line)
      → Leads (Holding objs) (build_with host profile opts before) (Building host objs) None
  unfolding build_with
  build_with-Leads objs profile opts before =
      bind-Leads _ (Seen (λ p. Holding (p ∷ objs)) (Holding objs)) (Building host objs) _ _ _
        (caught-Leads _ _ _ _ [] _ (init-Leads host.lib law objs profile opts))
        (λ r.
          sum-Leads (Building host objs) None (Seen (λ p. Holding (p ∷ objs)) (Holding objs)) r
            (λ failure.
              bind-Leads _ (λ text. Holding objs) (Building host objs) _ _ _
                (quiet host objs (λ cs. ⊥) (detail-Quiet host failure.1))
                (λ text. pure-Leads (Building host objs) None _ _ (λ w b. b)))
            (λ p.
              bind-Leads _ (Seen (λ blob. Holding (p ∷ objs)) (Holding (p ∷ objs)))
                (Building host objs) _ _ _
                (caught-Leads _ _ _ _ [] _
                  (quiet host (p ∷ objs) (λ cs. Balanced cs (p ∷ objs)) (save-Quiet host.lib p)))
                (λ s.
                  sum-Leads (Building host objs) None
                    (Seen (λ blob. Holding (p ∷ objs)) (Holding (p ∷ objs))) s
                    (λ failure.
                      bind-Leads _ (λ text. Holding (p ∷ objs)) (Building host objs) _ _ _
                        (quiet host (p ∷ objs) (λ cs. ⊥) (detail-Quiet host failure.1))
                        (λ text.
                          bind-Leads _ (λ q. Holding objs) (Building host objs) _ _ _
                            (destroy-Leads host objs None p)
                            (λ q. pure-Leads (Building host objs) None _ _ (λ w b. b))))
                    (λ blob.
                      bind-Leads _ (λ line. Holding (p ∷ objs)) (Building host objs) _ _ _
                        (quiet host (p ∷ objs) (λ cs. ⊥)
                          (log_pipeline_initialised-Quiet host profile blob))
                        (λ line. pure-Leads (Building host objs) None _ _ (λ w b. b))))))

  build_pipeline-Leads :
      (objs : List Pipeline) (cfg : Config) (profile : Bytes)
      → Leads (Holding objs) (build_pipeline host cfg profile) (Building host objs) None
  unfolding build_pipeline
  build_pipeline-Leads objs cfg profile =
      if-Leads (Building host objs) None _ (length cfg.profile == 0)
        (build_with-Leads objs profile (options cfg) [])
        (bind-Leads _ (λ r. Holding objs) (Building host objs) _ _ _
          (quiet host objs (λ cs. ⊥)
            (fill_keystream_layers-Quiet host cfg.profile (options cfg) cfg.parallax cfg.wrapper))
          (λ r.
            sum-Leads (Building host objs) None (λ r. Holding objs) r
              (λ text. pure-Leads (Building host objs) None _ _ (λ w b. b))
              (λ opts. build_with-Leads objs profile opts.1 _)))

-- A failing stage has given everything back, with the status 1; the others hold these pipelines.
abbrev pub Settled : {L A : Type 0} → (A → List Pipeline) → ℕ ⊎ A → World L → Type 0
Settled pipes (inl status) w = (status ≡ 1) × Holding [] w
Settled pipes (inr a) w = Holding (pipes a) w

abbrev pub slots : Slot × Slot → List Pipeline
slots s = listed (piped s.1) ++ (listed (piped s.0) ++ [])

abbrev pub pipes_of : Ready → List Pipeline
pipes_of r = slots (r.stream, r.message)

module _ {L : Type 0} (host : Host L) (law : Constructs host.lib) where
  abandon-Leads :
      {A : Type 0} (pipes : A → List Pipeline) (stream message : Slot) (lines : List Line)
      → Leads
          (Holding (slots (stream, message)))
          (abandon host stream message lines)
          (λ r. Settled pipes r.1)
          None
  unfolding abandon
  abandon-Leads pipes stream message lines =
      bind-Leads _ (λ u. Holding (listed (piped stream) ++ [])) (λ r. Settled pipes r.1) _ _ _
        (drop_pipe-Leads host (listed (piped stream) ++ []) None (piped message))
        (λ u.
          bind-Leads _ (λ u. Holding []) (λ r. Settled pipes r.1) _ _ _
            (drop_pipe-Leads host [] None (piped stream))
            (λ u. pure-Leads (λ r. Settled pipes r.1) None _ _ (λ w b. (refl, b))))

  abbrev Piped : Stage (Slot × Slot) → World L → Type 0
  Piped r = Settled slots r.1

  with_message-Leads :
      (cfg : Config) (stream : Slot) (lines : List Line)
      → Leads
          (Holding (listed (piped stream) ++ []))
          (with_message host cfg stream lines)
          Piped
          None
  unfolding with_message
  with_message-Leads cfg stream lines =
      if-Leads Piped None _ (uses_message cfg.shape)
        (bind-Leads _ (Building host (listed (piped stream) ++ [])) Piped _ _ _
          (build_pipeline-Leads host law (listed (piped stream) ++ []) cfg _)
          (λ b.
            option-Leads Piped None
              (λ o. Holding (listed (piped o) ++ (listed (piped stream) ++ []))) b.built
              (abandon-Leads slots stream none _) (λ s. pure-Leads Piped None _ _ (λ w b. b))))
        (pure-Leads Piped None _ _ (λ w b. b))

  build_pipelines-Leads : (cfg : Config) → Leads (Holding []) (build_pipelines host cfg) Piped None
  unfolding build_pipelines
  build_pipelines-Leads cfg =
      if-Leads Piped None _ (uses_stream cfg.shape)
        (bind-Leads _ (Building host []) Piped _ _ _ (build_pipeline-Leads host law [] cfg _) (λ b.
          option-Leads Piped None (λ o. Holding (listed (piped o) ++ [])) b.built
            (pure-Leads Piped None _ _ (λ w b. (refl, b)))
            (λ s. with_message-Leads cfg (some s) _)))
        (with_message-Leads cfg none [])

  abbrev Equipped : Stage Ready → World L → Type 0
  Equipped r = Settled pipes_of r.1

  equip-Leads :
      (cfg : Config) (stream message : Slot) (lines : List Line)
      → Leads
          (Holding (slots (stream, message)))
          (equip host cfg stream message lines)
          Equipped
          None
  unfolding equip
  equip-Leads cfg stream message lines =
      bind-Leads _ (λ ws. Holding (slots (stream, message))) Equipped _ _ _
        (quiet host (slots (stream, message)) (λ cs. ⊥) (make_workers-Quiet host cfg cfg.workers 0))
        (λ ws.
          option-Leads Equipped None (λ o. Holding (slots (stream, message))) ws
            (abandon-Leads pipes_of stream message _)
            (λ workers.
              bind-Leads _ (λ b. Holding (slots (stream, message))) Equipped _ _ _
                (quiet host (slots (stream, message)) (λ cs. ⊥) (snapshot_buffers-Quiet host))
                (λ b.
                  option-Leads Equipped None (λ o. Holding (slots (stream, message))) b
                    (abandon-Leads pipes_of stream message _)
                    (λ both'. pure-Leads Equipped None _ _ (λ w b. b)))))

  pub set_up-Leads : (cfg : Config) → Leads (Holding []) (set_up host cfg) Equipped None
  unfolding set_up
  set_up-Leads cfg = bind-Leads _ Piped Equipped _ _ _ (build_pipelines-Leads cfg) (λ r.
      sum-Leads Equipped None (λ s. Settled slots s) r.1
        (λ status. pure-Leads Equipped None _ _ (λ w b. b)) (λ s. equip-Leads cfg s.0 s.1 r.0))
