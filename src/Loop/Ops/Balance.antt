-- ===== src/Loop/Ops/Balance.antt =====
-- The pipelines of the run state through the maintenance of loop/ops.cpp.
use itb_cpp.Base.{
  Bool, true, false, ℕ, ◌≡◌, inl, inr, refl, List, [], ◌∷◌, ◌++◌, some, none, Bytes, codes, sym,
  subst,
}
use itb_cpp.Binding.World.{World, M, pure, ◌>>=◌}
use itb_cpp.Binding.World.Ways.{
  Leads, bind-Leads, sum-Leads, option-Leads, if-Leads, pure-Leads, given-Leads, after-Leads,
  frame-Leads, before-Leads, if-Quiet, pure-Quiet,
}
use itb_cpp.Binding.Pipeline.{Pipeline, load, move_assign, destroy}
use itb_cpp.Binding.Pipeline.Opening.{load-Leads}
use itb_cpp.Binding.Pipeline.Ownership.{Balanced}
use itb_cpp.Binding.Pipeline.Quiet.{rekey-Quiet}
use itb_cpp.Loop.Host.{Host}
use itb_cpp.Loop.State.{RunState, Site, worker_fail, log_line}
use itb_cpp.Loop.Worker.{Failure, caught, detail}
use itb_cpp.Loop.Ops.{
  Side, stream_side, msg_side, pipe_of, blob_of, with_pipe, and_then, failed_call, master,
  rekey_side, rekey_pipes, reopen_side, blob_cycle_pipes, worker_maintenance, is_due,
}
use itb_cpp.Loop.Main.Caught.{Seen, caught-Leads}
use itb_cpp.Loop.Main.Quiet.{detail-Quiet, fill_random-Quiet}
use itb_cpp.Loop.Main.Balance.{Holding, None, listed, quiet, destroy-Leads}
use itb_cpp.Loop.Ops.Sides.{
  Owned, SameSlots, beside, turned, placed, blob-Kept, Kept, move_assign-Leads,
}

module _ {L : Type 0} (host : Host L) where
  failed_call-Leads :
      (name : Bytes) (side : Side) (iter : ℕ) (st : Site) (failure : Failure)
      → Leads (Owned st.run) (failed_call host name side iter st failure) (Kept st.run) None
  unfolding failed_call
  failed_call-Leads name side iter st failure =
      bind-Leads _ (λ text. Owned st.run) (Kept st.run) _ (detail host failure.1) _
        (quiet host _ (λ cs. ⊥) (detail-Quiet host failure.1))
        (λ text. unfold worker_fail in pure-Leads (Kept st.run) None _ _ (λ w b. (b, (refl, refl))))

  -- With this pipeline first, and the others behind.
  reopened-Leads :
      (side : Side) (iter : ℕ) (st : Site) (p : Pipeline)
      → pipe_of side st.run ≡ some p
      → Leads
          (Holding (p ∷ beside side st.run))
          (caught [] (load host.lib (blob_of side st.run) [] []) >>= λ r. elim r [
            | inl failure ↦ failed_call host (codes "Load") side iter st failure
            | inr fresh ↦ move_assign host.lib false p fresh >>= λ moved.
                (destroy host.lib moved.1 >>= λ _. pure (true, with_pipe side st moved.0))
          ])
          (Kept st.run)
          None
  reopened-Leads side iter st p e =
      bind-Leads _
        (Seen (λ fresh. Holding (fresh ∷ p ∷ beside side st.run))
          (Holding (p ∷ beside side st.run)))
        (Kept st.run) _ _ _
        (caught-Leads _ _ _ _ [] _
          (load-Leads host.lib (p ∷ beside side st.run) (blob_of side st.run) [] []))
        (λ r.
          sum-Leads (Kept st.run) None
            (Seen (λ fresh. Holding (fresh ∷ p ∷ beside side st.run))
              (Holding (p ∷ beside side st.run)))
            r
            (λ failure.
              before-Leads _ (Owned st.run) (Kept st.run) _ _
                (λ w b.
                  (turned side st.run w).1
                    (subst (λ o. Holding (listed o ++ beside side st.run) w) (sym e) b))
                (failed_call-Leads (codes "Load") side iter st failure))
            (λ fresh.
              bind-Leads _ (λ moved. Holding (moved.1 ∷ moved.0 ∷ beside side st.run)) (Kept st.run)
                _ _ _ (move_assign-Leads host (beside side st.run) p fresh)
                (λ moved.
                  bind-Leads _ (λ q. Holding (moved.0 ∷ beside side st.run)) (Kept st.run) _ _ _
                    (destroy-Leads host (moved.0 ∷ beside side st.run) None moved.1)
                    (λ q.
                      pure-Leads (Kept st.run) None _ _ (λ w b. placed side st p moved.0 w e b)))))

  -- A case split on the pipeline of a side, which is the first one then.
  side-Leads :
      (side : Side) (st : Site) {m : M L (Bool × Site)} {f : Pipeline → M L (Bool × Site)}
      → Leads (Owned st.run) m (Kept st.run) None
      → ((p : Pipeline)
          → pipe_of side st.run ≡ some p
          → Leads (Holding (p ∷ beside side st.run)) (f p) (Kept st.run) None)
      → Leads
          (Owned st.run)
          (elim (pipe_of side st.run) [ none ↦ m | some p ↦ f p ])
          (Kept st.run)
          None
  side-Leads side st {m} {f} h k =
      before-Leads _
        (λ w.
          (pipe_of side st.run ≡ pipe_of side st.run)
          × Holding (listed (pipe_of side st.run) ++ beside side st.run) w)
        (Kept st.run) _ _ (λ w b. (refl, (turned side st.run w).0 b))
        (option-Leads (Kept st.run) None
          (λ o w. (pipe_of side st.run ≡ o) × Holding (listed o ++ beside side st.run) w)
          (pipe_of side st.run)
          (given-Leads (pipe_of side st.run ≡ none) _ (Kept st.run) None m (λ e.
            before-Leads _ (Owned st.run) (Kept st.run) _ _
              (λ w b.
                (turned side st.run w).1
                  (subst (λ o. Holding (listed o ++ beside side st.run) w) (sym e) b))
              h))
          (λ p. given-Leads (pipe_of side st.run ≡ some p) _ (Kept st.run) None (f p) (k p)))

  reopen_side-Leads :
      (side : Side) (iter : ℕ) (st : Site)
      → Leads (Owned st.run) (reopen_side host side iter st) (Kept st.run) None
  unfolding reopen_side
  reopen_side-Leads side iter st =
      side-Leads side st (pure-Leads (Kept st.run) None _ _ (λ w b. (b, (refl, refl))))
        (reopened-Leads side iter st)

  rekey_side-Leads :
      (side : Side) (perm wrap : Bytes) (iter : ℕ) (st : Site)
      → Leads (Owned st.run) (rekey_side host side perm wrap iter st) (Kept st.run) None
  unfolding rekey_side
  rekey_side-Leads side perm wrap iter st =
      option-Leads (Kept st.run) None (λ o. Owned st.run) (pipe_of side st.run)
        (pure-Leads (Kept st.run) None _ _ (λ w b. (b, (refl, refl))))
        (λ p.
          bind-Leads _ (Seen (λ blob. Owned st.run) (Owned st.run)) (Kept st.run) _ _ _
            (caught-Leads _ _ _ _ [] _
              (quiet host _ (λ cs. Balanced cs _) (rekey-Quiet host.lib p perm wrap)))
            (λ r.
              sum-Leads (Kept st.run) None (Seen (λ blob. Owned st.run) (Owned st.run)) r
                (λ failure. failed_call-Leads (codes "Rekey") side iter st failure)
                (λ blob. pure-Leads (Kept st.run) None _ _ (blob-Kept side st blob))))

  and_then-Leads :
      (run : RunState) (P : World L → Type 0) (m : M L (Bool × Site)) (f : Site → M L (Bool × Site))
      → Leads P m (Kept run) None
      → ((st : Site) → Leads (Owned st.run) (f st) (Kept st.run) None)
      → Leads P (and_then host m f) (Kept run) None
  and_then-Leads run P m f h k = bind-Leads _ (Kept run) (Kept run) _ m _ h (λ r.
      if-Leads (Kept run) None _ r.0
        (after-Leads _ (λ r' w. Kept r.1.run r' w × SameSlots run r.1.run) (Kept run) None (f r.1)
          (λ r' w p. (p.0.0, (cc (p.1.0, p.0.1.0), cc (p.1.1, p.0.1.1))))
          (frame-Leads (SameSlots run r.1.run) _ _ _ _ (k r.1)))
        (pure-Leads (Kept run) None _ _ (λ w p. p)))

  blob_cycle_pipes-Leads :
      (iter : ℕ) (st : Site)
      → Leads (Owned st.run) (blob_cycle_pipes host iter st) (Kept st.run) None
  unfolding blob_cycle_pipes log_line
  blob_cycle_pipes-Leads iter st =
      and_then-Leads st.run _ _ _ (reopen_side-Leads stream_side iter st) (λ st'.
        and_then-Leads st'.run _ _ _ (reopen_side-Leads msg_side iter st')
          (λ st''. pure-Leads (Kept st''.run) None _ _ (λ w b. (b, (refl, refl)))))

  master-Leads :
      (objs : List Pipeline) (enabled : Bool)
      → Leads (Holding objs) (master host enabled) (λ r. Holding objs) None
  unfolding master
  master-Leads objs enabled =
      quiet host objs (λ cs. ⊥) (if-Quiet enabled (fill_random-Quiet host _) pure-Quiet)

  rekey_pipes-Leads :
      (iter : ℕ) (st : Site) → Leads (Owned st.run) (rekey_pipes host iter st) (Kept st.run) None
  unfolding rekey_pipes log_line worker_fail
  rekey_pipes-Leads iter st =
      bind-Leads _ (λ r. Owned st.run) (Kept st.run) _ (master host st.run.cfg.parallax) _
        (master-Leads _ st.run.cfg.parallax)
        (λ perm.
          if-Leads (Kept st.run) None _ perm.0
            (bind-Leads _ (λ r. Owned st.run) (Kept st.run) _ (master host st.run.cfg.wrapper) _
              (master-Leads _ st.run.cfg.wrapper)
              (λ wrap.
                if-Leads (Kept st.run) None _ wrap.0
                  (and_then-Leads st.run _ _ _ (rekey_side-Leads stream_side perm.1 wrap.1 iter st)
                    (λ st'.
                      and_then-Leads st'.run _ _ _
                        (rekey_side-Leads msg_side perm.1 wrap.1 iter st')
                        (λ st''. pure-Leads (Kept st''.run) None _ _ (λ w b. (b, (refl, refl))))))
                  (pure-Leads (Kept st.run) None _ _ (λ w b. (b, (refl, refl))))))
            (pure-Leads (Kept st.run) None _ _ (λ w b. (b, (refl, refl)))))

  pub worker_maintenance-Leads :
      (iter : ℕ) (st : Site)
      → Leads (Owned st.run) (worker_maintenance host iter st) (Kept st.run) None
  unfolding worker_maintenance
  worker_maintenance-Leads iter st =
      and_then-Leads st.run _ _ _
        (if-Leads (Kept st.run) None _ (is_due st.run.cfg.rekey_every iter)
          (rekey_pipes-Leads iter st)
          (pure-Leads (Kept st.run) None _ _ (λ w b. (b, (refl, refl)))))
        (λ st'.
          if-Leads (Kept st'.run) None _ (is_due st'.run.cfg.blob_cycle_every iter)
            (blob_cycle_pipes-Leads iter st')
            (pure-Leads (Kept st'.run) None _ _ (λ w b. (b, (refl, refl)))))
