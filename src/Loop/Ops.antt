-- ===== src/Loop/Ops.antt =====
-- loop/ops.cpp: the rotation of masters and the reopening from a blob, between two iterations; and
-- `worker_main` of loop/worker.cpp, which calls them.
pub mod Sides
pub mod Balance
use itb_cpp.Base.{
  Bool, true, false, ℕ, zero, suc, ◌+◌, ◌-◌, ◌%◌, inl, inr, [], ◌++◌, Option, some, none, Bytes,
  codes, leb, ltb, ◌==◌, ◌&&◌, ◌||◌, replicate, if◌then◌else◌,
}
use itb_cpp.Base.Decimal.{decimal}
use itb_cpp.Binding.World.{spin, M, pure, ◌>>=◌, ffi}
use itb_cpp.Binding.Pipeline.{Pipeline, rekey, load, move_assign, destroy}
use itb_cpp.Loop.Host.{Host}
use itb_cpp.Loop.Payload.{fill_random}
use itb_cpp.Loop.State.{RunState, Site, worker_fail, log_line}
use itb_cpp.Loop.Worker.{Failure, caught, detail, letters_iter}
use itb_cpp.Loop.Iterate.{went, gave_up, mismatch, iterate}

abbrev rekey_master_size : ℕ
rekey_master_size = 32

-- One of the two pipelines, with its profile and its retained blob.
pub data Side : Type 0 where
  stream_side msg_side : Side

abbrev pub pipe_of : Side → RunState → Option Pipeline
pipe_of stream_side r = r.stream_pipe
pipe_of msg_side r = r.msg_pipe

abbrev profile_of : Side → RunState → Bytes
profile_of stream_side r = r.stream_profile
profile_of msg_side r = r.msg_profile

abbrev blob_of : Side → RunState → Bytes
blob_of stream_side r = r.stream_blob
blob_of msg_side r = r.msg_blob

abbrev with_blob : Side → Site → Bytes → Site
with_blob stream_side st blob = record st { run = record st.run { stream_blob = blob } }
with_blob msg_side st blob = record st { run = record st.run { msg_blob = blob } }

abbrev with_pipe : Side → Site → Pipeline → Site
with_pipe stream_side st pipe = record st { run = record st.run { stream_pipe = some pipe } }
with_pipe msg_side st pipe = record st { run = record st.run { msg_pipe = some pipe } }

-- Is the iteration one that the interval names?
abbrev pub is_due : ℕ → ℕ → Bool
is_due zero iter = false
is_due (suc every) iter = iter % suc every == 0

module _ {L : Type 0} (host : Host L) where
  -- `catch (const itb::Error &e)`: the worker error, and `false`.
  failed_call : Bytes → Side → ℕ → Site → Failure → M L (Bool × Site)
  failed_call name side iter st failure = do
    text ← detail host failure.1
    pure (
      false,
      worker_fail st (
          letters_iter st.worker iter
          ++ codes ": "
          ++ name
          ++ codes "("
          ++ profile_of side st.run
          ++ codes "): "
          ++ text),
    )

  -- A fresh master, or no bytes for a disabled layer.
  master : Bool → M L (Bool × Bytes)
  master enabled =
      if enabled then fill_random host (replicate rekey_master_size 0) else pure (true, [])

  rekey_side : Side → Bytes → Bytes → ℕ → Site → M L (Bool × Site)
  rekey_side side perm wrap iter st = elim (pipe_of side st.run) [
    | none ↦ pure (true, st)
    | some pipe ↦ caught [] (rekey host.lib pipe perm wrap) >>= λ r. elim r [
      | inl failure ↦ failed_call (codes "Rekey") side iter st failure
      | inr blob ↦ pure (true, with_blob side st blob)
    ]
  ]

  abbrev and_then : M L (Bool × Site) → (Site → M L (Bool × Site)) → M L (Bool × Site)
  and_then m f = m >>= λ r. if r.0 then f r.1 else pure (false, r.1)

  abbrev csprng_failed : Site → ℕ → Bytes → M L (Bool × Site)
  csprng_failed st iter layer = pure (
    false,
    worker_fail st (letters_iter st.worker iter ++ codes ": csprng: " ++ layer ++ codes " master"),
  )

  abbrev rotated : ℕ → Site → Site
  rotated iter st =
      let n = st.run.rekeys + 1 in
      log_line (record st { run = record st.run { rekeys = n } })
        (codes "rekey: "
          ++ letters_iter st.worker iter
          ++ codes " rotated parallax + wrapper masters (rekey #"
          ++ decimal n
          ++ codes ")")

  unfoldable pub rekey_pipes : ℕ → Site → M L (Bool × Site)
  unfolding rekey_side failed_call master
  rekey_pipes iter st = do
    perm ← master st.run.cfg.parallax
    if perm.0
        then (do
          wrap ← master st.run.cfg.wrapper
          if wrap.0
              then and_then (rekey_side stream_side perm.1 wrap.1 iter st) (λ st'.
                and_then (rekey_side msg_side perm.1 wrap.1 iter st')
                  (λ st''. pure (true, rotated iter st'')))
              else csprng_failed st iter (codes "wrapper"))
        else csprng_failed st iter (codes "parallax")

  -- The fresh pipeline is moved over the running one, which frees it; what is left of the fresh
  -- object is destroyed.
  reopen_side : Side → ℕ → Site → M L (Bool × Site)
  reopen_side side iter st = elim (pipe_of side st.run) [
    | none ↦ pure (true, st)
    | some pipe ↦ caught [] (load host.lib (blob_of side st.run) [] []) >>= λ r. elim r [
      | inl failure ↦ failed_call (codes "Load") side iter st failure
      | inr fresh ↦ move_assign host.lib false pipe fresh >>= λ moved.
          (destroy host.lib moved.1 >>= λ _. pure (true, with_pipe side st moved.0))
    ]
  ]

  abbrev reopened : ℕ → Site → Site
  reopened iter st =
      let n = st.run.blob_cycles + 1 in
      log_line (record st { run = record st.run { blob_cycles = n } })
        (codes "blob-cycle: "
          ++ letters_iter st.worker iter
          ++ codes " reopened from session blob (cycle #"
          ++ decimal n
          ++ codes ")")

  unfoldable pub blob_cycle_pipes : ℕ → Site → M L (Bool × Site)
  unfolding reopen_side failed_call
  blob_cycle_pipes iter st =
      and_then (reopen_side stream_side iter st)
        (λ st'. and_then (reopen_side msg_side iter st') (λ st''. pure (true, reopened iter st'')))

  unfoldable pub worker_maintenance : ℕ → Site → M L (Bool × Site)
  worker_maintenance iter st =
      and_then (if is_due st.run.cfg.rekey_every iter then rekey_pipes iter st else pure (true, st))
        (λ st'.
          if is_due st'.run.cfg.blob_cycle_every iter
          then blob_cycle_pipes iter st'
          else pure (true, st'))

  -- `worker_done`.
  unfoldable pub worker_done : Site → M L Site
  worker_done st = do
    now ← ffi host.now_ns
    let left = st.run.active - 1
    pure (record st {
      run =
          if left == 0
          then record st.run { active = left; finish_ns = now }
          else record st.run { active = left };
    })

  -- The main loop from the iteration `iter`, in at most so many rounds; the flag tells whether the
  -- process goes on. `fuel` bounds the loops of a pump.
  pub main_loop : ℕ → ℕ → ℕ → Site → M L (Bool × Site)
  main_loop fuel zero iter st = λ w. spin w
  main_loop fuel (suc rounds) iter st =
      let cfg = st.run.cfg in
      let body =
        (iterate host fuel iter st >>= λ r. elim r.0 [
          | mismatch ↦ pure (false, r.1)
          | gave_up ↦ pure (true, r.1)
          | went ↦ worker_maintenance iter r.1 >>= λ m.
              let rest = main_loop fuel rounds (suc iter) m.1 in
              if m.0 then rest else pure (true, m.1)
        ]) in
      if (ltb 0 cfg.iterations && leb cfg.iterations iter) || st.run.stop
      then pure (true, st)
      else body

  -- The two barriers stand between the warmup and the loop; one worker's calls show neither.
  unfoldable pub worker_main : ℕ → ℕ → Site → M L (Bool × Site)
  worker_main fuel rounds st = do
    warm ← iterate host fuel 0 st
    ended ← elim warm.0 [
      | mismatch ↦ pure (false, warm.1)
      | gave_up ↦ pure (true, warm.1)
      | went ↦ main_loop fuel rounds 1 warm.1
    ]
    if ended.0 then (do st' ← worker_done ended.1; pure (true, st')) else pure ended
