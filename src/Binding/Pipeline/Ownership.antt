-- ===== src/Binding/Pipeline/Ownership.antt =====
-- Programs that open, move, assign and destroy pipelines: who owns which handle.
use itb_cpp.Base.{
  ℕ, zero, suc, ◌+◌, ◌<◌, ◌≡◌, ◌≢◌, refl, arith, List, [], ◌∷◌, ltb, ◌==◌, ==_iff, if◌then◌else◌,
  ◌&&◌, length, get_or, set, Bool-cases, inl, inr,
}
use itb_cpp.Binding.World.{Library, World, Call, pipe_opened, pipe_freed, ret, M, pure, ◌>>=◌}
use itb_cpp.Binding.Pipeline.{
  Pipeline, no_pipeline, free_handle, destroy, move_construct, move_assign,
}

-- The statements of a program, on objects named by their place in the list of objects made so far.
-- `opens h` is a constructing entry that was given the handle `h`.
pub data Op : Type 0 where
  opens : ℕ → Op
  moves : ℕ → Op
  assigns : ℕ → ℕ → Op
  destroys : ℕ → Op

abbrev object : List Pipeline → ℕ → Pipeline
object objs i = get_or objs i no_pipeline

module _ {L : Type 0} (lib : Library L) where
  assign_at : ℕ → ℕ → List Pipeline → M L (List Pipeline)
  assign_at i j objs = do
    (this, other) ← move_assign lib (i == j) (object objs i) (object objs j)
    pure (set (set objs i this) j other)

  -- A fresh handle in its object; a ghost entry says that it is open.
  abbrev adopt : ℕ → M L Pipeline
  adopt h w = ret (record { handle = h }) (record w { calls = pipe_opened h ∷ w.calls })

  step : Op → List Pipeline → M L (List Pipeline)
  unfolding assign_at
  step (opens h) objs = do p ← adopt h; pure (p ∷ objs)
  step (moves i) objs =
      let (new, old) = move_construct (object objs i) in pure (new ∷ set objs i old)
  step (assigns i j) objs =
      if ltb i (length objs) && ltb j (length objs) then assign_at i j objs else pure objs
  step (destroys i) objs = do p ← destroy lib (object objs i); pure (set objs i p)

  pub run : List Op → List Pipeline → M L (List Pipeline)
  run [] objs = pure objs
  run (op ∷ ops) objs = do objs' ← step op objs; run ops objs'

-- 1 if the two handles are the same.
abbrev pub one : ℕ → ℕ → ℕ
one h k = if k == h then 1 else 0

unfoldable pub opened : ℕ → List Call → ℕ
opened h [] = 0
opened h (pipe_opened k ∷ cs) = one h k + opened h cs
opened h (c ∷ cs) = opened h cs

unfoldable pub freed : ℕ → List Call → ℕ
freed h [] = 0
freed h (pipe_freed k ∷ cs) = one h k + freed h cs
freed h (c ∷ cs) = freed h cs

-- The objects that hold the handle.
unfoldable pub held : ℕ → List Pipeline → ℕ
held h [] = 0
held h (p ∷ ps) = one h p.handle + held h ps

held-set :
    (h : ℕ) (ps : List Pipeline) (i : ℕ) (p : Pipeline)
    → i < length ps
    → held h (set ps i p) + one h (object ps i).handle ≡ held h ps + one h p.handle
unfolding held
held-set h [] i p lt = absurd (omega arith)
held-set h (q ∷ ps) zero p lt = omega arith
held-set h (q ∷ ps) (suc i) p lt = omega (arith, held-set h ps i p (omega arith))

-- A place out of range holds nothing, and a write there changes nothing.
held-set_clear :
    (h : ℕ) (ps : List Pipeline) (i : ℕ)
    → h ≢ 0
    → held h (set ps i no_pipeline) + one h (object ps i).handle ≡ held h ps
unfolding held
held-set_clear h [] i nz = ground arith
held-set_clear h (q ∷ ps) zero nz = ground arith
held-set_clear h (q ∷ ps) (suc i) nz = omega (arith, held-set_clear h ps i nz)

object-set_ne :
    (ps : List Pipeline) (i j : ℕ) (p : Pipeline) → i ≢ j → object (set ps i p) j ≡ object ps j
object-set_ne [] i j p ne = refl
object-set_ne (q ∷ ps) zero zero p ne = absurd (ne refl)
object-set_ne (q ∷ ps) zero (suc j) p ne = refl
object-set_ne (q ∷ ps) (suc i) zero p ne = refl
object-set_ne (q ∷ ps) (suc i) (suc j) p ne = object-set_ne ps i j p (λ e. ne (omega arith))

-- A second write, to the same place and to another one.
held-set_self :
    (h : ℕ) (ps : List Pipeline) (i j : ℕ) (p : Pipeline)
    → i ≡ j
    → j < length ps
    → held h (set (set ps i (object ps i)) j (object ps j)) ≡ held h (set ps i (object ps i))
unfolding held
held-set_self h [] i j p e lt = refl
held-set_self h (q ∷ ps) zero zero p e lt = refl
held-set_self h (q ∷ ps) zero (suc j) p e lt = absurd (omega arith)
held-set_self h (q ∷ ps) (suc i) zero p e lt = absurd (omega arith)
held-set_self h (q ∷ ps) (suc i) (suc j) p e lt =
    omega (arith, held-set_self h ps i j p (omega arith) (omega arith))

held-set_other :
    (h : ℕ) (ps : List Pipeline) (i j : ℕ) (p : Pipeline)
    → i ≢ j
    → h ≢ 0
    → held h (set (set ps i p) j no_pipeline) + one h (object ps j).handle ≡ held h (set ps i p)
held-set_other h ps i j p ne nz =
    rw (← object-set_ne ps i j p ne) (held-set_clear h (set ps i p) j nz)

-- Each handle has been opened as often as it has been freed or is held now.
abbrev pub Balanced : List Call → List Pipeline → Type 0
Balanced cs objs = (h : ℕ) → h ≢ 0 → opened h cs ≡ freed h cs + held h objs

module _ {L : Type 0} (lib : Library L) where
  -- The step returns, and leaves a balance.
  abbrev Lands : M L (List Pipeline) → World L → Type 0
  Lands m w = (objs : List Pipeline) × (w' : World L) × (m w ≡ ret objs w') × Balanced w'.calls objs

  -- Freeing a handle is entered once, unless it is the null handle.
  pub free_handle_lem :
      (h : ℕ) (w : World L)
      → (w' : World L) × (free_handle lib h w ≡ ret tt w')
        × ((k : ℕ)
            → k ≢ 0
            → (opened k w'.calls ≡ opened k w.calls)
              × (freed k w'.calls ≡ freed k w.calls + one k h))
  unfolding free_handle opened freed
  free_handle_lem zero w = (w, refl, λ k nz. ground arith)
  free_handle_lem (suc h) w = (
    record w { lib = (lib.free (suc h) w.lib).1; calls = pipe_freed (suc h) ∷ w.calls },
    ground arith,
    λ k nz. ground arith,
  )

  assign_Lands :
      (i j : ℕ) (objs : List Pipeline) (w : World L)
      → i < length objs
      → j < length objs
      → Balanced w.calls objs
      → Lands (assign_at lib i j objs) w
  unfolding assign_at move_assign
  assign_Lands i j objs w li lj b = elim (Bool-cases (i == j)) [
    | inl same ↦ (
      set (set objs i (object objs i)) j (object objs j),
      w,
      rw same,
      λ k nz.
          let e = (==_iff i j).0 same in
          omega (
            arith,
            b k nz,
            held-set k objs i (object objs i) li,
            held-set_self k objs i j no_pipeline e lj,
          ),
    )
    | inr other ↦
        let p : Pipeline = record { handle = (object objs j).handle } in
        let (w', e, counts) = free_handle_lem (object objs i).handle w in
        (
          set (set objs i p) j no_pipeline,
          w',
          rw (other, e, ◌>>=◌),
          λ k nz.
              let ne : i ≢ j = ground arith in
              omega (
                arith,
                b k nz,
                counts k nz,
                held-set k objs i p li,
                held-set_other k objs i j p ne nz,
              ),
        )
  ]

  step-Lands :
      (op : Op) (objs : List Pipeline) (w : World L)
      → Balanced w.calls objs
      → Lands (step lib op objs) w
  unfolding step
  step-Lands (opens h) objs w b =
      unfold opened freed held in (_, _, refl, λ k nz. omega (arith, b k nz))
  step-Lands (moves i) objs w b =
      unfold move_construct held in
      (_, w, refl, λ k nz. omega (arith, b k nz, held-set_clear k objs i nz))
  step-Lands (assigns i j) objs w b =
      elim (Bool-cases (ltb i (length objs) && ltb j (length objs))) [
        | inl t ↦ rw t (assign_Lands i j objs w (ground arith) (ground arith) b)
        | inr f ↦ rw f (objs, w, refl, b)
      ]
  step-Lands (destroys i) objs w b =
      let (w', e, counts) = free_handle_lem (object objs i).handle w in
      (
        set objs i no_pipeline,
        w',
        unfold destroy in rw (e, ◌>>=◌),
        λ k nz. omega (arith, b k nz, counts k nz, held-set_clear k objs i nz),
      )

  -- From a world in which each handle other than 0 has been opened as often as it was freed or is
  -- held, every program on pipelines runs through without a throw, to a world with the same balance:
  -- no handle is freed twice or lost.
  pub run-Balanced :
      (ops : List Op) (objs : List Pipeline) (w : World L)
      → Balanced w.calls objs
      → (objs' : List Pipeline) × (w' : World L) × (run lib ops objs w ≡ ret objs' w')
        × Balanced w'.calls objs'
  unfolding run
  run-Balanced [] objs w b = (objs, w, refl, b)
  run-Balanced (op ∷ ops) objs w b =
      let (objs', w', e, b') = step-Lands op objs w b in
      let (objs'', w'', e', b'') = run-Balanced ops objs' w' b' in
      (objs'', w'', rw (e, ◌>>=◌) e', b'')
