-- ===== src/Loop/Ops/Sides.antt =====
-- The pipelines of the run state by side, with the loading and the replacing of one.
use itb_cpp.Base.{
  Bool, true, false, ◌≡◌, refl, sym, ap, arith, List, [], ◌∷◌, ◌++◌, Option, some, none, Bytes,
}
use itb_cpp.Binding.World.{World, ◌>>=◌}
use itb_cpp.Binding.World.Ways.{Leads}
use itb_cpp.Binding.Pipeline.{Pipeline, move_assign}
use itb_cpp.Binding.Pipeline.Ownership.{held, free_handle_lem}
use itb_cpp.Loop.Host.{Host}
use itb_cpp.Loop.State.{RunState, Site}
use itb_cpp.Loop.Ops.{Side, stream_side, msg_side, pipe_of, with_pipe, with_blob}
use itb_cpp.Loop.Main.Balance.{Holding, None, listed}

-- The pipelines of the run state are the only ones that are open.
abbrev pub Owned : {L : Type 0} → RunState → World L → Type 0
Owned run = Holding (listed run.msg_pipe ++ (listed run.stream_pipe ++ []))

abbrev pub other : Side → Side
other stream_side = msg_side
other msg_side = stream_side

abbrev pub beside : Side → RunState → List Pipeline
beside side run = listed (pipe_of (other side) run) ++ []

swapped :
    {L : Type 0} (a b : Option Pipeline) (w : World L)
    → Holding (listed a ++ (listed b ++ [])) w
    → Holding (listed b ++ (listed a ++ [])) w
unfolding held
swapped none none w h = h
swapped none (some q) w h = h
swapped (some p) none w h = h
swapped (some p) (some q) w h = λ k nz. omega (arith, h k nz)

-- One side first.
pub turned :
    {L : Type 0} (side : Side) (run : RunState) (w : World L)
    → (Owned run w → Holding (listed (pipe_of side run) ++ beside side run) w)
      × (Holding (listed (pipe_of side run) ++ beside side run) w → Owned run w)
turned stream_side run w =
    (swapped run.msg_pipe run.stream_pipe w, swapped run.stream_pipe run.msg_pipe w)
turned msg_side run w = (λ h. h, λ h. h)

abbrev filled : Option Pipeline → Bool
filled none = false
filled (some p) = true

-- The slots that hold a pipeline are the same ones.
abbrev pub SameSlots : RunState → RunState → Type 0
SameSlots run run' =
    (filled run'.stream_pipe ≡ filled run.stream_pipe)
    × (filled run'.msg_pipe ≡ filled run.msg_pipe)

-- What a step leaves that began with this run state.
abbrev pub Kept : {L : Type 0} → RunState → Bool × Site → World L → Type 0
Kept run r w = Owned r.1.run w × SameSlots run r.1.run

-- The new pipeline in its place.
pub placed :
    {L : Type 0} (side : Side) (st : Site) (p p' : Pipeline) (w : World L)
    → pipe_of side st.run ≡ some p
    → Holding (p' ∷ beside side st.run) w
    → Kept st.run (true, with_pipe side st p') w
placed stream_side st p p' w e b =
    (swapped (some p') st.run.msg_pipe w b, (sym (ap filled e), refl))
placed msg_side st p p' w e b = (b, (refl, sym (ap filled e)))

pub blob-Kept :
    {L : Type 0} (side : Side) (st : Site) (blob : Bytes) (w : World L)
    → Owned st.run w
    → Kept st.run (true, with_blob side st blob) w
blob-Kept stream_side st blob w b = (b, (refl, refl))
blob-Kept msg_side st blob w b = (b, (refl, refl))

module _ {L : Type 0} (host : Host L) where
  pub move_assign-Leads :
      (objs : List Pipeline) (p fresh : Pipeline)
      → Leads
          (Holding (fresh ∷ p ∷ objs))
          (move_assign host.lib false p fresh)
          (λ r. Holding (r.1 ∷ r.0 ∷ objs))
          None
  unfolding move_assign
  move_assign-Leads objs p fresh = record {
    leads = λ w b.
        let (w', e, counts) = free_handle_lem host.lib p.handle w in
        rw (e, ◌>>=◌) (λ k nz. unfold held in ground (arith, b k nz, counts k nz));
  }
