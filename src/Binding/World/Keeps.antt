-- ===== src/Binding/World/Keeps.antt =====
-- Invariants of the world: rules for the steps of a function, errors included.
use itb_cpp.Base.{Bool, true, false, if◌then◌else◌}
use itb_cpp.Binding.World.{
  World, Outcome, ret, raise, spin, M, world, pure, throw, Exn, ◌>>=◌, ffi, finally,
}

-- From a world with the invariant, every way out leads to a world with it.
pub record Keeps {L A : Type 0} (I : World L → Type 0) (m : M L A) : Type 0 where
  pub keeps : (w : World L) → I w → I (world (m w))

-- The invariant does not speak of the library's own state.
abbrev pub IsStable : {L : Type 0} → (World L → Type 0) → Type 0
IsStable {L} I = (w : World L) (l : L) → I w → I (record w { lib = l })

module _ {L : Type 0} (I : World L → Type 0) where
  pub bind-outcome :
      {A B : Type 0} (o : Outcome L A) (f : A → M L B)
      → I (world o)
      → ((a : A) → Keeps I (f a))
      → I (world (elim o [ ret a w' ↦ f a w' | raise e w' ↦ raise e w' | spin w' ↦ spin w' ]))
  bind-outcome (ret a w) f i k = (k a).keeps w i
  bind-outcome (raise e w) f i k = i
  bind-outcome (spin w) f i k = i

  finally-outcome :
      {A : Type 0} (o : Outcome L A) (dtor : M L (Unit {0}))
      → I (world o)
      → Keeps I dtor
      → I (
          world (elim o [
            | ret a w' ↦ (dtor >>= λ _. pure a) w'
            | raise e w' ↦ (dtor >>= λ _. throw {L = L} {A = A} e) w'
            | spin w' ↦ spin w'
          ]))
  finally-outcome (ret a w) dtor i k =
      bind-outcome (dtor w) (λ _. pure a) (k.keeps w i) (λ _. record { keeps = λ w i. i })
  finally-outcome {A} (raise e w) dtor i k =
      bind-outcome (dtor w) (λ _. throw {L = L} {A = A} e) (k.keeps w i)
        (λ _. record { keeps = λ w i. i })
  finally-outcome (spin w) dtor i k = i

module _ {L : Type 0} {I : World L → Type 0} where
  pub bind-Keeps :
      {A B : Type 0} {m : M L A} {f : A → M L B}
      → Keeps I m
      → ((a : A) → Keeps I (f a))
      → Keeps I (m >>= f)
  bind-Keeps {m = m} {f = f} h k = record { keeps = λ w i. bind-outcome I (m w) f (h.keeps w i) k }

  pub if-Keeps :
      {A : Type 0} (b : Bool) {m k : M L A} → Keeps I m → Keeps I k → Keeps I (if b then m else k)
  if-Keeps true h h' = h
  if-Keeps false h h' = h'

  pub pure-Keeps : {A : Type 0} {a : A} → Keeps I (pure {L = L} {A = A} a)
  pure-Keeps = record { keeps = λ w i. i }

  pub throw-Keeps : {A : Type 0} {e : Exn} → Keeps I (throw {L = L} {A = A} e)
  throw-Keeps = record { keeps = λ w i. i }

  pub ffi-Keeps : {A : Type 0} (f : L → A × L) → IsStable I → Keeps I (ffi f)
  ffi-Keeps f s = record { keeps = λ w i. s w (f w.lib).1 i }

  pub finally-Keeps :
      {A : Type 0} {m : M L A} {dtor : M L (Unit {0})}
      → Keeps I m
      → Keeps I dtor
      → Keeps I (finally m dtor)
  finally-Keeps {m = m} {dtor = dtor} h k = record {
    keeps = λ w i. finally-outcome I (m w) dtor (h.keeps w i) k;
  }

-- A step that leads to the invariant, with steps behind it that keep it.
pub bind_leads :
    {L : Type 0} (I : World L → Type 0) {A B : Type 0} (m : M L A) (f : A → M L B) (w : World L)
    → I (world (m w))
    → ((a : A) → Keeps I (f a))
    → I (world ((m >>= f) w))
bind_leads I m f w h k = bind-outcome I (m w) f h k

-- A function that is put together from steps with the invariant keeps it.
pub ruleset keeps_rules = (bind-Keeps, if-Keeps, pure-Keeps, throw-Keeps, ffi-Keeps, finally-Keeps)
