-- ===== src/Binding/World/Returned.antt =====
-- What holds of a step's value and world if the step returns.
use itb_cpp.Base.{Bool, true, false, ◌≡◌, refl, if◌then◌else◌}
use itb_cpp.Binding.World.{World, Outcome, ret, raise, spin, M, pure, throw, ◌>>=◌, finally}

abbrev pub Holds : {L A : Type 0} → (A → World L → Type 0) → Outcome L A → Type 0
Holds P (ret a w) = P a w
Holds P (raise e w) = Unit
Holds P (spin w) = Unit

-- From a world with `P`, the step returns only with `Q` of its value and world.
pub record Returned {L A : Type 0} (P : World L → Type 0) (m : M L A) (Q : A → World L → Type 0)
    : Type 0 where
  pub holds : (w : World L) → P w → Holds Q (m w)

module _ {L A B : Type 0} where
  bind-Holds :
      (Q : A → World L → Type 0) (R : B → World L → Type 0) (o : Outcome L A) (f : A → M L B)
      → Holds Q o
      → ((a : A) → Returned (Q a) (f a) R)
      → Holds R (elim o [ ret a w' ↦ f a w' | raise e w' ↦ raise e w' | spin w' ↦ spin w' ])
  bind-Holds Q R (ret a w) f h k = (k a).holds w h
  bind-Holds Q R (raise e w) f h k = tt
  bind-Holds Q R (spin w) f h k = tt

  pub bind-Returned :
      (P : World L → Type 0) (Q : A → World L → Type 0) (R : B → World L → Type 0) (m : M L A)
      (f : A → M L B)
      → Returned P m Q
      → ((a : A) → Returned (Q a) (f a) R)
      → Returned P (m >>= f) R
  bind-Returned P Q R m f h k = record { holds = λ w p. bind-Holds Q R (m w) f (h.holds w p) k }

module _ {L A : Type 0} where
  pub if-Returned :
      (P : World L → Type 0) (Q : A → World L → Type 0) (b : Bool) (m k : M L A)
      → (b ≡ true → Returned P m Q)
      → (b ≡ false → Returned P k Q)
      → Returned P (if b then m else k) Q
  if-Returned P Q true m k h h' = h refl
  if-Returned P Q false m k h h' = h' refl

  weaken-Holds :
      (Q R : A → World L → Type 0) (o : Outcome L A)
      → Holds Q o
      → ((a : A) (w : World L) → Q a w → R a w)
      → Holds R o
  weaken-Holds Q R (ret a w) h k = k a w h
  weaken-Holds Q R (raise e w) h k = tt
  weaken-Holds Q R (spin w) h k = tt

  pub weaken-Returned :
      (P : World L → Type 0) (Q R : A → World L → Type 0) (m : M L A)
      → Returned P m Q
      → ((a : A) (w : World L) → Q a w → R a w)
      → Returned P m R
  weaken-Returned P Q R m h k = record { holds = λ w p. weaken-Holds Q R (m w) (h.holds w p) k }

  finally-Holds :
      (Q : A → World L → Type 0) (o : Outcome L A) (dtor : M L (Unit {0}))
      → Holds Q o
      → ((a : A) → Returned (Q a) dtor (λ _. Q a))
      → Holds Q (elim o [
        | ret a w' ↦ (dtor >>= λ _. pure a) w'
        | raise e w' ↦ (dtor >>= λ _. throw {L = L} {A = A} e) w'
        | spin w' ↦ spin w'
      ])
  finally-Holds Q (ret a w) dtor h k =
      bind-Holds (λ _. Q a) Q (dtor w) (λ _. pure a) ((k a).holds w h)
        (λ _. record { holds = λ w' q. q })
  finally-Holds Q (raise e w) dtor h k =
      bind-Holds (λ _ _. Unit) Q (dtor w) (λ _. throw {L = L} {A = A} e) (anything (dtor w))
        (λ _. record { holds = λ w' q. tt })
    where
      anything : (o : Outcome L (Unit {0})) → Holds (λ _ _. Unit {0}) o
      anything (ret a w) = tt
      anything (raise e w) = tt
      anything (spin w) = tt
  finally-Holds Q (spin w) dtor h k = tt

  -- The destructor keeps what the body returned with.
  pub finally-Returned :
      (P : World L → Type 0) (Q : A → World L → Type 0) (m : M L A) (dtor : M L (Unit {0}))
      → Returned P m Q
      → ((a : A) → Returned (Q a) dtor (λ _. Q a))
      → Returned P (finally m dtor) Q
  finally-Returned P Q m dtor h k = record {
    holds = λ w p. finally-Holds Q (m w) dtor (h.holds w p) k;
  }
