-- ===== src/Binding/World/Ends.antt =====
-- Steps that do not run out of rounds.
use itb_cpp.Base.{Bool, true, false, ◌≡◌, refl, if◌then◌else◌}
use itb_cpp.Binding.World.{World, Outcome, ret, raise, spin, M, ◌>>=◌}

-- A value with `Q` in its world, or a throw; never `spin`.
abbrev pub Comes : {L A : Type 0} → (A → World L → Type 0) → Outcome L A → Type 0
Comes Q (ret a w) = Q a w
Comes Q (raise e w) = Unit
Comes Q (spin w) = ⊥

-- From a world with `P`, the step ends.
pub record Ends {L A : Type 0} (P : World L → Type 0) (m : M L A) (Q : A → World L → Type 0)
    : Type 0 where
  pub comes : (w : World L) → P w → Comes Q (m w)

module _ {L A B : Type 0} where
  bind-Comes :
      (Q : A → World L → Type 0) (R : B → World L → Type 0) (o : Outcome L A) (f : A → M L B)
      → Comes Q o
      → ((a : A) → Ends (Q a) (f a) R)
      → Comes R (elim o [ ret a w' ↦ f a w' | raise e w' ↦ raise e w' | spin w' ↦ spin w' ])
  bind-Comes Q R (ret a w) f h k = (k a).comes w h
  bind-Comes Q R (raise e w) f h k = tt
  bind-Comes Q R (spin w) f h k = h

  pub bind-Ends :
      (P : World L → Type 0) (Q : A → World L → Type 0) (R : B → World L → Type 0) (m : M L A)
      (f : A → M L B)
      → Ends P m Q
      → ((a : A) → Ends (Q a) (f a) R)
      → Ends P (m >>= f) R
  bind-Ends P Q R m f h k = record { comes = λ w p. bind-Comes Q R (m w) f (h.comes w p) k }

module _ {L A : Type 0} where
  pub if-Ends :
      (P : World L → Type 0) (Q : A → World L → Type 0) (b : Bool) (m k : M L A)
      → (b ≡ true → Ends P m Q)
      → (b ≡ false → Ends P k Q)
      → Ends P (if b then m else k) Q
  if-Ends P Q true m k h h' = h refl
  if-Ends P Q false m k h h' = h' refl

  weaken-Comes :
      (Q R : A → World L → Type 0) (o : Outcome L A)
      → Comes Q o
      → ((a : A) (w : World L) → Q a w → R a w)
      → Comes R o
  weaken-Comes Q R (ret a w) h k = k a w h
  weaken-Comes Q R (raise e w) h k = tt
  weaken-Comes Q R (spin w) h k = h

  pub weaken-Ends :
      (P : World L → Type 0) (Q R : A → World L → Type 0) (m : M L A)
      → Ends P m Q
      → ((a : A) (w : World L) → Q a w → R a w)
      → Ends P m R
  weaken-Ends P Q R m h k = record { comes = λ w p. weaken-Comes Q R (m w) (h.comes w p) k }
