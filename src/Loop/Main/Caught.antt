-- ===== src/Loop/Main/Caught.antt =====
-- Handlers of `itb::Error` and case splits around quiet steps.
use itb_cpp.Base.{
  Bool, true, false, ◌≡◌, ◌⊎◌, inl, inr, refl, List, Option, some, none, Bytes, if◌then◌else◌,
}
use itb_cpp.Binding.World.{World, Outcome, ret, raise, spin, M, Call, itb_error, invalid_argument}
use itb_cpp.Binding.World.Ways.{Ways, Leads, Quiet}
use itb_cpp.Loop.Worker.{Failure, caught}

-- What a handler sees: the error in a world with `E`, or the value.
abbrev pub Seen :
    {L A : Type 0} → (A → World L → Type 0) → (World L → Type 0) → Failure ⊎ A → World L → Type 0
Seen Q E (inl failure) w = E w
Seen Q E (inr a) w = Q a w

module _ {L A : Type 0} where
  caught-outcome :
      (Q : A → World L → Type 0) (E T : World L → Type 0) (m : M L A) (stage : Bytes) (w : World L)
      → Ways Q E (m w)
      → Ways (Seen Q E) T (caught stage m w)
  caught-outcome Q E T m stage w h = by_outcome (m w) h
    where
      by_outcome :
          (o : Outcome L A)
          → Ways Q E o
          → Ways {A = Failure ⊎ A} (Seen Q E) T (elim o [
            | ret a w' ↦ ret (inr a) w'
            | raise (itb_error status text) w' ↦ ret (inl (stage, status)) w'
            | raise (invalid_argument text) w' ↦ raise (invalid_argument text) w'
            | spin w' ↦ spin w'
          ])
      by_outcome (ret a w) h = h
      by_outcome (raise (itb_error status text) w) h = h
      by_outcome (raise (invalid_argument text) w) h = h
      by_outcome (spin w) h = h

  pub caught-Leads :
      (P : World L → Type 0) (Q : A → World L → Type 0) (E T : World L → Type 0) (stage : Bytes)
      (m : M L A)
      → Leads P m Q E
      → Leads P (caught stage m) (Seen Q E) T
  caught-Leads P Q E T stage m h = record {
    leads = λ w p. caught-outcome Q E T m stage w (h.leads w p);
  }

module _ {L : Type 0} {I T : List Call → Type 0} where
  pub caught-Quiet :
      {A : Type 0} {m : M L A} (stage : Bytes) → Quiet I I m → Quiet I T (caught stage m)
  caught-Quiet {A = A} {m = m} stage h = record {
    quiet = λ w i. same (caught stage m w) (
        caught-outcome (λ a w. I w.calls) (λ w. I w.calls) (λ w. T w.calls) m stage w
          (h.quiet w i));
  }
    where
      same :
          (o : Outcome L (Failure ⊎ A))
          → Ways (Seen (λ a w. I w.calls) (λ w. I w.calls)) (λ w. T w.calls) o
          → Ways (λ r w. I w.calls) (λ w. T w.calls) o
      same (ret (inl failure) w) h = h
      same (ret (inr a) w) h = h
      same (raise (itb_error status text) w) h = h
      same (raise (invalid_argument text) w) h = h
      same (spin w) h = h

  pub sum-Quiet :
      {A B C : Type 0} (r : A ⊎ B) {f : A → M L C} {g : B → M L C}
      → ((a : A) → Quiet I T (f a))
      → ((b : B) → Quiet I T (g b))
      → Quiet I T (elim r [ inl a ↦ f a | inr b ↦ g b ])
  sum-Quiet (inl a) h k = h a
  sum-Quiet (inr b) h k = k b

  pub known-Quiet :
      {A : Type 0} (b : Bool) {m k : M L A}
      → (b ≡ true → Quiet I T m)
      → (b ≡ false → Quiet I T k)
      → Quiet I T (if b then m else k)
  known-Quiet true h h' = h refl
  known-Quiet false h h' = h' refl

  pub option-Quiet :
      {A B : Type 0} (o : Option A) {m : M L B} {f : A → M L B}
      → Quiet I T m
      → ((a : A) → Quiet I T (f a))
      → Quiet I T (elim o [ none ↦ m | some a ↦ f a ])
  option-Quiet none h k = h
  option-Quiet (some a) h k = k a
