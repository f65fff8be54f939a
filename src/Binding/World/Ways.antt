-- ===== src/Binding/World/Ways.antt =====
-- Steps that return or throw an `itb::Error`, and never run out of rounds.
use itb_cpp.Base.{
  ◌≡◌, refl, Option, some, none, ◌⊎◌, inl, inr, Bool, true, false, List, Bytes, if◌then◌else◌,
}
use itb_cpp.Binding.Status.{Status}
use itb_cpp.Binding.World.{
  World, Outcome, ret, raise, spin, M, pure, throw, itb_error, invalid_argument, ◌>>=◌, ffi,
  release, finally, Call,
}

-- A value with `Q` in its world, or an `itb::Error` in a world with `E`.
abbrev pub Ways :
    {L A : Type 0} → (A → World L → Type 0) → (World L → Type 0) → Outcome L A → Type 0
Ways Q E (ret a w) = Q a w
Ways Q E (raise (itb_error status text) w) = E w
Ways Q E (raise (invalid_argument text) w) = ⊥
Ways Q E (spin w) = ⊥

pub record Leads {L A : Type 0} (P : World L → Type 0) (m : M L A) (Q : A → World L → Type 0)
    (E : World L → Type 0) : Type 0 where
  pub leads : (w : World L) → P w → Ways Q E (m w)

-- Of the calls made: a return keeps `I`, and a throw leaves `T`.
pub record Quiet {L A : Type 0} (I T : List Call → Type 0) (m : M L A) : Type 0 where
  pub quiet : (w : World L) → I w.calls → Ways {A = A} (λ a w'. I w'.calls) (λ w'. T w'.calls) (m w)

-- Nothing is thrown.
abbrev pub Never : List Call → Type 0
Never cs = ⊥

module _ {L A B : Type 0} where
  bind-Ways :
      (Q : A → World L → Type 0) (R : B → World L → Type 0) (E : World L → Type 0) (o : Outcome L A)
      (f : A → M L B)
      → Ways Q E o
      → ((a : A) → Leads (Q a) (f a) R E)
      → Ways R E (elim o [ ret a w' ↦ f a w' | raise e w' ↦ raise e w' | spin w' ↦ spin w' ])
  bind-Ways Q R E (ret a w) f h k = (k a).leads w h
  bind-Ways Q R E (raise (itb_error status text) w) f h k = h
  bind-Ways Q R E (raise (invalid_argument text) w) f h k = h
  bind-Ways Q R E (spin w) f h k = h

  pub bind-Leads :
      (P : World L → Type 0) (Q : A → World L → Type 0) (R : B → World L → Type 0)
      (E : World L → Type 0) (m : M L A) (f : A → M L B)
      → Leads P m Q E
      → ((a : A) → Leads (Q a) (f a) R E)
      → Leads P (m >>= f) R E
  bind-Leads P Q R E m f h k = record { leads = λ w p. bind-Ways Q R E (m w) f (h.leads w p) k }

module _ {L A : Type 0} (I T : List Call → Type 0) where
  abbrev Inside : A → World L → Type 0
  Inside a w = I w.calls

  pub Quiet-Leads : {m : M L A} → Quiet I T m → Leads (λ w. I w.calls) m Inside (λ w. T w.calls)
  Quiet-Leads h = record { leads = λ w i. h.quiet w i }

  pub Leads-Quiet : {m : M L A} → Leads (λ w. I w.calls) m Inside (λ w. T w.calls) → Quiet I T m
  Leads-Quiet h = record { quiet = λ w i. h.leads w i }

module _ {L : Type 0} {I T : List Call → Type 0} where
  pub bind-Quiet :
      {A B : Type 0} {m : M L A} {f : A → M L B}
      → Quiet I T m
      → ((a : A) → Quiet I T (f a))
      → Quiet I T (m >>= f)
  bind-Quiet {m = m} {f = f} h k = Leads-Quiet I T (
      bind-Leads _ (λ a w. I w.calls) (λ b w. I w.calls) _ m f (Quiet-Leads I T h)
        (λ a. Quiet-Leads I T (k a)))

  pub if-Quiet :
      {A : Type 0} (b : Bool) {m k : M L A}
      → Quiet I T m
      → Quiet I T k
      → Quiet I T (if b then m else k)
  if-Quiet true h h' = h
  if-Quiet false h h' = h'

  pub pure-Quiet : {A : Type 0} {a : A} → Quiet I T (pure {L = L} {A = A} a)
  pure-Quiet = record { quiet = λ w i. i }

  pub ffi-Quiet : {A : Type 0} (f : L → A × L) → Quiet I T (ffi f)
  ffi-Quiet f = record { quiet = λ w i. i }

  pub release-Quiet : (buf : Bytes) → Quiet I T (release {L = L} buf)
  release-Quiet buf = record { quiet = λ w i. i }

module _ {L : Type 0} {I : List Call → Type 0} where
  pub throw-Quiet :
      {A : Type 0} {status : Status} {text : Bytes}
      → Quiet I I (throw {L = L} {A = A} (itb_error status text))
  throw-Quiet = record { quiet = λ w i. i }

  finally-outcome :
      {A : Type 0} (o : Outcome L A) (dtor : M L (Unit {0}))
      → Ways (λ a w. I w.calls) (λ w. I w.calls) o
      → Quiet I I dtor
      → Ways
          (λ a w. I w.calls)
          (λ w. I w.calls)
          (elim o [
            | ret a w' ↦ (dtor >>= λ _. pure a) w'
            | raise e w' ↦ (dtor >>= λ _. throw {L = L} {A = A} e) w'
            | spin w' ↦ spin w'
          ])
  finally-outcome (ret a w) dtor h k = (bind-Quiet {f = λ _. pure a} k (λ _. pure-Quiet)).quiet w h
  finally-outcome {A} (raise (itb_error status text) w) dtor h k =
      (bind-Quiet {f = λ _. throw {L = L} {A = A} (itb_error status text)} k
          (λ _. throw-Quiet)).quiet
        w h
  finally-outcome (raise (invalid_argument text) w) dtor h k = absurd h
  finally-outcome (spin w) dtor h k = h

  pub finally-Quiet :
      {A : Type 0} {m : M L A} {dtor : M L (Unit {0})}
      → Quiet I I m
      → Quiet I I dtor
      → Quiet I I (finally m dtor)
  finally-Quiet {m = m} {dtor = dtor} h k = record {
    quiet = λ w i. finally-outcome (m w) dtor (h.quiet w i) k;
  }

-- A function that is put together from quiet steps is quiet.
pub ruleset quiet_rules =
    (bind-Quiet, if-Quiet, pure-Quiet, throw-Quiet, ffi-Quiet, release-Quiet, finally-Quiet)

-- A case split on a value, whose precondition goes with the case.
module _ {L C : Type 0} (Q : C → World L → Type 0) (E : World L → Type 0) where
  pub sum-Leads :
      {A B : Type 0} (P : A ⊎ B → World L → Type 0) (r : A ⊎ B) {f : A → M L C} {g : B → M L C}
      → ((a : A) → Leads (P (inl a)) (f a) Q E)
      → ((b : B) → Leads (P (inr b)) (g b) Q E)
      → Leads (P r) (elim r [ inl a ↦ f a | inr b ↦ g b ]) Q E
  sum-Leads P (inl a) h k = h a
  sum-Leads P (inr b) h k = k b

  pub option-Leads :
      {A : Type 0} (P : Option A → World L → Type 0) (o : Option A) {m : M L C} {f : A → M L C}
      → Leads (P none) m Q E
      → ((a : A) → Leads (P (some a)) (f a) Q E)
      → Leads (P o) (elim o [ none ↦ m | some a ↦ f a ]) Q E
  option-Leads P none h k = h
  option-Leads P (some a) h k = k a

  pub if-Leads :
      (P : World L → Type 0) (b : Bool) {m k : M L C}
      → Leads P m Q E
      → Leads P k Q E
      → Leads P (if b then m else k) Q E
  if-Leads P true h k = h
  if-Leads P false h k = k

  -- A value that holds already.
  pub pure-Leads :
      (P : World L → Type 0) (c : C) → ((w : World L) → P w → Q c w) → Leads P (pure c) Q E
  pure-Leads P c h = record { leads = λ w p. h w p }

-- What holds in every world goes along.
module _ {L A : Type 0} (K : Type 0) where
  frame-Ways :
      (Q : A → World L → Type 0) (E : World L → Type 0) (o : Outcome L A)
      → Ways Q E o
      → K
      → Ways (λ a w. Q a w × K) E o
  frame-Ways Q E (ret a w) h k = (h, k)
  frame-Ways Q E (raise (itb_error status text) w) h k = h
  frame-Ways Q E (raise (invalid_argument text) w) h k = h
  frame-Ways Q E (spin w) h k = h

  pub frame-Leads :
      (P : World L → Type 0) (Q : A → World L → Type 0) (E : World L → Type 0) (m : M L A)
      → Leads P m Q E
      → Leads (λ w. P w × K) m (λ a w. Q a w × K) E
  frame-Leads P Q E m h = record { leads = λ w p. frame-Ways Q E (m w) (h.leads w p.0) p.1 }

-- A weaker fact about what a step leaves.
module _ {L A : Type 0} where
  after-Ways :
      (Q R : A → World L → Type 0) (E : World L → Type 0) (o : Outcome L A)
      → ((a : A) (w : World L) → Q a w → R a w)
      → Ways Q E o
      → Ways R E o
  after-Ways Q R E (ret a w) k h = k a w h
  after-Ways Q R E (raise (itb_error status text) w) k h = h
  after-Ways Q R E (raise (invalid_argument text) w) k h = h
  after-Ways Q R E (spin w) k h = h

  pub after-Leads :
      (P : World L → Type 0) (Q R : A → World L → Type 0) (E : World L → Type 0) (m : M L A)
      → ((a : A) (w : World L) → Q a w → R a w)
      → Leads P m Q E
      → Leads P m R E
  after-Leads P Q R E m k h = record { leads = λ w p. after-Ways Q R E (m w) k (h.leads w p) }

-- A fact about the state goes into the proof of a step.
pub given-Leads :
    {L A : Type 0} (K : Type 0) (P : World L → Type 0) (Q : A → World L → Type 0)
    (E : World L → Type 0) (m : M L A)
    → (K → Leads P m Q E)
    → Leads (λ w. K × P w) m Q E
given-Leads K P Q E m h = record { leads = λ w p. (h p.0).leads w p.1 }

pub before-Leads :
    {L A : Type 0} (P R : World L → Type 0) (Q : A → World L → Type 0) (E : World L → Type 0)
    (m : M L A)
    → ((w : World L) → P w → R w)
    → Leads R m Q E
    → Leads P m Q E
before-Leads P R Q E m k h = record { leads = λ w p. h.leads w (k w p) }

-- Of every world, and of none.
abbrev pub Any : {L : Type 0} → World L → Type 0
Any w = Unit {0}

abbrev pub Nowhere : {L : Type 0} → World L → Type 0
Nowhere w = ⊥

-- A case split on a test that is known in each case.
module _ {L : Type 0} where
  pub known-Leads :
      {A : Type 0} (P : World L → Type 0) (Q : A → World L → Type 0) (E : World L → Type 0)
      (b : Bool) {m k : M L A}
      → (b ≡ true → Leads P m Q E)
      → (b ≡ false → Leads P k Q E)
      → Leads P (if b then m else k) Q E
  known-Leads P Q E true h k = h refl
  known-Leads P Q E false h k = k refl

-- The step returns a value with `Q`.
abbrev pub Returns : {L A : Type 0} → (A → World L → Type 0) → M L A → World L → Type 0
Returns {L} {A} Q m w = (a : A) × (w' : World L) × (m w ≡ ret a w') × Q a w'

module _ {L A : Type 0} (P : World L → Type 0) (Q : A → World L → Type 0) where
  -- A step that cannot throw returns.
  Ways-Returns :
      (o : Outcome L A) → Ways Q (λ w. ⊥) o → (a : A) × (w' : World L) × (o ≡ ret a w') × Q a w'
  Ways-Returns (ret a w) h = (a, w, refl, h)
  Ways-Returns (raise (itb_error status text) w) h = absurd h
  Ways-Returns (raise (invalid_argument text) w) h = absurd h
  Ways-Returns (spin w) h = absurd h

  pub Leads-Returns : (m : M L A) (w : World L) → Leads P m Q (λ w. ⊥) → P w → Returns Q m w
  Leads-Returns m w h p = Ways-Returns (m w) (h.leads w p)
