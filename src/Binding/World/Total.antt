-- ===== src/Binding/World/Total.antt =====
-- Steps that always come back with a value.
use itb_cpp.Base.{Bool, true, false, refl, ◌≡◌, if◌then◌else◌}
use itb_cpp.Binding.World.{World, ret, M, pure, ◌>>=◌, ffi}

-- From every world the step returns.
pub record Total {L A : Type 0} (m : M L A) : Type 0 where
  pub returns : (w : World L) → (a : A) × (w' : World L) × (m w ≡ ret a w')

module _ {L : Type 0} where
  pub bind-Total :
      {A B : Type 0} {m : M L A} {f : A → M L B}
      → Total m
      → ((a : A) → Total (f a))
      → Total (m >>= f)
  bind-Total {m = m} {f = f} h k = record {
    returns = λ w.
        let (a, w', e) = h.returns w in
        let (b, w'', e') = (k a).returns w' in (b, w'', rw (e, ◌>>=◌) e');
  }

  pub if-Total :
      {A : Type 0} (b : Bool) {m k : M L A} → Total m → Total k → Total (if b then m else k)
  if-Total true h h' = h
  if-Total false h h' = h'

  pub pure-Total : {A : Type 0} {a : A} → Total (pure {L = L} {A = A} a)
  pure-Total {a = a} = record { returns = λ w. (a, w, refl) }

  pub ffi-Total : {A : Type 0} (f : L → A × L) → Total (ffi f)
  ffi-Total f = record { returns = λ w. ((f w.lib).0, record w { lib = (f w.lib).1 }, refl) }

pub ruleset total_rules = (bind-Total, if-Total, pure-Total, ffi-Total)
