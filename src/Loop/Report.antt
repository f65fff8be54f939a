-- ===== src/Loop/Report.antt =====
-- The texts of a data mismatch in loop/worker.cpp.
use itb_cpp.Base.{
  ==_refl, ==_iff, subst, ◌∙◌, ℕ, suc, ◌+◌, ◌-◌, ◌/◌, ◌%◌, ◌≡◌, ◌≢◌, ◌⊎◌, refl, ap, inl, inr, arith,
  [], ◌∷◌, ◌++◌, Bytes, codes, length, get_elem?, take, drop, leb, ◌==◌, if◌then◌else◌, Bool-cases,
  min,
}
use itb_cpp.Base.Hex.{lower_digit}

-- `for (i = 0; i < n; i++) if (a[i] != b[i]) return i;`, from the place `i`.
unfoldable pub difference_from : ℕ → Bytes → Bytes → ℕ
difference_from i (x ∷ xs) (y ∷ ys) = if x == y then difference_from (suc i) xs ys else i
difference_from i _ _ = i

unfoldable pub first_difference : Bytes → Bytes → ℕ
first_difference a b = difference_from 0 a b

-- `%02x` of a byte.
abbrev pub hex_byte : ℕ → Bytes
hex_byte b = lower_digit (b / 16) ∷ lower_digit (b % 16) ∷ []

unfoldable pub hex_bytes : Bytes → Bytes
hex_bytes [] = []
hex_bytes (b ∷ bs) = hex_byte b ++ hex_bytes bs

unfoldable pub hex_window : Bytes → ℕ → Bytes
unfolding hex_bytes
hex_window buf off =
    if leb (length buf) off
    then codes "-"
    else hex_bytes (take (min (off + 16) (length buf) - off) (drop off buf))

-- What the loop finds from the place `i` on.
record Finds (i : ℕ) (a b : Bytes) : Type 0 where
  steps : ℕ
  place : difference_from i a b ≡ i + steps
  before : take steps a ≡ take steps b
  differ : (a ≡ b) ⊎ (get_elem? a steps ≢ get_elem? b steps)

further : (i x : ℕ) (xs ys : Bytes) → Finds (suc i) xs ys → Finds i (x ∷ xs) (x ∷ ys)
unfolding difference_from
further i x xs ys f = record {
  steps = suc f.steps;
  place = rw ((==_refl x)) (f.place ∙ omega arith);
  before = ap (◌∷◌ x) f.before;
  differ = elim f.differ [ inl e ↦ inl (ap (◌∷◌ x) e) | inr ne ↦ inr ne ];
}

finds : (i : ℕ) (a b : Bytes) → Finds i a b
unfolding difference_from
finds i [] [] = record { steps = 0; place = omega arith; before = refl; differ = inl refl }
finds i [] (y ∷ ys) = record { steps = 0; place = omega arith; before = refl; differ = inr λ e. cc }
finds i (x ∷ xs) [] = record { steps = 0; place = omega arith; before = refl; differ = inr λ e. cc }
finds i (x ∷ xs) (y ∷ ys) = elim (Bool-cases (x == y)) [
  | inl e ↦
      subst (λ z. Finds i (x ∷ xs) (z ∷ ys)) ((==_iff x y).0 e)
        (further i x xs ys (finds (suc i) xs ys))
  | inr e ↦ record {
    steps = 0;
    place = rw e (omega arith);
    before = refl;
    differ = inr λ same. ground arith;
  }
]

-- The reported offset is the first difference: the buffers agree before it, and unless they are
-- equal they do not agree at it, where a buffer that has ended there counts as a difference.
pub first_difference_lem :
    (a b : Bytes)
    → let i = first_difference a b in
      (take i a ≡ take i b) × ((a ≡ b) ⊎ (get_elem? a i ≢ get_elem? b i))
unfolding first_difference
first_difference_lem a b =
    let f = finds 0 a b in
    let e : difference_from 0 a b ≡ f.steps = f.place ∙ omega arith in rw e (f.before, f.differ)
