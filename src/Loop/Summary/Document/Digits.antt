-- ===== src/Loop/Summary/Document/Digits.antt =====
-- The numbers of a JSON document.
use itb_cpp.Base.{
  Bool, true, false, ℕ, suc, ◌≤◌, ◌≡◌, refl, ap, sym, arith, [], ◌∷◌, ◌++◌, append_assoc,
  append-nil, Bytes, some, ◌==◌, ◌&&◌, not, if◌then◌else◌, All,
}
use itb_cpp.Base.Int.{ℤ, pos, negsuc}
use itb_cpp.Base.Decimal.{
  IsDigit, is_whole, decimal, decimal_int, decimal-IsDigit, decimal-is_whole,
}
use itb_cpp.Loop.Numbers.{digits_of}
use itb_cpp.Loop.Size.{is_digit}
use itb_cpp.Loop.Summary.Document.{minus_of, fraction_of, read_number}

abbrev pointed : Bytes → Bytes
pointed [] = []
pointed (c ∷ s) = b'.' ∷ c ∷ s

abbrev with_sign : Bool → Bytes → Bytes
with_sign minus s = if minus then b'-' ∷ s else s

-- An optional minus, digits without a leading zero, and an optional fraction.
pub record IsNumeral (t : Bytes) : Type 0 where
  pub minus : Bool
  pub whole : Bytes
  pub fraction : Bytes
  pub whole_digits : All IsDigit whole
  pub no_zero : is_whole whole ≡ true
  pub fraction_digits : All IsDigit fraction
  pub spelled : t ≡ with_sign minus (whole ++ pointed fraction)

-- What may stand behind a number.
unfoldable pub ends_number : Bytes → Bool
ends_number [] = true
ends_number (c ∷ s) = not (is_digit c) && not (c == b'.')

digits_of-append :
    (s rest : Bytes)
    → All IsDigit s
    → digits_of rest ≡ ([], rest)
    → digits_of (s ++ rest) ≡ (s, rest)
unfolding digits_of
digits_of-append [] rest h e = e
digits_of-append (c ∷ s) rest h e = rw (digits_of-append s rest h.1 e) (ground (arith, h.0))

digits_of-end : (rest : Bytes) → ends_number rest ≡ true → digits_of rest ≡ ([], rest)
unfolding ends_number digits_of
digits_of-end [] h = refl
digits_of-end (c ∷ s) h = ground (arith, h)

digits_of-pointed :
    (fraction rest : Bytes)
    → ends_number rest ≡ true
    → digits_of (pointed fraction ++ rest) ≡ ([], pointed fraction ++ rest)
unfolding digits_of
digits_of-pointed [] rest h = digits_of-end rest h
digits_of-pointed (c ∷ s) rest h = ground arith

fraction_of-pointed :
    (fraction rest : Bytes)
    → All IsDigit fraction
    → ends_number rest ≡ true
    → fraction_of (pointed fraction ++ rest) ≡ some (pointed fraction, rest)
unfolding fraction_of
fraction_of-pointed [] [] d h = refl
fraction_of-pointed [] (c ∷ rest) d h = unfold ends_number in ground (arith, h)
fraction_of-pointed (c ∷ s) rest d h =
    rw (digits_of-append (c ∷ s) rest d (digits_of-end rest h)) (ground arith)

minus_of-digits :
    (s rest : Bytes) → All IsDigit s → is_whole s ≡ true → minus_of (s ++ rest) ≡ ([], s ++ rest)
unfolding minus_of is_whole
minus_of-digits [] rest d h = cc
minus_of-digits (c ∷ s) rest d h = ground (arith, d.0)

-- The steps of the reader, each with its answer.
read_number-steps :
    (s : Bytes) {sign unsigned digits behind fraction rest : Bytes}
    → minus_of s ≡ (sign, unsigned)
    → digits_of unsigned ≡ (digits, behind)
    → is_whole digits ≡ true
    → fraction_of behind ≡ some (fraction, rest)
    → read_number s ≡ some (sign ++ (digits ++ fraction), rest)
unfolding read_number
read_number-steps s e f z g = simp (e, f, z, g)

module _ (whole fraction rest : Bytes) where
  read_number-spelled :
      (minus : Bool)
      → All IsDigit whole
      → is_whole whole ≡ true
      → All IsDigit fraction
      → ends_number rest ≡ true
      → read_number (with_sign minus (whole ++ (pointed fraction ++ rest)))
        ≡ some (with_sign minus (whole ++ pointed fraction), rest)
  read_number-spelled true dw z df h =
      unfold minus_of in
      read_number-steps _ refl
        (digits_of-append whole (pointed fraction ++ rest) dw (digits_of-pointed fraction rest h)) z
        (fraction_of-pointed fraction rest df h)
  read_number-spelled false dw z df h =
      read_number-steps _ (minus_of-digits whole (pointed fraction ++ rest) dw z)
        (digits_of-append whole (pointed fraction ++ rest) dw (digits_of-pointed fraction rest h)) z
        (fraction_of-pointed fraction rest df h)

with_sign-append :
    (minus : Bool) (s t rest : Bytes)
    → with_sign minus (s ++ t) ++ rest ≡ with_sign minus (s ++ (t ++ rest))
with_sign-append true s t rest = ap (◌∷◌ b'-') (append_assoc s t rest)
with_sign-append false s t rest = append_assoc s t rest

-- A number is read whole.
pub read_number-IsNumeral :
    (t rest : Bytes)
    → IsNumeral t
    → ends_number rest ≡ true
    → read_number (t ++ rest) ≡ some (t, rest)
read_number-IsNumeral t rest n h =
    rw (n.spelled, with_sign-append n.minus n.whole (pointed n.fraction) rest)
      (read_number-spelled n.whole n.fraction rest n.minus n.whole_digits n.no_zero
        n.fraction_digits h)

abbrev integer : Bool → ℕ → Bytes
integer minus n = with_sign minus (decimal n)

integer-IsNumeral : (minus : Bool) (n : ℕ) → IsNumeral (integer minus n)
integer-IsNumeral minus n = record {
  minus = minus;
  whole = decimal n;
  fraction = [];
  whole_digits = decimal-IsDigit n;
  no_zero = decimal-is_whole n;
  fraction_digits = tt;
  spelled = ap (with_sign minus) (sym (append-nil (decimal n)));
}

pub decimal-IsNumeral : (n : ℕ) → IsNumeral (decimal n)
decimal-IsNumeral n = integer-IsNumeral false n

pub decimal_int-IsNumeral : (z : ℤ) → IsNumeral (decimal_int z)
unfolding decimal_int
decimal_int-IsNumeral (pos n) = integer-IsNumeral false n
decimal_int-IsNumeral (negsuc n) = integer-IsNumeral true (suc n)

-- A number starts with a digit or a minus.
abbrev pub Starts : Bytes → Type 0
Starts t = (c : ℕ) × (s : Bytes) × (t ≡ c ∷ s) × (b'-' ≤ c) × (c ≤ b'9')

with_sign-Starts :
    (minus : Bool) (s t : Bytes)
    → All IsDigit s
    → is_whole s ≡ true
    → Starts (with_sign minus (s ++ t))
unfolding is_whole
with_sign-Starts minus [] t d h = cc
with_sign-Starts true (c ∷ s) t d h = (b'-', (c ∷ s) ++ t, refl, omega arith, omega arith)
with_sign-Starts false (c ∷ s) t d h = (c, s ++ t, refl, omega (arith, d.0), d.0.1)

pub IsNumeral-Starts : (t : Bytes) → IsNumeral t → Starts t
IsNumeral-Starts t n =
    rw n.spelled (with_sign-Starts n.minus n.whole (pointed n.fraction) n.whole_digits n.no_zero)
