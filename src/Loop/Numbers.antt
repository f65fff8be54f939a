-- ===== src/Loop/Numbers.antt =====
-- The numeric flag values of loop/main.cpp, and the C library's conversions that they call.
use itb_cpp.Base.{
  min, Bool, true, false, ℕ, zero, suc, ◌-◌, ◌%◌, ◌^◌, ◌<◌, ◌≡◌, ◌≢◌, refl, arith, [], ◌∷◌, Option,
  some, none, Bytes, codes, length, ltb, ◌==◌, ◌||◌, not, if◌then◌else◌, int64_max, All, ap, ◌∙◌,
}
use itb_cpp.Base.Int.{ℤ, pos, negsuc}
use itb_cpp.Base.Decimal.{
  decimal, decimal_int, value, IsDigit, value-decimal, decimal-IsDigit, decimal-ne-nil,
}
use itb_cpp.Binding.Memory.{c_string}
use itb_cpp.Loop.Size.{is_digit, trim_front}

-- The leading digits, and what stands behind them.
unfoldable pub digits_of : Bytes → Bytes × Bytes
digits_of [] = ([], [])
digits_of (c ∷ s) =
    let (digits, rest) = digits_of s in if is_digit c then (c ∷ digits, rest) else ([], c ∷ s)

-- An optional sign: whether it is a minus, and what stands behind it.
unfoldable pub sign_of : Bytes → Bool × Bytes
sign_of [] = (false, [])
sign_of (c ∷ s) =
    if c == b'-' then (true, s) else (if c == b'+' then (false, s) else (false, c ∷ s))

-- What `strtol` and its kin read in base 10: the sign, the magnitude, and whether the text is read
-- to its end. Without a digit nothing is read.
pub record Numeral : Type 0 where
  pub minus : Bool
  pub magnitude : ℕ
  pub complete : Bool

unfoldable pub numeral : Bytes → Numeral
numeral s =
    let (minus, unsigned) = sign_of (trim_front s) in
    let (digits, rest) = digits_of unsigned in
    if length digits == 0
    then record { minus = false; magnitude = 0; complete = length s == 0 }
    else record { minus = minus; magnitude = value 0 digits; complete = length rest == 0 }

abbrev signed : Bool → ℕ → ℤ
signed true zero = pos 0
signed true (suc n) = negsuc n
signed false n = pos n

-- A `long` has 64 bits: `errno` is set outside of them.
unfoldable pub parse_int : Bytes → Option ℤ
unfolding numeral
parse_int v =
    let n = numeral (c_string v) in
    if length v == 0 || not n.complete || ltb 2147483647 n.magnitude
    then none
    else some (signed n.minus n.magnitude)

unfoldable pub parse_int64 : Bytes → Option ℤ
unfolding numeral
parse_int64 v =
    let n = numeral (c_string v) in
    if length v == 0 || not n.complete || ltb (if n.minus then 2 ^ 63 else int64_max) n.magnitude
    then none
    else some (signed n.minus n.magnitude)

starts_minus : Bytes → Bool
starts_minus [] = false
starts_minus (c ∷ s) = c == b'-'

-- `strtoull` negates what stands behind a minus, modulo 2 ^ 64.
unfoldable pub parse_uint64 : Bytes → Option ℕ
unfolding numeral starts_minus
parse_uint64 v =
    let n = numeral (c_string v) in
    if length v == 0 || starts_minus v || not n.complete || ltb (2 ^ 64 - 1) n.magnitude
    then none
    else some (if n.minus then (2 ^ 64 - n.magnitude) % 2 ^ 64 else n.magnitude)

-- A leading blank lets a minus sign through.
blank_minus_one : parse_uint64 (codes " -1") ≡ some (2 ^ 64 - 1)
unfolding parse_uint64 sign_of digits_of trim_front value c_string
blank_minus_one = refl

digits_of-digits : (s : Bytes) → All IsDigit s → digits_of s ≡ (s, [])
unfolding digits_of
digits_of-digits [] h = refl
digits_of-digits (c ∷ s) h = ground (arith, digits_of-digits s h.1, h.0)

IsDigit-is_digit : (c : ℕ) → IsDigit c → is_digit c ≡ true
IsDigit-is_digit c h = ground (arith, h)

c_string-digits : (s : Bytes) → All IsDigit s → c_string s ≡ s
unfolding c_string
c_string-digits [] h = refl
c_string-digits (c ∷ s) h = ground (arith, c_string-digits s h.1, h.0)

abbrev plain : Bool → ℕ → Numeral
plain minus n = record { minus = minus; magnitude = n; complete = true }

-- Digits, and digits behind a minus sign, are read whole.
numeral-digits :
    (s : Bytes)
    → All IsDigit s
    → s ≢ []
    → (numeral s ≡ plain false (value 0 s)) × (numeral (b'-' ∷ s) ≡ plain true (value 0 s))
unfolding numeral sign_of trim_front
numeral-digits [] h ne = absurd (ne refl)
numeral-digits (c ∷ s) h ne = (
  rw (front, digits_of-digits (c ∷ s) h) (ground arith),
  rw (digits_of-digits (c ∷ s) h) (ground arith),
)
  where
    front : sign_of (trim_front (c ∷ s)) ≡ (false, c ∷ s)
    front = ground (arith, h.0)

numeral-decimal :
    (n : ℕ)
    → (numeral (c_string (decimal n)) ≡ plain false n)
      × (numeral (c_string (b'-' ∷ decimal n)) ≡ plain true n)
unfolding c_string
numeral-decimal n =
    rw (c_string-digits (decimal n) (decimal-IsDigit n))
      (whole.0 ∙ ap (plain false) (value-decimal n), whole.1 ∙ ap (plain true) (value-decimal n))
  where
    whole :
        (numeral (decimal n) ≡ plain false (value 0 (decimal n)))
        × (numeral (b'-' ∷ decimal n) ≡ plain true (value 0 (decimal n)))
    whole = numeral-digits (decimal n) (decimal-IsDigit n) (decimal-ne-nil n)

length-decimal : (n : ℕ) → (length (decimal n) == 0) ≡ false
length-decimal n = nonempty (decimal n) (decimal-ne-nil n)
  where
    nonempty : (s : Bytes) → s ≢ [] → (length s == 0) ≡ false
    nonempty [] ne = absurd (ne refl)
    nonempty (c ∷ s) ne = ground arith

starts_minus-decimal : (n : ℕ) → starts_minus (decimal n) ≡ false
unfolding starts_minus
starts_minus-decimal n = digits (decimal n) (decimal-IsDigit n)
  where
    digits : (s : Bytes) → All IsDigit s → starts_minus s ≡ false
    digits [] h = refl
    digits (c ∷ s) h = ground (arith, h.0)

abbrev pub magnitude_of : ℤ → ℕ
magnitude_of (pos n) = n
magnitude_of (negsuc n) = suc n

-- The values of 64 bits.
abbrev pub Fits64 : ℤ → Type 0
Fits64 (pos n) = n < 2 ^ 63
Fits64 (negsuc n) = n < 2 ^ 63

int-back : (y : ℤ) → magnitude_of y < 2 ^ 31 → parse_int (decimal_int y) ≡ some y
unfolding parse_int decimal_int
int-back (pos n) h = rw ((numeral-decimal n).0, length-decimal n) (ground arith)
int-back (negsuc n) h = rw ((numeral-decimal (suc n)).1) (ground arith)

int64-back : (z : ℤ) → Fits64 z → parse_int64 (decimal_int z) ≡ some z
unfolding parse_int64 decimal_int
int64-back (pos n) h = rw ((numeral-decimal n).0, length-decimal n) (ground arith)
int64-back (negsuc n) h = rw ((numeral-decimal (suc n)).1) (ground arith)

-- Printed numbers read back: an integer of magnitude below 2 ^ 31 as an `int`, every 64-bit
-- integer as an `std::int64_t`, and every natural number below 2 ^ 64 as an `std::uint64_t`.
pub parse-decimal :
    (y z : ℤ) (n : ℕ)
    → magnitude_of y < 2 ^ 31
    → Fits64 z
    → n < 2 ^ 64
    → (parse_int (decimal_int y) ≡ some y)
      × (parse_int64 (decimal_int z) ≡ some z)
      × (parse_uint64 (decimal n) ≡ some n)
unfolding parse_uint64
parse-decimal y z n hy hz hn = (
  int-back y hy,
  int64-back z hz,
  rw ((numeral-decimal n).0, length-decimal n, starts_minus-decimal n) (ground arith),
)

-- `strtoll` of a text, cut off at its bounds; `errno` is not asked.
unfoldable pub strtoll : Bytes → ℤ
unfolding numeral
strtoll s =
    let n = numeral (c_string s) in
    if n.minus then signed true (min n.magnitude (2 ^ 63)) else pos (min n.magnitude int64_max)
