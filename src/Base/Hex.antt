-- ===== src/Base/Hex.antt =====
-- Hexadecimal digits: the tables that the source prints from, and their reading.
use itb_cpp.Base.{
  Bool, true, false, ℕ, zero, suc, ◌+◌, ◌-◌, ◌<◌, ◌≡◌, refl, arith, none, some, Option, codes, ltb,
  leb, ◌==◌, if◌then◌else◌, ◌&&◌, ◌||◌, ◌≢◌, get_or, ==_iff,
}

-- The test passes on each number below the bound.
unfoldable pub passes_below : (ℕ → Bool) → ℕ → Bool
passes_below test zero = true
passes_below test (suc bound) = passes_below test bound && test bound

pub passes_below_sound :
    (test : ℕ → Bool) (bound c : ℕ) → passes_below test bound ≡ true → c < bound → test c ≡ true
unfolding passes_below
passes_below_sound test zero c all below = absurd (omega arith)
passes_below_sound test (suc bound) c all below = ground (arith, passes_below_sound test bound c)

unfoldable pub upper_digit : ℕ → ℕ
upper_digit n = get_or (codes "0123456789ABCDEF") n 0

unfoldable pub lower_digit : ℕ → ℕ
lower_digit n = get_or (codes "0123456789abcdef") n 0

-- The number that a digit of either case stands for.
unfoldable pub digit_value : ℕ → Option ℕ
digit_value c =
    if leb b'0' c && leb c b'9'
    then some (c - b'0')
    else if leb b'a' c && leb c b'f'
    then some (c - b'a' + 10)
    else if leb b'A' c && leb c b'F'
    then some (c - b'A' + 10)
    else none

abbrev is_some_of : ℕ → Option ℕ → Bool
is_some_of n none = false
is_some_of n (some m) = m == n

is_some_of_sound : (n : ℕ) (o : Option ℕ) → is_some_of n o ≡ true → o ≡ some n
is_some_of_sound n none h = cc
is_some_of_sound n (some m) h = ground (arith, ==_iff m n)

abbrev upper_reads : ℕ → Bool
upper_reads n = is_some_of n (digit_value (upper_digit n))

abbrev lower_reads : ℕ → Bool
lower_reads n = is_some_of n (digit_value (lower_digit n))

abbrev upper_plain : ℕ → Bool
upper_plain n = ltb b'&' (upper_digit n) && (ltb (upper_digit n) b'=' || ltb b'=' (upper_digit n))

upper_table : passes_below upper_reads 16 ≡ true
unfolding passes_below digit_value upper_digit
upper_table = refl

lower_table : passes_below lower_reads 16 ≡ true
unfolding passes_below digit_value lower_digit
lower_table = refl

plain_table : passes_below upper_plain 16 ≡ true
unfolding passes_below upper_digit
plain_table = refl

pub digit_value-upper_digit : (n : ℕ) → n < 16 → digit_value (upper_digit n) ≡ some n
digit_value-upper_digit n h =
    is_some_of_sound n _ (passes_below_sound upper_reads 16 n upper_table h)

pub digit_value-lower_digit : (n : ℕ) → n < 16 → digit_value (lower_digit n) ≡ some n
digit_value-lower_digit n h =
    is_some_of_sound n _ (passes_below_sound lower_reads 16 n lower_table h)

-- An upper-case digit is neither `&` nor `=`.
pub upper_digit_plain : (n : ℕ) → n < 16 → (upper_digit n ≢ b'&') × (upper_digit n ≢ b'=')
upper_digit_plain n h = ground (arith, passes_below_sound upper_plain 16 n plain_table h)
