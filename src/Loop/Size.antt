-- ===== src/Loop/Size.antt =====
-- The sizes and durations of loop/size.cpp that are whole numbers; the children are those that go
-- through `double`.
pub mod Rates
pub mod Durations
use itb_cpp.Base.{
  Bool, true, ℕ, zero, suc, ◌+◌, ◌-◌, ◌*◌, ◌/◌, ◌%◌, ◌^◌, ◌≤◌, ◌<◌, ◌≡◌, ◌⊎◌, inl, inr, refl, arith,
  List, [], ◌∷◌, ◌++◌, map, Option, some, none, Bytes, codes, length, take, drop, leb, ltb, ◌==◌,
  ◌=s=◌, ◌&&◌, ◌||◌, not, if◌then◌else◌, int64_max, Bool-cases, All,
}
use itb_cpp.Base.Decimal.{decimal, value}

-- `std::isspace`, `std::isdigit` and `std::toupper` of the C locale.
abbrev pub is_space : ℕ → Bool
is_space c = (leb 9 c && leb c 13) || (c == 32)

abbrev pub is_digit : ℕ → Bool
is_digit c = leb b'0' c && leb c b'9'

abbrev to_upper : ℕ → ℕ
to_upper c = if leb b'a' c && leb c b'z' then c - 32 else c

unfoldable pub trim_front : Bytes → Bytes
trim_front [] = []
trim_front (c ∷ s) = if is_space c then trim_front s else c ∷ s

-- `while (end > 0 && isspace(s[end - 1])) end--`.
unfoldable pub trim_back : Bytes → Bytes
trim_back [] = []
trim_back (c ∷ s) = elim (trim_back s) [
  | [] ↦ if is_space c then [] else c ∷ []
  | d ∷ t ↦ c ∷ d ∷ t
]

unfoldable pub trimmed_upper : Bytes → Option Bytes
unfolding trim_front trim_back
trimmed_upper s =
    let t = trim_back (trim_front s) in
    if length t == 0 || leb 64 (length t) then none else some (map to_upper t)

-- A suffix of the table with its multiple.
pub record Suffix : Type 0 where
  pub text : Bytes
  pub mult : ℕ

abbrev pub suffixes : List Suffix
suffixes =
    record { text = codes "KIB"; mult = 2 ^ 10 }
    ∷ record { text = codes "KB"; mult = 2 ^ 10 }
    ∷ record { text = codes "K"; mult = 2 ^ 10 }
    ∷ record { text = codes "MIB"; mult = 2 ^ 20 }
    ∷ record { text = codes "MB"; mult = 2 ^ 20 }
    ∷ record { text = codes "M"; mult = 2 ^ 20 }
    ∷ record { text = codes "GIB"; mult = 2 ^ 30 }
    ∷ record { text = codes "GB"; mult = 2 ^ 30 }
    ∷ record { text = codes "G"; mult = 2 ^ 30 }
    ∷ record { text = codes "B"; mult = 1 }
    ∷ []

abbrev ends_with : Bytes → Bytes → Bool
ends_with text s = leb (length text) (length s) && (drop (length s - length text) s =s= text)

-- The first suffix that the text ends with; the multiple and the text before it.
unfoldable pub strip : List Suffix → Bytes → ℕ × Bytes
strip [] s = (1, s)
strip (suffix ∷ table) s =
    if ends_with suffix.text s
    then (suffix.mult, take (length s - length suffix.text) s)
    else strip table s

unfoldable pub all_digits : Bytes → Bool
all_digits [] = true
all_digits (c ∷ s) = is_digit c && all_digits s

-- `strtoll` of digits: a value above `INT64_MAX` sets `errno`.
unfoldable pub scaled : ℕ → ℕ → Option ℕ
scaled mult n =
    if ltb int64_max n || (ltb 1 mult && ltb (int64_max / mult) n) then none else some (n * mult)

unfoldable pub sized : ℕ → Bytes → Option ℕ
unfolding all_digits
sized mult digits =
    if length digits == 0 || not (all_digits digits) then none else scaled mult (value 0 digits)

abbrev pub upper_size : Bytes → Option ℕ
upper_size upper = let (mult, front) = strip suffixes upper in sized mult (trim_back front)

unfoldable pub parse_size : Bytes → Option ℕ
parse_size s = elim (trimmed_upper s) [ none ↦ none | some upper ↦ upper_size upper ]

-- The nine digits of a fraction, trailing zeros removed.
nine_digits : ℕ → ℕ → Bytes
nine_digits zero n = []
nine_digits (suc k) n = (b'0' + n / 10 ^ k % 10) ∷ nine_digits k n

drop_zeros : Bytes → Bytes
drop_zeros [] = []
drop_zeros (c ∷ s) = elim (drop_zeros s) [
  | [] ↦ if c == b'0' then [] else c ∷ []
  | d ∷ t ↦ c ∷ d ∷ t
]

unfoldable pub append_fraction : Bytes → ℕ → Bytes
unfolding nine_digits drop_zeros
append_fraction out frac_ns =
    if frac_ns == 0 then out else out ++ b'.' ∷ drop_zeros (nine_digits 9 frac_ns)

-- `human_duration` of a duration that is not negative.
unfoldable pub human_duration : ℕ → Bytes
human_duration ns =
    let hours = ns / 3600000000000 in
    let minutes = ns % 3600000000000 / 60000000000 in
    let seconds = ns % 3600000000000 % 60000000000 / 1000000000 in
    let frac = ns % 3600000000000 % 60000000000 % 1000000000 in
    let h = if ltb 0 hours then decimal hours ++ codes "h" else [] in
    let m = if ltb 0 hours || ltb 0 minutes then decimal minutes ++ codes "m" else [] in
    if ns == 0
    then codes "0s"
    else if ltb ns 1000000000
    then append_fraction (decimal (ns / 1000000)) (ns % 1000000 * 1000) ++ codes "ms"
    else append_fraction (h ++ m ++ decimal seconds) frac ++ codes "s"

five_kib : parse_size (codes " 5 kib ") ≡ some 5120
unfolding parse_size trimmed_upper strip sized scaled value
five_kib = refl

one_hour : human_duration 3605250000000 ≡ codes "1h0m5.25s"
unfolding human_duration append_fraction decimal
one_hour = refl

-- The multiples of the table.
IsMultiple : ℕ → Type 0
IsMultiple m = (m ≡ 1) ⊎ ((m ≡ 2 ^ 10) ⊎ ((m ≡ 2 ^ 20) ⊎ (m ≡ 2 ^ 30)))

strip-IsMultiple :
    (table : List Suffix) (s : Bytes)
    → All (λ x. IsMultiple x.mult) table
    → IsMultiple (strip table s).0
unfolding strip
strip-IsMultiple [] s h = unfold IsMultiple in inl refl
strip-IsMultiple (suffix ∷ table) s h = elim (Bool-cases (ends_with suffix.text s)) [
  | inl e ↦ rw e h.0
  | inr e ↦ rw e (strip-IsMultiple table s h.1)
]

-- The overflow test is exact for the multiples of the table.
scaled_lem :
    (mult n : ℕ)
    → IsMultiple mult
    → ((n * mult ≤ int64_max) × (scaled mult n ≡ some (n * mult)))
      ⊎ ((int64_max < n * mult) × (scaled mult n ≡ none))
unfolding scaled IsMultiple
scaled_lem mult n (inl e) = rw e (ground arith)
scaled_lem mult n (inr (inl e)) = rw e (ground arith)
scaled_lem mult n (inr (inr (inl e))) = rw e (ground arith)
scaled_lem mult n (inr (inr (inr e))) = rw e (ground arith)

sized-bound :
    (mult : ℕ) (digits : Bytes) (v : ℕ)
    → IsMultiple mult
    → sized mult digits ≡ some v
    → v ≤ int64_max
unfolding sized
sized-bound mult digits v m h = ground (arith, scaled_lem mult (value 0 digits) m, h)

table_multiples : All (λ x. IsMultiple x.mult) suffixes
unfolding IsMultiple
table_multiples = (
  inr (inl refl),
  (
    inr (inl refl),
    (
      inr (inl refl),
      (
        inr (inr (inl refl)),
        (
          inr (inr (inl refl)),
          (
            inr (inr (inl refl)),
            (inr (inr (inr refl)), (inr (inr (inr refl)), (inr (inr (inr refl)), (inl refl, tt)))),
          ),
        ),
      ),
    ),
  ),
)

upper_size-bound : (upper : Bytes) (v : ℕ) → upper_size upper ≡ some v → v ≤ int64_max
upper_size-bound upper v h =
    sized-bound (strip suffixes upper).0 (trim_back (strip suffixes upper).1) v
      (strip-IsMultiple suffixes upper table_multiples) h

from_upper :
    (o : Option Bytes) (v : ℕ)
    → elim o [ none ↦ none | some upper ↦ upper_size upper ] ≡ some v
    → v ≤ int64_max
from_upper none v h = cc
from_upper (some upper) v h = upper_size-bound upper v h

-- Whatever the text, a size that is accepted is one that an `std::int64_t` holds.
pub parse_size-bound : (s : Bytes) (v : ℕ) → parse_size s ≡ some v → v ≤ int64_max
unfolding parse_size
parse_size-bound s v h = from_upper (trimmed_upper s) v h
