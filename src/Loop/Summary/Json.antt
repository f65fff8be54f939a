-- ===== src/Loop/Summary/Json.antt =====
-- `json_string` of loop/summary.cpp, and a reader of JSON strings.
use itb_cpp.Base.{
  true, ℕ, zero, suc, ◌/◌, ◌%◌, ◌≤◌, ◌<◌, ◌≡◌, inl, inr, refl, arith, [], ◌∷◌, ◌++◌, append_assoc,
  Option, some, none, Bytes, codes, length, ltb, ◌==◌, ◌&&◌, ◌||◌, not, Bool, if◌then◌else◌,
  Bool-cases, ap, sym, subst, ==_iff, ltb→lt, length-append,
}
use itb_cpp.Base.Hex.{lower_digit, digit_value}
use itb_cpp.Demo.Blob.{pair, pair-hex}

-- What one character comes to.
unfoldable pub shown : ℕ → Bytes
shown c =
    if c == b'"'
    then codes "\\\""
    else if c == b'\\'
    then codes "\\\\"
    else if c == b'\n'
    then codes "\\n"
    else if c == b'\r'
    then codes "\\r"
    else if c == b'\t'
    then codes "\\t"
    else if ltb c 0x20
    then codes "\\u00" ++ lower_digit (c / 16) ∷ lower_digit (c % 16) ∷ []
    else c ∷ []

shown_all : Bytes → Bytes
shown_all [] = []
shown_all (c ∷ s) = shown c ++ shown_all s

unfoldable pub json_string : Bytes → Bytes
unfolding shown_all
json_string s = b'"' ∷ (shown_all s ++ b'"' ∷ [])

-- The next piece of a string literal, with the text behind it.
data Piece : Type 0 where
  char : ℕ → Bytes → Piece
  closing : Bytes → Piece
  bad : Piece

unicode : Bytes → Piece
unicode (a ∷ b ∷ h ∷ l ∷ s) = elim (pair (digit_value h) (digit_value l)) [
  | none ↦ bad
  | some c ↦ if a == b'0' && b == b'0' then char c s else bad
]
unicode _ = bad

escaped : Bytes → Piece
unfolding unicode
escaped [] = bad
escaped (e ∷ s) =
    if e == b'n'
    then char b'\n' s
    else if e == b'r'
    then char b'\r' s
    else if e == b't'
    then char b'\t' s
    else if e == b'u'
    then unicode s
    else if e == b'"'
    then char b'"' s
    else if e == b'\\'
    then char b'\\' s
    else bad

piece : Bytes → Piece
unfolding escaped
piece [] = bad
piece (c ∷ s) =
    if c == b'"'
    then closing s
    else if c == b'\\'
    then escaped s
    else if ltb c 0x20
    then bad
    else char c s

-- The string behind an opening quote, of at most so many characters, and the text behind it.
read_chars : ℕ → Bytes → Option (Bytes × Bytes)
read_chars zero text = none
read_chars (suc fuel) text = elim (piece text) [
  | bad ↦ none
  | closing s ↦ some ([], s)
  | char c s ↦ elim (read_chars fuel s) [ none ↦ none | some (cs, rest) ↦ some (c ∷ cs, rest) ]
]

pub read_string : Bytes → Option (Bytes × Bytes)
unfolding read_chars
read_string [] = none
read_string (c ∷ text) = if c == b'"' then read_chars (suc (length text)) text else none

-- The claim of the next lemma at one character.
abbrev IsRead : Bytes → ℕ → Type 0
IsRead rest c = piece (shown c ++ rest) ≡ char c rest

special : (rest : Bytes) (c k : ℕ) → (c == k) ≡ true → IsRead rest k → IsRead rest c
special rest c k e h = subst (IsRead rest) (sym (cc ((==_iff c k).0 e))) h

control :
    (rest : Bytes) (c : ℕ)
    → c < 0x20
    → piece (codes "\\u00" ++ lower_digit (c / 16) ∷ lower_digit (c % 16) ∷ rest) ≡ char c rest
unfolding piece
control rest c h =
    ap (λ o. elim o as (λ x. Piece) [ none ↦ bad | some b ↦ char b rest ])
      (pair-hex c (omega arith))

piece-shown : (rest : Bytes) (c : ℕ) → IsRead rest c
unfolding piece shown
piece-shown rest c = elim (Bool-cases (c == b'"')) [
  | inl e ↦ special rest c b'"' e refl
  | inr n1 ↦ elim (Bool-cases (c == b'\\')) [
    | inl e ↦ special rest c b'\\' e refl
    | inr n2 ↦ elim (Bool-cases (c == b'\n')) [
      | inl e ↦ special rest c b'\n' e refl
      | inr n3 ↦ elim (Bool-cases (c == b'\r')) [
        | inl e ↦ special rest c b'\r' e refl
        | inr n4 ↦ elim (Bool-cases (c == b'\t')) [
          | inl e ↦ special rest c b'\t' e refl
          | inr n5 ↦ elim (Bool-cases (ltb c 0x20)) [
            | inl low ↦ rw (n1, n2, n3, n4, n5, low) (control rest c (ltb→lt c 0x20 low))
            | inr high ↦ rw (n1, n2, n3, n4, n5, high, n1, n2, high) refl
          ]
        ]
      ]
    ]
  ]
]

-- The reader gives back the string and the text behind the literal.
read_chars-shown :
    (s rest : Bytes) (fuel : ℕ)
    → length s < fuel
    → read_chars fuel (shown_all s ++ b'"' ∷ rest) ≡ some (s, rest)
unfolding read_chars shown_all
read_chars-shown s rest zero h = absurd (omega arith)
read_chars-shown [] rest (suc fuel) h = unfold piece in refl
read_chars-shown (c ∷ s) rest (suc fuel) h =
    rw (read_chars, first, read_chars-shown s rest fuel (omega arith)) refl
  where
    first : piece ((shown c ++ shown_all s) ++ b'"' ∷ rest) ≡ char c (shown_all s ++ b'"' ∷ rest)
    first =
        rw (append_assoc (shown c) (shown_all s) (b'"' ∷ rest))
          (piece-shown (shown_all s ++ b'"' ∷ rest) c)

shown-nonempty : (c : ℕ) → 1 ≤ length (shown c)
unfolding shown
shown-nonempty c = ground arith

length-shown_all : (s : Bytes) → length s ≤ length (shown_all s)
unfolding shown_all
length-shown_all [] = omega arith
length-shown_all (c ∷ s) =
    omega (arith, length-append (shown c) (shown_all s), shown-nonempty c, length-shown_all s)

-- Every byte string that is written as a JSON string literal reads back, whatever stands behind it.
pub read_string-json_string :
    (s rest : Bytes) → read_string (json_string s ++ rest) ≡ some (s, rest)
unfolding read_string json_string
read_string-json_string s rest = rw (append_assoc (shown_all s) (b'"' ∷ []) rest) (
    read_chars-shown s rest (suc (length (shown_all s ++ b'"' ∷ rest)))
      (omega (arith, length-append (shown_all s) (b'"' ∷ rest), length-shown_all s)))

pub length-json_string : (s : Bytes) → 1 ≤ length (json_string s)
unfolding json_string
length-json_string s = omega arith

-- A literal opens with a quote.
pub json_string-opens : (s : Bytes) → (t : Bytes) × (json_string s ≡ b'"' ∷ t)
unfolding json_string
json_string-opens s = (_, refl)

-- No character needs an escape.
unfoldable pub is_plain : Bytes → Bool
is_plain [] = true
is_plain (c ∷ s) = not (c == b'"' || c == b'\\' || ltb c 0x20) && is_plain s

shown_all-is_plain : (s : Bytes) → is_plain s ≡ true → shown_all s ≡ s
unfolding is_plain shown_all shown
shown_all-is_plain [] h = refl
shown_all-is_plain (c ∷ s) h = ground (arith, h, shown_all-is_plain s)

-- Such a text is printed as it stands.
pub json_string-is_plain : (s : Bytes) → is_plain s ≡ true → json_string s ≡ b'"' ∷ (s ++ b'"' ∷ [])
unfolding json_string
json_string-is_plain s h = rw (shown_all-is_plain s h) refl
