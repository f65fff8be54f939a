-- ===== src/Loop/Summary/Document.antt =====
-- JSON documents, their compact printing, and a reader of JSON that is strict about commas, quotes,
-- control characters in strings and leading zeros; a number has no exponent.
pub mod Digits
pub mod Printed
pub mod Reading
pub mod Rows
use itb_cpp.Base.{
  Bool, true, false, ℕ, zero, suc, ◌*◌, ◌≡◌, List, [], ◌∷◌, ◌++◌, Option, some, none, Bytes, codes,
  length, ltb, ◌==◌, ◌&&◌, ◌||◌, not, if◌then◌else◌, All,
}
use itb_cpp.Base.Decimal.{is_whole}
use itb_cpp.Loop.Numbers.{digits_of}
use itb_cpp.Loop.Size.{is_digit}
use itb_cpp.Loop.Summary.Json.{json_string, read_string}

-- A number is kept as its text.
mutual
  pub data Json : Type 0 where
    number : Bytes → Json
    text : Bytes → Json
    array : Items → Json
    object : Members → Json

  pub data Items : Type 0 where
    nil : Items
    item : Json → Items → Items

  pub data Members : Type 0 where
    no_members : Members
    member : Bytes → Json → Members → Members

-- The printed document in front of a text. The flag tells that an item stands before.
abbrev pub comma : Bool → Bytes → Bytes
comma later s = if later then b',' ∷ s else s

unfoldable mutual
  pub print : Json → Bytes → Bytes
  print (number t) rest = t ++ rest
  print (text s) rest = json_string s ++ rest
  print (array xs) rest = b'[' ∷ print_items xs false rest
  print (object ms) rest = b'{' ∷ print_members ms false rest

  pub print_items : Items → Bool → Bytes → Bytes
  print_items nil later rest = b']' ∷ rest
  print_items (item x xs) later rest = comma later (print x (print_items xs true rest))

  pub print_members : Members → Bool → Bytes → Bytes
  print_members no_members later rest = b'}' ∷ rest
  print_members (member k x ms) later rest =
      comma later (json_string k ++ b':' ∷ print x (print_members ms true rest))

unfoldable pub minus_of : Bytes → Bytes × Bytes
minus_of [] = ([], [])
minus_of (c ∷ s) = if c == b'-' then (c ∷ [], s) else ([], c ∷ s)

-- The fraction with its point, and the text behind it.
unfoldable pub fraction_of : Bytes → Option (Bytes × Bytes)
fraction_of [] = some ([], [])
fraction_of (c ∷ s) =
    let (digits, rest) = digits_of s in
    let fraction = if length digits == 0 then none else some (c ∷ digits, rest) in
    if c == b'.' then fraction else some ([], c ∷ s)

unfoldable pub read_number : Bytes → Option (Bytes × Bytes)
unfolding minus_of fraction_of
read_number s =
    let (sign, unsigned) = minus_of s in
    let (digits, behind) = digits_of unsigned in
    if is_whole digits
    then elim (fraction_of behind) [
      | none ↦ none
      | some (fraction, rest) ↦ some (sign ++ (digits ++ fraction), rest)
    ]
    else none

-- What a value starts with.
pub data Head : Type 0 where
  quote bracket brace plain : Head

unfoldable pub head_of : Bytes → Head
head_of [] = plain
head_of (c ∷ s) =
    if c == b'"' then quote else if c == b'[' then bracket else if c == b'{' then brace else plain

-- Behind an opening bracket or an item: the list is closed, or an item follows.
pub data Next : Type 0 where
  closed : Bytes → Next
  follows : Bytes → Next
  wrong : Next

unfoldable pub next_of : ℕ → Bool → Bytes → Next
next_of close later [] = wrong
next_of close later (c ∷ s) =
    if c == close
    then closed s
    else (if later then (if c == b',' then follows s else wrong) else follows (c ∷ s))

-- The text behind a colon.
unfoldable pub colon : Bytes → Option Bytes
colon [] = none
colon (c ∷ s) = if c == b':' then some s else none

infixl 5 ◌>>-◌
unfoldable pub ◌>>-◌ : {A B : Type 0} → Option A → (A → Option B) → Option B
none >>- f = none
some a >>- f = f a

abbrev pub tail : Bytes → Bytes
tail [] = []
tail (c ∷ s) = s

-- The reader, with as many nested calls as `fuel` allows.
unfoldable mutual
  unfolding read_number

  pub read_value : ℕ → Bytes → Option (Json × Bytes)
  read_value zero s = none
  read_value (suc fuel) s = elim (head_of s) [
    | quote ↦ read_string s >>- λ r. some (text r.0, r.1)
    | bracket ↦ read_items fuel false (tail s) >>- λ r. some (array r.0, r.1)
    | brace ↦ read_members fuel false (tail s) >>- λ r. some (object r.0, r.1)
    | plain ↦ read_number s >>- λ r. some (number r.0, r.1)
  ]

  pub read_items : ℕ → Bool → Bytes → Option (Items × Bytes)
  read_items zero later s = none
  read_items (suc fuel) later s = elim (next_of b']' later s) [
    | closed rest ↦ some (nil, rest)
    | follows t ↦
        read_value fuel t >>- λ x. read_items fuel true x.1 >>- λ xs. some (item x.0 xs.0, xs.1)
    | wrong ↦ none
  ]

  pub read_members : ℕ → Bool → Bytes → Option (Members × Bytes)
  read_members zero later s = none
  read_members (suc fuel) later s = elim (next_of b'}' later s) [
    | closed rest ↦ some (no_members, rest)
    | follows t ↦ read_string t >>- λ k. colon k.1 >>- λ u. read_value fuel u >>- λ x.
        read_members fuel true x.1 >>- λ ms. some (member k.0 x.0 ms.0, ms.1)
    | wrong ↦ none
  ]

-- Two calls for each byte.
unfoldable pub read_json : Bytes → Option (Json × Bytes)
read_json s = read_value (suc (2 * length s)) s
