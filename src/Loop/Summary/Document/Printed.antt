-- ===== src/Loop/Summary/Document/Printed.antt =====
-- Printed documents: their lengths, and what they start with.
use itb_cpp.Base.{
  Bool, true, false, ℕ, suc, ◌≤◌, ◌<◌, ◌≡◌, refl, arith, ◌∷◌, ◌++◌, Bytes, length, length-append,
}
use itb_cpp.Loop.Summary.Json.{json_string, json_string-opens, length-json_string}
use itb_cpp.Loop.Summary.Document.{
  Json, number, text, array, object, Items, nil, item, Members, no_members, member, comma, print,
  print_items, print_members, quote, plain, head_of, follows, next_of,
}
use itb_cpp.Loop.Summary.Document.Digits.{IsNumeral, ends_number, Starts, IsNumeral-Starts}

-- Each number of the document is one.
unfoldable mutual
  pub AreNumerals : Json → Type 0
  AreNumerals (number t) = IsNumeral t
  AreNumerals (text s) = Unit
  AreNumerals (array xs) = ItemsAre xs
  AreNumerals (object ms) = MembersAre ms

  pub ItemsAre : Items → Type 0
  ItemsAre nil = Unit
  ItemsAre (item x xs) = AreNumerals x × ItemsAre xs

  pub MembersAre : Members → Type 0
  MembersAre no_members = Unit
  MembersAre (member k x ms) = AreNumerals x × MembersAre ms

length-Starts : (t rest : Bytes) → Starts t → suc (length rest) ≤ length (t ++ rest)
length-Starts t rest (c, s, e, lo, hi) = rw e (omega (arith, length-append s rest))

pub length-comma : (later : Bool) (s : Bytes) → length s ≤ length (comma later s)
length-comma true s = omega arith
length-comma false s = omega arith

mutual
  unfolding print print_items print_members AreNumerals ItemsAre MembersAre

  pub length-print :
      (x : Json) (rest : Bytes) → AreNumerals x → suc (length rest) ≤ length (print x rest)
  length-print (number t) rest h = length-Starts t rest (IsNumeral-Starts t h)
  length-print (text s) rest h =
      omega (arith, length-append (json_string s) rest, length-json_string s)
  length-print (array xs) rest h = omega (arith, length-print_items xs false rest h)
  length-print (object ms) rest h = omega (arith, length-print_members ms false rest h)

  pub length-print_items :
      (xs : Items) (later : Bool) (rest : Bytes)
      → ItemsAre xs
      → suc (length rest) ≤ length (print_items xs later rest)
  length-print_items nil later rest h = omega arith
  length-print_items (item x xs) later rest h = omega (
    arith,
    length-comma later (print x (print_items xs true rest)),
    length-print x (print_items xs true rest) h.0,
    length-print_items xs true rest h.1,
  )

  pub length-print_members :
      (ms : Members) (later : Bool) (rest : Bytes)
      → MembersAre ms
      → suc (length rest) ≤ length (print_members ms later rest)
  length-print_members no_members later rest h = omega arith
  length-print_members (member k x ms) later rest h = omega (
    arith,
    length-comma later (json_string k ++ b':' ∷ print x (print_members ms true rest)),
    length-append (json_string k) (b':' ∷ print x (print_members ms true rest)),
    length-print x (print_members ms true rest) h.0,
    length-print_members ms true rest h.1,
  )

pub ends-print_items : (xs : Items) (rest : Bytes) → ends_number (print_items xs true rest) ≡ true
unfolding print_items ends_number
ends-print_items nil rest = refl
ends-print_items (item x xs) rest = refl

pub ends-print_members :
    (ms : Members) (rest : Bytes) → ends_number (print_members ms true rest) ≡ true
unfolding print_members ends_number
ends-print_members no_members rest = refl
ends-print_members (member k x ms) rest = refl

pub next_of-Starts :
    (t rest : Bytes)
    → Starts t
    → (next_of b']' false (t ++ rest) ≡ follows (t ++ rest)) × (head_of (t ++ rest) ≡ plain)
unfolding next_of head_of
next_of-Starts t rest (c, s, e, lo, hi) = rw e (ground arith, ground arith)

pub next_of-string :
    (close : ℕ) (k rest : Bytes)
    → b'"' < close
    → (next_of close false (json_string k ++ rest) ≡ follows (json_string k ++ rest))
      × (head_of (json_string k ++ rest) ≡ quote)
unfolding next_of head_of
next_of-string close k rest h = let (t, e) = json_string-opens k in rw e (ground (arith, h), refl)

-- A value is no closing bracket.
pub next_of-print :
    (later : Bool) (x : Json) (rest : Bytes)
    → AreNumerals x
    → next_of b']' later (comma later (print x rest)) ≡ follows (print x rest)
unfolding next_of print AreNumerals
next_of-print true x rest h = refl
next_of-print false (number t) rest h = (next_of-Starts t rest (IsNumeral-Starts t h)).0
next_of-print false (text s) rest h = (next_of-string b']' s rest (omega arith)).0
next_of-print false (array xs) rest h = refl
next_of-print false (object ms) rest h = refl

pub next_of-key :
    (later : Bool) (k rest : Bytes)
    → next_of b'}' later (comma later (json_string k ++ rest)) ≡ follows (json_string k ++ rest)
unfolding next_of
next_of-key true k rest = refl
next_of-key false k rest = (next_of-string b'}' k rest (omega arith)).0
