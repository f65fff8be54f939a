-- ===== src/Loop/Summary/Document/Reading.antt =====
-- The reader on printed documents.
use itb_cpp.Base.{
  Bool, true, false, ℕ, zero, suc, ◌+◌, ◌*◌, ◌<◌, ◌≡◌, refl, arith, ◌∷◌, ◌++◌, Bytes, Option, some,
  length, length-append,
}
use itb_cpp.Loop.Summary.Json.{json_string, read_string, read_string-json_string}
use itb_cpp.Loop.Summary.Document.{
  Json, number, text, array, object, Items, nil, item, Members, no_members, member, print,
  print_items, print_members, quote, plain, head_of, follows, next_of, colon, ◌>>-◌, read_number,
  read_value, read_items, read_members, read_json,
}
use itb_cpp.Loop.Summary.Document.Digits.{ends_number, read_number-IsNumeral, IsNumeral-Starts}
use itb_cpp.Loop.Summary.Document.Printed.{
  AreNumerals, ItemsAre, MembersAre, length-comma, length-print, ends-print_items,
  ends-print_members, next_of-Starts, next_of-string, next_of-print, next_of-key,
}

bind-some :
    {A B : Type 0} (f : A → Option B) {o : Option A} {a : A} {b : B}
    → o ≡ some a
    → f a ≡ some b
    → o >>- f ≡ some b
unfolding ◌>>-◌
bind-some f e h = rw e h

module _ (fuel : ℕ) where
  -- The calls of the reader, each with the answers of the calls inside it.
  value-number :
      (t s rest : Bytes)
      → head_of s ≡ plain
      → read_number s ≡ some (t, rest)
      → read_value (suc fuel) s ≡ some (number t, rest)
  unfolding read_value
  value-number t s rest e f = rw (read_value, e) (bind-some _ f refl)

  value-text :
      (t s rest : Bytes)
      → head_of s ≡ quote
      → read_string s ≡ some (t, rest)
      → read_value (suc fuel) s ≡ some (text t, rest)
  unfolding read_value
  value-text t s rest e f = rw (read_value, e) (bind-some _ f refl)

  value-array :
      (xs : Items) (s rest : Bytes)
      → read_items fuel false s ≡ some (xs, rest)
      → read_value (suc fuel) (b'[' ∷ s) ≡ some (array xs, rest)
  unfolding read_value head_of
  value-array xs s rest f = bind-some _ f refl

  value-object :
      (ms : Members) (s rest : Bytes)
      → read_members fuel false s ≡ some (ms, rest)
      → read_value (suc fuel) (b'{' ∷ s) ≡ some (object ms, rest)
  unfolding read_value head_of
  value-object ms s rest f = bind-some _ f refl

  items-nil :
      (later : Bool) (rest : Bytes) → read_items (suc fuel) later (b']' ∷ rest) ≡ some (nil, rest)
  unfolding read_items next_of
  items-nil later rest = refl

  members-none :
      (later : Bool) (rest : Bytes)
      → read_members (suc fuel) later (b'}' ∷ rest) ≡ some (no_members, rest)
  unfolding read_members next_of
  members-none later rest = refl

  items-item :
      (later : Bool) (x : Json) (xs : Items) (s t u rest : Bytes)
      → next_of b']' later s ≡ follows t
      → read_value fuel t ≡ some (x, u)
      → read_items fuel true u ≡ some (xs, rest)
      → read_items (suc fuel) later s ≡ some (item x xs, rest)
  unfolding read_items
  items-item later x xs s t u rest e f g = rw (read_items, e) (bind-some _ f (bind-some _ g refl))

  members-member :
      (later : Bool) (k : Bytes) (x : Json) (ms : Members) (s t u v rest : Bytes)
      → next_of b'}' later s ≡ follows t
      → read_string t ≡ some (k, b':' ∷ u)
      → read_value fuel u ≡ some (x, v)
      → read_members fuel true v ≡ some (ms, rest)
      → read_members (suc fuel) later s ≡ some (member k x ms, rest)
  unfolding read_members colon
  members-member later k x ms s t u v rest e f g h =
      rw (read_members, e) (bind-some _ f (bind-some _ refl (bind-some _ g (bind-some _ h refl))))

mutual
  unfolding print print_items print_members AreNumerals ItemsAre MembersAre

  read_value-print :
      (x : Json) (fuel : ℕ) (rest : Bytes)
      → AreNumerals x
      → ends_number rest ≡ true
      → 2 * length (print x rest) < fuel
      → read_value fuel (print x rest) ≡ some (x, rest)
  read_value-print x zero rest h e l = absurd (omega arith)
  read_value-print (number t) (suc fuel) rest h e l =
      value-number fuel t _ rest (next_of-Starts t rest (IsNumeral-Starts t h)).1
        (read_number-IsNumeral t rest h e)
  read_value-print (text s) (suc fuel) rest h e l =
      value-text fuel s _ rest (next_of-string b']' s rest (omega arith)).1
        (read_string-json_string s rest)
  read_value-print (array xs) (suc fuel) rest h e l =
      value-array fuel xs _ rest (read_items-print xs fuel false rest h (omega (arith, l)))
  read_value-print (object ms) (suc fuel) rest h e l =
      value-object fuel ms _ rest (read_members-print ms fuel false rest h (omega (arith, l)))

  read_items-print :
      (xs : Items) (fuel : ℕ) (later : Bool) (rest : Bytes)
      → ItemsAre xs
      → 2 * length (print_items xs later rest) + 1 < fuel
      → read_items fuel later (print_items xs later rest) ≡ some (xs, rest)
  read_items-print xs zero later rest h l = absurd (omega arith)
  read_items-print nil (suc fuel) later rest h l = items-nil fuel later rest
  read_items-print (item x xs) (suc fuel) later rest h l =
      let more = print_items xs true rest in
      let shorter = length-comma later (print x more) in
      let smaller = length-print x more h.0 in
      items-item fuel later x xs _ (print x more) more rest (next_of-print later x more h.0)
        (read_value-print x fuel more h.0 (ends-print_items xs rest) (omega (arith, l, shorter)))
        (read_items-print xs fuel true rest h.1 (omega (arith, l, shorter, smaller)))

  read_members-print :
      (ms : Members) (fuel : ℕ) (later : Bool) (rest : Bytes)
      → MembersAre ms
      → 2 * length (print_members ms later rest) + 1 < fuel
      → read_members fuel later (print_members ms later rest) ≡ some (ms, rest)
  read_members-print ms zero later rest h l = absurd (omega arith)
  read_members-print no_members (suc fuel) later rest h l = members-none fuel later rest
  read_members-print (member k x ms) (suc fuel) later rest h l =
      let more = print_members ms true rest in
      let behind = b':' ∷ print x more in
      let shorter = length-comma later (json_string k ++ behind) in
      let key = length-append (json_string k) behind in
      let smaller = length-print x more h.0 in
      members-member fuel later k x ms _ (json_string k ++ behind) (print x more) more rest
        (next_of-key later k behind) (read_string-json_string k behind)
        (read_value-print x fuel more h.0 (ends-print_members ms rest)
          (omega (arith, l, shorter, key)))
        (read_members-print ms fuel true rest h.1 (omega (arith, l, shorter, key, smaller)))

-- Every printed document whose numbers are numbers reads back.
pub read_json-print :
    (x : Json) (rest : Bytes)
    → AreNumerals x
    → ends_number rest ≡ true
    → read_json (print x rest) ≡ some (x, rest)
unfolding read_json
read_json-print x rest h e = read_value-print x _ rest h e (omega arith)
