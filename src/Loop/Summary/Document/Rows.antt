-- ===== src/Loop/Summary/Document/Rows.antt =====
-- Objects and arrays that are put together from texts, as loop/summary.cpp does it.
use itb_cpp.Base.{
  Bool, true, false, ◌≡◌, refl, ap, List, [], ◌∷◌, ◌++◌, append_assoc, some, Bytes, ◌∙◌,
}
use itb_cpp.Loop.Summary.Json.{json_string, is_plain, json_string-is_plain}
use itb_cpp.Loop.Summary.Document.{
  Json, number, text, object, Members, no_members, member, comma, print, print_members, read_json,
}
use itb_cpp.Loop.Summary.Document.Digits.{IsNumeral, ends_number}
use itb_cpp.Loop.Summary.Document.Printed.{AreNumerals, MembersAre}
use itb_cpp.Loop.Summary.Document.Reading.{read_json-print}

abbrev pub in_quotes : Bytes → Bytes
in_quotes s = b'"' ∷ (s ++ b'"' ∷ [])

-- `"key":value` for each pair; a comma stands in front of all but the first.
unfoldable pub members_text : Bool → List (Bytes × Bytes) → Bytes
members_text later [] = []
members_text later ((key, value) ∷ rows) =
    comma later (in_quotes key ++ (b':' ∷ (value ++ members_text true rows)))

unfoldable pub object_text : List (Bytes × Bytes) → Bytes
object_text rows = b'{' ∷ (members_text false rows ++ b'}' ∷ [])

unfoldable pub members_of : List (Bytes × Json) → Members
members_of [] = no_members
members_of ((key, x) ∷ fields) = member key x (members_of fields)

-- The text is the value's.
abbrev pub Shows : Bytes → Json → Type 0
Shows t x = AreNumerals x × ((rest : Bytes) → t ++ rest ≡ print x rest)

infixr 5 ◌▸◌
pub data Prints : List (Bytes × Bytes) → List (Bytes × Json) → Type 0 where
  done : Prints [] []
  ◌▸◌ :
      {key t : Bytes} {x : Json} {rows : List (Bytes × Bytes)} {fields : List (Bytes × Json)}
      → (is_plain key ≡ true) × Shows t x
      → Prints rows fields
      → Prints ((key, t) ∷ rows) ((key, x) ∷ fields)

pub number-Shows : {t : Bytes} → IsNumeral t → Shows t (number t)
unfolding AreNumerals print
number-Shows n = (n, λ rest. refl)

pub text-Shows : (s : Bytes) → Shows (json_string s) (text s)
unfolding AreNumerals print
text-Shows s = (tt, λ rest. refl)

-- A text that the source puts between quotes itself.
pub quotes-Shows : (s : Bytes) → is_plain s ≡ true → Shows (in_quotes s) (text s)
unfolding AreNumerals print
quotes-Shows s h = (tt, λ rest. rw (json_string-is_plain s h) refl)

AreNumerals-rows :
    {rows : List (Bytes × Bytes)} {fields : List (Bytes × Json)}
    → Prints rows fields
    → MembersAre (members_of fields)
unfolding members_of MembersAre
AreNumerals-rows done = tt
AreNumerals-rows ((plain, shows) ▸ more) = (shows.0, AreNumerals-rows more)

comma-append : (later : Bool) (s t : Bytes) → comma later s ++ t ≡ comma later (s ++ t)
comma-append true s t = refl
comma-append false s t = refl

row-text :
    (key t behind rest more printed : Bytes) (later : Bool)
    → is_plain key ≡ true
    → behind ++ rest ≡ more
    → t ++ more ≡ printed
    → comma later (in_quotes key ++ b':' ∷ (t ++ behind)) ++ rest
      ≡ comma later (json_string key ++ b':' ∷ printed)
row-text key t behind rest more printed later plain e f =
    comma-append later _ rest
    ∙ ap (comma later) (
        append_assoc (in_quotes key) (b':' ∷ (t ++ behind)) rest
        ∙ rw (json_string-is_plain key plain) (
            ap (λ s. in_quotes key ++ b':' ∷ s)
              (append_assoc t behind rest ∙ (ap (λ s. t ++ s) e ∙ f))))

members_text-Prints :
    {rows : List (Bytes × Bytes)} {fields : List (Bytes × Json)}
    → Prints rows fields
    → (later : Bool) (rest : Bytes)
    → members_text later rows ++ b'}' ∷ rest ≡ print_members (members_of fields) later rest
unfolding members_text members_of print_members
members_text-Prints done later rest = refl
members_text-Prints ((plain, shows) ▸ more) later rest =
    row-text _ _ _ (b'}' ∷ rest) _ _ later plain (members_text-Prints more true rest) (shows.1 _)

pub Prints-append :
    {rows more : List (Bytes × Bytes)} {fields others : List (Bytes × Json)}
    → Prints rows fields
    → Prints more others
    → Prints (rows ++ more) (fields ++ others)
Prints-append done q = q
Prints-append (row ▸ p) q = row ▸ Prints-append p q

pub object-Shows :
    {rows : List (Bytes × Bytes)} {fields : List (Bytes × Json)}
    → Prints rows fields
    → Shows (object_text rows) (object (members_of fields))
unfolding object_text AreNumerals print
object-Shows p = (
  AreNumerals-rows p,
  λ rest. ap (◌∷◌ b'{') (append_assoc _ (b'}' ∷ []) rest ∙ members_text-Prints p false rest),
)

-- A text that shows a document reads back as it.
pub read_json-Shows :
    (t rest : Bytes) (x : Json)
    → Shows t x
    → ends_number rest ≡ true
    → read_json (t ++ rest) ≡ some (x, rest)
read_json-Shows t rest x s h = rw (s.1 rest) (read_json-print x rest s.0 h)
