-- ===== src/Loop/Names.antt =====
-- The enumerations of loop/loop.hpp with their names, from loop/payload.cpp and loop/worker.cpp.
use itb_cpp.Base.{
  arith, ◌≡◌, ◌↔◌, refl, List, [], ◌∷◌, Option, some, none, Bytes, codes, ◌=s=◌, =s=_sound,
  if◌then◌else◌,
}

pub data Shape : Type 0 where
  stream message stream_one_shot both : Shape

pub data PayloadMode : Type 0 where
  fixed rotating pattern_zero pattern_ff pattern_ascii : PayloadMode

unfoldable pub shape_name : Shape → Bytes
shape_name stream = codes "stream"
shape_name message = codes "message"
shape_name stream_one_shot = codes "stream_one_shot"
shape_name both = codes "both"

unfoldable pub payload_mode_name : PayloadMode → Bytes
payload_mode_name fixed = codes "fixed"
payload_mode_name rotating = codes "rotating"
payload_mode_name pattern_zero = codes "pattern-zero"
payload_mode_name pattern_ff = codes "pattern-ff"
payload_mode_name pattern_ascii = codes "pattern-ascii"

-- `for (i = 0; i < size(names); i++) if (s == names[i]) …`, over enumerators in the order of their
-- values.
named : {A : Type 0} → (A → Bytes) → List A → Bytes → Option A
named name [] s = none
named name (a ∷ as') s = if s =s= name a then some a else named name as' s

abbrev shapes : List Shape
shapes = stream ∷ message ∷ stream_one_shot ∷ both ∷ []

abbrev modes : List PayloadMode
modes = fixed ∷ rotating ∷ pattern_zero ∷ pattern_ff ∷ pattern_ascii ∷ []

unfoldable pub parse_shape : Bytes → Option Shape
unfolding named
parse_shape s = named shape_name shapes s

unfoldable pub parse_payload_mode : Bytes → Option PayloadMode
unfolding named
parse_payload_mode s = named payload_mode_name modes s

named_sound :
    {A : Type 0} (name : A → Bytes) (as' : List A) (s : Bytes) (a : A)
    → named name as' s ≡ some a
    → s ≡ name a
unfolding named
named_sound name [] s a h = cc
named_sound name (b ∷ as') s a h = ground (arith, =s=_sound s (name b), named_sound name as' s a, h)

shape-back : (x : Shape) → parse_shape (shape_name x) ≡ some x
unfolding parse_shape shape_name
shape-back stream = refl
shape-back _ = refl

mode-back : (x : PayloadMode) → parse_payload_mode (payload_mode_name x) ≡ some x
unfolding parse_payload_mode payload_mode_name
mode-back fixed = refl
mode-back _ = refl

-- A `--shape` value is accepted as a shape, and a `--payload-mode` value as a mode, exactly if it is
-- the name that the summary prints for it.
pub parse-name_iff :
    (s : Bytes) (x : Shape) (m : PayloadMode)
    → ((parse_shape s ≡ some x) ↔ (s ≡ shape_name x))
      × ((parse_payload_mode s ≡ some m) ↔ (s ≡ payload_mode_name m))
unfolding parse_shape parse_payload_mode
parse-name_iff s x m = (
  (named_sound shape_name shapes s x, λ e. rw e (shape-back x)),
  (named_sound payload_mode_name modes s m, λ e. rw e (mode-back m)),
)
