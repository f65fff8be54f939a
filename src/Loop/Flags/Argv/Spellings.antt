-- ===== src/Loop/Flags/Argv/Spellings.antt =====
-- The spellings of a flag on the command line.
use itb_cpp.Base.{
  Bool, true, false, ℕ, ◌≡◌, inl, inr, refl, arith, List, [], ◌∷◌, ◌++◌, some, none, Bytes, codes,
  ◌==◌, ◌=s=◌, ◌&&◌, ◌||◌, not, =s=_sound, Bool-cases, Option-cases, ap, ◌∙◌,
}
use itb_cpp.Loop.Flags.{RawFlags, Flag, flag_table}
use itb_cpp.Loop.Flags.Argv.{
  cut_at, Parsed, refused, invalid, assigned, stops, goes, wants, named_flag, looked_up, undashed,
  read_arg, parse_from,
}

-- A name without `=`, other than `h` and `help`, that does not start with a dash.
no_equals : Bytes → Bool
no_equals [] = true
no_equals (c ∷ s) = not (c == b'=') && no_equals s

is_plain : Bytes → Bool
is_plain [] = false
is_plain (c ∷ s) =
    not (c == b'-') && no_equals (c ∷ s) && not ((c ∷ s) =s= codes "h" || (c ∷ s) =s= codes "help")

all_plain : List Flag → Bool
all_plain [] = true
all_plain (fl ∷ table) = is_plain fl.name && all_plain table

table_plain : all_plain flag_table ≡ true
unfolding all_plain is_plain no_equals flag_table
table_plain = refl

named_flag-plain :
    (table : List Flag) (name : Bytes) (fl : Flag)
    → all_plain table ≡ true
    → named_flag name table ≡ some fl
    → is_plain name ≡ true
unfolding named_flag all_plain
named_flag-plain [] name fl p e = cc
named_flag-plain (x ∷ table) name fl p e = elim (Bool-cases (name =s= x.name)) [
  | inl same ↦ rw (=s=_sound name x.name same) (ground (arith, p))
  | inr other ↦ named_flag-plain table name fl (ground (arith, p)) (ground (arith, e, other))
]

cut_at-none : (s : Bytes) → no_equals s ≡ true → cut_at b'=' s ≡ none
unfolding cut_at no_equals
cut_at-none [] h = refl
cut_at-none (c ∷ s) h = ground (arith, cut_at-none s)

cut_at-some : (s v : Bytes) → no_equals s ≡ true → cut_at b'=' (s ++ b'=' ∷ v) ≡ some (s, v)
unfolding cut_at no_equals
cut_at-some [] v h = refl
cut_at-some (c ∷ s) v h = ground (arith, cut_at-some s v)

no_equals-false : (s v : Bytes) → no_equals (s ++ b'=' ∷ v) ≡ false
unfolding no_equals
no_equals-false [] v = refl
no_equals-false (c ∷ s) v = ground (arith, no_equals-false s v)

with_equals-ne : (s v t : Bytes) → no_equals t ≡ true → ((s ++ b'=' ∷ v) =s= t) ≡ false
with_equals-ne s v t h = elim (Bool-cases ((s ++ b'=' ∷ v) =s= t)) [
  | inl e ↦ ground (arith, h, no_equals-false s v, ap no_equals (=s=_sound (s ++ b'=' ∷ v) t e))
  | inr e ↦ e
]

plain-no_equals : (s : Bytes) → is_plain s ≡ true → no_equals s ≡ true
unfolding is_plain
plain-no_equals [] h = cc
plain-no_equals (c ∷ s) h = ground (arith, h)

not_help : (s : Bytes) → is_plain s ≡ true → (s =s= codes "h" || s =s= codes "help") ≡ false
unfolding is_plain
not_help [] h = cc
not_help (c ∷ s) h = ground (arith, h)

undashed-bare :
    (table : List Flag) (name : Bytes) (f : RawFlags)
    → is_plain name ≡ true
    → undashed table name f ≡ looked_up table name none f
unfolding undashed
undashed-bare table [] f h = cc
undashed-bare table (c ∷ s) f h =
    rw (not_help (c ∷ s) h, cut_at-none (c ∷ s) (plain-no_equals (c ∷ s) h)) refl

undashed-equals :
    (table : List Flag) (name value : Bytes) (f : RawFlags)
    → is_plain name ≡ true
    → undashed table (name ++ b'=' ∷ value) f ≡ looked_up table name (some value) f
unfolding undashed no_equals
undashed-equals table [] value f h = cc
undashed-equals table (c ∷ s) value f h =
    rw
      (
        with_equals-ne (c ∷ s) value (codes "h") refl,
        with_equals-ne (c ∷ s) value (codes "help") refl,
        cut_at-some (c ∷ s) value (plain-no_equals (c ∷ s) h),
      )
      refl

parse_from-goes :
    (table : List Flag) (arg : Bytes) (rest : List Bytes) (f f' : RawFlags)
    → read_arg table arg f ≡ goes f'
    → parse_from table (arg ∷ rest) f ≡ parse_from table rest f'
unfolding parse_from
parse_from-goes table arg [] f f' e = rw (parse_from, e) refl
parse_from-goes table arg (value ∷ rest) f f' e = rw (parse_from, e) refl

parse_from-stops :
    (table : List Flag) (arg : Bytes) (rest : List Bytes) (f : RawFlags) (end : Parsed)
    → read_arg table arg f ≡ stops end
    → parse_from table (arg ∷ rest) f ≡ end
unfolding parse_from
parse_from-stops table arg [] f end e = rw (parse_from, e) refl
parse_from-stops table arg (value ∷ rest) f end e = rw (parse_from, e) refl

-- What a flag with its value comes to.
abbrev pub set_flag : Flag → Bytes → List Bytes → RawFlags → Parsed
set_flag fl value rest f = elim (fl.assign value f) [
  | none ↦ refused (invalid fl value)
  | some f' ↦ parse_from flag_table rest f'
]

-- An argument that is read as an assignment.
parse_from-assigned :
    (fl : Flag) (arg value : Bytes) (rest : List Bytes) (f : RawFlags)
    → read_arg flag_table arg f ≡ assigned fl value f
    → parse_from flag_table (arg ∷ rest) f ≡ set_flag fl value rest f
parse_from-assigned fl arg value rest f e = elim (Option-cases (fl.assign value f)) [
  | inl bad ↦
      rw (set_flag, bad)
        (parse_from-stops flag_table arg rest f (refused (invalid fl value))
          (e ∙ rw (assigned, bad) refl))
  | inr (f', good) ↦
      rw (set_flag, good) (parse_from-goes flag_table arg rest f f' (e ∙ rw (assigned, good) refl))
]

not_dash : (c : ℕ) (s : Bytes) → is_plain (c ∷ s) ≡ true → (c == b'-') ≡ false
unfolding is_plain
not_dash c s h = ground (arith, h)

-- One dash and two, also with text behind the name.
read_arg-dashes :
    (table : List Flag) (name : Bytes) (f : RawFlags)
    → is_plain name ≡ true
    → (read_arg table (b'-' ∷ name) f ≡ undashed table name f)
      × (read_arg table (b'-' ∷ b'-' ∷ name) f ≡ undashed table name f)
unfolding read_arg is_plain
read_arg-dashes table [] f h = cc
read_arg-dashes table (c ∷ s) f h = (rw (not_dash c s h) refl, refl)

read_arg-behind :
    (table : List Flag) (name tail : Bytes) (f : RawFlags)
    → is_plain name ≡ true
    → (read_arg table (b'-' ∷ (name ++ tail)) f ≡ undashed table (name ++ tail) f)
      × (read_arg table (b'-' ∷ b'-' ∷ (name ++ tail)) f ≡ undashed table (name ++ tail) f)
unfolding read_arg is_plain
read_arg-behind table [] tail f h = cc
read_arg-behind table (c ∷ s) tail f h = (rw (not_dash c s h) refl, refl)

looked_up-some :
    (table : List Flag) (name value : Bytes) (fl : Flag) (f : RawFlags)
    → named_flag name table ≡ some fl
    → looked_up table name (some value) f ≡ assigned fl value f
unfolding looked_up
looked_up-some table name value fl f e = rw (looked_up, e) refl

looked_up-bare :
    (table : List Flag) (name : Bytes) (fl : Flag) (f : RawFlags)
    → named_flag name table ≡ some fl
    → fl.boolean ≡ false
    → looked_up table name none f ≡ wants fl
unfolding looked_up
looked_up-bare table name fl f e nb = rw (looked_up, e, nb) refl

parse_from-wants :
    (fl : Flag) (arg value : Bytes) (rest : List Bytes) (f : RawFlags)
    → read_arg flag_table arg f ≡ wants fl
    → parse_from flag_table (arg ∷ value ∷ rest) f ≡ set_flag fl value rest f
unfolding parse_from
parse_from-wants fl arg value rest f e = rw (parse_from, e) refl

-- For every flag of the table that is not Boolean, the four spellings `-name value`, `--name value`,
-- `-name=value` and `--name=value` come to the same, whatever the value and the arguments behind it:
-- the value is assigned to the flag and the parse goes on, or it is refused as an invalid value.
pub flag-spellings :
    (fl : Flag) (name value : Bytes) (rest : List Bytes) (f : RawFlags)
    → named_flag name flag_table ≡ some fl
    → fl.boolean ≡ false
    → (parse_from flag_table ((b'-' ∷ name) ∷ value ∷ rest) f ≡ set_flag fl value rest f)
      × (parse_from flag_table ((b'-' ∷ b'-' ∷ name) ∷ value ∷ rest) f ≡ set_flag fl value rest f)
      × (parse_from flag_table ((b'-' ∷ (name ++ b'=' ∷ value)) ∷ rest) f
          ≡ set_flag fl value rest f)
      × (parse_from flag_table ((b'-' ∷ b'-' ∷ (name ++ b'=' ∷ value)) ∷ rest) f
          ≡ set_flag fl value rest f)
flag-spellings fl name value rest f e nb = (
  parse_from-wants fl (b'-' ∷ name) value rest f (shorter.0 ∙ bare),
  parse_from-wants fl (b'-' ∷ b'-' ∷ name) value rest f (shorter.1 ∙ bare),
  parse_from-assigned fl (b'-' ∷ (name ++ b'=' ∷ value)) value rest f
      ((read_arg-behind flag_table name (b'=' ∷ value) f plain).0 ∙ joined),
  parse_from-assigned fl (b'-' ∷ b'-' ∷ (name ++ b'=' ∷ value)) value rest f
      ((read_arg-behind flag_table name (b'=' ∷ value) f plain).1 ∙ joined),
)
  where
    plain : is_plain name ≡ true
    plain = named_flag-plain flag_table name fl table_plain e

    joined : undashed flag_table (name ++ b'=' ∷ value) f ≡ assigned fl value f
    joined =
        undashed-equals flag_table name value f plain ∙ looked_up-some flag_table name value fl f e

    bare : undashed flag_table name f ≡ wants fl
    bare = undashed-bare flag_table name f plain ∙ looked_up-bare flag_table name fl f e nb

    shorter :
        (read_arg flag_table (b'-' ∷ name) f ≡ undashed flag_table name f)
        × (read_arg flag_table (b'-' ∷ b'-' ∷ name) f ≡ undashed flag_table name f)
    shorter = read_arg-dashes flag_table name f plain
