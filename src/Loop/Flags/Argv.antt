-- ===== src/Loop/Flags/Argv.antt =====
-- `parse_argv` of loop/main.cpp: the command line into the raw flag values.
pub mod Spellings
use itb_cpp.Base.{
  Bool, true, false, ℕ, zero, suc, ◌+◌, ◌≤◌, ◌<◌, ◌≡◌, ◌≢◌, ◌⊎◌, inl, inr, refl, arith, List, [],
  ◌∷◌, ◌++◌, Option, some, none, Bytes, codes, length, ltb, ◌==◌, ◌=s=◌, ◌&&◌, ◌||◌, not,
  if◌then◌else◌, =s=_sound, Bool-cases, Option-cases, ap, sym, ◌∙◌,
}
use itb_cpp.Loop.Flags.{RawFlags, Flag, flag_table, defaults, usage}

-- The text before the first `c`, and the text behind it.
unfoldable pub cut_at : ℕ → Bytes → Option (Bytes × Bytes)
cut_at c [] = none
cut_at c (x ∷ s) = if x == c then some ([], s) else before x (cut_at c s)
  where
    before : ℕ → Option (Bytes × Bytes) → Option (Bytes × Bytes)
    before x none = none
    before x (some (front, behind)) = some (x ∷ front, behind)

-- What the parse ends with: the raw values, or what it wrote to stderr.
pub data Parsed : Type 0 where
  parsed : RawFlags → Parsed
  helped : Bytes → Parsed
  refused : Bytes → Parsed

abbrev pub err_line : Bytes → Bytes
err_line text = codes "loop: " ++ text ++ codes "\n"

-- What one argument leads to: an end, the values behind it, or a flag that wants the next argument.
pub data Arg : Type 0 where
  stops : Parsed → Arg
  goes : RawFlags → Arg
  wants : Flag → Arg

unfoldable pub named_flag : Bytes → List Flag → Option Flag
named_flag name [] = none
named_flag name (fl ∷ table) = if name =s= fl.name then some fl else named_flag name table

abbrev pub invalid : Flag → Bytes → Bytes
invalid fl value = err_line (codes "invalid value \"" ++ value ++ codes "\" for flag -" ++ fl.name)

abbrev pub assigned : Flag → Bytes → RawFlags → Arg
assigned fl value f = elim (fl.assign value f) [
  | none ↦ stops (refused (invalid fl value))
  | some f' ↦ goes f'
]

-- The name without its dashes, with the value behind an equals sign if there is one.
unfoldable pub looked_up : List Flag → Bytes → Option Bytes → RawFlags → Arg
unfolding named_flag
looked_up table name value f = elim (named_flag name table) [
  | none ↦
      stops (refused (err_line (codes "flag provided but not defined: -" ++ name) ++ usage table))
  | some fl ↦ elim value [
    | some v ↦ assigned fl v f
    | none ↦ if fl.boolean then assigned fl (codes "true") f else wants fl
  ]
]

unfoldable pub undashed : List Flag → Bytes → RawFlags → Arg
unfolding cut_at
undashed table name f =
    if name =s= codes "h" || name =s= codes "help"
    then stops (helped (usage table))
    else elim (cut_at b'=' name) [
      | none ↦ looked_up table name none f
      | some (front, value) ↦ looked_up table front (some value) f
    ]

abbrev positional : Bytes → Arg
positional arg =
    stops (refused (err_line (codes "unexpected positional arguments: [" ++ arg ++ codes "]")))

unfoldable pub read_arg : List Flag → Bytes → RawFlags → Arg
read_arg table [] f = positional []
read_arg table (c ∷ []) f = positional (c ∷ [])
read_arg table (c ∷ d ∷ s) f =
    if c == b'-' then undashed table (if d == b'-' then s else d ∷ s) f else positional (c ∷ d ∷ s)

-- The loop from one argument on.
unfoldable pub parse_from : List Flag → List Bytes → RawFlags → Parsed
parse_from table [] f = parsed f
parse_from table (arg ∷ []) f = elim (read_arg table arg f) [
  | stops end ↦ end
  | goes f' ↦ parse_from table [] f'
  | wants fl ↦ refused (err_line (codes "flag needs an argument: -" ++ fl.name))
]
parse_from table (arg ∷ value ∷ rest) f = elim (read_arg table arg f) [
  | stops end ↦ end
  | goes f' ↦ parse_from table (value ∷ rest) f'
  | wants fl ↦ elim (fl.assign value f) [
    | none ↦ refused (invalid fl value)
    | some f' ↦ parse_from table rest f'
  ]
]

unfoldable pub parse_argv : List Bytes → Parsed
parse_argv args = parse_from flag_table args defaults
