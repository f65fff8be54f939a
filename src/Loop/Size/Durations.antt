-- ===== src/Loop/Size/Durations.antt =====
-- `parse_duration` of loop/size.cpp.
use itb_cpp.Base.{
  Bool, ℕ, zero, suc, ◌≤◌, ◌<◌, ◌≡◌, ◌≢◌, refl, arith, inl, inr, List, [], ◌∷◌, Option, some, none,
  Bytes, codes, length, take, drop, length-drop, leb, ◌==◌, ◌=s=◌, ◌&&◌, ◌||◌, not, if◌then◌else◌,
  get_or, Bool-cases, Option-cases,
}
use itb_cpp.Base.Int.{ℤ, pos}
use itb_cpp.Binding.Memory.{c_string}
use itb_cpp.Loop.Real.{Real}
use itb_cpp.Loop.Size.{is_digit}

-- `std::isalpha` of the C locale.
abbrev is_alpha : ℕ → Bool
is_alpha c = (leb b'a' c && leb c b'z') || (leb b'A' c && leb c b'Z')

-- A unit of the table with its nanoseconds.
pub record Span : Type 0 where
  pub text : Bytes
  pub ns : ℕ

abbrev pub units : List Span
units =
    record { text = codes "ns"; ns = 1 }
    ∷ record { text = codes "us"; ns = 1000 }
    ∷ record { text = codes "ms"; ns = 1000000 }
    ∷ record { text = codes "s"; ns = 1000000000 }
    ∷ record { text = codes "m"; ns = 60000000000 }
    ∷ record { text = codes "h"; ns = 3600000000000 }
    ∷ []

-- The text starts with the unit, and no letter stands behind it. Past the end stands a NUL.
abbrev is_unit : Bytes → Span → Bool
is_unit s u = (take (length u.text) s =s= u.text) && not (is_alpha (get_or s (length u.text) 0))

-- The first unit that fits: its nanoseconds, and the text behind it.
unfoldable pub unit_of : List Span → Bytes → Option (ℕ × Bytes)
unit_of [] s = none
unit_of (u ∷ us) s = if is_unit s u then some (u.ns, drop (length u.text) s) else unit_of us s

-- How the loop over the numbers ends; `unfinished` is a loop that has used up its rounds.
pub data Scan (F : Type 0) : Type 0 where
  scanned : F → Scan F
  refused unfinished : Scan F

module _ {F : Type 0} (real : Real F) where
  open real use {of_int, add, mul, lt, to_int, strtod}

  -- One round of the loop: the total behind it, and the text that is left.
  unfoldable pub duration_step : F → Bytes → Option (F × Bytes)
  unfolding unit_of
  duration_step total s =
      let (v, count) = strtod s in
      if not (is_digit (get_or s 0 0)) && not (get_or s 0 0 == b'.')
      then none
      else if count == 0 || lt v (of_int (pos 0))
      then none
      else elim (unit_of units (drop count s)) [
        | none ↦ none
        | some (ns, rest) ↦ some (add total (mul v (of_int (pos ns))), rest)
      ]

  -- `while (*p != '\0')`, in at most so many rounds.
  unfoldable pub durations : ℕ → F → Bytes → Scan F
  durations fuel total [] = scanned total
  durations zero total (c ∷ s) = unfinished
  durations (suc fuel) total (c ∷ s) = elim (duration_step total (c ∷ s)) [
    | none ↦ refused
    | some (more, rest) ↦ durations fuel more rest
  ]

  -- The rounds are at most as many as the bytes.
  unfoldable pub parse_duration : Bytes → Option ℤ
  parse_duration s =
      if length s == 0
      then none
      else elim (durations (length (c_string s)) (of_int (pos 0)) (c_string s)) [
        | refused ↦ none
        | unfinished ↦ none
        | scanned total ↦
            if lt (of_int (pos 9200000000000000000)) total then none else some (to_int total)
      ]

unit_of-shorter :
    (us : List Span) (s : Bytes) (ns : ℕ) (rest : Bytes)
    → unit_of us s ≡ some (ns, rest)
    → length rest ≤ length s
unfolding unit_of
unit_of-shorter [] s ns rest e = cc
unit_of-shorter (u ∷ us) s ns rest e = elim (Bool-cases (is_unit s u)) [
  | inl fits ↦ ground (arith, fits, e, length-drop (length u.text) s)
  | inr differs ↦ unit_of-shorter us s ns rest (ground (arith, differs, e))
]

module _ {F : Type 0} (real : Real F) where
  duration_step-shorter :
      (total : F) (s : Bytes) (more : F) (rest : Bytes)
      → duration_step real total s ≡ some (more, rest)
      → length rest < length s
  unfolding duration_step
  duration_step-shorter total s more rest e =
      ground (
        arith,
        e,
        unit_of-shorter units (drop (real.strtod s).1 s),
        length-drop (real.strtod s).1 s,
      )

  -- With as many rounds as there are bytes, the loop over the numbers of a duration never uses its
  -- rounds up: it reads the text to its end or refuses it, and no other number of rounds that covers
  -- the text changes the answer.
  pub durations-steady :
      (fuel bound : ℕ) (total : F) (s : Bytes)
      → length s ≤ fuel
      → length s ≤ bound
      → (durations real fuel total s ≢ unfinished)
        × (durations real fuel total s ≡ durations real bound total s)
  unfolding durations
  durations-steady fuel bound total [] h k = (λ e. cc e, refl)
  durations-steady zero bound total (c ∷ s) h k = absurd (omega arith)
  durations-steady (suc fuel) zero total (c ∷ s) h k = absurd (omega arith)
  durations-steady (suc fuel) (suc bound) total (c ∷ s) h k =
      elim (Option-cases (duration_step real total (c ∷ s))) [
        | inl e ↦ rw (durations, e) (λ x. cc x, refl)
        | inr ((next, rest), e) ↦
            let less = duration_step-shorter total (c ∷ s) next rest e in
            rw (durations, e)
              (durations-steady fuel bound next rest (omega (arith, less, h))
                (omega (arith, less, k)))
      ]
