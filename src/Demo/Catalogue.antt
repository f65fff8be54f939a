-- ===== src/Demo/Catalogue.antt =====
-- The profile names of eitb/eitb.cpp: the scan of the catalogue, and the choice of a cipher pair.
use itb_cpp.Base.{
  Bool, true, false, ℕ, zero, suc, ◌≤◌, ◌<◌, ◌≡◌, ◌≢◌, refl, ap, ◌∙◌, arith, List, [], ◌∷◌, ◌++◌,
  Option, some, none, Bytes, codes, All, length, length-append, ◌==◌, ◌&&◌, if◌then◌else◌,
}
use itb_cpp.Binding.World.{Library, M, pure, ◌>>=◌}
use itb_cpp.Binding.Pipeline.{profiles}

-- `std::string_view::starts_with`.
unfoldable pub starts_with : Bytes → Bytes → Bool
starts_with [] text = true
starts_with (p ∷ ps) [] = false
starts_with (p ∷ ps) (c ∷ text) = p == c && starts_with ps text

unfoldable pub is_streaming_profile : Bytes → Bool
unfolding starts_with
is_streaming_profile profile = starts_with (codes "streaming-") profile

-- `json.find('"', pos)` on the text from `pos` on: what stands before the quote, and what behind it.
unfoldable pub cut_quote : Bytes → Option (Bytes × Bytes)
cut_quote [] = none
cut_quote (c ∷ text) = if c == b'"' then some ([], text) else map_before c (cut_quote text)
  where
    map_before : ℕ → Option (Bytes × Bytes) → Option (Bytes × Bytes)
    map_before c none = none
    map_before c (some (before, behind)) = some (c ∷ before, behind)

-- The quoted run behind an opening quote.
unfoldable pub closed : Option (Bytes × Bytes) → Option (Bytes × Bytes)
closed none = none
closed (some (skipped, opened)) = cut_quote opened

-- The loop over quoted runs, in at most so many rounds.
unfoldable pub names_in : ℕ → Bytes → List Bytes
names_in zero text = []
names_in (suc rounds) text = elim (closed (cut_quote text)) [
  | none ↦ []
  | some (name, rest) ↦ name ∷ names_in rounds rest
]

unfoldable pub profile_names : Bytes → List Bytes
profile_names json = names_in (length json) json

unfoldable pub lines : List Bytes → Bytes
lines [] = []
lines (name ∷ names) = name ++ b'\n' ∷ lines names

-- What `eitb profiles` prints.
unfoldable pub cmd_profiles : {L : Type 0} → Library L → M L Bytes
cmd_profiles lib = do json ← profiles lib; pure (lines (profile_names json))

-- A JSON array of strings without escapes.
tail_items : List Bytes → Bytes
tail_items [] = b']' ∷ []
tail_items (name ∷ names) = b',' ∷ b'"' ∷ (name ++ b'"' ∷ tail_items names)

unfoldable pub json_array : List Bytes → Bytes
unfolding tail_items
json_array [] = b'[' ∷ b']' ∷ []
json_array (name ∷ names) = b'[' ∷ b'"' ∷ (name ++ b'"' ∷ tail_items names)

abbrev pub IsPlainName : Bytes → Type 0
IsPlainName = All (λ c. c ≢ b'"')

cut_quote-append :
    (name rest : Bytes) → IsPlainName name → cut_quote (name ++ b'"' ∷ rest) ≡ some (name, rest)
unfolding cut_quote
cut_quote-append [] rest h = refl
cut_quote-append (c ∷ name) rest h =
    let other : (c == b'"') ≡ false = ground (arith, h.0) in
    rw (other, cut_quote-append name rest h.1)

cut_quote-separator :
    (sep : ℕ) (rest : Bytes) → sep ≢ b'"' → cut_quote (sep ∷ b'"' ∷ rest) ≡ some (sep ∷ [], rest)
unfolding cut_quote
cut_quote-separator sep rest h =
    let other : (sep == b'"') ≡ false = ground (arith, h) in rw other refl

closed-run :
    (sep : ℕ) (name rest : Bytes)
    → sep ≢ b'"'
    → IsPlainName name
    → closed (cut_quote (sep ∷ b'"' ∷ (name ++ b'"' ∷ rest))) ≡ some (name, rest)
unfolding closed
closed-run sep name rest hs h =
    ap closed (cut_quote-separator sep (name ++ b'"' ∷ rest) hs) ∙ cut_quote-append name rest h

-- A quoted name at the front, behind one separator.
names_in-item :
    (rounds sep : ℕ) (name rest : Bytes)
    → sep ≢ b'"'
    → IsPlainName name
    → names_in (suc rounds) (sep ∷ b'"' ∷ (name ++ b'"' ∷ rest)) ≡ name ∷ names_in rounds rest
unfolding names_in
names_in-item rounds sep name rest hs h = rw (names_in, closed-run sep name rest hs h) refl

names_in-tail_items :
    (rounds : ℕ) (names : List Bytes)
    → length names ≤ rounds
    → All IsPlainName names
    → names_in rounds (tail_items names) ≡ names
unfolding tail_items
names_in-tail_items zero [] h p = unfold names_in in refl
names_in-tail_items (suc rounds) [] h p = unfold names_in closed cut_quote in refl
names_in-tail_items zero (name ∷ names) h p = absurd (omega arith)
names_in-tail_items (suc rounds) (name ∷ names) h p =
    names_in-item rounds b',' name (tail_items names) (λ e. omega arith) p.0
    ∙ ap (◌∷◌ name) (names_in-tail_items rounds names (omega arith) p.1)

length-tail_items : (names : List Bytes) → length names < length (tail_items names)
unfolding tail_items
length-tail_items [] = omega arith
length-tail_items (name ∷ names) =
    omega (arith, length-append {0} name (b'"' ∷ tail_items names), length-tail_items names)

-- If the catalogue is a JSON array of names that hold no quotation mark, the scan finds exactly those
-- names, in their order.
pub profile_names-json_array :
    (names : List Bytes) → All IsPlainName names → profile_names (json_array names) ≡ names
unfolding profile_names json_array
profile_names-json_array [] p = unfold names_in closed cut_quote in refl
profile_names-json_array (name ∷ names) p =
    names_in-item (length (b'"' ∷ (name ++ b'"' ∷ tail_items names))) b'[' name (tail_items names)
      (λ e. omega arith) p.0
    ∙ ap (◌∷◌ name) (
        names_in-tail_items (length (b'"' ∷ (name ++ b'"' ∷ tail_items names))) names
          (omega (arith, length-append {0} name (b'"' ∷ tail_items names), length-tail_items names))
          p.1)
