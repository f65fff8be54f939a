-- ===== src/Loop/Profiles.antt =====
-- loop/main.cpp: what a `--profile` means for the shape and for the options of a pipeline, read from
-- the library's records as JSON text.
use itb_cpp.Base.{
  Bool, true, false, ◌≡◌, ◌⊎◌, inl, inr, refl, [], ◌∷◌, ◌++◌, Option, some, none, Bytes, codes,
  length, drop, ◌=s=◌, ◌&&◌, not, if◌then◌else◌,
}
use itb_cpp.Binding.World.{Library, M, pure, ◌>>=◌}
use itb_cpp.Binding.Opts.{Opts, set}
use itb_cpp.Binding.Pipeline.{lookup, hash_names}
use itb_cpp.Loop.Names.{Shape, stream, message, stream_one_shot, both}
use itb_cpp.Loop.Worker.{caught}
use itb_cpp.Demo.Catalogue.{starts_with}

unfoldable pub parse_on_off : Bytes → Option Bool
parse_on_off v =
    if v =s= codes "on" then some true else (if v =s= codes "off" then some false else none)

-- `json.find(needle)`: the text behind the first occurrence.
unfoldable pub find_behind : Bytes → Bytes → Option Bytes
find_behind needle [] = if starts_with needle [] then some [] else none
find_behind needle (c ∷ text) =
    if starts_with needle (c ∷ text)
    then some (drop (length needle) (c ∷ text))
    else find_behind needle text

abbrev pub found : Bytes → Bytes → Bool
found needle text = elim (find_behind needle text) [ none ↦ false | some rest ↦ true ]

abbrev pub fill_cipher : Bytes
fill_cipher = codes "aescmac"

abbrev pub quoted : Bytes → Bytes
quoted s = b'"' ∷ (s ++ b'"' ∷ [])

-- `"key":`.
abbrev pub key_text : Bytes → Bytes
key_text key = quoted key ++ b':' ∷ []

abbrev not_registered : Bytes → Bytes
not_registered name =
    codes "--profile " ++ quoted name ++ codes " is not a registered triple profile"

-- The options behind, and whether a layer was filled.
unfoldable pub filled_layers : Bytes → Opts → Bool → Bool → Bool × Opts
filled_layers json opts want_parallax want_wrapper =
    let palette = want_parallax && not (found (key_text (codes "palette")) json) in
    let outer = want_wrapper && not (found (key_text (codes "outer")) json) in
    let ciphers = fill_cipher ++ b',' ∷ (fill_cipher ++ b',' ∷ fill_cipher) in
    let opts1 = if palette then set opts (codes "parallaxPalette") ciphers else opts in
    let opts2 =
      if palette && not (found (key_text (codes "segment")) json)
      then set opts1 (codes "parallaxSegmentSize") (codes "4093")
      else opts1 in
    if outer then (true, set opts2 (codes "outerCipher") fill_cipher) else (palette, opts2)

-- The shape family of a record.
unfoldable pub surface_of : Bytes → Option Shape
surface_of json = elim (find_behind (key_text (codes "mode") ++ b'"' ∷ []) json) [
  | none ↦ none
  | some mode ↦
      if starts_with (codes "streaming") mode
      then some stream
      else (if starts_with (codes "singlemsg") mode then some message else none)
]

unfoldable pub narrow_shape : Shape → Shape → Shape
narrow_shape requested message = message
narrow_shape stream_one_shot surface = stream_one_shot
narrow_shape requested surface = stream

module _ {L : Type 0} (lib : Library L) where
  -- A record that cannot be looked up counts as not registered.
  unfoldable pub hash_registered : Bytes → M L Bool
  hash_registered name = caught [] (hash_names lib) >>= λ r. elim r [
    | inl failure ↦ pure false
    | inr json ↦ pure (found (quoted name) json)
  ]

  -- The message, or the options and whether a layer was filled.
  unfoldable pub fill_keystream_layers : Bytes → Opts → Bool → Bool → M L (Bytes ⊎ (Bool × Opts))
  fill_keystream_layers name opts want_parallax want_wrapper = caught [] (lookup lib name) >>= λ r.
      elim r [
        | inl failure ↦ pure (inl (not_registered name))
        | inr json ↦ pure (inr (filled_layers json opts want_parallax want_wrapper))
      ]

  unfoldable pub profile_surface : Bytes → M L (Bytes ⊎ Shape)
  profile_surface name = caught [] (lookup lib name) >>= λ r. elim r [
    | inl failure ↦ pure (inl (not_registered name))
    | inr json ↦ elim (surface_of json) [
      | some surface ↦ pure (inr surface)
      | none ↦ pure (
          inl (
            codes "--profile "
            ++ quoted name
            ++ codes " carries no cipher surface (blob-only mode)"))
    ]
  ]

-- The surfaces that each family serves.
unfoldable pub IsServed : Shape → Shape → Type 0
IsServed message shape = shape ≡ message
IsServed surface shape = (shape ≡ stream) ⊎ (shape ≡ stream_one_shot)

-- Whatever shape is requested, the narrowed one is a shape that the profile's family serves (the
-- message family only messages, every other family only the two stream shapes), and narrowing again
-- changes nothing.
pub narrow_shape_lem :
    (requested surface : Shape)
    → IsServed surface (narrow_shape requested surface)
      × (narrow_shape (narrow_shape requested surface) surface ≡ narrow_shape requested surface)
unfolding narrow_shape IsServed
narrow_shape_lem stream stream = (inl refl, refl)
narrow_shape_lem stream message = (refl, refl)
narrow_shape_lem stream stream_one_shot = (inl refl, refl)
narrow_shape_lem stream both = (inl refl, refl)
narrow_shape_lem message stream = (inl refl, refl)
narrow_shape_lem message message = (refl, refl)
narrow_shape_lem message stream_one_shot = (inl refl, refl)
narrow_shape_lem message both = (inl refl, refl)
narrow_shape_lem stream_one_shot stream = (inr refl, refl)
narrow_shape_lem stream_one_shot message = (refl, refl)
narrow_shape_lem stream_one_shot stream_one_shot = (inr refl, refl)
narrow_shape_lem stream_one_shot both = (inr refl, refl)
narrow_shape_lem both stream = (inl refl, refl)
narrow_shape_lem both message = (refl, refl)
narrow_shape_lem both stream_one_shot = (inl refl, refl)
narrow_shape_lem both both = (inl refl, refl)
