-- ===== src/Binding/Status.antt =====
-- `enum class Status` of include/itb3.hpp and its normalisation in src/error.cpp.
use itb_cpp.Base.{ℕ, ◌≡◌, refl, ◌⊎◌, inr, arith, List, [], ◌∷◌, ◌==◌, if◌then◌else◌}
use itb_cpp.Base.Int.{ℤ, pos, negsuc}

pub data Status : Type 0 where
  ok bad_hash bad_key_bits bad_handle bad_input buffer_too_small encrypt_failed : Status
  decrypt_failed seed_width_mix bad_mac mac_failure blob_malformed_recipe : Status
  recipe_primitive_unknown unknown_profile reserved14 reserved15 reserved16 reserved17 : Status
  blob_mode_mismatch blob_malformed blob_version_too_new blob_too_many_opts : Status
  stream_truncated stream_after_final triple_closed profile_exists internal : Status

-- The enumerators' values.
unfoldable pub code : Status → ℕ
code ok = 0
code bad_hash = 1
code bad_key_bits = 2
code bad_handle = 3
code bad_input = 4
code buffer_too_small = 5
code encrypt_failed = 6
code decrypt_failed = 7
code seed_width_mix = 8
code bad_mac = 9
code mac_failure = 10
code blob_malformed_recipe = 11
code recipe_primitive_unknown = 12
code unknown_profile = 13
code reserved14 = 14
code reserved15 = 15
code reserved16 = 16
code reserved17 = 17
code blob_mode_mismatch = 19
code blob_malformed = 20
code blob_version_too_new = 21
code blob_too_many_opts = 22
code stream_truncated = 23
code stream_after_final = 24
code triple_closed = 25
code profile_exists = 26
code internal = 99

-- The `case` labels of `to_status`, as the enumerators that they are cast to.
abbrev labels : List Status
labels =
    ok ∷ bad_hash ∷ bad_key_bits ∷ bad_handle ∷ bad_input ∷ buffer_too_small ∷ encrypt_failed
    ∷ decrypt_failed ∷ seed_width_mix ∷ bad_mac ∷ mac_failure ∷ blob_malformed_recipe
    ∷ recipe_primitive_unknown ∷ unknown_profile ∷ reserved14 ∷ reserved15 ∷ reserved16 ∷ reserved17
    ∷ blob_mode_mismatch ∷ blob_malformed ∷ blob_version_too_new ∷ blob_too_many_opts
    ∷ stream_truncated ∷ stream_after_final ∷ triple_closed ∷ profile_exists ∷ internal ∷ []

-- A `switch` over the labels that is left by its `default`.
pick : List Status → ℕ → Status
unfolding code
pick [] n = internal
pick (s ∷ ss) n = if code s == n then s else pick ss n

unfoldable pub to_status : ℤ → Status
unfolding pick
to_status (pos n) = pick labels n
to_status (negsuc n) = internal

pick-code : (ss : List Status) (n : ℕ) → (code (pick ss n) ≡ n) ⊎ (pick ss n ≡ internal)
unfolding pick
pick-code [] n = inr refl
pick-code (s ∷ ss) n = ground (arith, pick-code ss n)

-- A status is never relabelled: a code is read as the enumerator that has it, or as `internal`.
pub code-to_status : (rc : ℤ) → (pos (code (to_status rc)) ≡ rc) ⊎ (to_status rc ≡ internal)
unfolding to_status
code-to_status (pos n) = ground (arith, pick-code labels n)
code-to_status (negsuc n) = inr refl

-- Every enumerator survives the trip through its numeric code.
pub to_status-code : (s : Status) → to_status (pos (code s)) ≡ s
unfolding to_status
to_status-code ok = refl
to_status-code _ = refl
