-- ===== src/Binding/Errors.antt =====
-- src/error.cpp and the inline relays of src/internal.hpp: the last-error fetch, the throwing
-- failure path and the output pre-allocation formula.
pub mod Diagnosis
pub mod Keeps
pub mod Throws
use itb_cpp.Base.{
  ◌⊎◌, inl, inr, le-or-lt, Bool, ℕ, ◌+◌, ◌/◌, ◌%◌, ◌≤◌, ◌<◌, ◌^◌, ◌≡◌, refl, arith, [], ◌∷◌, ◌++◌,
  none, some, Bytes, codes, ltb, ◌==◌, if◌then◌else◌, ◌&&◌, ◌||◌, length, or_else, All, u64_mod,
  inl, inr, dec_lt,
}
use itb_cpp.Base.Int.{ℤ, pos, negsuc, is_nat}
use itb_cpp.Base.Decimal.{decimal_int}
use itb_cpp.Binding.Status.{Status, to_status}
use itb_cpp.Binding.World.{
  Library, Reply, World, M, ret, raise, Outcome, Exn, itb_error, pure, throw, ◌>>=◌, ffi,
}
use itb_cpp.Binding.Memory.{zeros, overwrite, c_string, IsNonzero, c_string-overwrite, length-zeros}

-- `rc == static_cast<int>(Status::BufferTooSmall)`.
abbrev pub is_too_small : ℤ → Bool
is_too_small rc = is_nat rc 5

abbrev first_cap : ℕ
first_cap = 2048

module _ {L : Type 0} (lib : Library L) where
  -- The retry at the size that the library reported.
  unfoldable pub widened : ℕ → M L Bytes
  widened need = do
    again ← ffi (lib.last_error need)
    pure (if is_nat again.rc 0 then c_string (overwrite again.out (zeros need)) else [])

  unfoldable pub last_error : M L Bytes
  unfolding widened
  last_error = do
    r ← ffi (lib.last_error first_cap)
    let need = or_else r.len 0
    if is_nat r.rc 0
        then pure (c_string (overwrite r.out (zeros first_cap)))
        else if is_too_small r.rc && ltb 1 need
        then widened need
        else pure []

  -- The text that an error carries.
  abbrev pub error_text : ℤ → Bytes → Bytes → Bytes
  error_text rc what diag = what ++ codes ": status " ++ decimal_int rc ++ codes ": " ++ diag

  unfoldable pub fail : {A : Type 0} → ℤ → Bytes → M L A
  fail rc what = do diag ← last_error; throw (itb_error (to_status rc) (error_text rc what diag))

  unfoldable pub check : ℤ → Bytes → M L (Unit {0})
  check rc what = if is_nat rc 0 then pure tt else fail rc what

abbrev floor_cap : ℕ
floor_cap = 131072

-- `std::size_t` arithmetic wraps around; both wrap tests are the source's.
unfoldable pub out_cap : ℕ → ℕ
out_cap payload =
    let cap = (payload + payload / 4) % u64_mod in
    let total = (cap + floor_cap) % u64_mod in
    if ltb cap payload || ltb total cap
    then payload
    else if ltb floor_cap total
    then total
    else floor_cap

unfoldable pub out_bound : ℕ → ℕ
unfolding out_cap
out_bound payload = out_cap payload

-- For a payload of a 64-bit size, the bound is the full expansion if that is a 64-bit number, and
-- the payload's own size otherwise: it never wraps around to less than the payload.
pub out_bound_lem :
    (payload : ℕ)
    → payload < u64_mod
    → let full = payload + payload / 4 + floor_cap in
      ((full < u64_mod) × (out_bound payload ≡ full))
      ⊎ ((u64_mod ≤ full) × (out_bound payload ≡ payload))
unfolding out_bound
out_bound_lem payload h = elim (le-or-lt u64_mod (payload + payload / 4 + floor_cap)) [
  | inl wraps ↦ inr (wraps, ground arith)
  | inr fits ↦ inl (fits, ground arith)
]
