-- ===== src/Binding/Memory.antt =====
-- Buffers that the binding hands to libitb3 or wipes: src/pipeline.cpp (`wipe_bytes`).
use itb_cpp.Base.{
  ℕ, zero, suc, ◌+◌, ◌≤◌, ◌<◌, ◌≡◌, ◌≢◌, refl, ap, arith, [], ◌∷◌, ◌++◌, Bytes, ◌==◌, if◌then◌else◌,
  length, set, replicate, length-replicate, length-set, take, All,
}

-- `n` zero bytes, as `std::vector(n)` and `std::string(n, '\0')` hold them.
unfoldable pub zeros : ℕ → Bytes
unfolding replicate
zeros n = replicate n 0

-- A callee stores `out` from the start of the buffer; nothing is stored past the buffer's end.
unfoldable pub overwrite : Bytes → Bytes → Bytes
overwrite [] buf = buf
overwrite (x ∷ xs) [] = []
overwrite (x ∷ xs) (b ∷ bs) = x ∷ overwrite xs bs

-- The text that a NUL-terminated buffer holds.
unfoldable pub c_string : Bytes → Bytes
c_string [] = []
c_string (c ∷ s) = if c == 0 then [] else c ∷ c_string s

-- `for (i = 0; i < len; ++i) p[i] = 0`, by the rounds that are left.
wipe_from : ℕ → ℕ → Bytes → Bytes
wipe_from zero i buf = buf
wipe_from (suc rounds) i buf = wipe_from rounds (i + 1) (set buf i 0)

unfoldable pub wipe_bytes : Bytes → Bytes
unfolding wipe_from
wipe_bytes buf = if length buf == 0 then buf else wipe_from (length buf) 0 buf

pub length-zeros : (n : ℕ) → length (zeros n) ≡ n
unfolding zeros
length-zeros n = length-replicate n 0

pub length-overwrite : (out buf : Bytes) → length (overwrite out buf) ≡ length buf
unfolding overwrite
length-overwrite [] buf = refl
length-overwrite (x ∷ xs) [] = refl
length-overwrite (x ∷ xs) (b ∷ bs) = ap suc (length-overwrite xs bs)

-- What was stored is read back from the buffer's start, if it fits.
pub take-overwrite :
    (out buf : Bytes) → length out ≤ length buf → take (length out) (overwrite out buf) ≡ out
unfolding overwrite
take-overwrite [] buf h = refl
take-overwrite (x ∷ xs) [] h = absurd (omega arith)
take-overwrite (x ∷ xs) (b ∷ bs) h = ap (◌∷◌ x) (take-overwrite xs bs (omega arith))

abbrev pub IsNonzero : ℕ → Type 0
IsNonzero b = b ≢ 0

abbrev pub IsZero : ℕ → Type 0
IsZero b = b ≡ 0

pub c_string-overwrite :
    (text buf : Bytes)
    → All IsNonzero text
    → length text < length buf
    → c_string (overwrite (text ++ 0 ∷ []) buf) ≡ text
unfolding c_string overwrite
c_string-overwrite [] [] t h = absurd (omega arith)
c_string-overwrite [] (b ∷ bs) t h = refl
c_string-overwrite (x ∷ xs) [] t h = absurd (omega arith)
c_string-overwrite (x ∷ xs) (b ∷ bs) t h = ground (arith, c_string-overwrite xs bs t.1)

-- The first `n` bytes are zero.
abbrev ZeroUpTo : ℕ → Bytes → Type 0
ZeroUpTo zero buf = Unit
ZeroUpTo (suc n) [] = Unit
ZeroUpTo (suc n) (b ∷ bs) = (b ≡ 0) × ZeroUpTo n bs

ZeroUpTo-set : (i : ℕ) (buf : Bytes) → ZeroUpTo i buf → ZeroUpTo (suc i) (set buf i 0)
ZeroUpTo-set zero [] h = tt
ZeroUpTo-set zero (b ∷ bs) h = (refl, tt)
ZeroUpTo-set (suc i) [] h = tt
ZeroUpTo-set (suc i) (b ∷ bs) h = (h.0, ZeroUpTo-set i bs h.1)

wipe_from-ZeroUpTo :
    (rounds i j : ℕ) (buf : Bytes)
    → i + rounds ≡ j
    → ZeroUpTo i buf
    → ZeroUpTo j (wipe_from rounds i buf)
unfolding wipe_from
wipe_from-ZeroUpTo zero i j buf e h = let e' : i ≡ j = omega arith in rw (← e') h
wipe_from-ZeroUpTo (suc rounds) i j buf e h =
    let next : i + 1 ≡ suc i = omega arith in
    rw next (wipe_from-ZeroUpTo rounds (suc i) j (set buf i 0) (omega arith) (ZeroUpTo-set i buf h))

length-wipe_from : (rounds i : ℕ) (buf : Bytes) → length (wipe_from rounds i buf) ≡ length buf
unfolding wipe_from
length-wipe_from zero i buf = refl
length-wipe_from (suc rounds) i buf =
    omega (arith, length-wipe_from rounds (i + 1) (set buf i 0), length-set buf i 0)

ZeroUpTo-All : (n : ℕ) (buf : Bytes) → length buf ≤ n → ZeroUpTo n buf → All IsZero buf
ZeroUpTo-All n [] l h = tt
ZeroUpTo-All zero (b ∷ bs) l h = absurd (omega arith)
ZeroUpTo-All (suc n) (b ∷ bs) l h = (h.0, ZeroUpTo-All n bs (omega arith) h.1)

wipe_bytes-wipe_from : (buf : Bytes) → wipe_bytes buf ≡ wipe_from (length buf) 0 buf
unfolding wipe_bytes wipe_from
wipe_bytes-wipe_from [] = refl
wipe_bytes-wipe_from (b ∷ bs) = ground arith

pub length-wipe_bytes : (buf : Bytes) → length (wipe_bytes buf) ≡ length buf
length-wipe_bytes buf = rw wipe_bytes-wipe_from (length-wipe_from (length buf) 0 buf)

-- The wipe leaves no byte of the buffer.
pub wipe_bytes-IsZero : (buf : Bytes) → All IsZero (wipe_bytes buf)
wipe_bytes-IsZero buf = rw wipe_bytes-wipe_from (
    ZeroUpTo-All (length buf) _ (omega (arith, length-wipe_from (length buf) 0 buf))
      (wipe_from-ZeroUpTo (length buf) 0 (length buf) buf (omega arith) tt))
