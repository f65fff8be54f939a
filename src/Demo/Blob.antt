-- ===== src/Demo/Blob.antt =====
-- The session blob of eitb/eitb.cpp: printed as hexadecimal by `encrypt`, read by `decrypt`.
use itb_cpp.Base.{
  false, ℕ, ◌+◌, ◌*◌, ◌/◌, ◌%◌, ◌<◌, ◌≡◌, ◌⊎◌, refl, ap, inl, inr, arith, [], ◌∷◌, Option, some,
  none, Bytes, codes, length, All, IsByte, ◌==◌, ◌||◌, if◌then◌else◌,
}
use itb_cpp.Base.Hex.{digit_value, lower_digit, digit_value-lower_digit}
use itb_cpp.Loop.Report.{hex_bytes}

-- `hex_nibble`; its −1 is `none`.
abbrev pub hex_nibble : ℕ → Option ℕ
hex_nibble c = digit_value c

-- One round of the loop: the byte of two digits.
abbrev pub pair : Option ℕ → Option ℕ → Option ℕ
pair (some hi) (some lo) = some (hi * 16 + lo)
pair _ _ = none

abbrev joined : Option ℕ → Option Bytes → Option Bytes
joined (some b) (some bs) = some (b ∷ bs)
joined _ _ = none

-- The loop over `hex_len / 2` pairs; an odd digit at the end is not reached.
unfoldable pub read_pairs : Bytes → Option Bytes
read_pairs [] = some []
read_pairs (h ∷ []) = some []
read_pairs (h ∷ l ∷ text) = joined (pair (hex_nibble h) (hex_nibble l)) (read_pairs text)

-- The blob, or the message printed for it.
unfoldable pub decode_blob : Bytes → Bytes ⊎ Bytes
decode_blob text =
    if length text == 0 || length text % 2 == 1
    then inl (codes "eitb: blob hex has odd or zero length\n")
    else elim (read_pairs text) [
      | some blob ↦ inr blob
      | none ↦ inl (codes "eitb: invalid blob hex\n")
    ]

-- What `encrypt` prints to stderr, without the newline.
unfoldable pub encode_blob : Bytes → Bytes
encode_blob blob = hex_bytes blob

length-hex_bytes : (blob : Bytes) → length (hex_bytes blob) ≡ 2 * length blob
unfolding hex_bytes
length-hex_bytes [] = refl
length-hex_bytes (b ∷ blob) = omega (arith, length-hex_bytes blob)

pub pair-hex :
    (b : ℕ)
    → b < 256
    → pair (hex_nibble (lower_digit (b / 16))) (hex_nibble (lower_digit (b % 16))) ≡ some b
pair-hex b h =
    rw
      (
        digit_value-lower_digit (b / 16) (omega arith),
        digit_value-lower_digit (b % 16) (omega arith),
      )
      (ap some (omega arith))

read_pairs-hex : (blob : Bytes) → All IsByte blob → read_pairs (hex_bytes blob) ≡ some blob
unfolding read_pairs hex_bytes
read_pairs-hex [] h = refl
read_pairs-hex (b ∷ blob) h = rw (pair-hex b h.0, read_pairs-hex blob h.1)

-- The hexadecimal text that `encrypt` prints for a blob is read back by `decrypt` as exactly that
-- blob, unless the blob is empty.
pub decode_blob-encode_blob :
    (blob : Bytes) → All IsByte blob → 0 < length blob → decode_blob (encode_blob blob) ≡ inr blob
unfolding decode_blob encode_blob
decode_blob-encode_blob blob h some' =
    let l = length-hex_bytes blob in
    let e : ((length (hex_bytes blob) == 0) || (length (hex_bytes blob) % 2 == 1)) ≡ false =
      ground (arith, l, some') in
    rw (e, read_pairs-hex blob h)
