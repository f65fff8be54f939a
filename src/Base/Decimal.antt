-- ===== src/Base/Decimal.antt =====
-- Decimal text, as `std::to_string` and the `%d` / `%lld` conversions of `fmt` print it.
use itb_cpp.Base.{
  ℕ, zero, suc, ◌+◌, ◌-◌, ◌*◌, ◌/◌, ◌%◌, ◌≤◌, ◌<◌, ◌≡◌, ◌≢◌, arith, [], ◌∷◌, Bytes, ◌==◌,
  if◌then◌else◌, All, Bool, true, false, not, ◌⊎◌, inl, inr, refl,
}
use itb_cpp.Base.Int.{ℤ, pos, negsuc}

-- The last digit is printed first; the fuel is one more than the number.
emit : ℕ → ℕ → Bytes → Bytes
emit zero n out = out
emit (suc fuel) n out =
    let more = emit fuel (n / 10) ((b'0' + n % 10) ∷ out) in
    if n / 10 == 0 then (b'0' + n % 10) ∷ out else more

unfoldable pub decimal : ℕ → Bytes
unfolding emit
decimal n = emit (suc n) n []

unfoldable pub decimal_int : ℤ → Bytes
unfolding decimal
decimal_int (pos n) = decimal n
decimal_int (negsuc n) = b'-' ∷ decimal (suc n)

abbrev pub IsDigit : ℕ → Type 0
IsDigit c = (b'0' ≤ c) × (c ≤ b'9')

-- The number that digits spell behind `n`.
unfoldable pub value : ℕ → Bytes → ℕ
value n [] = n
value n (c ∷ s) = value (n * 10 + (c - b'0')) s

value-emit : (fuel n : ℕ) (out : Bytes) → n < fuel → value 0 (emit fuel n out) ≡ value n out
unfolding emit value
value-emit zero n out h = absurd (omega arith)
value-emit (suc fuel) n out h = ground (arith, value-emit fuel (n / 10) ((b'0' + n % 10) ∷ out))

-- The printed number reads back.
pub value-decimal : (n : ℕ) → value 0 (decimal n) ≡ n
unfolding decimal value
value-decimal n = value-emit (suc n) n [] (omega arith)

emit-IsDigit : (fuel n : ℕ) (out : Bytes) → All IsDigit out → All IsDigit (emit fuel n out)
unfolding emit
emit-IsDigit zero n out h = h
emit-IsDigit (suc fuel) n out h = ground (arith, emit-IsDigit fuel (n / 10) ((b'0' + n % 10) ∷ out))

pub decimal-IsDigit : (n : ℕ) → All IsDigit (decimal n)
unfolding decimal
decimal-IsDigit n = emit-IsDigit (suc n) n [] tt

emit-ne-nil : (fuel n : ℕ) (out : Bytes) → out ≢ [] → emit fuel n out ≢ []
unfolding emit
emit-ne-nil zero n out h = h
emit-ne-nil (suc fuel) n out h = ground (arith, emit-ne-nil fuel (n / 10) ((b'0' + n % 10) ∷ out))

pub decimal-ne-nil : (n : ℕ) → decimal n ≢ []
unfolding decimal emit
decimal-ne-nil n = ground (arith, emit-ne-nil n (n / 10) ((b'0' + n % 10) ∷ []))

-- Digits without a leading zero.
unfoldable pub is_whole : Bytes → Bool
is_whole [] = false
is_whole (c ∷ []) = true
is_whole (c ∷ d ∷ s) = not (c == b'0')

leading : (c : ℕ) (out : Bytes) → b'0' < c → is_whole (c ∷ out) ≡ true
unfolding is_whole
leading c [] h = refl
leading c (d ∷ out) h = ground (arith, h)

emit-is_whole :
    (fuel n : ℕ) (out : Bytes) → n < fuel → (0 < n) ⊎ (out ≡ []) → is_whole (emit fuel n out) ≡ true
unfolding emit is_whole
emit-is_whole zero n out h k = absurd (omega arith)
emit-is_whole (suc fuel) n out h (inl k) = ground (
  arith,
  leading (b'0' + n % 10) out,
  emit-is_whole fuel (n / 10) ((b'0' + n % 10) ∷ out) (omega arith),
)
emit-is_whole (suc fuel) n [] h (inr k) =
    ground (arith, emit-is_whole fuel (n / 10) ((b'0' + n % 10) ∷ []))
emit-is_whole (suc fuel) n (c ∷ out) h (inr k) = cc

pub decimal-is_whole : (n : ℕ) → is_whole (decimal n) ≡ true
unfolding decimal
decimal-is_whole n = emit-is_whole (suc n) n [] (omega arith) (inr refl)
