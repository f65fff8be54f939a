-- ===== src/Base/Words.antt =====
-- Bytes, the texts of the source, and the bounds of its machine words.
use Prim.Native.Nat.{ℕ, ◌-◌, ◌^◌, ◌<◌}
use Prim.Native.Char.{code}
use Prim.Native.String.{String}
use mathlib.Core.List.{List, [], ◌∷◌}

-- A `char`, a `std::byte` or a `uint8_t` is a number below 256.
abbrev pub Bytes : Type 0
Bytes = List ℕ

abbrev pub IsByte : ℕ → Type 0
IsByte b = b < 256

-- The bytes of a literal of the source.
abbrev pub codes : String → Bytes
codes String.[] = []
codes (String.◌∷◌ c s) = code c ∷ codes s

-- `std::size_t` and `std::uint64_t` count modulo this number.
abbrev pub u64_mod : ℕ
u64_mod = 2 ^ 64

abbrev pub size_max : ℕ
size_max = 2 ^ 64 - 1

abbrev pub int64_max : ℕ
int64_max = 2 ^ 63 - 1
