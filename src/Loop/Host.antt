-- ===== src/Loop/Host.antt =====
-- What the harness asks of the operating system: random bytes and a clock. They are parameters, with
-- the library's state as the state of the world outside.
use itb_cpp.Base.{ℕ, Bytes}
use itb_cpp.Base.Int.{ℤ}
use itb_cpp.Binding.World.{Library}

-- `getrandom` answers the count that it returned and the bytes that it stored.
pub record Host (L : Type 0) : Type 0 where
  pub lib : Library L
  pub getrandom : ℕ → L → (ℤ × Bytes) × L
  pub now_ns : L → ℕ × L
