-- ===== src/Binding/Runtime.antt =====
-- src/runtime.cpp: the version, the runtime knobs and the pool counters.
use itb_cpp.Base.{ℕ, List, Bytes, codes, or_else, length, take, drop, ◌++◌}
use itb_cpp.Base.Int.{ℤ, pos, negsuc}
use itb_cpp.Binding.World.{Library, Reply, M, pure, ◌>>=◌, ◌>>◌, ffi}
use itb_cpp.Binding.Memory.{zeros, overwrite, c_string}
use itb_cpp.Binding.Errors.{check}

-- A positive count is kept, everything else is 0.
abbrev pub count_of : ℤ → ℕ
count_of (pos n) = n
count_of (negsuc n) = 0

module _ {L : Type 0} (lib : Library L) where
  -- A call with a fixed text buffer of 64 bytes.
  unfoldable pub text_call : (ℕ → L → Reply × L) → Bytes → M L Bytes
  text_call fn what = do
    r ← ffi (fn 64)
    check lib r.rc what
    pure (c_string (overwrite r.out (zeros 64)))

  unfoldable pub version : M L Bytes
  version = text_call lib.version (codes "version")

  unfoldable pub drbg_auto_tier : M L Bytes
  drbg_auto_tier = text_call lib.drbg_auto_tier (codes "drbg_auto_tier")

  unfoldable pub set_memory_limit : ℤ → M L ℤ
  set_memory_limit bytes = ffi (lib.set_memory_limit bytes)

  unfoldable pub set_gc_percent : ℤ → M L ℤ
  set_gc_percent pct = ffi (lib.set_gc_percent pct)

  unfoldable pub set_gomaxprocs : ℤ → M L ℤ
  set_gomaxprocs n = ffi (lib.set_gomaxprocs n)

  unfoldable pub write_heap_profile : Bytes → M L (Unit {0})
  write_heap_profile path = do
    rc ← ffi (lib.write_heap_profile (c_string path))
    check lib rc (codes "write_heap_profile")

  unfoldable pub pool_stats_len : M L ℕ
  pool_stats_len = do n ← ffi lib.pool_stats_len; pure (count_of n)

  -- The count written, and the buffer behind the call.
  unfoldable pub pool_stats : List ℤ → M L (ℕ × List ℤ)
  pool_stats dst = do
    (rc, written, out) ← ffi (lib.pool_stats (length dst))
    check lib rc (codes "pool_stats")
    pure (or_else written 0, take (length dst) out ++ drop (length out) dst)
