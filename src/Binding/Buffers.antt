-- ===== src/Binding/Buffers.antt =====
-- src/pipeline.cpp: the retry-once dispatch sites over caller-allocated buffers.
pub mod Bounds
pub mod Wiping
pub mod Exact
pub mod Quiet
use itb_cpp.Base.{
  Bool, ℕ, List, [], ◌∷◌, Option, none, some, Bytes, codes, ltb, ◌*◌, if◌then◌else◌, ◌&&◌, length,
  or_else, take,
}
use itb_cpp.Base.Int.{ℤ, pos}
use itb_cpp.Binding.World.{
  Library, Reply, Call, ciphered, M, pure, ◌>>=◌, ◌>>◌, ffi_entered, ffi_logged, release, finally,
}
use itb_cpp.Binding.Memory.{zeros, overwrite, wipe_bytes}
use itb_cpp.Binding.Errors.{check, fail, is_too_small, out_cap}

abbrev pub blob_cap : ℕ
blob_cap = 64 * 1024

-- What stands in the caller's variables after the calls: the last return code, the length, the
-- buffer, and the variable that the lambda captures by reference.
pub record Attempt (A : Type 0) : Type 0 where
  pub rc : ℤ
  pub n : ℕ
  pub buf : Bytes
  pub captured : A

module _ {L : Type 0} (lib : Library L) where
  -- `check(rc, what); if (n > size) fail(Internal, what); return the first n bytes`.
  unfoldable pub settle : {A : Type 0} → Attempt A → Bytes → M L (Bytes × A)
  settle a what = do
    check lib a.rc what
    if ltb (length a.buf) a.n then fail lib (pos 99) what else pure (take a.n a.buf, a.captured)

  -- The second call, into a buffer of the size that the first one reported. The first buffer is
  -- wiped before `assign` gives its storage back.
  -- `log` has the ghost entries that an answer makes.
  unfoldable pub buf_retry :
      {A : Type 0}
      → (Reply × A → List Call)
      → (ℕ → L → (Reply × A) × L)
      → ℕ
      → Bytes
      → M L (Attempt A)
  buf_retry log fn n buf = do
    release (wipe_bytes buf)
    again ← ffi_entered log (fn n)
    pure (record {
      rc = again.0.rc;
      n = or_else again.0.len n;
      buf = overwrite again.0.out (zeros n);
      captured = again.1;
    })

  unfoldable pub buf_attempt :
      {A : Type 0} → (Reply × A → List Call) → (ℕ → L → (Reply × A) × L) → M L (Attempt A)
  buf_attempt log fn = do
    first ← ffi_entered log (fn blob_cap)
    let n = or_else first.0.len 0
    let buf = overwrite first.0.out (zeros blob_cap)
    if is_too_small first.0.rc && ltb (length buf) n
        then buf_retry log fn n buf
        else pure (record { rc = first.0.rc; n = n; buf = buf; captured = first.1 })

  -- The guard's destructor wipes the buffer on every way out.
  unfoldable pub buf_call :
      {A : Type 0} → (Reply × A → List Call) → (ℕ → L → (Reply × A) × L) → Bytes → M L (Bytes × A)
  buf_call log fn what = do
    a ← buf_attempt log fn
    finally (settle a what) (release (wipe_bytes a.buf))

  -- A cipher entry of the library, bound to its handle and input; its calls are counted.
  abbrev pub cipher : (ℕ → L → Reply × L) → ℕ → M L Reply
  cipher fn cap = ffi_logged (λ r. ciphered r.rc cap) (fn cap)

  -- `make_unique_for_overwrite`: `cap` bytes with whatever the storage held.
  unfoldable pub scratch : ℕ → M L Bytes
  scratch cap w = pure (overwrite (lib.leftover cap w.lib) (zeros cap)) w

  pub cipher_retry : (ℕ → L → Reply × L) → ℕ → Bytes → M L (Attempt (Unit {0}))
  cipher_retry fn n buf = do
    fresh ← scratch n
    release buf
    again ← cipher fn n
    pure (record {
      rc = again.rc;
      n = or_else again.len n;
      buf = overwrite again.out fresh;
      captured = tt;
    })

  pub cipher_attempt : (ℕ → L → Reply × L) → ℕ → M L (Attempt (Unit {0}))
  cipher_attempt fn cap = do
    fresh ← scratch cap
    first ← cipher fn cap
    let n = or_else first.len 0
    let buf = overwrite first.out fresh
    if is_too_small first.rc && ltb cap n
        then cipher_retry fn n buf
        else pure (record { rc = first.rc; n = n; buf = buf; captured = tt })

  unfoldable pub cipher_call : (ℕ → L → Reply × L) → Bytes → Bytes → M L Bytes
  cipher_call fn src what = do
    a ← cipher_attempt fn (out_cap (length src))
    r ← finally (settle a what) (release a.buf)
    pure r.0

  -- The caller's `dst` is the only buffer: its new contents are the second result.
  unfoldable pub cipher_call_into : (ℕ → L → Reply × L) → Bytes → Bytes → M L (ℕ × Bytes)
  cipher_call_into fn dst what = do
    r ← cipher fn (length dst)
    let n = or_else r.len 0
    check lib r.rc what
    if ltb (length dst) n then fail lib (pos 99) what else pure (n, overwrite r.out dst)
