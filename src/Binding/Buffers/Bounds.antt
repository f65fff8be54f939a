-- ===== src/Binding/Buffers/Bounds.antt =====
-- The dispatch sites of src/pipeline.cpp against any library: their calls and their lengths.
use itb_cpp.Base.{
  ℕ, ◌≤◌, ◌<◌, ◌≡◌, arith, List, ◌∷◌, Bytes, length, Bool-cases, inl, inr, ltb, or_else, ltb→lt,
}
use itb_cpp.Base.Int.{ℤ, pos, is_nat-cases}
use itb_cpp.Binding.World.{release, Library, World, Reply, Call, ciphered, ret, world}
use itb_cpp.Binding.World.Keeps.{Keeps, IsStable, keeps_rules, bind_leads}
use itb_cpp.Binding.Memory.{length-overwrite}
use itb_cpp.Binding.Errors.{out_cap}
use itb_cpp.Binding.Errors.Throws.{check-cases, fail-Throws}
use itb_cpp.Binding.Buffers.{cipher_attempt, cipher_retry, scratch, cipher_call, cipher_call_into}
use itb_cpp.Binding.Buffers.Wiping.{settle-Keeps}

-- The calls that one dispatch adds to those before it; `reported` is the size that the first call
-- reported.
pub data Dispatched (cap reported : ℕ) (before : List Call) : List Call → Type 0 where
  once : (rc : ℤ) → Dispatched cap reported before (ciphered rc cap ∷ before)
  twice :
      (rc : ℤ)
      → cap < reported
      → Dispatched cap reported before (ciphered rc reported ∷ ciphered (pos 5) cap ∷ before)

module _ {L : Type 0} (lib : Library L) (fn : ℕ → L → Reply × L) where
  abbrev Done : ℕ → World L → World L → Type 0
  Done cap w w' = Dispatched cap (or_else (fn cap w.lib).0.len 0) w.calls w'.calls

  attempt-Dispatched : (cap : ℕ) (w : World L) → Done cap w (world (cipher_attempt lib fn cap w))
  unfolding cipher_attempt cipher_retry scratch
  attempt-Dispatched cap w = elim (is_nat-cases (fn cap w.lib).0.rc 5) [
    | inr (h, other) ↦ rw other (once _)
    | inl (e, small) ↦ elim (Bool-cases (ltb cap (or_else (fn cap w.lib).0.len 0))) [
      | inr fit ↦ rw (small, fit) (once _)
      | inl more ↦ rw (small, more, e) (twice _ (ltb→lt _ _ more))
    ]
  ]

  -- A cipher call is made once, or twice where the first answer was `BufferTooSmall` with a size
  -- above the capacity; the second call's capacity is that size. No other call is listed.
  pub cipher_call-Dispatched :
      (src what : Bytes) (w : World L)
      → let cap = out_cap (length src) in
        Dispatched cap
          (or_else (fn cap w.lib).0.len 0)
          w.calls
          (world (cipher_call lib fn src what w)).calls
  unfolding cipher_call
  cipher_call-Dispatched src what w =
      bind_leads (Done cap w) (cipher_attempt lib fn cap) _ w (attempt-Dispatched cap w)
        λ a. search (keeps_rules, settle-Keeps lib, stable, released)
    where
      cap : ℕ
      cap = out_cap (length src)

      stable : IsStable (Done cap w)
      stable w' l d = d

      released : (buf : Bytes) → Keeps (Done cap w) (release buf)
      released buf = record { keeps = λ w' d. d }

  -- If an `_into` call returns, it has made one call, with the capacity `dst.size()`; the library
  -- answered 0, the count lies within `dst`, and `dst` has kept its size.
  pub cipher_call_into_lem :
      (dst what : Bytes) (w : World L) (n : ℕ) (dst' : Bytes) (w' : World L)
      → cipher_call_into lib fn dst what w ≡ ret (n, dst') w'
      → ((fn (length dst) w.lib).0.rc ≡ pos 0)
        × (n ≤ length dst)
        × (length dst' ≡ length dst)
        × (w'.calls ≡ ciphered (pos 0) (length dst) ∷ w.calls)
  unfolding cipher_call_into
  cipher_call_into_lem dst what w n dst' w' h =
      let called = record w {
        lib = (fn (length dst) w.lib).1;
        calls = ciphered (fn (length dst) w.lib).0.rc (length dst) ∷ w.calls;
      } in
      ground (
        arith,
        length-overwrite (fn (length dst) w.lib).0.out dst,
        check-cases lib (fn (length dst) w.lib).0.rc what called,
        fail-Throws lib (ℕ × Bytes) (pos 99) what called,
      )
