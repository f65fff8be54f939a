-- ===== src/Binding/Buffers/Exact.antt =====
-- The dispatch sites of src/pipeline.cpp against a library that keeps the convention of buffers that
-- the caller allocates.
use itb_cpp.Base.{
  ℕ, ◌≤◌, ◌<◌, ◌≡◌, arith, ◌∙◌, List, [], some, ◌∷◌, ◌++◌, Bytes, length, ltb-false, lt→ltb, ◌⊎◌,
  inl, inr, le-or-lt,
}
use itb_cpp.Base.Int.{pos}
use itb_cpp.Binding.World.{Library, World, Reply, Call, ciphered, ret, ◌>>=◌, finally}
use itb_cpp.Binding.Memory.{
  wipe_bytes, zeros, overwrite, length-overwrite, take-overwrite, length-zeros,
}
use itb_cpp.Binding.Errors.{out_cap}
use itb_cpp.Binding.Errors.Throws.{check-zero}
use itb_cpp.Binding.Buffers.{
  Attempt, blob_cap, cipher_attempt, cipher_retry, scratch, cipher_call, settle, buf_call,
  buf_attempt, buf_retry,
}

-- The convention: output that fits is written with its length and the code 0; otherwise nothing is
-- written, the code is 5 and the length is what was needed, and a second try needs no more.
pub record Answers {L : Type 0} (reply : ℕ → L → Reply) (next : ℕ → L → L) (output : L → Bytes)
    : Type 0 where
  pub fits :
      (cap : ℕ) (l : L)
      → length (output l) ≤ cap
      → reply cap l ≡ record { rc = pos 0; len = some (length (output l)); out = output l }
  pub small :
      (cap : ℕ) (l : L)
      → cap < length (output l)
      → reply cap l ≡ record { rc = pos 5; len = some (length (output l)); out = [] }
  pub again :
      (cap : ℕ) (l : L) → cap < length (output l) → length (output (next cap l)) ≤ length (output l)

-- What the caller's variables hold after a call that answered `out` in a buffer of its own.
filled : {A : Type 0} → Bytes → Bytes → A → Attempt A
filled out buf a = record { rc = pos 0; n = length out; buf = overwrite out buf; captured = a }

module _ {L : Type 0} (lib : Library L) where
  settle-filled :
      {A : Type 0} (out buf : Bytes) (a : A) (what : Bytes) (w : World L)
      → length out ≤ length buf
      → settle lib (filled out buf a) what w ≡ ret (out, a) w
  unfolding settle filled
  settle-filled out buf a what w h = rw (
    check-zero lib what w,
    ◌>>=◌,
    length-overwrite out buf,
    ltb-false (length buf) (length out) h,
    take-overwrite out buf h,
  )

  module _ (fn : ℕ → L → Reply × L) (output : L → Bytes)
      (c : Answers (λ cap l. (fn cap l).0) (λ cap l. (fn cap l).1) output) where
    open c use {fits, small, again}

    -- A scratch buffer has the asked-for size.
    length-scratch : (cap : ℕ) (l : L) → length (overwrite (lib.leftover cap l) (zeros cap)) ≡ cap
    length-scratch cap l = length-overwrite (lib.leftover cap l) (zeros cap) ∙ length-zeros cap

    attempt-fits :
        (cap : ℕ) (w : World L)
        → length (output w.lib) ≤ cap
        → (buf : Bytes) × (w' : World L) × (length (output w.lib) ≤ length buf)
          × (cipher_attempt lib fn cap w ≡ ret (filled (output w.lib) buf tt) w')
    unfolding cipher_attempt scratch filled
    attempt-fits cap w h = (
      overwrite (lib.leftover cap w.lib) (zeros cap),
      record w { lib = (fn cap w.lib).1; calls = ciphered (pos 0) cap ∷ w.calls },
      omega (arith, length-scratch cap w.lib),
      rw (fits cap w.lib h),
    )

    attempt-small :
        (cap : ℕ) (w : World L)
        → cap < length (output w.lib)
        → (buf : Bytes) × (w' : World L) × (length (output (fn cap w.lib).1) ≤ length buf)
          × (cipher_attempt lib fn cap w ≡ ret (filled (output (fn cap w.lib).1) buf tt) w')
    unfolding cipher_attempt cipher_retry scratch filled
    attempt-small cap w h =
        let l = (fn cap w.lib).1 in
        let n = length (output w.lib) in
        (
          overwrite (lib.leftover n l) (zeros n),
          record w {
            lib = (fn n l).1;
            released = overwrite [] (overwrite (lib.leftover cap w.lib) (zeros cap)) ∷ w.released;
            calls = ciphered (pos 0) n ∷ ciphered (pos 5) cap ∷ w.calls;
          },
          omega (arith, length-scratch n l, again cap w.lib h),
          rw (small cap w.lib h, lt→ltb cap n h, cipher_retry, fits n l (again cap w.lib h)),
        )

    deliver :
        (src what out buf : Bytes) (w w' : World L)
        → length out ≤ length buf
        → cipher_attempt lib fn (out_cap (length src)) w ≡ ret (filled out buf tt) w'
        → (w'' : World L) × (cipher_call lib fn src what w ≡ ret out w'')
    unfolding cipher_call filled
    deliver src what out buf w w' h e = (
      record w' { released = overwrite out buf ∷ w'.released },
      rw (e, ◌>>=◌, settle-filled out buf tt what w' h),
    )

    -- Against a library that keeps the convention, a cipher call returns the whole output: that of
    -- its only call if it fits the pre-allocation, and that of its one retry otherwise. No error is
    -- thrown.
    pub cipher_call-Answers :
        (src what : Bytes) (w : World L)
        → let cap = out_cap (length src) in
          ((length (output w.lib) ≤ cap)
            × (w' : World L) × (cipher_call lib fn src what w ≡ ret (output w.lib) w'))
          ⊎ ((cap < length (output w.lib))
              × (w' : World L) × (cipher_call lib fn src what w ≡ ret (output (fn cap w.lib).1) w'))
    cipher_call-Answers src what w =
        elim (le-or-lt (length (output w.lib)) (out_cap (length src))) [
          | inl h ↦
              let (buf, w', room, e) = attempt-fits _ w h in
              inl
                (h, (deliver src what _ buf w w' room e).0, (deliver src what _ buf w w' room e).1)
          | inr h ↦
              let (buf, w', room, e) = attempt-small _ w h in
              inr
                (h, (deliver src what _ buf w w' room e).0, (deliver src what _ buf w w' room e).1)
        ]

  module _ {A : Type 0} (log : Reply × A → List Call) (fn : ℕ → L → (Reply × A) × L)
      (output : L → Bytes)
      (c : Answers (λ cap l. (fn cap l).0.0) (λ cap l. (fn cap l).1) output) where
    open c use {fits, small, again}

    -- The second run's captured variable is the one that counts.
    buf_attempt-Answers :
        (w : World L)
        → (length (output w.lib) ≤ blob_cap
            → (buf : Bytes) × (w' : World L) × (length (output w.lib) ≤ length buf)
              × (buf_attempt lib log fn w
                  ≡ ret (filled (output w.lib) buf (fn blob_cap w.lib).0.1) w'))
          × (blob_cap < length (output w.lib)
              → let l = (fn blob_cap w.lib).1 in
                let n = length (output w.lib) in
                (buf : Bytes) × (w' : World L) × (length (output l) ≤ length buf)
                × (buf_attempt lib log fn w ≡ ret (filled (output l) buf (fn n l).0.1) w'))
    unfolding buf_attempt buf_retry filled
    buf_attempt-Answers w = (
      λ h. (
        zeros blob_cap,
        record w { lib = (fn blob_cap w.lib).1; calls = log (fn blob_cap w.lib).0 ++ w.calls },
        omega (arith, length-zeros blob_cap),
        rw (fits blob_cap w.lib h),
      ),
      λ h.
          let l = (fn blob_cap w.lib).1 in
          let n = length (output w.lib) in
          (
            zeros n,
            record w {
              lib = (fn n l).1;
              released = wipe_bytes (overwrite [] (zeros blob_cap)) ∷ w.released;
              calls = log (fn n l).0 ++ (log (fn blob_cap w.lib).0 ++ w.calls);
            },
            omega (arith, length-zeros n, again blob_cap w.lib h),
            rw (
              small blob_cap w.lib h,
              length-overwrite [] (zeros blob_cap),
              length-zeros blob_cap,
              lt→ltb blob_cap n h,
              buf_retry,
              fits n l (again blob_cap w.lib h),
            ),
          ),
    )

    buf_deliver :
        (what out buf : Bytes) (a : A) (w w' : World L)
        → length out ≤ length buf
        → buf_attempt lib log fn w ≡ ret (filled out buf a) w'
        → (w'' : World L) × (buf_call lib log fn what w ≡ ret (out, a) w'')
    unfolding buf_call filled
    buf_deliver what out buf a w w' h e = (
      record w' { released = wipe_bytes (overwrite out buf) ∷ w'.released },
      rw (e, ◌>>=◌, finally, settle-filled out buf a what w' h),
    )

    -- Against a library that keeps the convention, a blob or a record comes back whole, from the
    -- first call if it fits 64 KiB and from the one retry otherwise, with the handle that the last
    -- call stored. No error is thrown.
    pub buf_call-Answers :
        (what : Bytes) (w : World L)
        → ((length (output w.lib) ≤ blob_cap)
            × (w' : World L) × (buf_call lib log fn what w
                ≡ ret (output w.lib, (fn blob_cap w.lib).0.1) w'))
          ⊎ ((blob_cap < length (output w.lib))
              × (let l = (fn blob_cap w.lib).1 in
                  (w' : World L) × (buf_call lib log fn what w
                    ≡ ret (output l, (fn (length (output w.lib)) l).0.1) w')))
    buf_call-Answers what w = elim (le-or-lt (length (output w.lib)) blob_cap) [
      | inl h ↦
          let (buf, w', room, e) = (buf_attempt-Answers w).0 h in
          inl
            (h, (buf_deliver what _ buf _ w w' room e).0, (buf_deliver what _ buf _ w w' room e).1)
      | inr h ↦
          let (buf, w', room, e) = (buf_attempt-Answers w).1 h in
          inr (h, buf_deliver what _ buf _ w w' room e)
    ]
