-- ===== src/Binding/Stream/Scope.antt =====
-- The session of a pump of src/stream.cpp: which call opened it, and that its scope releases it.
use itb_cpp.Base.{
  ℕ, zero, suc, ◌≡◌, ◌≢◌, ◌⊎◌, inl, inr, refl, List, [], ◌∷◌, Bytes, length, ◌==◌, ==_refl, subst,
  Bool-cases, or_else, if◌then◌else◌,
}
use itb_cpp.Base.Int.{ℤ, pos}
use itb_cpp.Binding.World.{
  Library, World, Opened, Call, stream_begun, stream_wrote, stream_ended, stream_freed, Outcome,
  ret, raise, spin, pure, throw, world, ◌>>=◌, ◌>>◌, ffi, ffi_logged,
}
use itb_cpp.Binding.World.Ends.{Comes}
use itb_cpp.Binding.World.Keeps.{Keeps, IsStable, keeps_rules}
use itb_cpp.Binding.Errors.{check}
use itb_cpp.Binding.Errors.Keeps.{check-Keeps, fail-Keeps}
use itb_cpp.Binding.Errors.Throws.{check-cases}
use itb_cpp.Binding.Stream.{
  Stream, Pump, begun, read_entry, read, write, end, close, destroy, advance, drain_one, drain_some,
  feed, finish, pump_into, pump_scope,
}

-- The handle of the latest session, and how often it has been released since.
unfoldable pub session : List Call → ℕ
session [] = 0
session (stream_begun h ∷ cs) = h
session (c ∷ cs) = session cs

unfoldable pub releases : List Call → ℕ
unfolding session
releases [] = 0
releases (stream_begun h ∷ cs) = 0
releases (stream_freed h ∷ cs) = if h == session cs then suc (releases cs) else releases cs
releases (c ∷ cs) = releases cs

-- The latest session is the one of this handle, released so often.
abbrev Running : {L : Type 0} → ℕ → ℕ → World L → Type 0
Running h times w = (session w.calls ≡ h) × (releases w.calls ≡ times)

module _ {L : Type 0} (lib : Library L) (h : ℕ) where
  stable : IsStable {L = L} (Running h 0)
  stable w l i = i

  wrote-Running :
      (f : L → ℤ × L) (src : Bytes)
      → Keeps {L = L} (Running h 0) (ffi_logged (λ rc. stream_wrote rc src) f)
  unfolding session releases
  wrote-Running f src = record { keeps = λ w i. i }

  ended-Running :
      (f : L → ℤ × L) → Keeps {L = L} (Running h 0) (ffi_logged (λ rc. stream_ended rc) f)
  unfolding session releases
  ended-Running f = record { keeps = λ w i. i }

  write-Running : (s : Stream) (src : Bytes) → Keeps (Running h 0) (write lib s src)
  unfolding write
  write-Running s src = search (keeps_rules, wrote-Running, check-Keeps lib stable)

  end-Running : (s : Stream) → Keeps (Running h 0) (end lib s)
  unfolding end
  end-Running s = search (keeps_rules, ended-Running, check-Keeps lib stable)

  drained-Running :
      (s : Stream) (dst : Bytes)
      → Keeps (Running h 0) (ffi_logged (read_entry dst) (lib.stream_read s.handle (length dst)))
  unfolding session releases
  drained-Running s dst = record { keeps = λ w i. i }

  read-Running : (s : Stream) (dst : Bytes) → Keeps (Running h 0) (read lib s dst)
  unfolding read
  read-Running s dst = search (keeps_rules, drained-Running, check-Keeps lib stable)

  drain_one-Running : (s : Stream) (p : Pump) → Keeps (Running h 0) (drain_one lib s p)
  unfolding drain_one advance
  drain_one-Running s p = search (keeps_rules, read-Running, fail-Keeps lib stable) depth 12

  spin-Running : {A : Type 0} → Keeps {L = L} {A = A} (Running h 0) (λ w. spin w)
  spin-Running = record { keeps = λ w i. i }

  drain_some-Running :
      (rounds : ℕ) (s : Stream) (p : Pump) → Keeps (Running h 0) (drain_some lib rounds s p)
  unfolding drain_some
  drain_some-Running zero s p = spin-Running
  drain_some-Running (suc rounds) s p =
      search (keeps_rules, drain_one-Running, drain_some-Running rounds)

  feed-Running :
      (rounds : ℕ) (s : Stream) (src : Bytes) (offset : ℕ) (p : Pump)
      → Keeps (Running h 0) (feed lib rounds s src offset p)
  unfolding feed
  feed-Running zero s src offset p = search (keeps_rules, spin-Running)
  feed-Running (suc rounds) s src offset p =
      search (keeps_rules, write-Running, drain_some-Running, feed-Running rounds) depth 12

  finish-Running :
      (rounds : ℕ) (s : Stream) (p : Pump) → Keeps (Running h 0) (finish lib rounds s p)
  unfolding finish
  finish-Running zero s p = spin-Running
  finish-Running (suc rounds) s p = search (keeps_rules, drain_one-Running, finish-Running rounds)

  pump_into-Running : (s : Stream) (src dst : Bytes) → Keeps (Running h 0) (pump_into lib s src dst)
  unfolding pump_into
  pump_into-Running s src dst =
      search (keeps_rules, feed-Running, end-Running, finish-Running) depth 12

-- The session of this handle has been released, once unless the handle is the null handle.
abbrev pub Released : {L : Type 0} → ℕ → World L → Type 0
Released h w = (session w.calls ≡ h) × (releases w.calls ≡ (if h == 0 then 0 else 1))

-- Either the opening call has failed, and nothing else was entered, or its session is the latest one,
-- and has been released.
abbrev pub Scoped : {L : Type 0} → Opened → World L → World L → Type 0
Scoped r w w' =
    ((r.rc ≢ pos 0) × (w'.calls ≡ w.calls)) ⊎ ((r.rc ≡ pos 0) × Released (or_else r.handle 0) w')

abbrev Any : {L A : Type 0} → A → World L → Type 0
Any a w = Unit {0}

module _ {L : Type 0} (lib : Library L) where
  destroy-Released :
      (s : Stream) (w : World L)
      → Running s.handle 0 w
      → (w' : World L) × (destroy lib s w ≡ ret tt w') × Released s.handle w'
  unfolding destroy close session releases
  destroy-Released s w i = elim (Bool-cases (s.handle == 0)) [
    | inl none ↦ (w, rw none refl, (i.0, rw none (i.1)))
    | inr some ↦ (
      record w {
        lib = (lib.stream_free s.handle w.lib).1;
        calls = stream_freed s.handle ∷ w.calls;
      },
      rw some refl,
      (i.0, rw (some, i.0, i.1, ==_refl s.handle) refl),
    )
  ]

  finally-Released :
      {A : Type 0} (s : Stream) (o : Outcome L A)
      → Comes Any o
      → Running s.handle 0 (world o)
      → Released s.handle (
          world (elim o [
            | ret a w' ↦ (destroy lib s >>= λ _. pure a) w'
            | raise e w' ↦ (destroy lib s >>= λ _. throw {L = L} {A = A} e) w'
            | spin w' ↦ spin w'
          ]))
  finally-Released s (ret a w) c i = let (w', e, r) = destroy-Released s w i in rw (e, ◌>>=◌) r
  finally-Released s (raise x w) c i = let (w', e, r) = destroy-Released s w i in rw (e, ◌>>=◌) r
  finally-Released s (spin w) c i = absurd c

  -- A pump inside the scope of the session that this entry opens, if none of its loops runs on.
  pub pump_scope-Scoped :
      (f : L → Opened × L) (what src dst : Bytes) (w : World L)
      → ((s : Stream) (w : World L) → Comes Any (pump_into lib s src dst w))
      → Scoped (f w.lib).0 w (
          world (
            pump_scope lib
              (do r ← ffi f; check lib r.rc what; begun lib (or_else r.handle 0))
              src
              dst
              w))
  unfolding pump_scope
  pump_scope-Scoped f what src dst w c =
      let r = f w.lib in
      let called = record w { lib = r.1 } in
      let s : Stream = record { handle = or_else r.0.handle 0 } in
      let opened = record called { calls = stream_begun s.handle ∷ w.calls } in
      elim (check-cases lib r.0.rc what called) [
        | inl (z, t) ↦
            rw (t, ◌>>=◌)
              (inr (
                z,
                finally-Released s (pump_into lib s src dst opened) (c s opened) (
                    (pump_into-Running lib s.handle s src dst).keeps opened
                      (unfold session releases in (refl, refl))),
              ))
        | inr (nz, (diag, w', t)) ↦
            rw (t, ◌>>=◌)
              (inl (
                nz,
                subst (λ o. (world o).calls ≡ w.calls) t
                    ((check-Keeps lib {I = λ w'. w'.calls ≡ w.calls} (λ w' l i. i) r.0.rc
                        what).keeps
                      called refl),
              ))
      ]
