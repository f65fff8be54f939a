-- ===== src/Binding/Stream/Delivery.antt =====
-- The pumps of src/stream.cpp, from the opening of the session on: that they end, and what
-- they deliver.
use itb_cpp.Base.{
  ℕ, zero, suc, ◌*◌, ◌/◌, ◌≡◌, [], Bytes, length, size_max, ltb, inl, inr, Bool-cases, ◌==◌,
  or_else,
}
use itb_cpp.Binding.World.{
  Library, World, Opened, Outcome, ret, raise, spin, M, pure, throw, Exn, invalid_argument,
  itb_error, world, ◌>>=◌, ◌>>◌, ffi,
}
use itb_cpp.Binding.World.Ends.{Comes, Ends, bind-Ends, if-Ends, weaken-Ends}
use itb_cpp.Binding.World.Returned.{Holds}
use itb_cpp.Binding.Errors.{check}
use itb_cpp.Binding.Errors.Throws.{check-cases}
use itb_cpp.Binding.Buffers.{scratch}
use itb_cpp.Binding.Pipeline.{Pipeline}
use itb_cpp.Binding.Stream.{
  Stream, begun, encrypt_stream_begin, decrypt_stream_begin, pump_into, close, destroy, pump_scope,
  pump_once, pump_attempts, pump_alloc, encrypt_stream_pump, decrypt_stream_pump,
  encrypt_stream_pump_into, decrypt_stream_pump_into,
}
use itb_cpp.Binding.Stream.Session.{written, drained, phase, feeding, finished, AreSlices}
use itb_cpp.Binding.Stream.Transport.{Tracks, pump_into-Returned}
use itb_cpp.Binding.Stream.Scope.{Scoped, pump_scope-Scoped}
use itb_cpp.Binding.Stream.Progress.{EndsItself, pump_into-Ends}
use itb_cpp.Binding.Stream.Pumps.{Pumped, Delivers, pump_into-Pumped, pump-Delivered}

abbrev Always : {L : Type 0} → World L → Type 0
Always w = Unit {0}

abbrev Any : {L A : Type 0} → A → World L → Type 0
Any a w = Unit {0}

-- A step that ends, and whose returns have `Q`.
both :
    {L A : Type 0} (R Q : A → World L → Type 0) (o : Outcome L A)
    → Comes R o
    → Holds Q o
    → Comes Q o
both R Q (ret a w) c h = h
both R Q (raise e w) c h = tt
both R Q (spin w) c h = c

module _ {L : Type 0} (lib : Library L) (ended : ℕ → L → Type 0)
    (law : (h : ℕ) → EndsItself lib h (ended h)) where
  -- Against a library whose reads behind the end bring a byte or the finish, and from a fresh session,
  -- a pump into a buffer of the caller never runs on without end. If it
  -- returns, it has written the source whole, in slices of at most 1 MiB, then ended the session,
  -- and then read it up to the finish; the bytes that the reads delivered are exactly the used
  -- front of the buffer, which has kept its size. Otherwise it throws.
  pub pump_into-Comes :
      (src dst : Bytes) (s : Stream) (w : World L)
      → written w.calls ≡ []
      → drained w.calls ≡ []
      → phase w.calls ≡ feeding
      → AreSlices w.calls
      → Comes
          (λ p w'. Tracks src (length dst) (length src) finished p w')
          (pump_into lib s src dst w)
  pump_into-Comes src dst s w e d f a =
      both _ _ (pump_into lib s src dst w)
        ((pump_into-Ends lib s (ended s.handle) (law s.handle) src dst).comes w tt)
        ((pump_into-Returned lib src dst s).holds w (e, d, f, a))

  forget-Ends :
      {A : Type 0} {m : M L A} (Q : A → World L → Type 0) → Ends Always m Q → Ends Always m Any
  forget-Ends {m = m} Q h = weaken-Ends Always Q Any m h (λ a w q. tt)

  finally-Comes :
      {A : Type 0} (o : Outcome L A) (dtor : M L (Unit {0}))
      → Comes Any o
      → Ends Always dtor Any
      → Comes Any (elim o [
        | ret a w' ↦ (dtor >>= λ _. pure a) w'
        | raise e w' ↦ (dtor >>= λ _. throw {L = L} {A = A} e) w'
        | spin w' ↦ spin w'
      ])
  finally-Comes (ret a w) dtor c k =
      (bind-Ends Always Any Any dtor _ k λ u. record { comes = λ w t. tt }).comes w tt
  finally-Comes (raise e w) dtor c k =
      (bind-Ends Always Any Any dtor _ k λ u. record { comes = λ w t. tt }).comes w tt
  finally-Comes (spin w) dtor c k = c

  destroy-Ends : (s : Stream) → Ends Always (destroy lib s) Any
  unfolding destroy close
  destroy-Ends s = record {
    comes = λ w t. elim (Bool-cases (s.handle == 0)) [ inl e ↦ rw e tt | inr e ↦ rw e tt ];
  }

  begin-Ends :
      (f : L → Opened × L) (what : Bytes)
      → Ends Always (do r ← ffi f; check lib r.rc what; begun lib (or_else r.handle 0)) Any
  begin-Ends f what = record {
    comes = λ w t. elim (check-cases lib (f w.lib).0.rc what (record w { lib = (f w.lib).1 })) [
      | inl (z, e) ↦ rw (e, ◌>>=◌) tt
      | inr (nz, (diag, w', e)) ↦ rw (e, ◌>>=◌) tt
    ];
  }

  encrypt-Ends : (p : Pipeline) → Ends Always (encrypt_stream_begin lib p) Any
  unfolding encrypt_stream_begin
  encrypt-Ends p = begin-Ends (lib.encrypt_stream_begin p.handle) _

  decrypt-Ends : (p : Pipeline) → Ends Always (decrypt_stream_begin lib p) Any
  unfolding decrypt_stream_begin
  decrypt-Ends p = begin-Ends (lib.decrypt_stream_begin p.handle) _

  scope-Ends :
      (begin : M L Stream) (src dst : Bytes)
      → Ends Always begin Any
      → Ends Always (pump_scope lib begin src dst) Any
  unfolding pump_scope
  scope-Ends begin src dst b = bind-Ends Always Any Any begin _ b λ s. record {
    comes = λ w t.
        finally-Comes (pump_into lib s src dst w) (destroy lib s)
          ((forget-Ends _ (pump_into-Ends lib s (ended s.handle) (law s.handle) src dst)).comes w
            tt)
          (destroy-Ends s);
  }

  never-spins : (src dst : Bytes) (s : Stream) (w : World L) → Comes Any (pump_into lib s src dst w)
  never-spins src dst s w =
      (forget-Ends _ (pump_into-Ends lib s (ended s.handle) (law s.handle) src dst)).comes w tt

  -- Against a library whose reads behind the end bring a byte or the finish, the two pumps into a
  -- caller-owned buffer never run on without end. If one returns, its session has taken the whole
  -- input in slices of at most 1 MiB, was ended and read up to the finish, and the front of the buffer
  -- that the count names is everything the session delivered; the buffer's size is unchanged.
  -- Otherwise it throws. However it ends, its session is the one that the library's encrypt entry, or
  -- its decrypt entry, has opened, and it has been released, once; or that entry has failed, and no
  -- call on a session was made.
  pub pumps_into-Comes :
      (p : Pipeline) (src dst : Bytes) (w : World L)
      → (Comes (Pumped lib src dst) (encrypt_stream_pump_into lib p src dst w)
          × Scoped
              (lib.encrypt_stream_begin p.handle w.lib).0
              w
              (world (encrypt_stream_pump_into lib p src dst w)))
        × (Comes (Pumped lib src dst) (decrypt_stream_pump_into lib p src dst w)
            × Scoped
                (lib.decrypt_stream_begin p.handle w.lib).0
                w
                (world (decrypt_stream_pump_into lib p src dst w)))
  unfolding encrypt_stream_pump_into decrypt_stream_pump_into encrypt_stream_begin
      decrypt_stream_begin
  pumps_into-Comes p src dst w = (
    (
      both Any (Pumped lib src dst) (encrypt_stream_pump_into lib p src dst w)
          ((scope-Ends _ src dst (encrypt-Ends p)).comes w tt)
          ((pump_into-Pumped lib p src dst).0.holds w tt),
      pump_scope-Scoped lib (lib.encrypt_stream_begin p.handle) _ src dst w (never-spins src dst),
    ),
    (
      both Any (Pumped lib src dst) (decrypt_stream_pump_into lib p src dst w)
          ((scope-Ends _ src dst (decrypt-Ends p)).comes w tt)
          ((pump_into-Pumped lib p src dst).1.holds w tt),
      pump_scope-Scoped lib (lib.decrypt_stream_begin p.handle) _ src dst w (never-spins src dst),
    ),
  )

  once-Ends :
      (begin : M L Stream) (src : Bytes) (cap : ℕ)
      → Ends Always begin Any
      → Ends Always (pump_once lib begin src cap) Any
  unfolding pump_once scratch
  once-Ends begin src cap b = record {
    comes = λ w t.
        (bind-Ends Always Any Any (pump_scope lib begin src _) _ (scope-Ends begin src _ b)
            λ p. record { comes = λ w t. tt }).comes
          w tt;
  }

  catch-Comes :
      (o : Outcome L Bytes) (handler : Exn → M L Bytes)
      → Comes Any o
      → ((e : Exn) → Ends Always (handler e) Any)
      → Comes Any (elim o [
        | ret a w' ↦ ret a w'
        | raise (invalid_argument t) w' ↦ handler (invalid_argument t) w'
        | raise (itb_error s t) w' ↦ raise (itb_error s t) w'
        | spin w' ↦ spin w'
      ])
  catch-Comes (ret a w) handler h k = tt
  catch-Comes (raise (invalid_argument t) w) handler h k = (k (invalid_argument t)).comes w tt
  catch-Comes (raise (itb_error s t) w) handler h k = tt
  catch-Comes (spin w) handler h k = h

  attempts-Ends :
      (left : ℕ) (begin : M L Stream) (src : Bytes) (cap : ℕ)
      → Ends Always begin Any
      → Ends Always (pump_attempts lib left begin src cap) Any
  unfolding pump_attempts
  attempts-Ends zero begin src cap b = once-Ends begin src cap b
  attempts-Ends (suc left) begin src cap b = record {
    comes = λ w t.
        catch-Comes (pump_once lib begin src cap w) _ ((once-Ends begin src cap b).comes w t) λ e.
          if-Ends Always Any (ltb (size_max / 2) cap) (throw e)
            (pump_attempts lib left begin src (cap * 2)) (λ _. record { comes = λ w' t'. tt })
            (λ _. attempts-Ends left begin src (cap * 2) b);
  }

  -- Against a library whose reads behind the end bring a byte or the finish, the two pumps that
  -- allocate never run on without end. If one returns, at whichever attempt, the
  -- bytes are everything that its last session delivered for the whole input. Otherwise it throws.
  pub pumps-Comes :
      (p : Pipeline) (src : Bytes) (w : World L)
      → Comes (Delivers lib src) (encrypt_stream_pump lib p src w)
        × Comes (Delivers lib src) (decrypt_stream_pump lib p src w)
  unfolding encrypt_stream_pump decrypt_stream_pump pump_alloc
  pumps-Comes p src w = (
    both Any (Delivers lib src) (encrypt_stream_pump lib p src w)
        ((attempts-Ends 2 _ src _ (encrypt-Ends p)).comes w tt)
        ((pump-Delivered lib p src).0.holds w tt),
    both Any (Delivers lib src) (decrypt_stream_pump lib p src w)
        ((attempts-Ends 2 _ src _ (decrypt-Ends p)).comes w tt)
        ((pump-Delivered lib p src).1.holds w tt),
  )
