-- ===== src/Binding/Stream/Pumps.antt =====
-- The four whole-buffer pumps, from the opening of the session to its release.
use itb_cpp.Base.{
  ℕ, zero, suc, ◌*◌, ◌/◌, ◌≤◌, ◌≡◌, refl, ◌∙◌, arith, [], Bytes, length, take, take-all, or_else,
  ltb, size_max, inl, inr, ◌==◌, Bool-cases,
}
use itb_cpp.Binding.World.{
  Library, World, Opened, Outcome, ret, raise, spin, M, throw, Exn, invalid_argument, itb_error,
  ◌>>=◌, ◌>>◌, ffi,
}
use itb_cpp.Binding.World.Returned.{
  Holds, Returned, bind-Returned, if-Returned, weaken-Returned, finally-Returned,
}
use itb_cpp.Binding.Errors.{check}
use itb_cpp.Binding.Errors.Throws.{check-cases}
use itb_cpp.Binding.Buffers.{scratch}
use itb_cpp.Binding.Pipeline.{Pipeline}
use itb_cpp.Binding.Stream.{
  Stream, Pump, begun, encrypt_stream_begin, decrypt_stream_begin, pump_into, close, destroy,
  pump_scope, pump_once, pump_attempts, pump_alloc, encrypt_stream_pump, decrypt_stream_pump,
  encrypt_stream_pump_into, decrypt_stream_pump_into,
}
use itb_cpp.Binding.Stream.Session.{written, drained, phase, feeding, finished, AreSlices}
use itb_cpp.Binding.Stream.Transport.{Tracks, pump_into-Returned}

-- The current session has taken `src` whole and delivered `out`, up to the finish.
pub record Delivered (src out : Bytes) {L : Type 0} (w : World L) : Type 0 where
  pub sent : written w.calls ≡ src
  pub got : drained w.calls ≡ out
  pub stands : phase w.calls ≡ finished
  pub slices : AreSlices w.calls

-- Nothing has gone through the current session.
abbrev Fresh : {L : Type 0} → World L → Type 0
Fresh w =
    (written w.calls ≡ []) × (drained w.calls ≡ []) × (phase w.calls ≡ feeding) × AreSlices w.calls

abbrev Always : {L : Type 0} → World L → Type 0
Always w = Unit {0}

module _ {L : Type 0} (lib : Library L) where
  -- A begin that returns leaves a fresh session.
  abbrev Opens : M L Stream → Type 0
  Opens begin = Returned Always begin (λ s w. Fresh w)

  opened-Returned :
      (f : L → Opened × L) (what : Bytes)
      → Opens (do r ← ffi f; check lib r.rc what; begun lib (or_else r.handle 0))
  opened-Returned f what = record {
    holds = λ w t. elim (check-cases lib (f w.lib).0.rc what (record w { lib = (f w.lib).1 })) [
      | inl (z, e) ↦ rw (e, ◌>>=◌) (unfold written drained phase in (refl, refl, refl, tt))
      | inr (nz, (diag, w', e)) ↦ rw (e, ◌>>=◌) tt
    ];
  }

  pub encrypt_stream_begin-Opens : (p : Pipeline) → Opens (encrypt_stream_begin lib p)
  unfolding encrypt_stream_begin
  encrypt_stream_begin-Opens p = opened-Returned (lib.encrypt_stream_begin p.handle) _

  pub decrypt_stream_begin-Opens : (p : Pipeline) → Opens (decrypt_stream_begin lib p)
  unfolding decrypt_stream_begin
  decrypt_stream_begin-Opens p = opened-Returned (lib.decrypt_stream_begin p.handle) _

  -- What a caller-owned buffer holds after a pump.
  abbrev pub Pumped : Bytes → Bytes → Pump → World L → Type 0
  Pumped src dst p w =
      Delivered src (take p.used p.buf) w × (p.used ≤ length dst) × (length p.buf ≡ length dst)

  Tracks-Pumped :
      (src dst : Bytes) (p : Pump) (w : World L)
      → Tracks src (length dst) (length src) finished p w
      → Pumped src dst p w
  Tracks-Pumped src dst p w t = (
    record {
      sent = t.sent ∙ take-all (length src) src (omega arith);
      got = t.got;
      stands = t.stands;
      slices = t.slices;
    },
    omega (arith, t.room, t.kept),
    t.kept,
  )

  -- The release adds nothing to what the session shows.
  destroy-Pumped :
      (src dst : Bytes) (s : Stream) (p : Pump)
      → Returned (Pumped src dst p) (destroy lib s) (λ _. Pumped src dst p)
  unfolding destroy close written drained phase
  destroy-Pumped src dst s p = record {
    holds = λ w h. elim (Bool-cases (s.handle == 0)) [
      | inl none ↦ rw none h
      | inr some ↦ rw some (
        record { sent = h.0.sent; got = h.0.got; stands = h.0.stands; slices = h.0.slices },
        h.1,
        h.2,
      )
    ];
  }

  pump_scope-Returned :
      (begin : M L Stream) (src dst : Bytes)
      → Opens begin
      → Returned Always (pump_scope lib begin src dst) (Pumped src dst)
  unfolding pump_scope
  pump_scope-Returned begin src dst o =
      bind-Returned Always (λ s w. Fresh w) (Pumped src dst) begin _ o
        λ s.
          finally-Returned Fresh (Pumped src dst) (pump_into lib s src dst) (destroy lib s)
            (weaken-Returned _ _ _ (pump_into lib s src dst) (pump_into-Returned lib src dst s)
              (Tracks-Pumped src dst))
            (destroy-Pumped src dst s)

  -- The two pumps into a caller-owned buffer: if one returns, its session has taken the whole input
  -- in slices of at most 1 MiB, was ended and read up to the finish, and the front of the buffer
  -- that the count names is everything the session delivered; the buffer's size is unchanged.
  pub pump_into-Pumped :
      (p : Pipeline) (src dst : Bytes)
      → Returned Always (encrypt_stream_pump_into lib p src dst) (Pumped src dst)
        × Returned Always (decrypt_stream_pump_into lib p src dst) (Pumped src dst)
  unfolding encrypt_stream_pump_into decrypt_stream_pump_into
  pump_into-Pumped p src dst = (
    pump_scope-Returned _ src dst (encrypt_stream_begin-Opens p),
    pump_scope-Returned _ src dst (decrypt_stream_begin-Opens p),
  )

  catch-Holds :
      (Q : Bytes → World L → Type 0) (o : Outcome L Bytes) (handler : Exn → M L Bytes)
      → Holds Q o
      → ((e : Exn) → Returned Always (handler e) Q)
      → Holds Q (elim o [
        | ret a w' ↦ ret a w'
        | raise (invalid_argument t) w' ↦ handler (invalid_argument t) w'
        | raise (itb_error s t) w' ↦ raise (itb_error s t) w'
        | spin w' ↦ spin w'
      ])
  catch-Holds Q (ret a w) handler h k = h
  catch-Holds Q (raise (invalid_argument t) w) handler h k = (k (invalid_argument t)).holds w tt
  catch-Holds Q (raise (itb_error s t) w) handler h k = tt
  catch-Holds Q (spin w) handler h k = tt

  scratch-Returned : (cap : ℕ) → Returned Always (scratch lib cap) (λ _. Always)
  unfolding scratch
  scratch-Returned cap = record { holds = λ w t. tt }

  abbrev pub Delivers : Bytes → Bytes → World L → Type 0
  Delivers src out w = Delivered src out w

  pump_once-Returned :
      (begin : M L Stream) (src : Bytes) (cap : ℕ)
      → Opens begin
      → Returned Always (pump_once lib begin src cap) (Delivers src)
  unfolding pump_once
  pump_once-Returned begin src cap o =
      bind-Returned _ _ (Delivers src) (scratch lib cap) _ (scratch-Returned cap) λ buf.
        bind-Returned _ _ (Delivers src) (pump_scope lib begin src buf) _
          (pump_scope-Returned begin src buf o) λ p. record { holds = λ w h. h.0 }

  pump_attempts-Returned :
      (left : ℕ) (begin : M L Stream) (src : Bytes) (cap : ℕ)
      → Opens begin
      → Returned Always (pump_attempts lib left begin src cap) (Delivers src)
  unfolding pump_attempts
  pump_attempts-Returned zero begin src cap o = pump_once-Returned begin src cap o
  pump_attempts-Returned (suc left) begin src cap o = record {
    holds = λ w t.
        catch-Holds (Delivers src) (pump_once lib begin src cap w) _
          ((pump_once-Returned begin src cap o).holds w t)
          λ e.
            if-Returned _ _ (ltb (size_max / 2) cap) (throw e)
              (pump_attempts lib left begin src (cap * 2)) (λ _. record { holds = λ w' t'. tt })
              (λ _. pump_attempts-Returned left begin src (cap * 2) o);
  }

  -- The two pumps that allocate: if one returns, at whichever attempt, the bytes are everything
  -- that its last session delivered for the whole input.
  pub pump-Delivered :
      (p : Pipeline) (src : Bytes)
      → Returned Always (encrypt_stream_pump lib p src) (Delivers src)
        × Returned Always (decrypt_stream_pump lib p src) (Delivers src)
  unfolding encrypt_stream_pump decrypt_stream_pump pump_alloc
  pump-Delivered p src = (
    pump_attempts-Returned 2 _ src _ (encrypt_stream_begin-Opens p),
    pump_attempts-Returned 2 _ src _ (decrypt_stream_begin-Opens p),
  )
