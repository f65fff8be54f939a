-- ===== src/Loop/Worker/Returns.antt =====
-- How `pump` of loop/worker.cpp comes back.
use itb_cpp.Base.{
  true, false, ℕ, ◌+◌, ◌≤◌, ◌<◌, ◌≡◌, ◌⊎◌, refl, arith, inl, inr, [], Bytes, codes, length, or_else,
}
use itb_cpp.Base.Int.{pos}
use itb_cpp.Binding.World.{World, M, ◌>>=◌, finally, Opened}
use itb_cpp.Binding.World.Ways.{Any, Nowhere, Leads, bind-Leads, sum-Leads, pure-Leads}
use itb_cpp.Binding.Errors.Throws.{check-cases}
use itb_cpp.Binding.Pipeline.{Pipeline}
use itb_cpp.Binding.Stream.{Stream, destroy, encrypt_stream_begin, decrypt_stream_begin}
use itb_cpp.Binding.Stream.Progress.{EndsItself}
use itb_cpp.Loop.Host.{Host}
use itb_cpp.Loop.Main.Caught.{Seen, caught-Leads}
use itb_cpp.Loop.Worker.{Failure, Drain, caught, ◌>=>◌, pump_body, pump}
use itb_cpp.Loop.Worker.Steps.{finally-outcome, destroy-Leads}
use itb_cpp.Loop.Worker.Rounds.{Spends, body-Leads}

-- How a pump of the harness comes back: with the step that failed, or with an accumulator of at most
-- `most` bytes and a slice of the size it had.
abbrev pub Sent : ℕ → Bytes → Failure ⊎ Drain → Type 0
Sent most scratch (inl failure) = Unit {0}
Sent most scratch (inr d) = (length d.out ≤ most) × (length d.scratch ≡ length scratch)

module _ {L : Type 0} (host : Host L) (ended : ℕ → L → Type 0) (load : ℕ → ℕ → L → ℕ)
    (over : (h : ℕ) → EndsItself host.lib h (ended h))
    (law : (h : ℕ) → Spends host.lib h (load h)) where
  -- A session that either entry opens delivers at most `most` bytes for an input of that size.
  abbrev pub Opens : Pipeline → ℕ → ℕ → (ℕ → L → Opened × L) → Type 0
  Opens pipe input most entry =
      (l : L)
      → (entry pipe.handle l).0.rc ≡ pos 0
      → load (or_else (entry pipe.handle l).0.handle 0) input (entry pipe.handle l).1 ≤ most

  abbrev Begun : ℕ → ℕ → Stream → World L → Type 0
  Begun input most s w = load s.handle input w.lib ≤ most

  encrypt-Leads :
      (pipe : Pipeline) (input most : ℕ)
      → Opens pipe input most host.lib.encrypt_stream_begin
      → Leads Any (encrypt_stream_begin host.lib pipe) (Begun input most) Any
  unfolding encrypt_stream_begin
  encrypt-Leads pipe input most k = record {
    leads = λ w u.
        let r = host.lib.encrypt_stream_begin pipe.handle w.lib in
        elim (check-cases host.lib r.0.rc (codes "Pipeline::encrypt_stream_begin")
          (record w { lib = r.1 })) [
            | inl (z, t) ↦ rw (t, ◌>>=◌) (k w.lib z)
            | inr (nz, (diag, w', t)) ↦ rw (t, ◌>>=◌) tt
          ];
  }

  decrypt-Leads :
      (pipe : Pipeline) (input most : ℕ)
      → Opens pipe input most host.lib.decrypt_stream_begin
      → Leads Any (decrypt_stream_begin host.lib pipe) (Begun input most) Any
  unfolding decrypt_stream_begin
  decrypt-Leads pipe input most k = record {
    leads = λ w u.
        let r = host.lib.decrypt_stream_begin pipe.handle w.lib in
        elim (check-cases host.lib r.0.rc (codes "Pipeline::decrypt_stream_begin")
          (record w { lib = r.1 })) [
            | inl (z, t) ↦ rw (t, ◌>>=◌) (k w.lib z)
            | inr (nz, (diag, w', t)) ↦ rw (t, ◌>>=◌) tt
          ];
  }

  kept-Sent :
      (s : Stream) (most : ℕ) (scratch : Bytes) (r : Failure ⊎ Drain) (w : World L)
      → Seen
          (λ d w'.
            (length d.out + load s.handle 0 w'.lib ≤ most) × (length d.scratch ≡ length scratch))
          Any
          r
          w
      → Sent most scratch r
  kept-Sent s most scratch (inl failure) w h = tt
  kept-Sent s most scratch (inr d) w h = (omega (arith, h.0), h.1)

  -- The session behind the begin, with its destructor.
  session-Leads :
      (fuel most : ℕ) (src scratch : Bytes) (s : Stream)
      → 0 < length scratch
      → most < fuel
      → Leads
          (Begun (length src) most s)
          (finally
            (pump_body host fuel s src (record { out = []; scratch = scratch }))
            (destroy host.lib s))
          (λ r w. Sent most scratch r)
          Nowhere
  session-Leads fuel most src scratch s room enough =
      let body =
        body-Leads host s (load s.handle) (law s.handle) (length scratch) most room fuel
          (ended s.handle) (over s.handle) src (record { out = []; scratch = scratch }) enough in
      record {
        leads = λ w p.
            finally-outcome _ (Sent most scratch) _ (destroy host.lib s) (kept-Sent s most scratch)
              (body.leads w (omega (arith, p), refl)) (destroy-Leads host.lib s);
      }

  Begun-Leads :
      (fuel most : ℕ) (pipe : Pipeline) (src scratch : Bytes) (begin : M L Stream)
      → 0 < length scratch
      → most < fuel
      → Leads Any begin (Begun (length src) most) Any
      → Leads Any
          (caught (codes "StreamBegin") begin >=> λ s.
            finally
              (pump_body host fuel s src (record { out = []; scratch = scratch }))
              (destroy host.lib s))
          (λ r w. Sent most scratch r)
          Nowhere
  Begun-Leads fuel most pipe src scratch begin room enough h =
      bind-Leads Any (Seen (Begun (length src) most) Any) _ Nowhere _ _
        (caught-Leads _ _ Any Nowhere (codes "StreamBegin") begin h)
        (λ r.
          sum-Leads _ Nowhere (Seen (Begun (length src) most) Any) r
            (λ failure. pure-Leads _ Nowhere _ (inl failure) (λ w u. tt))
            (λ s. session-Leads fuel most src scratch s room enough))

  pub encrypting-Leads :
      (fuel most : ℕ) (pipe : Pipeline) (src scratch : Bytes)
      → 0 < length scratch
      → most < fuel
      → Opens pipe (length src) most host.lib.encrypt_stream_begin
      → Leads Any (pump host fuel pipe true src scratch) (λ r w. Sent most scratch r) Nowhere
  unfolding pump
  encrypting-Leads fuel most pipe src scratch room enough e =
      Begun-Leads fuel most pipe src scratch _ room enough (encrypt-Leads pipe (length src) most e)

  pub decrypting-Leads :
      (fuel most : ℕ) (pipe : Pipeline) (src scratch : Bytes)
      → 0 < length scratch
      → most < fuel
      → Opens pipe (length src) most host.lib.decrypt_stream_begin
      → Leads Any (pump host fuel pipe false src scratch) (λ r w. Sent most scratch r) Nowhere
  unfolding pump
  decrypting-Leads fuel most pipe src scratch room enough d =
      Begun-Leads fuel most pipe src scratch _ room enough (decrypt-Leads pipe (length src) most d)
