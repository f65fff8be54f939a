-- ===== src/Loop/Worker.antt =====
-- loop/worker.cpp: the pump loop of a worker, its error texts and the choice of a surface.
pub mod Steps
pub mod Rounds
pub mod Returns
use itb_cpp.Base.{
  Bool, ℕ, zero, suc, ◌+◌, ◌-◌, ◌%◌, ◌^◌, ◌⊎◌, inl, inr, [], ◌++◌, Bytes, codes, length, take, drop,
  min, ltb, ◌==◌, ◌=s=◌, ◌||◌, if◌then◌else◌,
}
use itb_cpp.Base.Decimal.{decimal}
use itb_cpp.Binding.Status.{Status, code}
use itb_cpp.Binding.World.{
  ret, raise, spin, M, pure, itb_error, invalid_argument, ◌>>=◌, ffi, finally,
}
use itb_cpp.Binding.Errors.{last_error}
use itb_cpp.Binding.Pipeline.{Pipeline}
use itb_cpp.Binding.Stream.{
  Stream, StreamRead, encrypt_stream_begin, decrypt_stream_begin, write, end, read, destroy,
}
use itb_cpp.Loop.Names.{Shape, stream, message, stream_one_shot, both, shape_name}
use itb_cpp.Loop.Host.{Host}
use itb_cpp.Loop.State.{Worker, Site, worker_fail}

abbrev pub pump_slice : ℕ
pump_slice = 2 ^ 20

-- The step that was under way, and the status of the error that it threw.
abbrev pub Failure : Type 0
Failure = Bytes × Status

-- `try … catch (const itb::Error &)` around a step; other exceptions pass.
abbrev pub caught : {L A : Type 0} → Bytes → M L A → M L (Failure ⊎ A)
caught stage m w = elim (m w) [
  | ret a w' ↦ ret (inr a) w'
  | raise (itb_error status text) w' ↦ ret (inl (stage, status)) w'
  | raise (invalid_argument text) w' ↦ raise (invalid_argument text) w'
  | spin w' ↦ spin w'
]

infixl 5 ◌>=>◌
abbrev pub ◌>=>◌ :
    {L A B : Type 0} → M L (Failure ⊎ A) → (A → M L (Failure ⊎ B)) → M L (Failure ⊎ B)
m >=> f = m >>= λ r. elim r [ inl failure ↦ pure (inl failure) | inr a ↦ f a ]

-- The accumulator of a pump, and the drain slice.
pub record Drain : Type 0 where
  pub out : Bytes
  pub scratch : Bytes

-- `out.insert` of the bytes that the read brought.
abbrev pub kept : Drain → StreamRead → Drain
kept d r = record { out = d.out ++ take r.n r.dst; scratch = r.dst }

abbrev pub letters_iter : Worker → ℕ → Bytes
letters_iter w iter = codes "g" ++ decimal w.id ++ codes " iter " ++ decimal iter

-- Each loop takes at most `fuel` rounds.
module _ {L : Type 0} (host : Host L) (fuel : ℕ) where
  pub drain_some : ℕ → Stream → Drain → M L (Failure ⊎ Drain)
  drain_some zero s d = λ w. spin w
  drain_some (suc rounds) s d = caught (codes "StreamRead") (read host.lib s d.scratch) >=> λ r.
      let rest = drain_some rounds s (kept d r) in
      if r.n == 0 then pure (inr (record { out = d.out; scratch = r.dst })) else rest

  pub feed : ℕ → Stream → Bytes → ℕ → Drain → M L (Failure ⊎ Drain)
  feed zero s src off d = if ltb off (length src) then (λ w. spin w) else pure (inr d)
  feed (suc rounds) s src off d =
      let slice = min (length src - off) pump_slice in
      let more =
        (caught (codes "StreamWrite") (write host.lib s (take slice (drop off src))) >=> λ _.
        (drain_some fuel s d >=> λ d'. feed rounds s src (off + slice) d')) in
      if ltb off (length src) then more else pure (inr d)

  pub finish : ℕ → Stream → Drain → M L (Failure ⊎ Drain)
  finish zero s d = λ w. spin w
  finish (suc rounds) s d = caught (codes "StreamRead") (read host.lib s d.scratch) >=> λ r.
      let rest = finish rounds s (kept d r) in if r.finished then pure (inr (kept d r)) else rest

  unfoldable pub pump_body : Stream → Bytes → Drain → M L (Failure ⊎ Drain)
  pump_body s src d = feed (length src) s src 0 d >=> λ d'.
      (caught (codes "StreamEnd") (end host.lib s) >=> λ _. finish fuel s d')

  -- The session is released on the return and on the throw.
  unfoldable pub pump : Pipeline → Bool → Bytes → Bytes → M L (Failure ⊎ Drain)
  pump pipe encrypt src scratch =
      let begin =
        if encrypt
        then encrypt_stream_begin host.lib pipe
        else decrypt_stream_begin host.lib pipe in
      caught (codes "StreamBegin") begin >=> λ s.
      finally (pump_body s src (record { out = []; scratch = scratch })) (destroy host.lib s)

module _ {L : Type 0} (host : Host L) where
  -- `detail`: the diagnostic is fetched again.
  unfoldable pub detail : Status → M L Bytes
  detail status = do
    text ← last_error host.lib
    pure (codes "status " ++ decimal (code status) ++ codes ": " ++ text)

  unfoldable pub cipher_fail : Site → ℕ → Shape → Bytes → Failure → M L Site
  cipher_fail st iter shape direction failure = do
    text ← detail failure.1
    let front =
        letters_iter st.worker iter
        ++ codes " shape="
        ++ shape_name shape
        ++ codes ": "
        ++ direction
    let step =
        if (length failure.0 == 0) || (failure.0 =s= direction)
        then []
        else (codes ": " ++ failure.0)
    pure (worker_fail st (front ++ step ++ codes ": " ++ text))

  -- A step between two readings of the clock.
  abbrev pub timed : {A : Type 0} → M L (Failure ⊎ A) → M L (Failure ⊎ (A × ℕ))
  timed m =
      ffi host.now_ns >>= λ t0. (m >=> λ a. (ffi host.now_ns >>= λ t1. pure (inr (a, t1 - t0))))

-- The surface of an iteration.
unfoldable pub surface : Shape → ℕ → Shape
surface both iter =
    if iter % 3 == 0 then stream else (if iter % 3 == 1 then message else stream_one_shot)
surface shape iter = shape
