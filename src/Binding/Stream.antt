-- ===== src/Binding/Stream.antt =====
-- src/stream.cpp and the `Stream` classes of include/itb3.hpp: incremental sessions and the
-- whole-buffer pumps over them.
pub mod Session
pub mod Transport
pub mod Pumps
pub mod Progress
pub mod Scope
pub mod Delivery
use itb_cpp.Base.{
  Bool, true, false, ℕ, zero, suc, ◌+◌, ◌-◌, ◌*◌, ◌^◌, ◌/◌, min, [], ◌∷◌, ◌++◌, Bytes, codes, ltb,
  leb, ◌==◌, if◌then◌else◌, ◌||◌, length, or_else, take, drop, not, size_max,
}
use itb_cpp.Base.Int.{ℤ, pos, is_nat}
use itb_cpp.Binding.World.{
  Library, Opened, Drained, Call, stream_begun, stream_wrote, stream_ended, stream_drained,
  stream_freed, World, M, Outcome, ret, raise, spin, Exn, itb_error, invalid_argument, pure, throw,
  ◌>>=◌, ◌>>◌, ffi, ffi_logged, finally,
}
use itb_cpp.Binding.Memory.{overwrite}
use itb_cpp.Binding.Errors.{check, fail, out_cap}
use itb_cpp.Binding.Buffers.{scratch}
use itb_cpp.Binding.Pipeline.{Pipeline}

-- `Stream`; `EncryptStream` and `DecryptStream` add nothing to it. The handle 0 stands for none.
pub record Stream : Type 0 where
  pub handle : ℕ

abbrev pub no_stream : Stream
no_stream = record { handle = 0 }

-- `StreamRead`, with the new contents of the buffer that was read into.
pub record StreamRead : Type 0 where
  pub n : ℕ
  pub finished : Bool
  pub dst : Bytes

-- The slice size of the pump loops.
abbrev pub pump_buf : ℕ
pump_buf = 2 ^ 20

-- The cursor of a pump: the bytes used so far, and the caller's buffer.
pub record Pump : Type 0 where
  pub used : ℕ
  pub buf : Bytes

abbrev pub too_small_text : Bytes
too_small_text =
    codes "itb: stream pump dst too small for the produced output; size it via itb::out_bound"

-- What a read answered, as it is entered in the list of calls.
abbrev pub read_entry : Bytes → Drained → Call
read_entry dst r =
    stream_drained r.rc (take (or_else r.len 0) (overwrite r.out dst))
      (not (is_nat (or_else r.fin (pos 0)) 0))

module _ {L : Type 0} (lib : Library L) where
  -- The session object takes the handle over; a ghost entry says so.
  abbrev pub begun : ℕ → M L Stream
  begun h w = ret (record { handle = h }) (record w { calls = stream_begun h ∷ w.calls })

  unfoldable pub encrypt_stream_begin : Pipeline → M L Stream
  encrypt_stream_begin p = do
    r ← ffi (lib.encrypt_stream_begin p.handle)
    check lib r.rc (codes "Pipeline::encrypt_stream_begin")
    begun (or_else r.handle 0)

  unfoldable pub decrypt_stream_begin : Pipeline → M L Stream
  decrypt_stream_begin p = do
    r ← ffi (lib.decrypt_stream_begin p.handle)
    check lib r.rc (codes "Pipeline::decrypt_stream_begin")
    begun (or_else r.handle 0)

  unfoldable pub write : Stream → Bytes → M L (Unit {0})
  write s src = do
    rc ← ffi_logged (λ rc. stream_wrote rc src) (lib.stream_write s.handle src)
    check lib rc (codes "Stream::write")

  unfoldable pub end : Stream → M L (Unit {0})
  end s = do
    rc ← ffi_logged (λ rc. stream_ended rc) (lib.stream_end s.handle)
    check lib rc (codes "Stream::end")

  unfoldable pub read : Stream → Bytes → M L StreamRead
  read s dst = do
    r ← ffi_logged (read_entry dst) (lib.stream_read s.handle (length dst))
    check lib r.rc (codes "Stream::read")
    pure (record {
      n = or_else r.len 0;
      finished = not (is_nat (or_else r.fin (pos 0)) 0);
      dst = overwrite r.out dst;
    })

  unfoldable pub close : Stream → M L Stream
  close s =
      if s.handle == 0
      then pure no_stream
      else do _ ← ffi_logged (λ _. stream_freed s.handle) (lib.stream_free s.handle); pure no_stream

  -- `~Stream`.
  unfoldable pub destroy : Stream → M L (Unit {0})
  destroy s = do _ ← close s; pure tt

  unfoldable pub move_assign : Bool → Stream → Stream → M L (Stream × Stream)
  move_assign same this other =
      if same
      then pure (this, other)
      else do _ ← close this; pure (record { handle = other.handle }, no_stream)

  -- What one drain brings: the count and flag of the read, and the cursor behind it.
  pub advance : Pump → StreamRead → M L (StreamRead × Pump)
  advance p r =
      if ltb (length p.buf - p.used) r.n
      then fail lib (pos 99) (codes "stream pump read")
      else pure (r, record { used = p.used + r.n; buf = take p.used p.buf ++ r.dst })

  unfoldable pub drain_one : Stream → Pump → M L (StreamRead × Pump)
  drain_one s p =
      if p.used == length p.buf
      then throw (invalid_argument too_small_text)
      else (read s (drop p.used p.buf) >>= advance p)

  -- `while (drain_one().n != 0) {}`, in at most so many rounds.
  pub drain_some : ℕ → Stream → Pump → M L Pump
  drain_some zero s p = λ w. spin w
  drain_some (suc rounds) s p = do
    (r, p') ← drain_one s p
    if r.n == 0 then pure p' else drain_some rounds s p'

  -- `while (offset < src.size()) { … }`. A drain loop takes a round for each byte of the free tail
  -- at most, and one more.
  pub feed : ℕ → Stream → Bytes → ℕ → Pump → M L Pump
  feed zero s src offset p = if ltb offset (length src) then (λ w. spin w) else pure p
  feed (suc rounds) s src offset p =
      let slice = min (length src - offset) pump_buf in
      let more =
        (write s (take slice (drop offset src))
          >> (drain_some (suc (length p.buf)) s p >>= λ p'.
              feed rounds s src (offset + slice) p')) in
      if ltb offset (length src) then more else pure p

  -- `while (!drain_one().finished) {}`, in at most so many rounds.
  pub finish : ℕ → Stream → Pump → M L Pump
  finish zero s p = λ w. spin w
  finish (suc rounds) s p = do
    (r, p') ← drain_one s p
    if r.finished then pure p' else finish rounds s p'

  -- The bytes used, and the caller's buffer. A slice moves a byte at least.
  unfoldable pub pump_into : Stream → Bytes → Bytes → M L Pump
  pump_into s src dst = do
    p ← feed (length src) s src 0 (record { used = 0; buf = dst })
    end s
    finish (suc (length dst)) s p

  -- A pump inside the scope of its session.
  unfoldable pub pump_scope : M L Stream → Bytes → Bytes → M L Pump
  pump_scope begin src dst = do s ← begin; finally (pump_into s src dst) (destroy s)

  -- The body of the loop of `pump_alloc`, at one capacity.
  unfoldable pub pump_once : M L Stream → Bytes → ℕ → M L Bytes
  pump_once begin src cap = do
    buf ← scratch lib cap
    p ← pump_scope begin src buf
    pure (take p.used p.buf)

  -- The `catch` clause takes `std::invalid_argument` alone.
  abbrev pub catch_small : M L Bytes → (Exn → M L Bytes) → M L Bytes
  catch_small m handler w = elim (m w) [
    | ret a w' ↦ ret a w'
    | raise (invalid_argument t) w' ↦ handler (invalid_argument t) w'
    | raise (itb_error s t) w' ↦ raise (itb_error s t) w'
    | spin w' ↦ spin w'
  ]

  -- `left` is 2 minus the loop's `attempt`.
  pub pump_attempts : ℕ → M L Stream → Bytes → ℕ → M L Bytes
  pump_attempts zero begin src cap = pump_once begin src cap
  pump_attempts (suc left) begin src cap =
      catch_small (pump_once begin src cap)
        λ e. if ltb (size_max / 2) cap then throw e else pump_attempts left begin src (cap * 2)

  unfoldable pub pump_alloc : M L Stream → Bytes → M L Bytes
  pump_alloc begin src = pump_attempts 2 begin src (out_cap (length src))

  unfoldable pub encrypt_stream_pump : Pipeline → Bytes → M L Bytes
  encrypt_stream_pump p plain = pump_alloc (encrypt_stream_begin p) plain

  unfoldable pub decrypt_stream_pump : Pipeline → Bytes → M L Bytes
  decrypt_stream_pump p wire = pump_alloc (decrypt_stream_begin p) wire

  unfoldable pub encrypt_stream_pump_into : Pipeline → Bytes → Bytes → M L Pump
  encrypt_stream_pump_into p plain dst = pump_scope (encrypt_stream_begin p) plain dst

  unfoldable pub decrypt_stream_pump_into : Pipeline → Bytes → Bytes → M L Pump
  decrypt_stream_pump_into p wire dst = pump_scope (decrypt_stream_begin p) wire dst
