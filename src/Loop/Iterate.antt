-- ===== src/Loop/Iterate.antt =====
-- `iterate` of loop/worker.cpp.
pub mod Steps
pub mod Returns
use itb_cpp.Base.{
  Bool, true, false, ℕ, ◌+◌, ◌⊎◌, inl, inr, [], ◌++◌, Option, Bytes, codes, length, ◌==◌, ◌=s=◌,
  ◌||◌, not, or_else, if◌then◌else◌,
}
use itb_cpp.Base.Decimal.{decimal}
use itb_cpp.Binding.World.{M, pure, ◌>>=◌}
use itb_cpp.Binding.Pipeline.{
  Pipeline, no_pipeline, encrypt_message, decrypt_message, encrypt_stream_one_shot,
  decrypt_stream_one_shot,
}
use itb_cpp.Loop.Names.{Shape, stream, stream_one_shot, shape_name, rotating, PayloadMode}
use itb_cpp.Loop.Report.{first_difference, hex_window}
use itb_cpp.Loop.Host.{Host}
use itb_cpp.Loop.Payload.{fill_payload}
use itb_cpp.Loop.State.{Worker, Site, worker_fail, log_line}
use itb_cpp.Loop.Worker.{Drain, Failure, caught, pump, cipher_fail, timed, surface, letters_iter}

-- How an iteration ends: `true`, `false`, or `std::_Exit(3)`.
pub data Verdict : Type 0 where
  went gave_up mismatch : Verdict

abbrev pub whole : Bytes → Bytes → Drain
whole scratch out = record { out = out; scratch = scratch }

-- A dereferenced `std::optional`; the shape decides which of the two is set.
abbrev deref : Option Pipeline → Pipeline
deref pipe = or_else pipe no_pipeline

abbrev pub is_rotating : PayloadMode → Bool
is_rotating rotating = true
is_rotating _ = false

abbrev is_stream : Shape → Bool
is_stream stream = true
is_stream _ = false

-- The worker behind an encrypt and behind a decrypt; the session path keeps its accumulators.
abbrev pub encrypted : Shape → Worker → Drain → ℕ → Worker
encrypted shape w d nanos =
    if is_stream shape
    then record w { wire = d.out; scratch = d.scratch; nanos_enc = w.nanos_enc + nanos }
    else record w { nanos_enc = w.nanos_enc + nanos }

abbrev pub decrypted : Shape → Worker → Drain → ℕ → Worker
decrypted shape w d nanos =
    if is_stream shape
    then record w { plain = d.out; scratch = d.scratch; nanos_dec = w.nanos_dec + nanos }
    else record w { nanos_dec = w.nanos_dec + nanos }

abbrev pub with_worker : Site → Worker → Site
with_worker st w = record st { worker = w }

-- The line of a data mismatch.
unfoldable pub mismatch_line : Worker → ℕ → Shape → Bytes → Bytes
mismatch_line w iter shape got =
    let off = first_difference w.plaintext got in
    codes "DATA MISMATCH "
    ++ letters_iter w iter
    ++ codes " shape="
    ++ shape_name shape
    ++ codes ": want "
    ++ decimal (length w.plaintext)
    ++ codes " bytes, got "
    ++ decimal (length got)
    ++ codes " bytes, first difference at offset "
    ++ decimal off
    ++ codes ": want "
    ++ hex_window w.plaintext off
    ++ codes " got "
    ++ hex_window got off

abbrev pub counted : Worker → Bytes → Worker
counted w got = record w {
  iters = w.iters + 1;
  bytes_enc = w.bytes_enc + length w.plaintext;
  bytes_dec = w.bytes_dec + length got;
}

unfoldable pub differ : Bytes → Bytes → Bool
differ plaintext got = not (length got == length plaintext) || not (plaintext =s= got)

-- The comparison of the round trip, and the counters.
unfoldable pub settled : Site → ℕ → Shape → Bytes → Verdict × Site
settled st iter shape got =
    if differ st.worker.plaintext got
    then (mismatch, log_line st (mismatch_line st.worker iter shape got))
    else (went, with_worker st (counted st.worker got))

module _ {L : Type 0} (host : Host L) (fuel : ℕ) where
  -- `both` does not reach the two steps: `surface` has resolved it.
  pub encrypt_step : Shape → Site → M L (Failure ⊎ Drain)
  encrypt_step stream st =
      pump host fuel (deref st.run.stream_pipe) true st.worker.plaintext st.worker.scratch
  encrypt_step stream_one_shot st = caught [] (
      encrypt_stream_one_shot host.lib (deref st.run.stream_pipe) st.worker.plaintext >>= λ out.
      pure (whole [] out))
  encrypt_step _ st = caught [] (
      encrypt_message host.lib (deref st.run.msg_pipe) st.worker.plaintext >>= λ out.
      pure (whole [] out))

  pub decrypt_step : Shape → Site → Bytes → M L (Failure ⊎ Drain)
  decrypt_step stream st wire =
      pump host fuel (deref st.run.stream_pipe) false wire st.worker.scratch
  decrypt_step stream_one_shot st wire = caught [] (
      decrypt_stream_one_shot host.lib (deref st.run.stream_pipe) wire >>= λ out.
      pure (whole [] out))
  decrypt_step _ st wire =
      caught []
        (decrypt_message host.lib (deref st.run.msg_pipe) wire >>= λ out. pure (whole [] out))

  abbrev give_up : ℕ → Shape → Bytes → Site → Failure → M L (Verdict × Site)
  give_up iter shape direction st failure =
      cipher_fail host st iter shape direction failure >>= λ st'. pure (gave_up, st')

  pub decrypt_part : ℕ → Shape → Site → Drain → M L (Verdict × Site)
  decrypt_part iter shape st sent = timed host (decrypt_step shape st sent.out) >>= λ r. elim r [
    | inl failure ↦ give_up iter shape (codes "decrypt") st failure
    | inr (d, nanos) ↦
        pure (settled (with_worker st (decrypted shape st.worker d nanos)) iter shape d.out)
  ]

  pub round_trip : ℕ → Shape → Site → M L (Verdict × Site)
  round_trip iter shape st = timed host (encrypt_step shape st) >>= λ r. elim r [
    | inl failure ↦ give_up iter shape (codes "encrypt") st failure
    | inr (d, nanos) ↦
        decrypt_part iter shape (with_worker st (encrypted shape st.worker d nanos)) d
  ]

  abbrev refilled : Site → ℕ → Bytes → Site
  refilled st rng buf = with_worker st (record st.worker { rng = rng; plaintext = buf })

  -- The refill of the rotating mode.
  pub refill : ℕ → Site → M L (Bool × Site)
  refill iter st =
      if is_rotating st.worker.payload_mode
      then (fill_payload host rotating st.worker.seeded st.worker.rng st.worker.plaintext >>= λ r.
          pure (
            if r.0 then (true, refilled st r.1 r.2) else (
              false,
              worker_fail (refilled st r.1 r.2)
                  (letters_iter st.worker iter ++ codes ": payload refill: csprng"),
            )))
      else pure (true, st)

  unfoldable pub iterate : ℕ → Site → M L (Verdict × Site)
  iterate iter st = refill iter st >>= λ r.
      if r.0 then round_trip iter (surface r.1.run.cfg.shape iter) r.1 else pure (gave_up, r.1)
