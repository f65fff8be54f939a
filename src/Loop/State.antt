-- ===== src/Loop/State.antt =====
-- The configuration, the worker and the shared run state of loop/loop.hpp. A thread, a lock, a
-- barrier and a condition variable have no field: one worker's code runs from call to call.
use itb_cpp.Base.{Bool, true, false, ℕ, List, ◌∷◌, Option, Bytes}
use itb_cpp.Base.Int.{ℤ}
use itb_cpp.Binding.Pipeline.{Pipeline}
use itb_cpp.Loop.Names.{Shape, PayloadMode}

pub record Config : Type 0 where
  pub duration_ns : ℕ
  pub iterations : ℕ
  pub workers_requested : ℤ
  pub workers : ℕ
  pub shape : Shape
  pub hash : Bytes
  pub mac : Bytes
  pub payload : ℕ
  pub memlimit : ℕ
  pub memlimit_auto : Bool
  pub gogc : ℤ
  pub parallax : Bool
  pub wrapper : Bool
  pub profile : Bytes
  pub key_bits : ℤ
  pub nonce_bits : ℤ
  pub blob_mode : ℤ
  pub chunk_size : ℕ
  pub barrier_fill : ℤ
  pub drbg : Bytes
  pub interlock : Bytes
  pub gomaxprocs : ℤ
  pub rekey_every : ℕ
  pub blob_cycle_every : ℕ
  pub payload_mode : PayloadMode
  pub seed : ℕ
  pub json_output : Bool
  pub memprofile : Bytes

pub record Worker : Type 0 where
  pub id : ℕ
  pub plaintext : Bytes
  pub payload_mode : PayloadMode
  pub seeded : Bool
  pub rng : ℕ
  pub wire : Bytes
  pub plain : Bytes
  pub scratch : Bytes
  pub iters : ℕ
  pub bytes_enc : ℕ
  pub bytes_dec : ℕ
  pub nanos_enc : ℕ
  pub nanos_dec : ℕ
  pub failed : Bool
  pub error : Bytes

-- `log` holds the lines that were written, latest first.
pub record RunState : Type 0 where
  pub cfg : Config
  pub stream_pipe : Option Pipeline
  pub msg_pipe : Option Pipeline
  pub stream_profile : Bytes
  pub msg_profile : Bytes
  pub stream_blob : Bytes
  pub msg_blob : Bytes
  pub rekeys : ℕ
  pub blob_cycles : ℕ
  pub stop : Bool
  pub active : ℕ
  pub finish_ns : ℕ
  pub log : List Bytes

-- What one worker's code reads and writes.
pub record Site : Type 0 where
  pub worker : Worker
  pub run : RunState

-- `worker_fail`: the first error wins, and the whole run is asked to stop.
unfoldable pub worker_fail : Site → Bytes → Site
worker_fail s text = record {
  worker = elim s.worker.failed [
    | true ↦ s.worker
    | false ↦ record s.worker { error = text; failed = true }
  ];
  run = record s.run { stop = true };
}

unfoldable pub log_line : Site → Bytes → Site
log_line s line = record s { run = record s.run { log = line ∷ s.run.log } }
