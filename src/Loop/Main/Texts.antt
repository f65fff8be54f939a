-- ===== src/Loop/Main/Texts.antt =====
-- The lines that `run` of loop/main.cpp prints at the start and behind the warmup.
use itb_cpp.Base.{[], ℕ, ◌+◌, ◌*◌, ◌/◌, ◌++◌, Option, Bytes, codes, length, ◌==◌, if◌then◌else◌}
use itb_cpp.Base.Int.{pos, is_nat}
use itb_cpp.Base.Decimal.{decimal, decimal_int}
use itb_cpp.Loop.Names.{shape_name, payload_mode_name}
use itb_cpp.Loop.Real.{Real}
use itb_cpp.Loop.Size.{human_duration}
use itb_cpp.Loop.Size.Rates.{human_bytes}
use itb_cpp.Loop.State.{Config}
use itb_cpp.Loop.Launch.{on_off, truth, policy_label}
use itb_cpp.Loop.Summary.Final.{as_int64, concurrency}

abbrev labelled : Bytes → Bytes → Bytes
labelled name value = codes " " ++ name ++ codes "=" ++ value

module _ {F : Type 0} (real : Real F) where
  unfoldable pub start_line : Config → Bytes
  start_line cfg =
      codes "start: duration="
      ++ human_duration cfg.duration_ns
      ++ labelled (codes "iterations") (decimal cfg.iterations)
      ++ labelled (codes "goroutines") (decimal_int cfg.workers_requested)
      ++ labelled (codes "workers") (decimal cfg.workers)
      ++ labelled (codes "concurrency") concurrency
      ++ labelled (codes "shape") (shape_name cfg.shape)
      ++ labelled (codes "hash") cfg.hash
      ++ labelled (codes "mac") cfg.mac
      ++ labelled (codes "payload") (human_bytes real (pos cfg.payload))
      ++ labelled (codes "memlimit") (human_bytes real (pos cfg.memlimit))
      ++ labelled (codes "parallax") (on_off cfg.parallax)
      ++ labelled (codes "wrapper") (on_off cfg.wrapper)

  unfoldable pub overrides_line : Config → Bytes
  overrides_line cfg =
      codes "overrides: profile=\""
      ++ cfg.profile
      ++ codes "\""
      ++ labelled (codes "key-bits") (decimal_int cfg.key_bits)
      ++ labelled (codes "nonce-bits") (decimal_int cfg.nonce_bits)
      ++ labelled (codes "chunk-size") (human_bytes real (pos cfg.chunk_size))
      ++ labelled (codes "barrier-fill") (decimal_int cfg.barrier_fill)
      ++ labelled (codes "gomaxprocs") (decimal_int cfg.gomaxprocs)
      ++ labelled (codes "rekey-every") (decimal cfg.rekey_every)
      ++ labelled (codes "blob-cycle-every") (decimal cfg.blob_cycle_every)
      ++ labelled (codes "payload-mode") (payload_mode_name cfg.payload_mode)
      ++ labelled (codes "seed") (decimal cfg.seed)
      ++ labelled (codes "json-output") (truth cfg.json_output)
      ++ (if is_nat cfg.blob_mode 1
          then []
          else labelled (codes "blob-mode") (decimal_int cfg.blob_mode))
      ++ (if length cfg.drbg == 0 then [] else labelled (codes "drbg") cfg.drbg)
      ++ (if length cfg.interlock == 0 then [] else labelled (codes "interlock") cfg.interlock)

  -- Rounded to a tenth of a second.
  unfoldable pub warmup_line : Config → ℕ → ℕ → Bytes
  warmup_line cfg warmup_ns rss =
      codes "warmup: "
      ++ decimal cfg.workers
      ++ codes " workers x 1 iter completed in "
      ++ human_duration ((warmup_ns + 50000000) / 100000000 * 100000000)
      ++ codes " (baseline rss="
      ++ human_bytes real (as_int64 rss)
      ++ codes ")"

-- The two policy variables of the environment.
unfoldable pub policy_line : Option Bytes → Option Bytes → Bytes
policy_line tiers starters =
    codes "policy:"
    ++ labelled (codes "microbatch-tiers") (policy_label tiers)
    ++ labelled (codes "hashpool-starters") (policy_label starters)
