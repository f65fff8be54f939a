-- ===== src/Loop/Summary/Final.antt =====
-- `final_summary` of loop/summary.cpp: what it measures, and the rendering as a JSON object.
pub mod Doubles
pub mod Arrays
pub mod Object
pub mod Printed
pub mod Lines
use itb_cpp.Base.{
  Bool, true, false, ℕ, zero, suc, ◌+◌, ◌-◌, ◌*◌, ◌/◌, ◌^◌, List, [], ◌∷◌, ◌++◌, map, Option, some,
  none, Bytes, codes, length, get_or, ltb, ◌==◌, if◌then◌else◌,
}
use itb_cpp.Base.Int.{ℤ, pos, negsuc, neg, ◌+ℤ◌, ◌-ℤ◌, is_nat}
use itb_cpp.Base.Decimal.{decimal, decimal_int}
use itb_cpp.Binding.World.{M, ret, pure, ◌>>=◌}
use itb_cpp.Binding.Runtime.{set_gomaxprocs, drbg_auto_tier}
use itb_cpp.Loop.Host.{Host}
use itb_cpp.Loop.Names.{shape_name, payload_mode_name}
use itb_cpp.Loop.Real.{Real}
use itb_cpp.Loop.Size.{human_duration}
use itb_cpp.Loop.Size.Rates.{literal, human_bytes, human_bytes_signed, mb_per_sec, human_rate}
use itb_cpp.Loop.State.{Worker, RunState}
use itb_cpp.Loop.Worker.{caught}
use itb_cpp.Loop.Launch.{on_off, policy_label}
use itb_cpp.Loop.Summary.Json.{json_string}
use itb_cpp.Loop.Summary.Pools.{PoolDelta, effective_gogc}
use itb_cpp.Loop.Summary.Document.Rows.{in_quotes, object_text}
use itb_cpp.Loop.Summary.Verdict.{
  totals, average, pass, verdict, verdict_line, error_lines, counts_from, iterations_line,
  worker_errors,
}

abbrev pub concurrency : Bytes
concurrency = codes "shared-handle"

-- The run as the workers and the main thread leave it; `tiers` and `starters` are the two policy
-- variables of the environment.
pub record Ended : Type 0 where
  pub run : RunState
  pub workers : List Worker
  pub elapsed_ns : ℕ
  pub rss_warmup : ℕ
  pub rss_peak : ℕ
  pub rss_final : ℕ
  pub pools : PoolDelta
  pub microbatch_tiers : Option Bytes
  pub hashpool_starters : Option Bytes

-- What the library answers for the summary.
pub record Answers : Type 0 where
  pub gomaxprocs : ℤ
  pub auto_tier : Bytes
  pub gogc : ℤ

-- The conversion of an `std::uint64_t` to an `std::int64_t`.
unfoldable pub as_int64 : ℕ → ℤ
as_int64 n = if ltb n (2 ^ 63) then pos n else negsuc (2 ^ 64 - 1 - n)

abbrev pub rss_delta : Ended → ℤ
rss_delta e = as_int64 e.rss_final -ℤ as_int64 e.rss_warmup

-- A profile is named if its pipeline was built.
unfoldable pub named_if {ℓ} : {A : Type ℓ} → Option A → Bytes → Bytes
named_if none name = []
named_if (some a) name = name

-- A tier with its figures.
pub record Tier : Type 0 where
  pub tier : ℕ
  pub starter : ℤ
  pub get : ℤ
  pub fresh : ℤ
  pub regrow : ℤ
  pub new_bytes : ℤ

-- The rounds of the loops over the tiers from tier `i` on: a tier without a starter is passed over.
unfoldable pub tiers_from : PoolDelta → ℕ → ℕ → List Tier
tiers_from d zero i = []
tiers_from d (suc rounds) i =
    let rest = tiers_from d rounds (suc i) in
    if is_nat (get_or d.starter i (pos 0)) 0
    then rest
    else record {
      tier = i;
      starter = get_or d.starter i (pos 0);
      get = get_or d.get i (pos 0);
      fresh = get_or d.fresh i (pos 0);
      regrow = get_or d.regrow i (pos 0);
      new_bytes = get_or d.new_bytes i (pos 0);
    }
      ∷ rest

unfoldable pub used_tiers : PoolDelta → List Tier
unfolding tiers_from
used_tiers d = tiers_from d d.tiers 0

-- The iteration counts as an array.
unfoldable pub iterations_text : List Worker → Bytes
iterations_text ws = b'[' ∷ (counts_from (codes ",") false ws ++ codes "]")

module _ {F : Type 0} (real : Real F) where
  unfoldable pub miss_percent : ℤ → ℤ → F
  miss_percent miss (pos (suc get)) =
      real.div (real.mul (literal real 100) (real.of_int miss)) (real.of_int (pos (suc get)))
  miss_percent miss get = literal real 0

  unfoldable pub rss_growth : ℤ → ℕ → F
  rss_growth delta zero = literal real 0
  rss_growth delta (suc warmup) =
      real.div (real.mul (literal real 100) (real.of_int delta)) (literal real (suc warmup))

  abbrev pub seconds : ℕ → Bytes
  seconds ns = real.printed 3 (real.div (literal real ns) (literal real 1000000000))

  abbrev pub rate : ℕ → ℕ → Bytes
  rate bytes ns = real.printed 1 (mb_per_sec real bytes ns)

  abbrev pub percent : ℤ → ℤ → Bytes
  percent miss get = real.printed 2 (miss_percent miss get)

  abbrev pub tier_rows : Tier → List (Bytes × Bytes)
  tier_rows t =
      (codes "tier", decimal t.tier)
      ∷ (codes "starter", decimal_int t.starter)
      ∷ (codes "get", decimal_int t.get)
      ∷ (codes "new", decimal_int t.fresh)
      ∷ (codes "regrow", decimal_int t.regrow)
      ∷ (codes "new_bytes", decimal_int t.new_bytes)
      ∷ (codes "miss_percent", percent (t.fresh +ℤ t.regrow) t.get)
      ∷ []

  -- The flag is `n > 0`.
  unfoldable pub tiers_text : Bool → List Tier → Bytes
  tiers_text later [] = []
  tiers_text later (t ∷ ts) =
      (if later then codes "," else []) ++ (object_text (tier_rows t) ++ tiers_text true ts)

  abbrev pub pool_rows : ℤ → ℤ → ℤ → ℤ → List (Bytes × Bytes)
  pool_rows get fresh regrow regrow_bytes =
      (codes "get", decimal_int get)
      ∷ (codes "new", decimal_int fresh)
      ∷ (codes "regrow", decimal_int regrow)
      ∷ (codes "regrow_bytes", decimal_int regrow_bytes)
      ∷ (codes "miss_percent", percent regrow get)
      ∷ []

  module _ (e : Ended) where
    abbrev pub avg_enc : ℕ
    avg_enc = average (totals e.workers).nanos_enc e.run.cfg.workers

    abbrev pub avg_dec : ℕ
    avg_dec = average (totals e.workers).nanos_dec e.run.cfg.workers

    -- The keys of the object with their texts, in the order of the source.
    abbrev pub measured_rows : List (Bytes × Bytes)
    measured_rows =
        (codes "duration_seconds", seconds e.elapsed_ns)
        ∷ (codes "iterations", decimal (totals e.workers).total_iters)
        ∷ (codes "per_worker_iterations", iterations_text e.workers)
        ∷ (codes "bytes_encrypted", decimal (totals e.workers).total_enc)
        ∷ (codes "bytes_decrypted", decimal (totals e.workers).total_dec)
        ∷ (codes "encrypt_mb_per_sec", rate (totals e.workers).total_enc avg_enc)
        ∷ (codes "decrypt_mb_per_sec", rate (totals e.workers).total_dec avg_dec)
        ∷ (
          codes "combined_mb_per_sec",
          rate ((totals e.workers).total_enc + (totals e.workers).total_dec) e.elapsed_ns,
        )
        ∷ (codes "rekeys", decimal e.run.rekeys)
        ∷ (codes "blob_cycles", decimal e.run.blob_cycles)
        ∷ (codes "worker_errors", worker_errors e.workers)
        ∷ (codes "verdict", in_quotes (if pass e.workers then codes "PASS" else codes "FAIL"))
        ∷ []

    abbrev pub setup_rows : Bytes → List (Bytes × Bytes)
    setup_rows auto_tier =
        (codes "shape", in_quotes (shape_name e.run.cfg.shape))
        ∷ (codes "stream_profile", json_string (named_if e.run.stream_pipe e.run.stream_profile))
        ∷ (codes "message_profile", json_string (named_if e.run.msg_pipe e.run.msg_profile))
        ∷ (codes "hash", json_string e.run.cfg.hash)
        ∷ (codes "mac", json_string e.run.cfg.mac)
        ∷ (codes "payload_bytes", decimal e.run.cfg.payload)
        ∷ (codes "payload_mode", in_quotes (payload_mode_name e.run.cfg.payload_mode))
        ∷ (codes "seed", decimal e.run.cfg.seed)
        ∷ (codes "key_bits", decimal_int e.run.cfg.key_bits)
        ∷ (codes "nonce_bits", decimal_int e.run.cfg.nonce_bits)
        ∷ (codes "blob_mode", decimal_int e.run.cfg.blob_mode)
        ∷ (codes "drbg", json_string e.run.cfg.drbg)
        ∷ (codes "drbg_auto_tier", json_string auto_tier)
        ∷ (codes "interlock", json_string e.run.cfg.interlock)
        ∷ (codes "chunk_size_bytes", decimal e.run.cfg.chunk_size)
        ∷ (codes "barrier_fill", decimal_int e.run.cfg.barrier_fill)
        ∷ (codes "parallax", in_quotes (on_off e.run.cfg.parallax))
        ∷ (codes "wrapper", in_quotes (on_off e.run.cfg.wrapper))
        ∷ []

    abbrev pub runtime_rows : Answers → List (Bytes × Bytes)
    runtime_rows a =
        (codes "goroutines_requested", decimal_int e.run.cfg.workers_requested)
        ∷ (codes "goroutines", decimal e.run.cfg.workers)
        ∷ (codes "concurrency", in_quotes concurrency)
        ∷ (codes "gogc", in_quotes (decimal_int a.gogc))
        ∷ (codes "memlimit_bytes", decimal e.run.cfg.memlimit)
        ∷ (codes "gomaxprocs", decimal_int a.gomaxprocs)
        ∷ (codes "microbatch_tiers", json_string (policy_label e.microbatch_tiers))
        ∷ (codes "hashpool_starters", json_string (policy_label e.hashpool_starters))
        ∷ (codes "rss_warmup_bytes", decimal e.rss_warmup)
        ∷ (codes "rss_peak_bytes", decimal e.rss_peak)
        ∷ (codes "rss_final_bytes", decimal e.rss_final)
        ∷ (codes "rss_growth_percent", real.printed 2 (rss_growth (rss_delta e) e.rss_warmup))
        ∷ []

    abbrev pub pool_group : List (Bytes × Bytes)
    pool_group =
        (codes "hash_pool_tiers", b'[' ∷ (tiers_text false (used_tiers e.pools) ++ codes "]"))
        ∷ (
          codes "buf_pool",
          object_text (
              pool_rows e.pools.buf_get e.pools.buf_new e.pools.buf_regrow
                e.pools.buf_regrow_bytes),
        )
        ∷ (
          codes "parallax_chunk_pool",
          object_text (
              pool_rows e.pools.chunk_get e.pools.chunk_new e.pools.chunk_regrow
                e.pools.chunk_regrow_bytes),
        )
        ∷ []

    -- The object and the newline.
    unfoldable pub final_json : Answers → Bytes
    final_json a =
        object_text (measured_rows ++ (setup_rows a.auto_tier ++ (runtime_rows a ++ pool_group)))
        ++ codes "\n"
