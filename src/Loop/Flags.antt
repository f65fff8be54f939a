-- ===== src/Loop/Flags.antt =====
-- The flags of loop/main.cpp: their raw values, the table, and the usage text.
pub mod Argv
pub mod Resolve
pub mod Valid
use itb_cpp.Base.{
  Bool, true, false, ℕ, List, [], ◌∷◌, ◌++◌, Option, some, none, Bytes, codes, length, ◌==◌, ◌=s=◌,
  if◌then◌else◌,
}
use itb_cpp.Base.Int.{ℤ, pos, is_nat}
use itb_cpp.Base.Decimal.{decimal_int}
use itb_cpp.Loop.Numbers.{parse_int, parse_int64, parse_uint64}
use itb_cpp.Loop.Profiles.{quoted}

pub record RawFlags : Type 0 where
  pub barrier_fill : ℤ
  pub blob_cycle_every : ℤ
  pub blob_mode : ℤ
  pub chunk_size : Bytes
  pub drbg : Bytes
  pub duration : Bytes
  pub gogc : ℤ
  pub gomaxprocs : ℤ
  pub goroutines : ℤ
  pub hash : Bytes
  pub interlock : Bytes
  pub iterations : ℤ
  pub json_output : Bool
  pub key_bits : ℤ
  pub mac : Bytes
  pub memlimit : Bytes
  pub memprofile : Bytes
  pub nonce_bits : ℤ
  pub parallax : Bytes
  pub payload_mode : Bytes
  pub payload_size : Bytes
  pub profile : Bytes
  pub rekey_every : ℤ
  pub seed : ℕ
  pub shape : Bytes
  pub wrapper : Bytes

abbrev pub defaults : RawFlags
defaults = record {
  barrier_fill = pos 0;
  blob_cycle_every = pos 0;
  blob_mode = pos 1;
  chunk_size = codes "0";
  drbg = [];
  duration = codes "5m";
  gogc = pos 0;
  gomaxprocs = pos 0;
  goroutines = pos 3;
  hash = codes "areion512";
  interlock = [];
  iterations = pos 0;
  json_output = false;
  key_bits = pos 0;
  mac = codes "hmac-blake3";
  memlimit = codes "auto";
  memprofile = [];
  nonce_bits = pos 0;
  parallax = codes "on";
  payload_mode = codes "fixed";
  payload_size = codes "16MB";
  profile = [];
  rekey_every = pos 0;
  seed = 0;
  shape = codes "stream";
  wrapper = codes "on";
}

-- `assign` gives the raw values with the flag's value in its slot.
pub record Flag : Type 0 where
  pub name : Bytes
  pub type_label : Bytes
  pub help : Bytes
  pub boolean : Bool
  pub default_suffix : Bytes
  pub assign : Bytes → RawFlags → Option RawFlags

-- A parsed value is put into the slot.
abbrev stored :
    {A : Type 0}
    → (Bytes → Option A)
    → (A → RawFlags → RawFlags)
    → Bytes
    → RawFlags
    → Option RawFlags
stored parse put v f = elim (parse v) [ none ↦ none | some a ↦ some (put a f) ]

abbrev parse_bool : Bytes → Option Bool
parse_bool v =
    if v =s= codes "true" then some true else (if v =s= codes "false" then some false else none)

abbrev suffix_of : Bytes → Bytes
suffix_of shown = codes " (default " ++ shown ++ codes ")"

add_int : Bytes → ℤ → (ℤ → RawFlags → RawFlags) → Bytes → Flag
add_int name slot put help = record {
  name = name;
  type_label = codes "int";
  help = help;
  boolean = false;
  default_suffix = if is_nat slot 0 then [] else suffix_of (decimal_int slot);
  assign = stored parse_int put;
}

add_int64 : Bytes → (ℤ → RawFlags → RawFlags) → Bytes → Flag
add_int64 name put help = record {
  name = name;
  type_label = codes "int";
  help = help;
  boolean = false;
  default_suffix = [];
  assign = stored parse_int64 put;
}

add_uint64 : Bytes → (ℕ → RawFlags → RawFlags) → Bytes → Flag
add_uint64 name put help = record {
  name = name;
  type_label = codes "uint";
  help = help;
  boolean = false;
  default_suffix = [];
  assign = stored parse_uint64 put;
}

add_string : Bytes → Bytes → Bytes → (Bytes → RawFlags → RawFlags) → Bytes → Flag
add_string name label slot put help = record {
  name = name;
  type_label = label;
  help = help;
  boolean = false;
  default_suffix = if length slot == 0 then [] else suffix_of (quoted slot);
  assign = stored some put;
}

add_bool : Bytes → (Bool → RawFlags → RawFlags) → Bytes → Flag
add_bool name put help = record {
  name = name;
  type_label = [];
  help = help;
  boolean = true;
  default_suffix = [];
  assign = stored parse_bool put;
}

-- The table, rendered over slots that hold their defaults.
unfoldable pub flag_table : List Flag
unfolding add_int add_int64 add_uint64 add_string add_bool
flag_table =
    add_int (codes "barrier-fill") defaults.barrier_fill (λ v f. record f { barrier_fill = v })
      (codes "DRBG barrier fill margin: 1 | 2 | 4 | 8 | 16 | 32; 0 = profile default (1)")
    ∷ add_int64 (codes "blob-cycle-every") (λ v f. record f { blob_cycle_every = v })
        (codes
          "reopen each pipeline from its session blob every N iterations per worker; 0 = never")
    ∷ add_int (codes "blob-mode") defaults.blob_mode (λ v f. record f { blob_mode = v })
        (codes "container floor sizing mode: 1 (per-region, default) | 2 (per-container)")
    ∷ add_string (codes "chunk-size") (codes "string") defaults.chunk_size
        (λ v f. record f { chunk_size = v })
        (codes
          "streaming chunk-size budget (e.g. 4MB); 0 = profile default; inert for pure message shape")
    ∷ add_string (codes "drbg") (codes "string") defaults.drbg (λ v f. record f { drbg = v })
        (codes "DRBG fill primitive name (see itb3 drbgs); empty = profile default (auto tier)")
    ∷ add_string (codes "duration") (codes "duration") defaults.duration
        (λ v f. record f { duration = v })
        (codes "run duration (Go format: 30s / 5m / 1h); ignored when --iterations > 0")
    ∷ add_int (codes "gogc") defaults.gogc (λ v f. record f { gogc = v })
        (codes "GC trigger percentage; 0 = leave the runtime default")
    ∷ add_int (codes "gomaxprocs") defaults.gomaxprocs (λ v f. record f { gomaxprocs = v })
        (codes "Go runtime GOMAXPROCS override; 0 = inherit from the environment")
    ∷ add_int (codes "goroutines") defaults.goroutines (λ v f. record f { goroutines = v })
        (codes
          "concurrent workers (1..10); on runtimes without parallelism values above 1 are clamped to 1")
    ∷ add_string (codes "hash") (codes "string") defaults.hash (λ v f. record f { hash = v })
        (codes "inner ITB hash primitive name")
    ∷ add_string (codes "interlock") (codes "string") defaults.interlock
        (λ v f. record f { interlock = v })
        (codes
          "Interlocked Barrier chunk width: 48 | 168; empty = profile default (48; 168 requires 512-bit hash)")
    ∷ add_int64 (codes "iterations") (λ v f. record f { iterations = v })
        (codes "fixed per-worker iteration count; 0 = duration-based")
    ∷ add_bool (codes "json-output") (λ v f. record f { json_output = v })
        (codes "print the final summary as one compact JSON object instead of log lines")
    ∷ add_int (codes "key-bits") defaults.key_bits (λ v f. record f { key_bits = v })
        (codes "per-seed key width in bits: 512 | 1024 | 2048; 0 = profile default (1024)")
    ∷ add_string (codes "mac") (codes "string") defaults.mac (λ v f. record f { mac = v })
        (codes "MAC primitive name")
    ∷ add_string (codes "memlimit") (codes "string") defaults.memlimit
        (λ v f. record f { memlimit = v })
        (codes
          "Go heap soft limit: auto (1GiB when goroutines <= 3, else 256MiB, applied only when the runtime has no limit) or a size (e.g. 512MB)")
    ∷ add_string (codes "memprofile") (codes "string") defaults.memprofile
        (λ v f. record f { memprofile = v })
        (codes
          "write a Go runtime heap profile (pprof) to this path at the end of the run; empty = none")
    ∷ add_int (codes "nonce-bits") defaults.nonce_bits (λ v f. record f { nonce_bits = v })
        (codes "on-wire nonce width in bits: 128 | 256 | 512; 0 = profile default (512)")
    ∷ add_string (codes "parallax") (codes "string") defaults.parallax
        (λ v f. record f { parallax = v }) (codes "parallax layer: on | off")
    ∷ add_string (codes "payload-mode") (codes "string") defaults.payload_mode
        (λ v f. record f { payload_mode = v })
        (codes "plaintext content: fixed | rotating | pattern-zero | pattern-ff | pattern-ascii")
    ∷ add_string (codes "payload-size") (codes "string") defaults.payload_size
        (λ v f. record f { payload_size = v })
        (codes "per-iteration plaintext size (e.g. 1MB / 16MB / 64MB)")
    ∷ add_string (codes "profile") (codes "string") defaults.profile
        (λ v f. record f { profile = v })
        (codes
          "exercise this single registered triple profile (overrides --shape with the profile's surface); empty = shape-based profile pair")
    ∷ add_int64 (codes "rekey-every") (λ v f. record f { rekey_every = v })
        (codes
          "rotate the parallax + wrapper masters via Rekey every N iterations per worker; 0 = never")
    ∷ add_uint64 (codes "seed") (λ v f. record f { seed = v })
        (codes
          "deterministic plaintext RNG seed for bug reproduction, NOT for security testing (pipeline keys stay CSPRNG-drawn); 0 = crypto/rand plaintexts")
    ∷ add_string (codes "shape") (codes "string") defaults.shape (λ v f. record f { shape = v })
        (codes "cipher surface to exercise: stream | message | stream_one_shot | both")
    ∷ add_string (codes "wrapper") (codes "string") defaults.wrapper
        (λ v f. record f { wrapper = v }) (codes "wrapper layer: on | off")
    ∷ []

abbrev usage_line : Flag → Bytes
usage_line fl =
    codes "  -"
    ++ fl.name
    ++ (if length fl.type_label == 0 then [] else codes " ")
    ++ fl.type_label
    ++ codes "\n"
    ++ (codes "    \t" ++ fl.help ++ fl.default_suffix ++ codes "\n")

usage_lines : List Flag → Bytes
usage_lines [] = []
usage_lines (fl ∷ table) = usage_line fl ++ usage_lines table

-- What `usage` writes to stderr.
unfoldable pub usage : List Flag → Bytes
unfolding usage_lines
usage table = codes "Usage of loop:\n" ++ usage_lines table
