-- ===== src/Loop/Flags/Resolve.antt =====
-- `parse_flags` of loop/main.cpp: the validation of the raw flag values, into the configuration. The
-- parse of a duration is a parameter, for which Loop/Main/Phases gives `parse_duration`.
use itb_cpp.Base.{
  Bool, true, false, ℕ, suc, ◌⊎◌, inl, inr, List, [], ◌∷◌, ◌++◌, ◌^◌, ◌*◌, Option, some, none,
  Bytes, codes, length, leb, ltb, ◌==◌, ◌=s=◌, ◌||◌, if◌then◌else◌,
}
use itb_cpp.Base.Int.{ℤ, pos, negsuc, is_nat}
use itb_cpp.Base.Decimal.{decimal_int}
use itb_cpp.Binding.World.{Library, ret, raise, spin, M}
use itb_cpp.Loop.Names.{Shape, parse_shape, parse_payload_mode}
use itb_cpp.Loop.State.{Config}
use itb_cpp.Loop.Size.{parse_size}
use itb_cpp.Loop.Profiles.{parse_on_off, hash_registered, profile_surface, narrow_shape, quoted}
use itb_cpp.Loop.Flags.{RawFlags}
use itb_cpp.Loop.Flags.Argv.{Parsed, parsed, helped, refused, err_line, parse_argv}

abbrev pub max_workers : ℕ
max_workers = 10

-- The message of the first failing rule, or a value.
abbrev pub Checked : Type 0 → Type 0 → Type 0
Checked L A = M L (Bytes ⊎ A)

infixl 5 ◌>>=◌ ◌>>◌
unfoldable pub ◌>>=◌ : {L A B : Type 0} → Checked L A → (A → Checked L B) → Checked L B
◌>>=◌ m f w = elim (m w) [
  | ret (inl message) w' ↦ ret (inl message) w'
  | ret (inr a) w' ↦ f a w'
  | raise e w' ↦ raise e w'
  | spin w' ↦ spin w'
]

abbrev pub ◌>>◌ : {L B : Type 0} → Checked L (Unit {0}) → Checked L B → Checked L B
m >> k = m >>= λ _. k

unfoldable pub pure : {L A : Type 0} → A → Checked L A
pure a w = ret (inr a) w

-- A rule holds, or a value is there.
unfoldable pub require : {L : Type 0} → Bool → Bytes → Checked L (Unit {0})
require ok message w = if ok then ret (inr tt) w else ret (inl message) w

unfoldable pub given : {L A : Type 0} → Option A → Bytes → Checked L A
given none message w = ret (inl message) w
given (some a) message w = ret (inr a) w

-- A call that prints no message of its own.
unfoldable pub asked : {L A : Type 0} → M L A → Checked L A
asked m w = elim (m w) [ ret a w' ↦ ret (inr a) w' | raise e w' ↦ raise e w' | spin w' ↦ spin w' ]

unfoldable pub positive : Option ℤ → Option ℕ
positive (some (pos (suc n))) = some (suc n)
positive _ = none

unfoldable pub not_negative : ℤ → Option ℕ
not_negative (pos n) = some n
not_negative (negsuc n) = none

unfoldable pub not_less : ℤ → Bool
not_less (pos n) = true
not_less (negsuc n) = false

unfoldable pub worker_count : ℤ → Option ℕ
worker_count (pos n) = if ltb n 1 || ltb max_workers n then none else some n
worker_count (negsuc n) = none

-- The cases of a `switch`.
unfoldable pub one_of : List ℕ → ℤ → Bool
one_of [] z = false
one_of (n ∷ ns) z = is_nat z n || one_of ns z

abbrev got : Bytes → Bytes → Bytes
got rule value = rule ++ codes ", got " ++ value

abbrev invalid_size : Bytes → Bytes → Bytes
invalid_size flag value = flag ++ codes ": invalid size " ++ quoted value

module _ {L : Type 0} (lib : Library L) where
  -- `--memlimit`: whether it is automatic, and the limit.
  unfoldable pub memlimit_of : Bytes → ℕ → Checked L (Bool × ℕ)
  memlimit_of text workers =
      if text =s= codes "auto"
      then pure (true, if leb workers 3 then 2 ^ 30 else 256 * 2 ^ 20)
      else do
        limit ← given (parse_size text) (invalid_size (codes "--memlimit") text)
        pure (false, limit)

  -- `--profile`: the shape that its record leaves.
  unfoldable pub shape_for : Bytes → Shape → Checked L Shape
  shape_for profile shape =
      if length profile == 0
      then pure shape
      else do surface ← profile_surface lib profile; pure (narrow_shape shape surface)

  -- The rules in the order of the source; `duration_of` stands for `parse_duration`.
  unfoldable pub resolve : (Bytes → Option ℤ) → RawFlags → Checked L Config
  resolve duration_of f = do
    duration_ns ←
        given (positive (duration_of f.duration))
          (got (codes "--duration must be positive") f.duration)
    iterations ←
        given (not_negative f.iterations)
          (got (codes "--iterations must be >= 0") (decimal_int f.iterations))
    workers ←
        given (worker_count f.goroutines)
          (got (codes "--goroutines must be in 1..10") (decimal_int f.goroutines))
    requested ←
        given (parse_shape f.shape)
          (got (codes "--shape must be stream | message | stream_one_shot | both") (quoted f.shape))
    registered ← asked (hash_registered lib f.hash)
    require registered
        (codes "--hash " ++ quoted f.hash ++ codes " is not a registered hash primitive")
    payload ←
        given (parse_size f.payload_size) (invalid_size (codes "--payload-size") f.payload_size)
    require (leb 1 payload) (codes "--payload-size must be at least 1 byte")
    memlimit ← memlimit_of f.memlimit workers
    require (not_less f.gogc) (got (codes "--gogc must be >= 0") (decimal_int f.gogc))
    parallax ←
        given (parse_on_off f.parallax)
          (got (codes "--parallax must be on | off") (quoted f.parallax))
    wrapper ←
        given (parse_on_off f.wrapper) (got (codes "--wrapper must be on | off") (quoted f.wrapper))
    shape ← shape_for f.profile requested
    require (one_of (0 ∷ 512 ∷ 1024 ∷ 2048 ∷ []) f.key_bits) (
        got (codes "--key-bits must be 512 | 1024 | 2048 (or 0 = profile default)")
          (decimal_int f.key_bits))
    require (one_of (0 ∷ 128 ∷ 256 ∷ 512 ∷ []) f.nonce_bits) (
        got (codes "--nonce-bits must be 128 | 256 | 512 (or 0 = profile default)")
          (decimal_int f.nonce_bits))
    require (one_of (1 ∷ 2 ∷ []) f.blob_mode) (
        got (codes "--blob-mode must be 1 (per-region) | 2 (per-container)")
          (decimal_int f.blob_mode))
    require (one_of (0 ∷ 1 ∷ 2 ∷ 4 ∷ 8 ∷ 16 ∷ 32 ∷ []) f.barrier_fill) (
        got (codes "--barrier-fill must be 1 | 2 | 4 | 8 | 16 | 32 (or 0 = profile default)")
          (decimal_int f.barrier_fill))
    require (f.interlock =s= [] || f.interlock =s= codes "48" || f.interlock =s= codes "168") (
        got (codes "--interlock must be 48 | 168 (or empty = profile default)")
          (quoted f.interlock))
    chunk_size ← given (parse_size f.chunk_size) (invalid_size (codes "--chunk-size") f.chunk_size)
    require (not_less f.gomaxprocs)
        (got (codes "--gomaxprocs must be > 0 when specified") (decimal_int f.gomaxprocs))
    rekey_every ←
        given (not_negative f.rekey_every)
          (got (codes "--rekey-every must be >= 0") (decimal_int f.rekey_every))
    blob_cycle_every ←
        given (not_negative f.blob_cycle_every)
          (got (codes "--blob-cycle-every must be >= 0") (decimal_int f.blob_cycle_every))
    payload_mode ← given (parse_payload_mode f.payload_mode) (
        got
          (codes
            "--payload-mode must be fixed | rotating | pattern-zero | pattern-ff | pattern-ascii")
          (quoted f.payload_mode))
    pure (record {
      duration_ns = duration_ns;
      iterations = iterations;
      workers_requested = f.goroutines;
      workers = workers;
      shape = shape;
      hash = f.hash;
      mac = f.mac;
      payload = payload;
      memlimit = memlimit.1;
      memlimit_auto = memlimit.0;
      gogc = f.gogc;
      parallax = parallax;
      wrapper = wrapper;
      profile = f.profile;
      key_bits = f.key_bits;
      nonce_bits = f.nonce_bits;
      blob_mode = f.blob_mode;
      chunk_size = chunk_size;
      barrier_fill = f.barrier_fill;
      drbg = f.drbg;
      interlock = f.interlock;
      gomaxprocs = f.gomaxprocs;
      rekey_every = rekey_every;
      blob_cycle_every = blob_cycle_every;
      payload_mode = payload_mode;
      seed = f.seed;
      json_output = f.json_output;
      memprofile = f.memprofile;
    })

  -- The text that ends on stderr with the status, 1 for help and -1 for an error; or the
  -- configuration.
  unfoldable pub reported : Bytes ⊎ Config → (ℤ × Bytes) ⊎ Config
  reported (inl message) = inl (negsuc 0, err_line message)
  reported (inr cfg) = inr cfg

  unfoldable pub started : (Bytes → Option ℤ) → Parsed → M L ((ℤ × Bytes) ⊎ Config)
  started duration_of (helped text) w = ret (inl (pos 1, text)) w
  started duration_of (refused text) w = ret (inl (negsuc 0, text)) w
  started duration_of (parsed f) w = elim (resolve duration_of f w) [
    | ret r w' ↦ ret (reported r) w'
    | raise e w' ↦ raise e w'
    | spin w' ↦ spin w'
  ]

  unfoldable pub parse_flags : (Bytes → Option ℤ) → List Bytes → M L ((ℤ × Bytes) ⊎ Config)
  parse_flags duration_of args = started duration_of (parse_argv args)
