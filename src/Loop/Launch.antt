-- ===== src/Loop/Launch.antt =====
-- The pipelines that the main thread of loop/main.cpp builds before the workers start, and what it
-- prints of them.
pub mod Options
use itb_cpp.Base.{
  ltb, Bool, true, false, ℕ, zero, suc, ◌≡◌, ◌⊎◌, inl, inr, refl, arith, List, [], ◌∷◌, ◌++◌, ◌<◌,
  Option, some, none, Bytes, codes, length, All, IsByte, int64_max, ◌+◌, ◌==◌, ◌=s=◌, ◌&&◌, ◌||◌,
  not, if◌then◌else◌,
}
use itb_cpp.Base.Int.{ℤ, pos, negsuc, is_nat}
use itb_cpp.Base.Decimal.{decimal, decimal_int, IsDigit, decimal-IsDigit}
use itb_cpp.Binding.World.{Library, M, pure, ◌>>=◌, ◌>>◌}
use itb_cpp.Binding.Opts.{Opts, no_opts, set_all}
use itb_cpp.Binding.Opts.Query.{read_query}
use itb_cpp.Binding.Opts.RoundTrip.{ArePairs, read_query-set_all}
use itb_cpp.Binding.Pipeline.{Pipeline, init, save, inspect, destroy}
use itb_cpp.Binding.Errors.{last_error}
use itb_cpp.Binding.Runtime.{count_of, set_memory_limit, set_gc_percent, set_gomaxprocs}
use itb_cpp.Loop.Host.{Host}
use itb_cpp.Loop.Names.{Shape, stream, message, stream_one_shot, both}
use itb_cpp.Loop.Numbers.{strtoll}
use itb_cpp.Loop.State.{Config}
use itb_cpp.Loop.Worker.{caught, detail}
use itb_cpp.Loop.Profiles.{quoted, key_text, find_behind, found, fill_cipher, fill_keystream_layers}
use itb_cpp.Demo.Catalogue.{cut_quote}

abbrev pub on_off : Bool → Bytes
on_off b = if b then codes "on" else codes "off"

-- `none` is an unset variable.
unfoldable pub skip_blanks : Bytes → Bytes
skip_blanks [] = []
skip_blanks (c ∷ s) = if c == b' ' || c == b'\t' then skip_blanks s else c ∷ s

unfoldable pub policy_label : Option Bytes → Bytes
policy_label none = codes "default"
policy_label (some env) = let v = skip_blanks env in if length v == 0 then codes "default" else v

unfoldable pub record_int : Bytes → Bytes → ℤ
record_int json key = elim (find_behind (key_text key) json) [
  | none ↦ pos 0
  | some text ↦ strtoll text
]

unfoldable pub record_str : Bytes → Bytes → Bytes
record_str json key = elim (find_behind (key_text key ++ b'"' ∷ []) json) [
  | none ↦ codes "-"
  | some text ↦ elim (cut_quote text) [
    | none ↦ codes "-"
    | some ([], behind) ↦ codes "-"
    | some (c ∷ run, behind) ↦ c ∷ run
  ]
]

unfoldable pub record_bool : Bytes → Bytes → Bool
record_bool json key = found (key_text key ++ codes "true") json

-- What a step prints: a line of the log, or one of stderr.
pub data Line : Type 0 where
  log err : Bytes → Line

abbrev text_of : Bytes → Bytes
text_of profile = codes "pipeline initialised: profile=" ++ profile ++ codes " blob="

abbrev field : Bytes → Bytes → Bytes
field name value = codes " " ++ name ++ codes "=" ++ value

abbrev int_field : Bytes → Bytes → Bytes → Bytes
int_field json name key = field name (decimal_int (record_int json key))

abbrev flag_field : Bytes → Bytes → Bytes
flag_field json key = field key (on_off (record_bool json key))

abbrev optional_field : Bytes → Bytes → Bytes
optional_field json key =
    let value = record_str json key in if value =s= codes "-" then [] else field key value

unfoldable pub recipe : Bytes → Bytes
recipe json =
    field (codes "hash") (record_str json (codes "hash"))
    ++ int_field json (codes "key-bits") (codes "keybits")
    ++ int_field json (codes "nonce-bits") (codes "nonce_bits")
    ++ int_field json (codes "barrier-fill") (codes "barrier_fill")
    ++ int_field json (codes "chunk-size") (codes "chunk")
    ++ field (codes "mac") (record_str json (codes "mac"))
    ++ flag_field json (codes "parallax")
    ++ flag_field json (codes "wrapper")
    ++ (if is_nat (record_int json (codes "container_mode")) 2
        then int_field json (codes "container-mode") (codes "container_mode")
        else [])
    ++ optional_field json (codes "drbg")
    ++ optional_field json (codes "interlock")

-- The options in the order in which they are set.
abbrev pub truth : Bool → Bytes
truth b = if b then codes "true" else codes "false"

abbrev pub overrides : Config → List (Bytes × Bytes)
overrides cfg =
    (codes "mode", decimal_int cfg.blob_mode)
    ∷ (codes "innerHash", cfg.hash)
    ∷ (codes "macName", cfg.mac)
    ∷ (codes "withParallax", truth cfg.parallax)
    ∷ (codes "withWrapper", truth cfg.wrapper)
    ∷ (codes "keyBits", decimal_int cfg.key_bits)
    ∷ (codes "nonceBits", decimal_int cfg.nonce_bits)
    ∷ (codes "barrierFill", decimal_int cfg.barrier_fill)
    ∷ (codes "drbg", cfg.drbg)
    ∷ (codes "interlock", cfg.interlock)
    ∷ (codes "chunkSize", decimal cfg.chunk_size)
    ∷ []

unfoldable pub options : Config → Opts
options cfg = set_all no_opts (overrides cfg)

-- A pipeline with its retained blob, if it was built, and the lines printed.
pub record Built : Type 0 where
  pub built : Option (Pipeline × Bytes)
  pub printed : List Line

module _ {L : Type 0} (host : Host L) where
  unfoldable pub log_pipeline_initialised : Bytes → Bytes → M L Line
  log_pipeline_initialised profile blob =
      let front = text_of profile ++ decimal (length blob) ++ codes " bytes" in
      caught [] (inspect host.lib blob) >>= λ r. elim r [
        | inl failure ↦ last_error host.lib >>= λ text.
            pure (log (front ++ codes " (inspect: " ++ text ++ codes ")"))
        | inr json ↦ pure (log (front ++ recipe json))
      ]

  abbrev call_failed : Bytes → Bytes → Bytes → Line
  call_failed name profile text = err (name ++ codes "(" ++ profile ++ codes "): " ++ text)

  -- From the options on, behind the lines that are printed already.
  unfoldable pub build_with : Bytes → Opts → List Line → M L Built
  build_with profile opts before = caught [] (init host.lib profile opts) >>= λ r. elim r [
    | inl failure ↦ detail host failure.1 >>= λ text.
        pure (record {
          built = none;
          printed = before ++ call_failed (codes "Init") profile text ∷ [];
        })
    | inr pipe ↦ caught [] (save host.lib pipe) >>= λ s. elim s [
      | inl failure ↦ detail host failure.1 >>= λ text.
          (destroy host.lib pipe >>= λ _. pure (record {
            built = none;
            printed = before ++ call_failed (codes "Save") profile text ∷ [];
          }))
      | inr blob ↦ log_pipeline_initialised profile blob >>= λ line.
          pure (record { built = some (pipe, blob); printed = before ++ line ∷ [] })
    ]
  ]

  unfoldable pub build_pipeline : Config → Bytes → M L Built
  unfolding build_with
  build_pipeline cfg profile =
      if length cfg.profile == 0
      then build_with profile (options cfg) []
      else fill_keystream_layers host.lib cfg.profile (options cfg) cfg.parallax cfg.wrapper
        >>= λ r. elim r [
          | inl text ↦ pure (record { built = none; printed = err text ∷ [] })
          | inr (filled, opts) ↦ build_with profile opts (
              if filled
              then err (
                  cfg.profile
                  ++ codes " leaves the requested keystream layers unnamed; "
                  ++ fill_cipher
                  ++ codes " supplied for them")
                ∷ []
              else [])
        ]

  -- The limits of the Go runtime, set before a pipeline exists; the limit in force is read back.
  unfoldable pub shape_runtime : Config → M L Config
  shape_runtime cfg = do
    if cfg.memlimit_auto
        then (do
          now ← set_memory_limit host.lib (negsuc 0)
          if is_nat now int64_max
              then (do _ ← set_memory_limit host.lib (pos cfg.memlimit); pure tt)
              else pure tt)
        else (do _ ← set_memory_limit host.lib (pos cfg.memlimit); pure tt)
    limit ← set_memory_limit host.lib (negsuc 0)
    set_if_positive (set_gc_percent host.lib) cfg.gogc
    set_if_positive (set_gomaxprocs host.lib) cfg.gomaxprocs
    pure (record cfg { memlimit = count_of limit })
    where
      set_if_positive : (ℤ → M L ℤ) → ℤ → M L (Unit {0})
      set_if_positive setter (pos (suc n)) = do _ ← setter (pos (suc n)); pure tt
      set_if_positive setter z = pure tt

-- The shapes that use the streaming handle, and those that use the message handle.
unfoldable pub uses_stream : Shape → Bool
uses_stream message = false
uses_stream shape = true

unfoldable pub uses_message : Shape → Bool
uses_message message = true
uses_message both = true
uses_message shape = false
