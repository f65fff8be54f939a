-- ===== src/Tests/Flags.antt =====
-- Command lines of the harness.
use itb_cpp.Base.{
  true, false, ◌*◌, ◌^◌, ◌≡◌, refl, arith, List, [], ◌∷◌, Option, some, none, Bytes, codes,
}
use itb_cpp.Base.Int.{ℤ, pos, negsuc}
use itb_cpp.Base.Decimal.{decimal, decimal_int}
use itb_cpp.Binding.World.{world}
use itb_cpp.Loop.Names.{both, fixed}
use itb_cpp.Binding.Buffers.{buf_call, buf_attempt, settle}
use itb_cpp.Binding.Memory.{c_string, wipe_bytes, overwrite, zeros}
use itb_cpp.Binding.Errors.{check}
use itb_cpp.Binding.Pipeline.{hash_names, lookup}
use itb_cpp.Base.Decimal.{value}
use itb_cpp.Demo.Catalogue.{starts_with}
use itb_cpp.Loop.Size.{
  all_digits, parse_size, scaled, sized, strip, trim_back, trim_front, trimmed_upper,
}
use itb_cpp.Loop.Numbers.{digits_of, sign_of, numeral}
use itb_cpp.Loop.Profiles.{
  find_behind, hash_registered, narrow_shape, parse_on_off, profile_surface, surface_of,
}
use itb_cpp.Loop.Flags.{Flag}
use itb_cpp.Loop.Flags.Argv.{cut_at, parse_argv, read_arg, undashed}
use itb_cpp.Loop.Flags.Resolve.{
  positive, asked, memlimit_of, not_less, not_negative, one_of, pure, reported, require, shape_for,
  worker_count, started, resolve, given, ◌>>=◌,
}
use itb_cpp.Loop.Names.{parse_payload_mode, parse_shape, payload_mode_name, shape_name}
use itb_cpp.Binding.Opts.Query.{read_query}
use itb_cpp.Loop.Launch.{options, overrides}
use itb_cpp.Loop.Launch.Options.{is_bytes, is_bytes-IsByte, read_query-options}
use itb_cpp.Loop.State.{Config}
use itb_cpp.Loop.Numbers.{parse_int, parse_int64, parse_uint64, parse-decimal}
use itb_cpp.Loop.Flags.{flag_table, defaults}
use itb_cpp.Loop.Flags.Argv.{named_flag, parse_from, looked_up}
use itb_cpp.Loop.Flags.Argv.Spellings.{flag-spellings, set_flag}
use itb_cpp.Loop.Flags.Resolve.{parse_flags}
use itb_cpp.Loop.Flags.Valid.{IsValid, parse_flags-IsValid}
use itb_cpp.Tests.Mirror.{mirror, start}

parse-decimal_example :
    (parse_int (decimal_int (negsuc 4)) ≡ some (negsuc 4))
    × (parse_int64 (decimal_int (negsuc 4)) ≡ some (negsuc 4))
    × (parse_uint64 (decimal 7) ≡ some 7)
parse-decimal_example =
    parse-decimal (negsuc 4) (negsuc 4) 7 (omega arith) (omega arith) (omega arith)

abbrev five_minutes : Bytes → Option ℤ
five_minutes text = some (pos 300000000000)

abbrev args : List Bytes
args = codes "--goroutines" ∷ codes "2" ∷ codes "-shape=both" ∷ []

abbrev two_both : Config
two_both = record {
  duration_ns = 300000000000;
  iterations = 0;
  workers_requested = pos 2;
  workers = 2;
  shape = both;
  hash = codes "areion512";
  mac = codes "hmac-blake3";
  payload = 16 * 2 ^ 20;
  memlimit = 2 ^ 30;
  memlimit_auto = true;
  gogc = pos 0;
  parallax = true;
  wrapper = true;
  profile = [];
  key_bits = pos 0;
  nonce_bits = pos 0;
  blob_mode = pos 1;
  chunk_size = 0;
  barrier_fill = pos 0;
  drbg = [];
  interlock = [];
  gomaxprocs = pos 0;
  rekey_every = 0;
  blob_cycle_every = 0;
  payload_mode = fixed;
  seed = 0;
  json_output = false;
  memprofile = [];
}

parse_flags-IsValid_example : IsValid mirror two_both
unfolding parse_flags check overwrite zeros settle buf_call buf_attempt c_string wipe_bytes
    hash_names lookup value starts_with all_digits parse_size scaled sized strip trim_back
    trim_front trimmed_upper digits_of sign_of numeral find_behind hash_registered narrow_shape
    parse_on_off profile_surface surface_of cut_at parse_argv read_arg undashed positive asked
    memlimit_of not_less not_negative one_of pure reported require shape_for worker_count started
    resolve given ◌>>=◌ parse_payload_mode parse_shape payload_mode_name shape_name flag_table
    parse_from looked_up named_flag parse_int parse_int64 parse_uint64 decimal decimal_int
parse_flags-IsValid_example =
    parse_flags-IsValid mirror five_minutes args start two_both
      (world (parse_flags mirror five_minutes args start)) refl

abbrev goroutines : Flag
goroutines = record {
  name = codes "goroutines";
  type_label = codes "int";
  help =
      codes
        "concurrent workers (1..10); on runtimes without parallelism values above 1 are clamped to 1";
  boolean = false;
  default_suffix = codes " (default 3)";
  assign = λ v f. elim (parse_int v) [ none ↦ none | some n ↦ some (record f { goroutines = n }) ];
}

abbrev four : Bytes
four = codes "4"

flag-spellings_example :
    (parse_from flag_table (codes "-goroutines" ∷ four ∷ []) defaults
      ≡ set_flag goroutines four [] defaults)
    × (parse_from flag_table (codes "--goroutines" ∷ four ∷ []) defaults
        ≡ set_flag goroutines four [] defaults)
    × (parse_from flag_table (codes "-goroutines=4" ∷ []) defaults
        ≡ set_flag goroutines four [] defaults)
    × (parse_from flag_table (codes "--goroutines=4" ∷ []) defaults
        ≡ set_flag goroutines four [] defaults)
unfolding flag_table named_flag decimal_int decimal
flag-spellings_example = flag-spellings goroutines (codes "goroutines") four [] defaults refl refl

read_query-options_example : read_query (options two_both).query ≡ some (overrides two_both)
unfolding is_bytes
read_query-options_example =
    read_query-options two_both (is_bytes-IsByte (codes "areion512") refl)
      (is_bytes-IsByte (codes "hmac-blake3") refl) tt tt
