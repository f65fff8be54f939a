-- ===== src/Tests/Loops.antt =====
-- The harness and the demonstrator at concrete inputs.
use itb_cpp.Base.{
  true, false, ◌≤◌, ◌≡◌, ◌≢◌, ◌↔◌, ◌⊎◌, inr, refl, arith, [], ◌∷◌, some, none, codes, length, take,
  get_elem?, int64_max,
}
use itb_cpp.Base.Int.{pos}
use itb_cpp.Binding.World.Ends.{Comes}
use itb_cpp.Loop.Names.{
  stream, rotating, fixed, parse_shape, parse_payload_mode, shape_name, payload_mode_name,
  parse-name_iff,
}
use itb_cpp.Loop.Report.{first_difference, first_difference_lem}
use itb_cpp.Base.Decimal.{value}
use itb_cpp.Loop.Size.{parse_size, parse_size-bound, trimmed_upper, strip, sized, scaled}
use itb_cpp.Loop.Host.{Host}
use itb_cpp.Loop.Payload.{fill_payload, fill_payload-Comes}
use itb_cpp.Loop.State.{Config, Site}
use itb_cpp.Loop.Iterate.{iterate, settled}
use itb_cpp.Loop.Verdicts.{IsCompared, settled_lem}
use itb_cpp.Demo.Blob.{decode_blob, encode_blob, decode_blob-encode_blob}
use itb_cpp.Demo.Catalogue.{profile_names, json_array, profile_names-json_array}
use itb_cpp.Loop.Iterate.Steps.{Completed}
use itb_cpp.Loop.Iterate.Returns.{iterate-Returns}
use itb_cpp.Binding.World.Ways.{Returns}
use itb_cpp.Tests.Mirror.{Mirror, mirror, start, held, mirror-EndsItself, mirror-Spends}

abbrev pub host : Host Mirror
host = record {
  lib = mirror;
  getrandom = λ cap l. ((pos 3, 1 ∷ 2 ∷ 3 ∷ []), l);
  now_ns = λ l. (5, l);
}

parse-name_iff_example :
    ((parse_shape (codes "stream") ≡ some stream) ↔ (codes "stream" ≡ shape_name stream))
    × ((parse_payload_mode (codes "stream") ≡ some rotating)
        ↔ (codes "stream" ≡ payload_mode_name rotating))
parse-name_iff_example = parse-name_iff (codes "stream") stream rotating

first_difference_lem_example :
    let i = first_difference (codes "abc") (codes "abd") in
    (take i (codes "abc") ≡ take i (codes "abd"))
    × ((codes "abc" ≡ codes "abd") ⊎ (get_elem? (codes "abc") i ≢ get_elem? (codes "abd") i))
first_difference_lem_example = first_difference_lem (codes "abc") (codes "abd")

parse_size-bound_example : 5120 ≤ int64_max
unfolding parse_size trimmed_upper strip sized scaled value
parse_size-bound_example = parse_size-bound (codes "5K") 5120 refl

fill_payload-Comes_example :
    Comes
      (λ r w'. length r.2 ≡ length (codes "....."))
      (fill_payload host rotating false 0 (codes ".....") start)
fill_payload-Comes_example = fill_payload-Comes host rotating false 0 (codes ".....") start

abbrev pub config : Config
config = record {
  duration_ns = 0;
  iterations = 2;
  workers_requested = pos 1;
  workers = 1;
  shape = stream;
  hash = codes "blake3";
  mac = codes "hmac";
  payload = 3;
  memlimit = 0;
  memlimit_auto = false;
  gogc = pos 0;
  parallax = true;
  wrapper = true;
  profile = [];
  key_bits = pos 0;
  nonce_bits = pos 0;
  blob_mode = pos 1;
  chunk_size = 0;
  barrier_fill = pos 0;
  drbg = [];
  interlock = [];
  gomaxprocs = pos 0;
  rekey_every = 0;
  blob_cycle_every = 0;
  payload_mode = fixed;
  seed = 0;
  json_output = false;
  memprofile = [];
}

abbrev pub site : Site
site = record {
  worker = record {
    id = 0;
    plaintext = codes "abc";
    payload_mode = fixed;
    seeded = false;
    rng = 0;
    wire = [];
    plain = [];
    scratch = [];
    iters = 0;
    bytes_enc = 0;
    bytes_dec = 0;
    nanos_enc = 0;
    nanos_dec = 0;
    failed = false;
    error = [];
  };
  run = record {
    cfg = config;
    stream_pipe = none;
    msg_pipe = none;
    stream_profile = [];
    msg_profile = [];
    stream_blob = [];
    msg_blob = [];
    rekeys = 0;
    blob_cycles = 0;
    stop = false;
    active = 1;
    finish_ns = 0;
    log = [];
  };
}

settled_lem_example : IsCompared site 1 stream (codes "abd") (settled site 1 stream (codes "abd"))
settled_lem_example = settled_lem site 1 stream (codes "abd")

decode_blob-encode_blob_example : decode_blob (encode_blob (7 ∷ 255 ∷ [])) ≡ inr (7 ∷ 255 ∷ [])
decode_blob-encode_blob_example =
    decode_blob-encode_blob (7 ∷ 255 ∷ []) (omega arith, (omega arith, tt)) (omega arith)

profile_names-json_array_example :
    profile_names (json_array (codes "a" ∷ codes "b" ∷ [])) ≡ codes "a" ∷ codes "b" ∷ []
profile_names-json_array_example =
    profile_names-json_array (codes "a" ∷ codes "b" ∷ [])
      ((λ e. omega arith, tt), ((λ e. omega arith, tt), tt))

abbrev ready : Site
ready = record {
  worker = record site.worker { scratch = codes "..."; payload_mode = rotating };
  run = record site.run { stream_pipe = some (record { handle = 7 }) };
}

iterate-Returns_example : Returns (λ r w'. Completed ready r) (iterate host 4 1 ready) start
iterate-Returns_example =
    iterate-Returns host (λ h l. l.over ≡ true) held mirror-EndsItself mirror-Spends 3 4
      (omega arith) 1 ready (omega arith, (λ l z. omega arith), (λ n h l z. omega (arith, h))) start
