-- ===== src/Binding/Opts/RoundTrip.antt =====
-- The queries that `Opts::set` of src/opts.cpp builds, and their reader.
use itb_cpp.Base.{
  true, ℕ, ◌+◌, ◌*◌, ◌/◌, ◌%◌, ◌<◌, ◌≡◌, ◌≢◌, ◌∙◌, refl, sym, ap, arith, List, [], ◌∷◌, ◌++◌,
  append-nil, append_assoc, some, Bytes, All, All-append, IsByte, Bool-cases, inl, inr,
}
use itb_cpp.Base.Hex.{upper_digit, digit_value-upper_digit, upper_digit_plain}
use itb_cpp.Binding.Opts.{url_safe, escaped, encode_into, Opts, no_opts, set, set_all, separated}
use itb_cpp.Binding.Opts.Query.{
  Lacks, split, plain, percent, push, unescape, read_pair, read_pairs, read_query, split-append,
  split_last, cut-append,
}

-- The escapes of a whole text.
encode : Bytes → Bytes
encode [] = []
encode (c ∷ s) = escaped c ++ encode s

encode_into-encode : (s dst : Bytes) → encode_into dst s ≡ dst ++ encode s
unfolding encode_into encode
encode_into-encode [] dst = sym (append-nil dst)
encode_into-encode (c ∷ s) dst = simp (encode_into-encode s, append_assoc)

url_safe_plain : (b : ℕ) → url_safe b ≡ true → (b ≢ b'%') × (b ≢ b'&') × (b ≢ b'=')
unfolding url_safe
url_safe_plain b h = ground arith

unescape_digits :
    (b : ℕ) (s : Bytes)
    → b < 256
    → unescape percent (upper_digit (b / 16) ∷ upper_digit (b % 16) ∷ s) ≡ push b (unescape plain s)
unfolding unescape
unescape_digits b s h =
    let whole : b / 16 * 16 + b % 16 ≡ b = omega arith in
    ground (
      arith,
      digit_value-upper_digit (b / 16) (omega arith),
      digit_value-upper_digit (b % 16) (omega arith),
    )

unescape-escaped :
    (b : ℕ) (s : Bytes) → b < 256 → unescape plain (escaped b ++ s) ≡ push b (unescape plain s)
unfolding escaped unescape
unescape-escaped b s h = elim (Bool-cases (url_safe b)) [
  | inl safe ↦ ground (arith, url_safe_plain b safe)
  | inr unsafe ↦ rw unsafe (unescape_digits b s h)
]

unescape-encode : (s : Bytes) → All IsByte s → unescape plain (encode s) ≡ some s
unfolding encode
unescape-encode [] h = unfold unescape in refl
unescape-encode (c ∷ s) h = rw (unescape-escaped c (encode s) h.0, unescape-encode s h.1)

escaped-Lacks : (b : ℕ) → b < 256 → Lacks b'&' (escaped b) × Lacks b'=' (escaped b)
unfolding escaped
escaped-Lacks b h = ground (
  arith,
  url_safe_plain b,
  upper_digit_plain (b / 16) (omega arith),
  upper_digit_plain (b % 16) (omega arith),
)

encode-Lacks : (s : Bytes) → All IsByte s → Lacks b'&' (encode s) × Lacks b'=' (encode s)
unfolding encode
encode-Lacks [] h = (tt, tt)
encode-Lacks (c ∷ s) h =
    let head = escaped-Lacks c h.0 in
    let rest = encode-Lacks s h.1 in
    (
      All-append _ (escaped c) (encode s) head.0 rest.0,
      All-append _ (escaped c) (encode s) head.1 rest.1,
    )

abbrev pub ArePairs : List (Bytes × Bytes) → Type 0
ArePairs = All (λ kv. All IsByte kv.0 × All IsByte kv.1)

-- One `key=value` part.
part : Bytes → Bytes → Bytes
part k v = encode k ++ b'=' ∷ encode v

part-Lacks : (k v : Bytes) → All IsByte k → All IsByte v → Lacks b'&' (part k v)
unfolding part
part-Lacks k v hk hv =
    All-append _ (encode k) (b'=' ∷ encode v) (encode-Lacks k hk).0
      (omega arith, (encode-Lacks v hv).0)

read_pair-part : (k v : Bytes) → All IsByte k → All IsByte v → read_pair (part k v) ≡ some (k, v)
unfolding read_pair part
read_pair-part k v hk hv = rw (
  cut-append (encode k) (encode v) (encode-Lacks k hk).1,
  unescape-encode k hk,
  unescape-encode v hv,
)

-- The parts of the later pairs, each behind its `&`.
tail_parts : List (Bytes × Bytes) → Bytes
tail_parts [] = []
tail_parts ((k, v) ∷ kvs) = b'&' ∷ part k v ++ tail_parts kvs

read_pairs-tail :
    (k v : Bytes) (kvs : List (Bytes × Bytes))
    → All IsByte k
    → All IsByte v
    → ArePairs kvs
    → read_pairs (split b'&' (part k v ++ tail_parts kvs)) ≡ some ((k, v) ∷ kvs)
unfolding tail_parts read_pairs
read_pairs-tail k v [] hk hv h = rw (
  append-nil (part k v),
  split_last b'&' (part k v) (part-Lacks k v hk hv),
  read_pair-part k v hk hv,
)
read_pairs-tail k v ((k', v') ∷ kvs) hk hv h = rw (
  split-append b'&' (part k v) (part k' v' ++ tail_parts kvs) (part-Lacks k v hk hv),
  read_pair-part k v hk hv,
  read_pairs-tail k' v' kvs h.0.0 h.0.1 h.1,
)

set-part : (o : Opts) (k v : Bytes) → (set o k v).query ≡ separated o.query ++ part k v
unfolding set part
set-part o k v = simp (encode_into-encode, append_assoc)

append-cons-ne-nil : (xs : Bytes) (c : ℕ) (ys : Bytes) → xs ++ c ∷ ys ≢ []
append-cons-ne-nil [] c ys e = cc
append-cons-ne-nil (x ∷ xs) c ys e = cc

part-append-ne-nil : (k v rest : Bytes) → part k v ++ rest ≢ []
unfolding part
part-append-ne-nil k v rest e =
    append-cons-ne-nil (encode k) b'=' (encode v ++ rest)
      (sym (append_assoc (encode k) (b'=' ∷ encode v) rest) ∙ e)

separated-lem : (q : Bytes) → q ≢ [] → separated q ≡ q ++ b'&' ∷ []
unfolding separated
separated-lem [] h = absurd (h refl)
separated-lem (c ∷ q) h = refl

set-ne-nil : (o : Opts) (k v : Bytes) → (set o k v).query ≢ []
unfolding part
set-ne-nil o k v e =
    append-cons-ne-nil (separated o.query ++ encode k) b'=' (encode v)
      (append_assoc (separated o.query) (encode k) _ ∙ sym (set-part o k v) ∙ e)

set_all-tail :
    (kvs : List (Bytes × Bytes)) (o : Opts)
    → o.query ≢ []
    → (set_all o kvs).query ≡ o.query ++ tail_parts kvs
unfolding set_all tail_parts
set_all-tail [] o h = sym (append-nil o.query)
set_all-tail ((k, v) ∷ kvs) o h =
    rw (set_all-tail kvs (set o k v) (set-ne-nil o k v), set-part o k v, separated-lem o.query h)
      (append_assoc (o.query ++ b'&' ∷ []) (part k v) (tail_parts kvs)
        ∙ append_assoc o.query (b'&' ∷ []) (part k v ++ tail_parts kvs))

read_query-cons : (q : Bytes) → q ≢ [] → read_query q ≡ read_pairs (split b'&' q)
unfolding read_query
read_query-cons [] h = absurd (h refl)
read_query-cons (c ∷ q) h = refl

set_all-part :
    (k v : Bytes) (kvs : List (Bytes × Bytes))
    → (set_all no_opts ((k, v) ∷ kvs)).query ≡ part k v ++ tail_parts kvs
unfolding set_all
set_all-part k v kvs =
    set_all-tail kvs (set no_opts k v) (set-ne-nil no_opts k v)
    ∙ ap (λ q. q ++ tail_parts kvs) (unfold separated in set-part no_opts k v)

-- Whatever bytes (numbers below 256) the keys and values hold, the query that a chain of `set` calls builds is read
-- back as exactly those pairs, in their order.
pub read_query-set_all :
    (kvs : List (Bytes × Bytes)) → ArePairs kvs → read_query (set_all no_opts kvs).query ≡ some kvs
read_query-set_all [] h = unfold read_query set_all in refl
read_query-set_all ((k, v) ∷ kvs) h =
    read_query-cons _ (λ e. set_all-ne-nil e)
    ∙ ap (λ q. read_pairs (split b'&' q)) (set_all-part k v kvs)
    ∙ read_pairs-tail k v kvs h.0.0 h.0.1 h.1
  where
    set_all-ne-nil : (set_all no_opts ((k, v) ∷ kvs)).query ≢ []
    set_all-ne-nil e = part-append-ne-nil k v (tail_parts kvs) (sym (set_all-part k v kvs) ∙ e)
