-- ===== src/Binding/Opts.antt =====
-- src/opts.cpp: the URL-query builder behind `itb::Opts`.
pub mod Query
pub mod RoundTrip
use itb_cpp.Base.{
  Bool, true, false, ℕ, ◌/◌, ◌%◌, [], ◌∷◌, ◌++◌, Bytes, codes, leb, ◌==◌, if◌then◌else◌, ◌&&◌, ◌||◌,
  List, ◌≡◌, refl,
}
use itb_cpp.Base.Hex.{upper_digit}

-- The characters that cross unescaped.
unfoldable pub url_safe : ℕ → Bool
url_safe b =
    (leb b'A' b && leb b b'Z')
    || (leb b'a' b && leb b b'z')
    || (leb b'0' b && leb b b'9')
    || b == b'-'
    || b == b'.'
    || b == b'_'
    || b == b'~'
    || b == b','

-- What one round of `encode_into` appends; `b >> 4` and `b & 0x0F` are the two digits of `b`.
unfoldable pub escaped : ℕ → Bytes
unfolding url_safe
escaped b = if url_safe b then b ∷ [] else b'%' ∷ upper_digit (b / 16) ∷ upper_digit (b % 16) ∷ []

unfoldable pub encode_into : Bytes → Bytes → Bytes
unfolding escaped
encode_into dst [] = dst
encode_into dst (c ∷ s) = encode_into (dst ++ escaped c) s

pub record Opts : Type 0 where
  pub query : Bytes

-- `Opts() = default`.
abbrev pub no_opts : Opts
no_opts = record { query = [] }

-- `if (!query_.empty()) query_.push_back('&')`.
separated : Bytes → Bytes
separated [] = []
separated (c ∷ q) = (c ∷ q) ++ b'&' ∷ []

unfoldable pub set : Opts → Bytes → Bytes → Opts
unfolding encode_into separated
set o key v = record { query = encode_into (encode_into (separated o.query) key ++ b'=' ∷ []) v }

-- A chain of `set` calls.
unfoldable pub set_all : Opts → List (Bytes × Bytes) → Opts
unfolding set
set_all o [] = o
set_all o ((k, v) ∷ kvs) = set_all (set o k v) kvs

two_keys :
    (set_all no_opts ((codes "mode", codes "2") ∷ (codes "a b", codes "x,%") ∷ [])).query
    ≡ codes "mode=2&a%20b=x,%25"
unfolding set_all upper_digit
two_keys = refl
