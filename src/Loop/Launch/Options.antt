-- ===== src/Loop/Launch/Options.antt =====
-- The options string of a pipeline, read back.
use itb_cpp.Base.{
  ltb, Bool, true, false, ℕ, suc, ◌≡◌, refl, arith, [], ◌∷◌, some, Bytes, codes, All, IsByte, ◌&&◌,
  if◌then◌else◌,
}
use itb_cpp.Base.Int.{ℤ, pos, negsuc}
use itb_cpp.Base.Decimal.{decimal, decimal_int, IsDigit, decimal-IsDigit}
use itb_cpp.Binding.Opts.Query.{read_query}
use itb_cpp.Binding.Opts.RoundTrip.{ArePairs, read_query-set_all}
use itb_cpp.Loop.State.{Config}
use itb_cpp.Loop.Launch.{truth, overrides, options}

IsByte-digit : (s : Bytes) → All IsDigit s → All IsByte s
IsByte-digit [] h = tt
IsByte-digit (c ∷ s) h = (omega (arith, h.0), IsByte-digit s h.1)

decimal-IsByte : (n : ℕ) → All IsByte (decimal n)
decimal-IsByte n = IsByte-digit (decimal n) (decimal-IsDigit n)

decimal_int-IsByte : (z : ℤ) → All IsByte (decimal_int z)
unfolding decimal_int
decimal_int-IsByte (pos n) = decimal-IsByte n
decimal_int-IsByte (negsuc n) = (omega arith, decimal-IsByte (suc n))

-- A text whose bytes are tested.
unfoldable pub is_bytes : Bytes → Bool
is_bytes [] = true
is_bytes (c ∷ s) = ltb c 256 && is_bytes s

pub is_bytes-IsByte : (s : Bytes) → is_bytes s ≡ true → All IsByte s
unfolding is_bytes
is_bytes-IsByte [] e = tt
is_bytes-IsByte (c ∷ s) e = (ground (arith, e), is_bytes-IsByte s (ground (arith, e)))

truth-IsByte : (b : Bool) → All IsByte (truth b)
unfolding is_bytes
truth-IsByte true = is_bytes-IsByte (codes "true") refl
truth-IsByte false = is_bytes-IsByte (codes "false") refl

-- Every override of the configuration reaches the options string: when the hash, the MAC, the DRBG
-- and the interlock names are bytes, the query reads back as the eleven keys with the
-- configuration's values, in the order in which they are set.
pub read_query-options :
    (cfg : Config)
    → All IsByte cfg.hash
    → All IsByte cfg.mac
    → All IsByte cfg.drbg
    → All IsByte cfg.interlock
    → read_query (options cfg).query
      ≡ some (
          (codes "mode", decimal_int cfg.blob_mode)
          ∷ (codes "innerHash", cfg.hash)
          ∷ (codes "macName", cfg.mac)
          ∷ (codes "withParallax", (if cfg.parallax then codes "true" else codes "false"))
          ∷ (codes "withWrapper", (if cfg.wrapper then codes "true" else codes "false"))
          ∷ (codes "keyBits", decimal_int cfg.key_bits)
          ∷ (codes "nonceBits", decimal_int cfg.nonce_bits)
          ∷ (codes "barrierFill", decimal_int cfg.barrier_fill)
          ∷ (codes "drbg", cfg.drbg)
          ∷ (codes "interlock", cfg.interlock)
          ∷ (codes "chunkSize", decimal cfg.chunk_size)
          ∷ [])
unfolding options is_bytes
read_query-options cfg hash mac drbg interlock = read_query-set_all (overrides cfg) pairs
  where
    pairs : ArePairs (overrides cfg)
    pairs = (
      (is_bytes-IsByte (codes "mode") refl, decimal_int-IsByte cfg.blob_mode),
      (
        (is_bytes-IsByte (codes "innerHash") refl, hash),
        (
          (is_bytes-IsByte (codes "macName") refl, mac),
          (
            (is_bytes-IsByte (codes "withParallax") refl, truth-IsByte cfg.parallax),
            (
              (is_bytes-IsByte (codes "withWrapper") refl, truth-IsByte cfg.wrapper),
              (
                (is_bytes-IsByte (codes "keyBits") refl, decimal_int-IsByte cfg.key_bits),
                (
                  (is_bytes-IsByte (codes "nonceBits") refl, decimal_int-IsByte cfg.nonce_bits),
                  (
                    (
                      is_bytes-IsByte (codes "barrierFill") refl,
                      decimal_int-IsByte cfg.barrier_fill,
                    ),
                    (
                      (is_bytes-IsByte (codes "drbg") refl, drbg),
                      (
                        (is_bytes-IsByte (codes "interlock") refl, interlock),
                        (
                          (is_bytes-IsByte (codes "chunkSize") refl, decimal-IsByte cfg.chunk_size),
                          tt,
                        ),
                      ),
                    ),
                  ),
                ),
              ),
            ),
          ),
        ),
      ),
    )
