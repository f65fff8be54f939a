-- ===== src/Binding/Opts/Query.antt =====
-- How a reader takes a query apart: at `&`, then at the first `=`, then the escapes.
use itb_cpp.Base.{
  ℕ, ◌+◌, ◌*◌, ◌≡◌, ◌≢◌, refl, arith, List, [], ◌∷◌, ◌++◌, Option, none, some, Bytes, ◌==◌,
  if◌then◌else◌, All,
}
use itb_cpp.Base.Hex.{digit_value}

abbrev pub Lacks : ℕ → Bytes → Type 0
Lacks c = All (λ b. b ≢ c)

abbrev extend_head : ℕ → List Bytes → List Bytes
extend_head c [] = (c ∷ []) ∷ []
extend_head c (p ∷ ps) = (c ∷ p) ∷ ps

-- The parts between the separators.
unfoldable pub split : ℕ → Bytes → List Bytes
split sep [] = [] ∷ []
split sep (c ∷ s) = let parts = split sep s in if c == sep then [] ∷ parts else extend_head c parts

abbrev extend_key : ℕ → Option (Bytes × Bytes) → Option (Bytes × Bytes)
extend_key c none = none
extend_key c (some (k, v)) = some (c ∷ k, v)

-- A key and what stands behind the first `=`.
unfoldable pub cut : Bytes → Option (Bytes × Bytes)
cut [] = none
cut (c ∷ s) = let rest = cut s in if c == b'=' then some ([], s) else extend_key c rest

-- The reader is outside an escape, behind its `%`, or behind its first digit.
pub data Mode : Type 0 where
  plain percent : Mode
  high : ℕ → Mode

abbrev pub push : ℕ → Option Bytes → Option Bytes
push c none = none
push c (some s) = some (c ∷ s)

unfoldable pub unescape : Mode → Bytes → Option Bytes
unescape plain [] = some []
unescape percent [] = none
unescape (high h) [] = none
unescape plain (c ∷ s) =
    let escape = unescape percent s in
    let copy = push c (unescape plain s) in if c == b'%' then escape else copy
unescape percent (c ∷ s) = elim (digit_value c) [ none ↦ none | some h ↦ unescape (high h) s ]
unescape (high h) (c ∷ s) = elim (digit_value c) [
  | none ↦ none
  | some l ↦ push (h * 16 + l) (unescape plain s)
]

infixl 5 ◌>>=◌
abbrev pub ◌>>=◌ {ℓ κ} : {A : Type ℓ} {B : Type κ} → Option A → (A → Option B) → Option B
none >>= f = none
some a >>= f = f a

unfoldable pub read_pair : Bytes → Option (Bytes × Bytes)
unfolding cut unescape
read_pair part = do
  (k, v) ← cut part
  key ← unescape plain k
  val ← unescape plain v
  some (key, val)

unfoldable pub read_pairs : List Bytes → Option (List (Bytes × Bytes))
unfolding read_pair
read_pairs [] = some []
read_pairs (p ∷ ps) = do kv ← read_pair p; kvs ← read_pairs ps; some (kv ∷ kvs)

-- The pairs that a query spells; the empty query spells none.
unfoldable pub read_query : Bytes → Option (List (Bytes × Bytes))
unfolding read_pairs split
read_query [] = some []
read_query (c ∷ q) = read_pairs (split b'&' (c ∷ q))

pub split-append :
    (sep : ℕ) (p rest : Bytes) → Lacks sep p → split sep (p ++ sep ∷ rest) ≡ p ∷ split sep rest
unfolding split
split-append sep [] rest h = ground arith
split-append sep (c ∷ p) rest h = ground (arith, split-append sep p rest h.1)

pub split_last : (sep : ℕ) (p : Bytes) → Lacks sep p → split sep p ≡ p ∷ []
unfolding split
split_last sep [] h = refl
split_last sep (c ∷ p) h = ground (arith, split_last sep p h.1)

pub cut-append : (k v : Bytes) → Lacks b'=' k → cut (k ++ b'=' ∷ v) ≡ some (k, v)
unfolding cut
cut-append [] v h = refl
cut-append (c ∷ k) v h = ground (arith, cut-append k v h.1)
