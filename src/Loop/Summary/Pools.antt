-- ===== src/Loop/Summary/Pools.antt =====
-- The pool counters of loop/summary.cpp: two snapshots and their difference. A snapshot is read by
-- index; `none` stands for an index past its end.
use itb_cpp.Base.{
  Bool, true, false, ℕ, zero, suc, ◌+◌, ◌*◌, ◌≤◌, ◌<◌, ◌≡◌, inl, inr, refl, arith, List, [], ◌∷◌,
  Option, some, none, length, get_elem?, ltb, ◌==◌, ◌||◌, not, if◌then◌else◌, replicate, Bool-cases,
}
use itb_cpp.Base.Int.{ℤ, pos, negsuc, ◌-ℤ◌}
use itb_cpp.Binding.World.{Library, M, pure, ◌>>=◌}
use itb_cpp.Binding.Runtime.{pool_stats_len, pool_stats, set_gc_percent}
use itb_cpp.Loop.Worker.{caught}

pub record PoolDelta : Type 0 where
  pub tiers : ℕ
  pub starter : List ℤ
  pub get : List ℤ
  pub fresh : List ℤ
  pub regrow : List ℤ
  pub new_bytes : List ℤ
  pub buf_get : ℤ
  pub buf_new : ℤ
  pub buf_regrow : ℤ
  pub buf_regrow_bytes : ℤ
  pub chunk_get : ℤ
  pub chunk_new : ℤ
  pub chunk_regrow : ℤ
  pub chunk_regrow_bytes : ℤ

abbrev pub no_delta : PoolDelta
no_delta = record {
  tiers = 0;
  starter = [];
  get = [];
  fresh = [];
  regrow = [];
  new_bytes = [];
  buf_get = pos 0;
  buf_new = pos 0;
  buf_regrow = pos 0;
  buf_regrow_bytes = pos 0;
  chunk_get = pos 0;
  chunk_new = pos 0;
  chunk_regrow = pos 0;
  chunk_regrow_bytes = pos 0;
}

-- `s[i] - w[i]`.
abbrev pub minus : Option ℤ → Option ℤ → Option ℤ
minus (some a) (some b) = some (a -ℤ b)
minus _ _ = none

abbrev pub change : List ℤ → List ℤ → ℕ → Option ℤ
change w s i = minus (get_elem? s i) (get_elem? w i)

abbrev joined : Option ℤ → Option (List ℤ) → Option (List ℤ)
joined (some a) (some as') = some (a ∷ as')
joined _ _ = none

-- One of the five slots of each tier, in the rounds from tier `i` on.
unfoldable pub column : (ℕ → Option ℤ) → ℕ → ℕ → ℕ → Option (List ℤ)
column at off zero i = some []
column at off (suc rounds) i = joined (at (1 + 5 * i + off)) (column at off rounds (suc i))

infixl 5 ◌>>-◌
unfoldable pub ◌>>-◌ : {A B : Type 0} → Option A → (A → Option B) → Option B
none >>- f = none
some a >>- f = f a

unfoldable pub tier_deltas : List ℤ → List ℤ → ℕ → Option PoolDelta
unfolding column
tier_deltas w s tiers = column (get_elem? s) 0 tiers 0 >>- λ starter.
    column (change w s) 1 tiers 0 >>- λ get. column (change w s) 2 tiers 0 >>- λ fresh.
    column (change w s) 3 tiers 0 >>- λ regrow. column (change w s) 4 tiers 0 >>- λ new_bytes.
    change w s (1 + 5 * tiers) >>- λ buf_get. change w s (1 + 5 * tiers + 1) >>- λ buf_new.
    change w s (1 + 5 * tiers + 2) >>- λ buf_regrow.
    change w s (1 + 5 * tiers + 3) >>- λ buf_regrow_bytes.
    change w s (1 + 5 * tiers + 4) >>- λ chunk_get. change w s (1 + 5 * tiers + 5) >>- λ chunk_new.
    change w s (1 + 5 * tiers + 6) >>- λ chunk_regrow.
    change w s (1 + 5 * tiers + 7) >>- λ chunk_regrow_bytes. some (record {
      tiers = tiers;
      starter = starter;
      get = get;
      fresh = fresh;
      regrow = regrow;
      new_bytes = new_bytes;
      buf_get = buf_get;
      buf_new = buf_new;
      buf_regrow = buf_regrow;
      buf_regrow_bytes = buf_regrow_bytes;
      chunk_get = chunk_get;
      chunk_new = chunk_new;
      chunk_regrow = chunk_regrow;
      chunk_regrow_bytes = chunk_regrow_bytes;
    })

-- `w` is the snapshot behind the warmup, `s` the one at the end. A delta that is not filled in stays
-- as it was constructed.
unfoldable pub pool_diff : List ℤ → List ℤ → Option PoolDelta
pool_diff w s =
    if ltb (length w) 9 || not (length s == length w) then some no_delta else elim (get_elem? s 0) [
      | none ↦ none
      | some (negsuc n) ↦ some no_delta
      | some (pos tiers) ↦
          if ltb 64 tiers || ltb (length s) (1 + 5 * tiers + 8)
          then some no_delta
          else tier_deltas w s tiers
    ]

module _ {L : Type 0} (lib : Library L) where
  -- The zeroed buffer, unless the library has no slots.
  unfoldable pub pool_snapshot_alloc : M L (Option (List ℤ))
  pool_snapshot_alloc = pool_stats_len lib >>= λ slots.
      pure (if slots == 0 then none else some (replicate slots (pos 0)))

  -- The library is taken to write nothing when it fails.
  unfoldable pub pool_snapshot_take : List ℤ → M L (Bool × List ℤ)
  pool_snapshot_take dst = caught [] (pool_stats lib dst) >>= λ r. elim r [
    | inl failure ↦ pure (false, dst)
    | inr (written, filled) ↦ pure (true, filled)
  ]

  unfoldable pub effective_gogc : ℤ → M L ℤ
  effective_gogc (pos (suc n)) = pure (pos (suc n))
  effective_gogc flag = set_gc_percent lib (negsuc 0)

get_elem?-in : (s : List ℤ) (i : ℕ) → i < length s → (a : ℤ) × (get_elem? s i ≡ some a)
get_elem?-in [] i h = absurd (omega arith)
get_elem?-in (a ∷ s) zero h = (a, refl)
get_elem?-in (a ∷ s) (suc i) h = get_elem?-in s i (omega arith)

change-in :
    (w s : List ℤ) (i : ℕ) → i < length s → length s ≡ length w → (a : ℤ) × (change w s i ≡ some a)
change-in w s i h e =
    let (a, ea) = get_elem?-in s i h in
    let (b, eb) = get_elem?-in w i (omega arith) in (a -ℤ b, rw (ea, eb) refl)

column-in :
    (at : ℕ → Option ℤ) (off rounds i : ℕ)
    → ((j : ℕ) → j < i + rounds → (a : ℤ) × (at (1 + 5 * j + off) ≡ some a))
    → (as' : List ℤ) × (column at off rounds i ≡ some as') × (length as' ≡ rounds)
unfolding column
column-in at off zero i h = ([], refl, refl)
column-in at off (suc rounds) i h =
    let (a, ea) = h i (omega arith) in
    let (as', es, l) = column-in at off rounds (suc i) (λ j lt. h j (omega arith)) in
    (a ∷ as', rw (ea, es) refl, omega arith)

-- The lists have one entry for each tier.
abbrev pub IsEven : PoolDelta → Type 0
IsEven d =
    (length d.starter ≡ d.tiers)
    × (length d.get ≡ d.tiers)
    × (length d.fresh ≡ d.tiers)
    × (length d.regrow ≡ d.tiers)
    × (length d.new_bytes ≡ d.tiers)

bind-some :
    {A B : Type 0} (f : A → Option B) {o : Option A} {a : A} {b : B}
    → o ≡ some a
    → f a ≡ some b
    → o >>- f ≡ some b
unfolding ◌>>-◌
bind-some f e h = rw e h

tier_deltas-in :
    (w s : List ℤ) (tiers : ℕ)
    → 1 + 5 * tiers + 8 ≤ length s
    → length s ≡ length w
    → (d : PoolDelta) × (tier_deltas w s tiers ≡ some d) × (d.tiers ≡ tiers) × IsEven d
unfolding tier_deltas
tier_deltas-in w s tiers h e =
    let (starter, e0, l0) =
      column-in (get_elem? s) 0 tiers 0 (λ j lt. get_elem?-in s _ (omega arith)) in
    let (get, e1, l1) =
      column-in (change w s) 1 tiers 0 (λ j lt. change-in w s _ (omega arith) e) in
    let (fresh, e2, l2) =
      column-in (change w s) 2 tiers 0 (λ j lt. change-in w s _ (omega arith) e) in
    let (regrow, e3, l3) =
      column-in (change w s) 3 tiers 0 (λ j lt. change-in w s _ (omega arith) e) in
    let (new_bytes, e4, l4) =
      column-in (change w s) 4 tiers 0 (λ j lt. change-in w s _ (omega arith) e) in
    let (a0, f0) = change-in w s (1 + 5 * tiers) (omega arith) e in
    let (a1, f1) = change-in w s (1 + 5 * tiers + 1) (omega arith) e in
    let (a2, f2) = change-in w s (1 + 5 * tiers + 2) (omega arith) e in
    let (a3, f3) = change-in w s (1 + 5 * tiers + 3) (omega arith) e in
    let (a4, f4) = change-in w s (1 + 5 * tiers + 4) (omega arith) e in
    let (a5, f5) = change-in w s (1 + 5 * tiers + 5) (omega arith) e in
    let (a6, f6) = change-in w s (1 + 5 * tiers + 6) (omega arith) e in
    let (a7, f7) = change-in w s (1 + 5 * tiers + 7) (omega arith) e in
    (
      record {
        tiers = tiers;
        starter = starter;
        get = get;
        fresh = fresh;
        regrow = regrow;
        new_bytes = new_bytes;
        buf_get = a0;
        buf_new = a1;
        buf_regrow = a2;
        buf_regrow_bytes = a3;
        chunk_get = a4;
        chunk_new = a5;
        chunk_regrow = a6;
        chunk_regrow_bytes = a7;
      },
      bind-some _ e0 (
          bind-some _ e1 (
            bind-some _ e2 (
              bind-some _ e3 (
                bind-some _ e4 (
                  bind-some _ f0 (
                    bind-some _ f1 (
                      bind-some _ f2 (
                        bind-some _ f3 (
                          bind-some _ f4
                            (bind-some _ f5 (bind-some _ f6 (bind-some _ f7 refl)))))))))))),
      refl,
      (l0, l1, l2, l3, l4),
    )

-- Whatever the snapshots hold, their difference reads no slot past their ends; it has at most 64
-- tiers, and each of its lists has one entry for every tier.
pub pool_diff-InBounds :
    (w s : List ℤ) → (d : PoolDelta) × (pool_diff w s ≡ some d) × (d.tiers ≤ 64) × IsEven d
unfolding pool_diff
pool_diff-InBounds w s = elim (Bool-cases (ltb (length w) 9 || not (length s == length w))) [
  | inl e ↦ (no_delta, rw e refl, omega arith, (refl, refl, refl, refl, refl))
  | inr e ↦ let (first, e0) = get_elem?-in s 0 (ground (arith, e)) in by_first first e e0
]
  where
    by_first :
        (first : ℤ)
        → (ltb (length w) 9 || not (length s == length w)) ≡ false
        → get_elem? s 0 ≡ some first
        → (d : PoolDelta) × (pool_diff w s ≡ some d) × (d.tiers ≤ 64) × IsEven d
    by_first (negsuc n) e e0 =
        (no_delta, rw (e, e0) refl, omega arith, (refl, refl, refl, refl, refl))
    by_first (pos tiers) e e0 =
        elim (Bool-cases (ltb 64 tiers || ltb (length s) (1 + 5 * tiers + 8))) [
          | inl out ↦ (no_delta, rw (e, e0, out) refl, omega arith, (refl, refl, refl, refl, refl))
          | inr fits ↦
              let (d, ed, et, even) =
                tier_deltas-in w s tiers (ground (arith, fits)) (ground (arith, e)) in
              (d, rw (e, e0, fits) ed, ground (arith, fits, et), even)
        ]
