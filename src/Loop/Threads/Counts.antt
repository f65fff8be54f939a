-- ===== src/Loop/Threads/Counts.antt =====
-- Sums over the workers: what one worker's step changes, and what a sum at its limit says of each.
use itb_cpp.Base.{
  ◌≢◌, Bool, true, false, ℕ, zero, suc, ◌+◌, ◌*◌, ◌≤◌, ◌<◌, ◌≡◌, ◌⊎◌, inl, inr, refl, arith, List,
  [], ◌∷◌, some, get_elem?, set, length, replicate, All, or_else, subst, ap, Bool-cases,
}

module _ {A : Type 0} where
  pub tally : (A → ℕ) → List A → ℕ
  tally weight [] = 0
  tally weight (a ∷ rest) = weight a + tally weight rest

  pub tally-set :
      (weight : A → ℕ) (as' : List A) (i : ℕ) (a b : A)
      → get_elem? as' i ≡ some a
      → tally weight (set as' i b) + weight a ≡ tally weight as' + weight b
  unfolding tally
  tally-set weight [] i a b e = cc
  tally-set weight (x ∷ rest) zero a b e = ground (arith, e)
  tally-set weight (x ∷ rest) (suc i) a b e = omega (arith, tally-set weight rest i a b e)

  pub tally-replicate :
      (weight : A → ℕ) (n : ℕ) (a : A) → tally weight (replicate n a) ≡ n * weight a
  unfolding tally replicate
  tally-replicate weight zero a = omega arith
  tally-replicate weight (suc n) a = grind (arith, tally-replicate weight n a)

  -- A weight of at most 1.
  abbrev pub IsFlag : (A → ℕ) → Type 0
  IsFlag weight = (a : A) → weight a ≤ 1

  pub tally-le : (weight : A → ℕ) (as' : List A) → IsFlag weight → tally weight as' ≤ length as'
  unfolding tally
  tally-le weight [] f = omega arith
  tally-le weight (a ∷ rest) f = omega (arith, f a, tally-le weight rest f)

  -- Two flags that exclude each other.
  pub tally-apart :
      (weight other : A → ℕ) (as' : List A)
      → ((a : A) → weight a + other a ≤ 1)
      → tally weight as' + tally other as' ≤ length as'
  unfolding tally
  tally-apart weight other [] f = omega arith
  tally-apart weight other (a ∷ rest) f = omega (arith, f a, tally-apart weight other rest f)

  pub tally-most :
      (weight : A → ℕ) (most : ℕ) (as' : List A)
      → All (λ a. weight a ≤ most) as'
      → tally weight as' ≤ length as' * most
  unfolding tally
  tally-most weight most [] h = omega arith
  tally-most weight most (a ∷ rest) h = grind (arith, h.0, tally-most weight most rest h.1)

  pub tally-zero :
      (weight : A → ℕ) (as' : List A) → tally weight as' ≡ 0 → All (λ a. weight a ≡ 0) as'
  unfolding tally
  tally-zero weight [] e = tt
  tally-zero weight (a ∷ rest) e = (omega arith, tally-zero weight rest (omega arith))

  pub tally-full :
      (weight : A → ℕ) (as' : List A)
      → IsFlag weight
      → tally weight as' ≡ length as'
      → All (λ a. weight a ≡ 1) as'
  unfolding tally
  tally-full weight [] f e = tt
  tally-full weight (a ∷ rest) f e = (
    omega (arith, f a, tally-le weight rest f),
    tally-full weight rest f (omega (arith, f a, tally-le weight rest f)),
  )

  -- One with a positive weight.
  pub tally-find :
      (weight : A → ℕ) (as' : List A)
      → 0 < tally weight as'
      → (i : ℕ) × (a : A) × (get_elem? as' i ≡ some a) × (0 < weight a)
  unfolding tally
  tally-find weight [] h = absurd (omega arith)
  tally-find weight (a ∷ rest) h = elim (Bool-cases (is_zero (weight a))) [
    | inr more ↦ (0, a, refl, positive (weight a) more)
    | inl none ↦
        let (i, b, e, more) =
          tally-find weight rest (zero_rest (weight a) (tally weight rest) none h) in
        (suc i, b, e, more)
  ]
    where
      is_zero : ℕ → Bool
      is_zero zero = true
      is_zero (suc n) = false

      positive : (n : ℕ) → is_zero n ≡ false → 0 < n
      positive zero e = cc
      positive (suc n) e = omega arith

      zero_rest : (n m : ℕ) → is_zero n ≡ true → 0 < n + m → 0 < m
      zero_rest zero m e h = omega arith
      zero_rest (suc n) m e h = cc

  -- One that a flag leaves out, unless it counts them all.
  pub tally-short :
      (weight : A → ℕ) (as' : List A)
      → IsFlag weight
      → (tally weight as' ≡ length as')
        ⊎ (i : ℕ) × (a : A) × (get_elem? as' i ≡ some a) × (weight a ≡ 0)
  unfolding tally
  tally-short weight [] f = inl refl
  tally-short weight (a ∷ rest) f = elim (zero_or_one (weight a) (f a)) [
    | inl none ↦ inr (0, a, refl, none)
    | inr one ↦ elim (tally-short weight rest f) [
      | inl full ↦ inl (omega arith)
      | inr (i, b, e, none) ↦ inr (suc i, b, e, none)
    ]
  ]
    where
      zero_or_one : (n : ℕ) → n ≤ 1 → (n ≡ 0) ⊎ (n ≡ 1)
      zero_or_one zero h = inl refl
      zero_or_one (suc n) h = inr (omega arith)

  -- A worker elsewhere is another list of workers.
  pub set-differs :
      (as' : List A) (i : ℕ) (a b : A) → get_elem? as' i ≡ some a → b ≢ a → set as' i b ≢ as'
  set-differs [] i a b e ne same = cc
  set-differs (x ∷ rest) zero a b e ne same = ne cc
  set-differs (x ∷ rest) (suc i) a b e ne same = set-differs rest i a b e ne cc

  pub All-set :
      (P : A → Type 0) (as' : List A) (i : ℕ) (b : A) → All P as' → P b → All P (set as' i b)
  All-set P [] i b h p = tt
  All-set P (a ∷ rest) zero b h p = (p, h.1)
  All-set P (a ∷ rest) (suc i) b h p = (h.0, All-set P rest i b h.1 p)

  pub All-get_elem? :
      (P : A → Type 0) (as' : List A) (i : ℕ) (a : A) → All P as' → get_elem? as' i ≡ some a → P a
  All-get_elem? P [] i a h e = cc
  All-get_elem? P (x ∷ rest) zero a h e = subst P (ap (λ o. or_else o a) e) h.0
  All-get_elem? P (x ∷ rest) (suc i) a h e = All-get_elem? P rest i a h.1 e

  pub All-replicate : (P : A → Type 0) (n : ℕ) (a : A) → P a → All P (replicate n a)
  unfolding replicate
  All-replicate P zero a p = tt
  All-replicate P (suc n) a p = (p, All-replicate P n a p)

  pub tally-one :
      (weight : A → ℕ) (as' : List A) (i : ℕ) (a : A)
      → get_elem? as' i ≡ some a
      → weight a ≤ tally weight as'
  unfolding tally
  tally-one weight [] i a e = cc
  tally-one weight (x ∷ rest) zero a e = ground (arith, e)
  tally-one weight (x ∷ rest) (suc i) a e = omega (arith, tally-one weight rest i a e)

  -- Two members.
  pub tally-two :
      (weight : A → ℕ) (as' : List A) (i j : ℕ) (a b : A)
      → i ≢ j
      → get_elem? as' i ≡ some a
      → get_elem? as' j ≡ some b
      → weight a + weight b ≤ tally weight as'
  unfolding tally
  tally-two weight [] i j a b ne ei ej = cc
  tally-two weight (x ∷ rest) zero zero a b ne ei ej = absurd (ne refl)
  tally-two weight (x ∷ rest) zero (suc j) a b ne ei ej =
      ground (arith, ei, tally-one weight rest j b ej)
  tally-two weight (x ∷ rest) (suc i) zero a b ne ei ej =
      ground (arith, ej, tally-one weight rest i a ei)
  tally-two weight (x ∷ rest) (suc i) (suc j) a b ne ei ej =
      omega (arith, tally-two weight rest i j a b (λ e. ne (ap suc e)) ei ej)

  pub All-every : (P : A → Type 0) (as' : List A) → ((a : A) → P a) → All P as'
  All-every P [] f = tt
  All-every P (a ∷ rest) f = (f a, All-every P rest f)

  pub All-map : (P Q : A → Type 0) (as' : List A) → ((a : A) → P a → Q a) → All P as' → All Q as'
  All-map P Q [] f h = tt
  All-map P Q (a ∷ rest) f h = (f a h.0, All-map P Q rest f h.1)

  pub All-zip : (P Q : A → Type 0) (as' : List A) → All P as' → All Q as' → All (λ a. P a × Q a) as'
  All-zip P Q [] h g = tt
  All-zip P Q (a ∷ rest) h g = ((h.0, g.0), All-zip P Q rest h.1 g.1)
