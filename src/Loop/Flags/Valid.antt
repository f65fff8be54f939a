-- ===== src/Loop/Flags/Valid.antt =====
-- What an accepted command line leaves in the configuration.
use itb_cpp.Base.{
  Bool, true, false, ℕ, zero, suc, ◌≤◌, ◌<◌, ◌≡◌, ◌⊎◌, inl, inr, refl, arith, List, [], ◌∷◌, Option,
  some, none, Bytes, codes, length, ◌==◌, ◌=s=◌, ◌||◌, if◌then◌else◌, int64_max, Bool-cases, subst,
  leb→le, =s=_sound,
}
use itb_cpp.Base.Int.{ℤ, pos, negsuc}
use itb_cpp.Binding.World.{Library, World, Outcome, ret, raise, spin}
use itb_cpp.Loop.Names.{Shape}
use itb_cpp.Loop.State.{Config}
use itb_cpp.Loop.Size.{parse_size-bound}
use itb_cpp.Loop.Profiles.{narrow_shape, narrow_shape_lem, IsServed, profile_surface}
use itb_cpp.Loop.Flags.{RawFlags}
use itb_cpp.Loop.Flags.Argv.{Parsed, parsed, helped, refused, parse_argv}
use itb_cpp.Loop.Flags.Resolve.{
  started, reported, parse_flags, Checked, ◌>>=◌, pure, require, given, positive, not_less,
  worker_count, max_workers, one_of, memlimit_of, shape_for, resolve,
}

abbrev IsIn : ℤ → List ℕ → Type 0
IsIn z [] = ⊥
IsIn z (n ∷ ns) = (z ≡ pos n) ⊎ IsIn z ns

abbrev pub IsCount : ℤ → Type 0
IsCount z = (n : ℕ) × (z ≡ pos n)

-- The profile that was looked up names the surface.
abbrev pub IsSurface : {L : Type 0} → Library L → Bytes → Shape → Type 0
IsSurface {L} lib profile surface =
    (w : World L) × (w' : World L) × (profile_surface lib profile w ≡ ret (inr surface) w')

abbrev pub IsServedBy : {L : Type 0} → Library L → Bytes → Shape → Type 0
IsServedBy lib profile shape =
    (profile ≡ []) ⊎ ((surface : Shape) × IsSurface lib profile surface × IsServed surface shape)

abbrev pub IsValid : {L : Type 0} → Library L → Config → Type 0
IsValid lib cfg =
    (0 < cfg.duration_ns)
    × (1 ≤ cfg.workers)
    × (cfg.workers ≤ max_workers)
    × (cfg.workers_requested ≡ pos cfg.workers)
    × (1 ≤ cfg.payload)
    × (cfg.payload ≤ int64_max)
    × (cfg.memlimit ≤ int64_max)
    × (cfg.chunk_size ≤ int64_max)
    × IsCount cfg.gogc
    × IsCount cfg.gomaxprocs
    × IsIn cfg.key_bits (0 ∷ 512 ∷ 1024 ∷ 2048 ∷ [])
    × IsIn cfg.nonce_bits (0 ∷ 128 ∷ 256 ∷ 512 ∷ [])
    × IsIn cfg.blob_mode (1 ∷ 2 ∷ [])
    × IsIn cfg.barrier_fill (0 ∷ 1 ∷ 2 ∷ 4 ∷ 8 ∷ 16 ∷ 32 ∷ [])
    × ((cfg.interlock ≡ []) ⊎ ((cfg.interlock ≡ codes "48") ⊎ (cfg.interlock ≡ codes "168")))
    × IsServedBy lib cfg.profile cfg.shape

-- A value that is accepted has the property.
record Accepts {L A : Type 0} (m : Checked L A) (Q : A → Type 0) : Type 0 where
  accepts : (w : World L) (a : A) (w' : World L) → m w ≡ ret (inr a) w' → Q a

module _ {L A B : Type 0} where
  infixr 2 ◌|>◌
  ◌|>◌ :
      {Q : A → Type 0} {R : B → Type 0} {m : Checked L A} {f : A → Checked L B}
      → Accepts m Q
      → ((a : A) → Q a → Accepts (f a) R)
      → Accepts (m >>= f) R
  unfolding ◌>>=◌
  ◌|>◌ {Q} {R} {m} {f} h k = record { accepts = λ w b w' e. through w b w' (m w) refl e }
    where
      through :
          (w : World L) (b : B) (w' : World L) (o : Outcome L (Bytes ⊎ A))
          → m w ≡ o
          → elim o [
            | ret (inl message) w1 ↦ ret (inl message) w1
            | ret (inr a) w1 ↦ f a w1
            | raise e w1 ↦ raise e w1
            | spin w1 ↦ spin w1
          ]
            ≡ ret (inr b) w'
          → R b
      through w b w' (ret (inl message) w1) eo e = cc
      through w b w' (ret (inr a) w1) eo e = (k a (h.accepts w a w1 eo)).accepts w1 b w' e
      through w b w' (raise x w1) eo e = cc
      through w b w' (spin w1) eo e = cc

module _ {L : Type 0} where
  require-Accepts :
      (ok : Bool) (message : Bytes) → Accepts {L = L} (require ok message) (λ u. ok ≡ true)
  unfolding require
  require-Accepts true message = record { accepts = λ w a w' e. refl }
  require-Accepts false message = record { accepts = λ w a w' e. cc }

  given-Accepts :
      {A : Type 0} (o : Option A) (message : Bytes)
      → Accepts {L = L} (given o message) (λ a. o ≡ some a)
  unfolding given
  given-Accepts none message = record { accepts = λ w a w' e. cc }
  given-Accepts (some b) message = record { accepts = λ w a w' e. cc }

  pure-Accepts : {A : Type 0} (a : A) (Q : A → Type 0) → Q a → Accepts {L = L} (pure a) Q
  unfolding pure
  pure-Accepts {A = A} a Q q = record { accepts = λ w b w' e. subst Q (same e) q }
    where
      same :
          {w w' : World L} {b : A}
          → ◌≡◌ {A = Outcome L (Bytes ⊎ A)} (ret (inr a) w) (ret (inr b) w')
          → a ≡ b
      same e = cc

  if-Accepts :
      {A : Type 0} (b : Bool) (m k : Checked L A) (Q : A → Type 0)
      → (b ≡ true → Accepts m Q)
      → (b ≡ false → Accepts k Q)
      → Accepts (if b then m else k) Q
  if-Accepts true m k Q h h' = h refl
  if-Accepts false m k Q h h' = h' refl

  -- A value that nothing is known of.
  any-Accepts : {A : Type 0} (m : Checked L A) → Accepts m (λ a. Unit {0})
  any-Accepts m = record { accepts = λ w a w' e. tt }

  -- What has run is an answer of the step.
  ran-Accepts :
      {A : Type 0} (m : Checked L A)
      → Accepts m (λ a. (w : World L) × (w' : World L) × (m w ≡ ret (inr a) w'))
  ran-Accepts m = record { accepts = λ w a w' e. (w, w', e) }

positive_lem : (o : Option ℤ) (n : ℕ) → positive o ≡ some n → 0 < n
unfolding positive
positive_lem none n e = cc
positive_lem (some (pos zero)) n e = cc
positive_lem (some (pos (suc m))) n e = ground (arith, e)
positive_lem (some (negsuc m)) n e = cc

worker_count_lem :
    (z : ℤ) (n : ℕ) → worker_count z ≡ some n → (1 ≤ n) × (n ≤ max_workers) × (z ≡ pos n)
unfolding worker_count
worker_count_lem (pos m) n e = ground (arith, e)
worker_count_lem (negsuc m) n e = cc

not_less_lem : (z : ℤ) → not_less z ≡ true → IsCount z
unfolding not_less
not_less_lem (pos n) e = (n, refl)
not_less_lem (negsuc n) e = cc

one_of_lem : (ns : List ℕ) (z : ℤ) → one_of ns z ≡ true → IsIn z ns
unfolding one_of
one_of_lem [] z e = cc
one_of_lem (n ∷ ns) (negsuc m) e = inr (one_of_lem ns (negsuc m) e)
one_of_lem (n ∷ ns) (pos m) e = elim (Bool-cases (m == n)) [
  | inl same ↦ inl (ground (arith, same))
  | inr other ↦ inr (one_of_lem ns (pos m) (ground (arith, e, other)))
]

interlock_lem :
    (s : Bytes)
    → (s =s= [] || s =s= codes "48" || s =s= codes "168") ≡ true
    → (s ≡ []) ⊎ ((s ≡ codes "48") ⊎ (s ≡ codes "168"))
interlock_lem s e = elim (Bool-cases (s =s= [])) [
  | inl unset ↦ inl (=s=_sound s [] unset)
  | inr other ↦ elim (Bool-cases (s =s= codes "48")) [
    | inl narrow ↦ inr (inl (=s=_sound s (codes "48") narrow))
    | inr neither ↦ inr (inr (=s=_sound s (codes "168") (ground (arith, e, other, neither))))
  ]
]

module _ {L : Type 0} (lib : Library L) where
  memlimit_of-Accepts :
      (text : Bytes) (workers : ℕ) → Accepts (memlimit_of lib text workers) (λ l. l.1 ≤ int64_max)
  unfolding memlimit_of
  memlimit_of-Accepts text workers =
      if-Accepts (text =s= codes "auto") _ _ (λ l. l.1 ≤ int64_max)
        (λ _. pure-Accepts _ (λ l. l.1 ≤ int64_max) (ground arith))
        (λ _. given-Accepts _ _ |> λ limit e.
          pure-Accepts (false, limit) (λ l. l.1 ≤ int64_max) (parse_size-bound text limit e))

  shape_for-Accepts :
      (profile : Bytes) (shape : Shape)
      → Accepts (shape_for lib profile shape) (λ shape'. IsServedBy lib profile shape')
  unfolding shape_for
  shape_for-Accepts profile shape =
      if-Accepts (length profile == 0) _ _ (λ shape'. IsServedBy lib profile shape')
        (λ e. pure-Accepts shape (λ shape'. IsServedBy lib profile shape') (inl (empty profile e)))
        (λ _. (ran-Accepts (profile_surface lib profile)) |> (λ surface run.
          pure-Accepts (narrow_shape shape surface) (λ shape'. IsServedBy lib profile shape')
            (inr (surface, run, (narrow_shape_lem shape surface).0))))
    where
      empty : (s : Bytes) → (length s == 0) ≡ true → s ≡ []
      empty [] e = refl
      empty (c ∷ s) e = ground (arith, e)

  valid :
      (duration_of : Bytes → Option ℤ) (f : RawFlags)
      → Accepts (resolve lib duration_of f) (IsValid lib)
  unfolding resolve
  valid duration_of f = given-Accepts _ _ |> λ d ed. given-Accepts _ _ |> λ i ei.
      given-Accepts _ _ |> λ n en. given-Accepts _ _ |> λ s es. any-Accepts _ |> λ r er.
      require-Accepts _ _ |> λ _ eu1. given-Accepts _ _ |> λ p ep. require-Accepts _ _ |> λ _ eu2.
      memlimit_of-Accepts _ _ |> λ m em. require-Accepts _ _ |> λ _ eu3. any-Accepts _ |> λ x ex.
      any-Accepts _ |> λ y ey. shape_for-Accepts _ _ |> λ z ez. require-Accepts _ _ |> λ _ eu4.
      require-Accepts _ _ |> λ _ eu5. require-Accepts _ _ |> λ _ eu6.
      require-Accepts _ _ |> λ _ eu7. require-Accepts _ _ |> λ _ eu8. given-Accepts _ _ |> λ c ec.
      require-Accepts _ _ |> λ _ eu9. any-Accepts _ |> λ k ek. any-Accepts _ |> λ b eb.
      any-Accepts _ |> λ l el. pure-Accepts _ (IsValid lib) (
        positive_lem (duration_of f.duration) d ed,
        (worker_count_lem f.goroutines n en).0,
        (worker_count_lem f.goroutines n en).1,
        (worker_count_lem f.goroutines n en).2,
        leb→le 1 p eu2,
        parse_size-bound f.payload_size p ep,
        em,
        parse_size-bound f.chunk_size c ec,
        not_less_lem f.gogc eu3,
        not_less_lem f.gomaxprocs eu9,
        one_of_lem (0 ∷ 512 ∷ 1024 ∷ 2048 ∷ []) f.key_bits eu4,
        one_of_lem (0 ∷ 128 ∷ 256 ∷ 512 ∷ []) f.nonce_bits eu5,
        one_of_lem (1 ∷ 2 ∷ []) f.blob_mode eu6,
        one_of_lem (0 ∷ 1 ∷ 2 ∷ 4 ∷ 8 ∷ 16 ∷ 32 ∷ []) f.barrier_fill eu7,
        interlock_lem f.interlock eu8,
        ez,
      )

  -- Whatever the command line, the library and the parse of durations: a configuration that is
  -- accepted has a positive duration, 1 to 10 workers, as many as requested, a payload of at least 1
  -- byte, sizes that fit a signed 64-bit integer, no negative count, bit widths, modes and an
  -- interlock width from their lists, and, if a profile is named, a shape that is
  -- served by the surface that a lookup of that profile answered.
  pub parse_flags-IsValid :
      (duration_of : Bytes → Option ℤ) (args : List Bytes) (w : World L) (cfg : Config)
      (w' : World L)
      → parse_flags lib duration_of args w ≡ ret (inr cfg) w'
      → IsValid lib cfg
  unfolding parse_flags started reported
  parse_flags-IsValid duration_of args w cfg w' e = by_parse (parse_argv args) e
    where
      same :
          {cfg1 : Config} {w1 : World L}
          → ◌≡◌ {A = Outcome L ((ℤ × Bytes) ⊎ Config)} (ret (inr cfg1) w1) (ret (inr cfg) w')
          → cfg1 ≡ cfg
      same e = cc

      by_result :
          (f : RawFlags) (o : Outcome L (Bytes ⊎ Config))
          → resolve lib duration_of f w ≡ o
          → ◌≡◌ {A = Outcome L ((ℤ × Bytes) ⊎ Config)}
              (elim o [
                | ret r w1 ↦ ret (reported lib r) w1
                | raise x w1 ↦ raise x w1
                | spin w1 ↦ spin w1
              ])
              (ret (inr cfg) w')
          → IsValid lib cfg
      by_result f (ret (inl message) w1) eo e = cc
      by_result f (ret (inr cfg1) w1) eo e =
          subst (IsValid lib) (same e) ((valid duration_of f).accepts w cfg1 w1 eo)
      by_result f (raise x w1) eo e = cc
      by_result f (spin w1) eo e = cc

      by_parse : (p : Parsed) → started lib duration_of p w ≡ ret (inr cfg) w' → IsValid lib cfg
      by_parse (helped text) e = cc
      by_parse (refused text) e = cc
      by_parse (parsed f) e = by_result f (resolve lib duration_of f w) refl e
