-- ===== src/Binding/Pipeline/Opening.antt =====
-- The constructing entries of src/pipeline.cpp and the handles that the library has opened.
use itb_cpp.Base.{
  Bool, true, false, ℕ, ◌≤◌, ◌≡◌, ◌≢◌, ◌⊎◌, inl, inr, arith, List, ◌∷◌, ◌++◌, Option, some, none,
  Bytes, codes, length, or_else, ltb, ltb-false, ◌&&◌, subst,
}
use itb_cpp.Base.Int.{ℤ, pos, is_nat-cases}
use itb_cpp.Binding.Status.{Status}
use itb_cpp.Binding.World.{
  Library, World, Reply, Opened, Call, Outcome, ret, raise, spin, itb_error, invalid_argument, pure,
  throw, ◌>>=◌, ffi_entered, release,
}
use itb_cpp.Binding.World.Ways.{Ways, Leads, bind-Leads, before-Leads, known-Leads}
use itb_cpp.Binding.Memory.{wipe_bytes, zeros, overwrite, length-overwrite, length-zeros}
use itb_cpp.Binding.Errors.{check, is_too_small}
use itb_cpp.Binding.Errors.Throws.{check-cases}
use itb_cpp.Binding.Buffers.{Attempt, blob_cap, settle, buf_retry, buf_attempt, buf_call}
use itb_cpp.Binding.Opts.{Opts}
use itb_cpp.Binding.Pipeline.{Pipeline, entry_of, open_entry, load_entry, masters_count, init, load}
use itb_cpp.Binding.Pipeline.Ownership.{opened, freed, held, Balanced}
use itb_cpp.Binding.Pipeline.Quiet.{check-Quiet}

-- A session that the library opens comes with a blob that fits the buffer: where the blob does not
-- fit, the call fails, and the library itself closes the attempt.
pub record Constructs {L : Type 0} (lib : Library L) : Type 0 where
  pub fits :
      (profile opts : Bytes) (cap : ℕ) (l : L)
      → (lib.init profile opts cap l).0.0.rc ≡ pos 0
      → or_else (lib.init profile opts cap l).0.0.len 0 ≤ cap

-- Each handle has been opened as often as it has been freed or is held by these objects.
abbrev Holding : {L : Type 0} → List Pipeline → World L → Type 0
Holding objs w = Balanced w.calls objs

-- Behind a constructing call with this code and handle.
abbrev Answered : {L : Type 0} → List Pipeline → ℤ → ℕ → World L → Type 0
Answered objs rc h w =
    ((rc ≡ pos 0) × Holding (record { handle = h } ∷ objs) w) ⊎ ((rc ≢ pos 0) × Holding objs w)

or_else-le : (o : Option ℕ) (cap : ℕ) → or_else o 0 ≤ cap → or_else o cap ≤ cap
or_else-le none cap h = omega arith
or_else-le (some n) cap h = h

module _ {L : Type 0} (objs : List Pipeline) where
  entered :
      (rc : ℤ) (h : ℕ) (w : World L) (l : L)
      → Holding objs w
      → Answered objs rc h (record w { lib = l; calls = entry_of rc h ++ w.calls })
  entered rc h w l b = elim (is_nat-cases rc 0) [
    | inl (z, t) ↦ inl (z, rw t (λ k nz. unfold opened freed held in omega (arith, b k nz)))
    | inr (nz, t) ↦ inr (nz, rw t b)
  ]

  holds :
      (rc : ℤ) (h : ℕ) (w : World L)
      → rc ≡ pos 0
      → Answered objs rc h w
      → Holding (record { handle = h } ∷ objs) w
  holds rc h w z (inl (z', b)) = b
  holds rc h w z (inr (nz, b)) = absurd (nz z)

  -- The failing `check` opens nothing.
  refused :
      (lib : Library L) (rc : ℤ) (h : ℕ) (what : Bytes) (w w' : World L) (s : Status) (text : Bytes)
      → rc ≢ pos 0
      → check lib rc what w ≡ raise (itb_error s text) w'
      → Answered objs rc h w
      → Holding objs w'
  refused lib rc h what w w' s text nz t (inl (z, b)) = absurd (nz z)
  refused lib rc h what w w' s text nz t (inr (nz', b)) =
      subst (Ways {A = Unit {0}} (λ u w. Holding objs w) (Holding objs)) t
        ((check-Quiet lib {I = λ cs. Balanced cs objs} rc what).quiet w b)

  -- A buffer goes back when the scope is left.
  finally-outcome :
      {A : Type 0} (Q : A → List Call → Type 0) (E : List Call → Type 0) (buf : Bytes)
      (o : Outcome L A)
      → Ways (λ a w. Q a w.calls) (λ w. E w.calls) o
      → Ways
          (λ a w. Q a w.calls)
          (λ w. E w.calls)
          (elim o [
            | ret a w' ↦ (release buf >>= λ _. pure a) w'
            | raise e w' ↦ (release buf >>= λ _. throw {L = L} {A = A} e) w'
            | spin w' ↦ spin w'
          ])
  finally-outcome Q E buf (ret a w) h = h
  finally-outcome Q E buf (raise (itb_error status text) w) h = h
  finally-outcome Q E buf (raise (invalid_argument text) w) h = absurd h
  finally-outcome Q E buf (spin w) h = h

  module _ (lib : Library L) (fn : ℕ → L → (Reply × ℕ) × L)
      (fits : (cap : ℕ) (l : L)
        → (fn cap l).0.0.rc ≡ pos 0
        → or_else (fn cap l).0.0.len 0 ≤ cap) where
    -- An attempt that has succeeded holds its handle, and its length lies within the buffer.
    abbrev Tried : Attempt ℕ → World L → Type 0
    Tried a w = Answered objs a.rc a.captured w × (a.rc ≡ pos 0 → a.n ≤ length a.buf)

    retry-Leads :
        (n : ℕ) (buf : Bytes)
        → Leads (Holding objs) (buf_retry lib open_entry fn n buf) Tried (Holding objs)
    unfolding buf_retry
    retry-Leads n buf = record {
      leads = λ w b.
          let l = w.lib in
          let r = (fn n l).0 in
          (
            entered r.0.rc r.1 w (fn n l).1 b,
            λ z.
                rw (length-overwrite r.0.out (zeros n), length-zeros n)
                  (or_else-le r.0.len n (fits n l z)),
          );
    }

    -- What the first call has answered.
    abbrev First : (Reply × ℕ) → World L → Type 0
    First r w = Answered objs r.0.rc r.1 w × (r.0.rc ≡ pos 0 → or_else r.0.len 0 ≤ blob_cap)

    First-Leads : Leads (Holding objs) (ffi_entered open_entry (fn blob_cap)) First (Holding objs)
    First-Leads = record {
      leads = λ w b.
          let r = (fn blob_cap w.lib).0 in
          (entered r.0.rc r.1 w (fn blob_cap w.lib).1 b, fits blob_cap w.lib);
    }

    never : false ≡ true → ⊥
    never e = cc

    -- The code of a retry is not 0, so the library has nothing open from the first call.
    not_opened :
        (r : Reply × ℕ) (b : Bool) (w : World L)
        → is_too_small r.0.rc && b ≡ true
        → First r w
        → Holding objs w
    not_opened r b w e (inl (z, h), k) =
        absurd (never (subst (λ rc. is_too_small rc && b ≡ true) z e))
    not_opened r b w e (inr (nz, h), k) = h

    attempt-Leads : Leads (Holding objs) (buf_attempt lib open_entry fn) Tried (Holding objs)
    unfolding buf_attempt
    attempt-Leads =
        bind-Leads _ First Tried _ (ffi_entered open_entry (fn blob_cap)) _ First-Leads (λ r.
          known-Leads (First r) Tried (Holding objs)
            (is_too_small r.0.rc
              && ltb (length (overwrite r.0.out (zeros blob_cap))) (or_else r.0.len 0))
            {m = buf_retry lib open_entry fn (or_else r.0.len 0)
              (overwrite r.0.out (zeros blob_cap))}
            {k = pure (record {
              rc = r.0.rc;
              n = or_else r.0.len 0;
              buf = overwrite r.0.out (zeros blob_cap);
              captured = r.1;
            })}
            (λ again.
              before-Leads (First r) (Holding objs) Tried (Holding objs) _
                (λ w h. not_opened r _ w again h) (retry-Leads _ _))
            (λ once. record {
              leads = λ w h. (
                h.0,
                λ z. rw (length-overwrite r.0.out (zeros blob_cap), length-zeros blob_cap) (h.1 z),
              );
            }))

    -- The blob with the handle that is open, or a throw with nothing more open.
    abbrev Brought : Bytes × ℕ → World L → Type 0
    Brought r w = Holding (record { handle = r.1 } ∷ objs) w

    settle-Leads :
        (a : Attempt ℕ) (what : Bytes) → Leads (Tried a) (settle lib a what) Brought (Holding objs)
    unfolding settle
    settle-Leads a what = record {
      leads = λ w h. elim (check-cases lib a.rc what w) [
        | inl (z, t) ↦
            rw (t, ◌>>=◌, ltb-false (length a.buf) a.n (h.1 z)) (holds a.rc a.captured w z h.0)
        | inr (nz, (diag, w', t)) ↦
            rw (t, ◌>>=◌) (refused lib a.rc a.captured what w w' _ _ nz t h.0)
      ];
    }

    pub buf_call-Leads :
        (what : Bytes)
        → Leads (Holding objs) (buf_call lib open_entry fn what) Brought (Holding objs)
    unfolding buf_call
    buf_call-Leads what =
        bind-Leads _ Tried Brought _ (buf_attempt lib open_entry fn) _ attempt-Leads (λ a. record {
          leads = λ w h.
              finally-outcome (λ r cs. Balanced cs (record { handle = r.1 } ∷ objs))
                (λ cs. Balanced cs objs) (wipe_bytes a.buf) _ ((settle-Leads a what).leads w h);
        })

module _ {L : Type 0} (lib : Library L) where
  loaded :
      (objs : List Pipeline) (rc : ℤ) (h : ℕ) (what : Bytes) (w : World L)
      → Answered objs rc h w
      → Ways
          (λ p. Holding (p ∷ objs))
          (Holding objs)
          ((check lib rc what >>= λ _. pure (record { handle = h })) w)
  loaded objs rc h what w a = elim (check-cases lib rc what w) [
    | inl (z, t) ↦ rw (t, ◌>>=◌) (holds objs rc h w z a)
    | inr (nz, (diag, w', t)) ↦ rw (t, ◌>>=◌) (refused objs lib rc h what w w' _ _ nz t a)
  ]

  pub load-Leads :
      (objs : List Pipeline) (blob perm wrap : Bytes)
      → Leads (Holding objs) (load lib blob perm wrap) (λ p. Holding (p ∷ objs)) (Holding objs)
  unfolding load
  load-Leads objs blob perm wrap =
      bind-Leads {A = Opened} _ (λ r. Answered objs r.rc (or_else r.handle 0))
        (λ p. Holding (p ∷ objs)) _
        (ffi_entered load_entry (lib.load blob perm wrap (masters_count perm wrap))) _
        (record {
          leads = λ w b.
              let r = lib.load blob perm wrap (masters_count perm wrap) w.lib in
              entered objs r.0.rc (or_else r.0.handle 0) w r.1 b;
        })
        (λ r. record {
          leads = λ w a. loaded objs r.rc (or_else r.handle 0) (codes "Pipeline::load") w a;
        })

module _ {L : Type 0} (lib : Library L) (law : Constructs lib) where
  -- A pipeline comes with the handle that the library has opened; a throw leaves none open.
  pub init-Leads :
      (objs : List Pipeline) (profile : Bytes) (opts : Opts)
      → Leads (Holding objs) (init lib profile opts) (λ p. Holding (p ∷ objs)) (Holding objs)
  unfolding init
  init-Leads objs profile opts =
      bind-Leads _ (λ r. Holding (record { handle = r.1 } ∷ objs)) (λ p. Holding (p ∷ objs)) _ _ _
        (buf_call-Leads objs lib _ (λ cap l z. law.fits _ _ cap l z) _)
        (λ r. record { leads = λ w b. b })
