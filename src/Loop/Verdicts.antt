-- ===== src/Loop/Verdicts.antt =====
-- What the comparison at the end of an iteration decides.
use itb_cpp.Base.Decimal.{decimal}
use itb_cpp.Base.{
  ◌+◌, ◌++◌, ◌∷◌, codes, ℕ, Bool, true, false, ◌≡◌, ◌≢◌, ◌⊎◌, inl, inr, refl, sym, ap, subst, ◌∙◌,
  Bytes, length, take, get_elem?, ◌==◌, ◌=s=◌, ◌||◌, not, =s=_refl, =s=_sound, ==_refl, Bool-cases,
}
use itb_cpp.Loop.Names.{Shape, shape_name}
use itb_cpp.Loop.Report.{hex_window, first_difference, first_difference_lem}
use itb_cpp.Loop.State.{Site, log_line}
use itb_cpp.Loop.Worker.{letters_iter}
use itb_cpp.Loop.Iterate.{Verdict, went, mismatch, settled, differ, mismatch_line}

differ-cases :
    (plaintext got : Bytes)
    → ((got ≡ plaintext) × (differ plaintext got ≡ false))
      ⊎ ((got ≢ plaintext) × (differ plaintext got ≡ true))
unfolding differ
differ-cases plaintext got = elim (Bool-cases (plaintext =s= got)) [
  | inl e ↦
      let same = sym (=s=_sound plaintext got e) in
      inl (
        same,
        subst (λ b. (not (length b == length plaintext) || not (plaintext =s= b)) ≡ false)
            (sym same) (rw (==_refl (length plaintext), =s=_refl plaintext) refl),
      )
  | inr other ↦ inr (
    λ same. clash (sym (=s=_refl plaintext) ∙ ap (λ b. plaintext =s= b) (sym same) ∙ other),
    rw other (or_true (not (length got == length plaintext))),
  )
]
  where
    clash : true ≢ false
    clash e = cc

    or_true : (b : Bool) → (b || true) ≡ true
    or_true true = refl
    or_true false = refl

-- The verdict on an iteration that brought `got` back, with the site that it leaves.
abbrev pub IsCompared : Site → ℕ → Shape → Bytes → Verdict × Site → Type 0
IsCompared st iter shape got r =
    let w = st.worker in
    ((got ≡ w.plaintext)
      × (r.0 ≡ went)
      × (r.1.run ≡ st.run)
      × (r.1.worker.iters ≡ w.iters + 1)
      × (r.1.worker.bytes_enc ≡ w.bytes_enc + length w.plaintext)
      × (r.1.worker.bytes_dec ≡ w.bytes_dec + length got))
    ⊎ ((got ≢ w.plaintext)
        × (r.0 ≡ mismatch)
        × (r.1.worker ≡ w)
        × ((off : ℕ) × (r.1.run.log
              ≡ (codes "DATA MISMATCH "
                  ++ letters_iter w iter
                  ++ codes " shape="
                  ++ shape_name shape
                  ++ codes ": want "
                  ++ decimal (length w.plaintext)
                  ++ codes " bytes, got "
                  ++ decimal (length got)
                  ++ codes " bytes, first difference at offset "
                  ++ decimal off
                  ++ codes ": want "
                  ++ hex_window w.plaintext off
                  ++ codes " got "
                  ++ hex_window got off)
                ∷ st.run.log)
            × (take off w.plaintext ≡ take off got)
            × (get_elem? w.plaintext off ≢ get_elem? got off)))

-- An iteration is counted if and only if the bytes that came back are the plaintext: one iteration
-- more, and the two sizes added to the bytes encrypted and decrypted. Otherwise the process is told to
-- end, the worker is as before, and one line is logged, which prints the two sizes and an offset: that
-- of the first place where the plaintext and the bytes differ.
pub settled_lem :
    (st : Site) (iter : ℕ) (shape : Shape) (got : Bytes)
    → IsCompared st iter shape got (settled st iter shape got)
unfolding settled log_line mismatch_line
settled_lem st iter shape got = elim (differ-cases st.worker.plaintext got) [
  | inl (same, e) ↦ rw e (inl (same, refl, refl, refl, refl, refl))
  | inr (other, e) ↦
      let (before, here) = first_difference_lem st.worker.plaintext got in
      rw e (
        inr (
          other,
          refl,
          refl,
          (
            first_difference st.worker.plaintext got,
            refl,
            before,
            elim here [ inl same ↦ absurd (other (sym same)) | inr ne ↦ ne ],
          ),
        ))
]
