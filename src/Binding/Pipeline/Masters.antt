-- ===== src/Binding/Pipeline/Masters.antt =====
-- `init_keys` hands the master keys over as one flat buffer and a list of lengths.
use itb_cpp.Base.{
  ℕ, suc, ◌+◌, ◌≤◌, ◌≡◌, refl, sym, ap, ◌∙◌, arith, List, [], ◌∷◌, ◌++◌, ◌==◌, false, append_assoc,
  Bytes, length, take, drop, length-append, take-append_length, drop-append_length, length-drop,
}
use itb_cpp.Binding.Memory.{zeros, overwrite, length-zeros}
use itb_cpp.Binding.Pipeline.{lay_out, master_lens, total_len, flatten, copy_at}

-- The keys one behind the other.
abbrev pub concat : List Bytes → Bytes
concat [] = []
concat (m ∷ ms) = m ++ concat ms

total_len-concat : (ms : List Bytes) (total : ℕ) → total_len total ms ≡ total + length (concat ms)
unfolding total_len
total_len-concat [] total = omega arith
total_len-concat (m ∷ ms) total =
    omega (arith, total_len-concat ms (total + length m), length-append {0} m (concat ms))

overwrite-append :
    (m rest : Bytes) → length m ≤ length rest → overwrite m rest ≡ m ++ drop (length m) rest
unfolding overwrite
overwrite-append [] rest h = refl
overwrite-append (x ∷ m) [] h = absurd (omega arith)
overwrite-append (x ∷ m) (r ∷ rest) h = ap (◌∷◌ x) (overwrite-append m rest (omega arith))

copy_at-append :
    (m done rest : Bytes)
    → length m ≤ length rest
    → copy_at (length done) m (done ++ rest) ≡ (done ++ m) ++ drop (length m) rest
copy_at-append m done rest h =
    rw (take-append_length done rest, drop-append_length done rest, overwrite-append m rest h)
      (sym (append_assoc done m (drop (length m) rest)))

-- With the keys so far in front, the loop puts the others behind them.
lay_out-append :
    (ms : List Bytes) (off : ℕ) (done rest : Bytes)
    → off ≡ length done
    → length rest ≡ length (concat ms)
    → lay_out ms off (done ++ rest) ≡ done ++ concat ms
unfolding lay_out
lay_out-append [] off done [] e h = refl
lay_out-append [] off done (r ∷ rest) e h = absurd (omega arith)
lay_out-append ([] ∷ ms) off done rest e h = lay_out-append ms off done rest e h
lay_out-append ((x ∷ m) ∷ ms) off done rest e h =
    let nonzero : (suc (length m) == 0) ≡ false = ground arith in
    let sizes = length-append {0} m (concat ms) in
    rw nonzero (
      ap (lay_out ms (off + suc (length m))) (
        ap (λ o. copy_at o (x ∷ m) (done ++ rest)) e
        ∙ copy_at-append (x ∷ m) done rest (omega (arith, sizes)))
      ∙ lay_out-append ms (off + suc (length m)) (done ++ x ∷ m) (drop (suc (length m)) rest)
          (omega (arith, length-append {0} done (x ∷ m)))
          (omega (arith, sizes, length-drop {0} (suc (length m)) rest))
      ∙ append_assoc done (x ∷ m) (concat ms))

-- What the library can read back from the buffer and the lengths.
unfoldable pub unflatten : List ℕ → Bytes → List Bytes
unflatten [] flat = []
unflatten (n ∷ ns) flat = take n flat ∷ unflatten ns (drop n flat)

unflatten-concat : (ms : List Bytes) → unflatten (master_lens ms) (concat ms) ≡ ms
unfolding unflatten master_lens
unflatten-concat [] = refl
unflatten-concat (m ∷ ms) =
    rw (take-append_length m (concat ms), drop-append_length m (concat ms), unflatten-concat ms)

flatten-concat : (ms : List Bytes) → flatten ms ≡ concat ms
unfolding flatten
flatten-concat ms =
    lay_out-append ms 0 [] (zeros (total_len 0 ms)) refl
      (length-zeros (total_len 0 ms) ∙ omega (arith, total_len-concat ms 0))

-- The buffer holds the keys in their order with nothing before, between or behind them, and with
-- the lengths it gives every key back; an empty key is no exception.
pub unflatten-flatten :
    (masters : List Bytes)
    → (flatten masters ≡ concat masters)
      × (unflatten (master_lens masters) (flatten masters) ≡ masters)
unflatten-flatten masters =
    (flatten-concat masters, rw (flatten-concat masters) (unflatten-concat masters))
