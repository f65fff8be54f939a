-- ===== src/Tests/Calls.antt =====
-- The dispatch sites, the failure path and the option strings at concrete inputs.
use itb_cpp.Base.{
  ℕ, ◌≤◌, ◌<◌, ◌≡◌, ◌≢◌, ◌⊎◌, refl, arith, [], ◌∷◌, Bytes, some, length, codes, u64_mod, ◌+◌,
}
use itb_cpp.Base.Int.{pos}
use itb_cpp.Binding.Status.{to_status}
use itb_cpp.Binding.World.{World, Reply, ret, raise, itb_error, ciphered, world}
use itb_cpp.Binding.Memory.{overwrite}
use itb_cpp.Binding.Errors.{error_text, out_cap, out_bound, out_bound_lem, check}
use itb_cpp.Binding.Errors.Diagnosis.{check_lem}
use itb_cpp.Binding.Opts.{set_all, no_opts}
use itb_cpp.Binding.Opts.Query.{read_query}
use itb_cpp.Binding.Opts.RoundTrip.{read_query-set_all}
use itb_cpp.Binding.Buffers.{cipher_call, cipher_call_into, buf_call, blob_cap}
use itb_cpp.Binding.Buffers.Exact.{cipher_call-Answers, buf_call-Answers}
use itb_cpp.Binding.Buffers.Bounds.{Dispatched, cipher_call-Dispatched, cipher_call_into_lem}
use itb_cpp.Binding.Buffers.Wiping.{IsClean}
use itb_cpp.Binding.Pipeline.{Pipeline, init, init_keys, save, rekey, flatten, master_lens}
use itb_cpp.Binding.Pipeline.Masters.{concat, unflatten, unflatten-flatten}
use itb_cpp.Binding.Pipeline.Secrets.{key_material-IsClean}
use itb_cpp.Tests.Mirror.{Mirror, mirror, start, answer, answer-Answers, told, mirror-Diagnoses}

abbrev echo : Bytes → ℕ → Mirror → Reply × Mirror
echo src cap l = (answer src cap, l)

abbrev text : Bytes
text = codes "hello"

cipher_call-Answers_example :
    let cap = out_cap 5 in
    ((length text ≤ cap)
      × (w' : World Mirror) × (cipher_call mirror (echo text) text text start ≡ ret text w'))
    ⊎ ((cap < length text)
        × (w' : World Mirror) × (cipher_call mirror (echo text) text text start ≡ ret text w'))
cipher_call-Answers_example =
    cipher_call-Answers mirror (echo text) (λ l. text) (answer-Answers text) text text start

cipher_call-Dispatched_example :
    Dispatched (out_cap 5) 5 [] (world (cipher_call mirror (echo text) text text start)).calls
unfolding out_cap
cipher_call-Dispatched_example = cipher_call-Dispatched mirror (echo text) text text start

abbrev record_call : ℕ → Mirror → (Reply × ℕ) × Mirror
record_call cap l = ((answer text cap, 7), l)

buf_call-Answers_example :
    ((length text ≤ blob_cap)
      × (w' : World Mirror) × (buf_call mirror (λ a. []) record_call text start ≡ ret (text, 7) w'))
    ⊎ ((blob_cap < length text)
        × ((w' : World Mirror) × (buf_call mirror (λ a. []) record_call text start
              ≡ ret (text, 7) w')))
buf_call-Answers_example =
    buf_call-Answers mirror (λ a. []) record_call (λ l. text) (answer-Answers text) text start

abbrev pipe : Pipeline
pipe = record { handle = 7 }

key_material-IsClean_example :
    IsClean (world (init mirror text no_opts start))
    × IsClean (world (init_keys mirror text (text ∷ text ∷ []) no_opts start))
    × IsClean (world (save mirror pipe start))
    × IsClean (world (rekey mirror pipe text text start))
key_material-IsClean_example =
    key_material-IsClean mirror text (text ∷ text ∷ []) no_opts pipe text text start tt

cipher_call_into_lem_example :
    ((answer text 8).rc ≡ pos 0)
    × (5 ≤ 8)
    × (length (codes "hello...") ≡ length (codes "........"))
    × (ciphered (pos 0) 8 ∷ [] ≡ ciphered (pos 0) 8 ∷ [])
unfolding check overwrite
cipher_call_into_lem_example =
    cipher_call_into_lem mirror (echo text) (codes "........") text start 5 (codes "hello...")
      (record start { calls = ciphered (pos 0) 8 ∷ [] }) (unfold cipher_call_into in refl)

read_query-set_all_example :
    read_query (set_all no_opts ((codes "k&", codes "=v") ∷ [])).query
    ≡ some ((codes "k&", codes "=v") ∷ [])
read_query-set_all_example =
    read_query-set_all ((codes "k&", codes "=v") ∷ [])
      (((omega arith, (omega arith, tt)), (omega arith, (omega arith, tt))), tt)

unflatten-flatten_example :
    (flatten (text ∷ [] ∷ text ∷ []) ≡ concat (text ∷ [] ∷ text ∷ []))
    × (unflatten (master_lens (text ∷ [] ∷ text ∷ [])) (flatten (text ∷ [] ∷ text ∷ []))
        ≡ text ∷ [] ∷ text ∷ [])
unflatten-flatten_example = unflatten-flatten (text ∷ [] ∷ text ∷ [])

check_lem_example :
    ((pos 8 ≡ pos 0) × (check mirror (pos 8) text start ≡ ret tt start))
    ⊎ ((pos 8 ≢ pos 0)
        × (check mirror (pos 8) text start
            ≡ raise (itb_error (to_status (pos 8)) (error_text mirror (pos 8) text told)) start))
check_lem_example = check_lem mirror (λ l. told) mirror-Diagnoses (pos 8) text start

out_bound_lem_example :
    ((131077 + 1 < u64_mod) × (out_bound 5 ≡ 131078)) ⊎ ((u64_mod ≤ 131078) × (out_bound 5 ≡ 5))
out_bound_lem_example = out_bound_lem 5 (omega arith)
