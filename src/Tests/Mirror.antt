-- ===== src/Tests/Mirror.antt =====
-- A concrete library: its sessions give back the bytes that were written, its ciphers the bytes of
-- their input, and it keeps the conventions that the theorems ask for.
use itb_cpp.Base.{
  Bool, true, false, ℕ, zero, suc, ◌<◌, ◌≡◌, ◌⊎◌, refl, arith, [], ◌∷◌, ◌++◌, Bytes, some, length,
  take, drop, leb, ltb, if◌then◌else◌, inl, inr, codes, ◌+◌, length-append, length-take,
  length-drop,
}
use itb_cpp.Base.Int.{ℤ, pos, is_nat}
use itb_cpp.Binding.World.{Library, World, Reply, Drained, Opened}
use itb_cpp.Binding.Buffers.Exact.{Answers}
use itb_cpp.Binding.Errors.Diagnosis.{Diagnoses}
use itb_cpp.Binding.Pipeline.Opening.{Constructs}
use itb_cpp.Binding.Stream.Progress.{EndsItself}
use itb_cpp.Loop.Worker.Rounds.{Spends}

-- What a session still holds, and whether it has been ended.
pub record Mirror : Type 0 where
  pub pending : Bytes
  pub over : Bool

-- The caller-allocated-buffer convention, for one output.
abbrev pub answer : Bytes → ℕ → Reply
answer out cap =
    if leb (length out) cap
    then record { rc = pos 0; len = some (length out); out = out }
    else record { rc = pos 5; len = some (length out); out = [] }

abbrev pub told : Bytes
told = codes "no"

abbrev at_end : Bytes → Bool → ℕ
at_end [] true = 1
at_end _ _ = 0

abbrev pub give : ℕ → Mirror → Drained × Mirror
give cap l = (
  record {
    rc = pos 0;
    len = some (length (take cap l.pending));
    fin = some (pos (at_end (drop cap l.pending) l.over));
    out = take cap l.pending;
  },
  record l { pending = drop cap l.pending },
)

abbrev pub opened_one : Opened
opened_one = record { rc = pos 0; handle = some 7 }

abbrev fine : Mirror → ℤ × Mirror
fine l = (pos 0, l)

abbrev pub mirror : Library Mirror
mirror = record {
  leftover = λ cap l. [];
  last_error = λ cap l. (
    if ltb (length told) cap
        then record { rc = pos 0; len = some (suc (length told)); out = told ++ 0 ∷ [] }
        else record { rc = pos 5; len = some (suc (length told)); out = [] },
    l,
  );
  version = λ cap l. (answer (codes "1") cap, l);
  drbg_auto_tier = λ cap l. (answer (codes "a") cap, l);
  set_memory_limit = λ n l. fine l;
  set_gc_percent = λ n l. fine l;
  set_gomaxprocs = λ n l. fine l;
  write_heap_profile = λ path l. fine l;
  pool_stats_len = λ l. (pos 3, l);
  pool_stats = λ cap l. ((pos 0, some 3, pos 1 ∷ pos 2 ∷ pos 3 ∷ []), l);
  init = λ profile opts cap l. ((answer (codes "blob") cap, some 7), l);
  init_keys = λ profile opts flat lens cap l. ((answer (codes "blob") cap, some 7), l);
  load = λ a b c n l. (opened_one, l);
  load_f = λ a b c n l. (opened_one, l);
  free = λ h l. fine l;
  close = λ h l. fine l;
  save = λ h cap l. (answer (codes "blob") cap, l);
  save_f = λ h path l. fine l;
  max_workers = λ h n l. fine l;
  rekey = λ h a b cap l. (answer (codes "blob") cap, l);
  encrypt_message = λ h src cap l. (answer src cap, l);
  decrypt_message = λ h src cap l. (answer src cap, l);
  encrypt_stream = λ h src cap l. (answer src cap, l);
  decrypt_stream = λ h src cap l. (answer src cap, l);
  encrypt_stream_begin = λ h l. (opened_one, record { pending = []; over = false });
  decrypt_stream_begin = λ h l. (opened_one, record { pending = []; over = false });
  stream_write = λ h b l. (pos 0, record l { pending = l.pending ++ b });
  stream_end = λ h l. (pos 0, record l { over = true });
  stream_read = λ h cap l. give cap l;
  stream_free = λ h l. fine l;
  inspect = λ b cap l. (answer (codes "{}") cap, l);
  register = λ a b l. fine l;
  lookup = λ a cap l. (answer (codes "{}") cap, l);
  profiles = λ cap l. (answer (codes "{}") cap, l);
  hash_names = λ cap l. (answer (codes "[\"areion512\"]") cap, l);
}

abbrev pub start : World Mirror
start = record { lib = record { pending = []; over = false }; released = []; calls = [] }

-- Its sessions end: behind the end, a read gives a byte while there is one, and then the finish.
pub mirror-EndsItself : (h : ℕ) → EndsItself mirror h (λ l. l.over ≡ true)
mirror-EndsItself h = record {
  ends = λ l z. refl;
  reads = λ cap l e room z. (e, last cap l.pending l.over e room);
}
  where
    last :
        (cap : ℕ) (b : Bytes) (over : Bool)
        → over ≡ true
        → 0 < cap
        → (is_nat (pos (at_end (drop cap b) over)) 0 ≡ false) ⊎ (0 < length (take cap b))
    last zero b over e room = absurd (omega arith)
    last (suc cap) [] true e room = inl refl
    last (suc cap) [] false e room = absurd (cc (e))
    last (suc cap) (x ∷ b) over e room = inr (omega arith)

-- Its answers keep the convention.
pub answer-Answers :
    {L : Type 0} (out : Bytes) → Answers {L = L} (λ cap l. answer out cap) (λ cap l. l) (λ l. out)
answer-Answers out = record {
  fits = λ cap l h. ground arith;
  small = λ cap l h. ground arith;
  again = λ cap l h. omega arith;
}

pub mirror-Diagnoses : Diagnoses mirror (λ l. told)
mirror-Diagnoses = record {
  no_nul = λ l. (λ e. omega arith, (λ e. omega arith, tt));
  fits = λ cap l h. ground arith;
  small = λ cap l h. ground arith;
}

-- A session delivers what it holds and what is written to it.
abbrev pub held : ℕ → ℕ → Mirror → ℕ
held h rest l = length l.pending + rest

pub mirror-Spends : (h : ℕ) → Spends mirror h (held h)
mirror-Spends h = record {
  writes = λ src rest l z. let a = length-append {0} l.pending src in omega (arith, a);
  ends = λ l z. omega arith;
  reads = λ cap rest l z.
      let a = length-take {0} cap l.pending in
      let b = length-drop {0} cap l.pending in ground (arith, a, b);
}

-- Its blob fits wherever it is given.
pub mirror-Constructs : Constructs mirror
mirror-Constructs = record { fits = λ profile opts cap l z. ground (arith, z) }
