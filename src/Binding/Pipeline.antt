-- ===== src/Binding/Pipeline.antt =====
-- src/pipeline.cpp: the handle lifecycle of `itb::Pipeline`, persistence, the cipher entries and
-- the profile records.
pub mod Secrets
pub mod Quiet
pub mod Opening
pub mod Masters
pub mod Ownership
use itb_cpp.Base.{
  Bool, ℕ, zero, suc, ◌+◌, List, [], ◌∷◌, ◌++◌, Option, Bytes, codes, ◌==◌, ◌&&◌, if◌then◌else◌,
  length, or_else, take, drop, map, not,
}
use itb_cpp.Base.Int.{ℤ, is_nat}
use itb_cpp.Binding.World.{
  Library, Reply, Opened, Call, pipe_opened, pipe_freed, pipe_closed, World, M, ret, pure, ◌>>=◌,
  ◌>>◌, ffi, ffi_entered, ffi_logged, release, finally,
}
use itb_cpp.Binding.Memory.{zeros, overwrite, c_string, wipe_bytes}
use itb_cpp.Binding.Errors.{check}
use itb_cpp.Binding.Opts.{Opts}
use itb_cpp.Binding.Buffers.{buf_call, cipher_call, cipher_call_into}

-- The handle 0 stands for none.
pub record Pipeline : Type 0 where
  pub handle : ℕ

abbrev pub no_pipeline : Pipeline
no_pipeline = record { handle = 0 }

abbrev is_empty : Bytes → Bool
is_empty b = length b == 0

-- The masters cross as a pair or not at all.
unfoldable pub masters_count : Bytes → Bytes → ℕ
masters_count perm wrap = if is_empty perm && is_empty wrap then 0 else 2

-- `std::copy` of one master to its place.
abbrev copy_at : ℕ → Bytes → Bytes → Bytes
copy_at off m flat = take off flat ++ overwrite m (drop off flat)

-- The loop of `init_keys` that lays the masters out behind one another.
unfoldable pub lay_out : List Bytes → ℕ → Bytes → Bytes
lay_out [] off flat = flat
lay_out (m ∷ ms) off flat =
    if is_empty m then lay_out ms off flat else lay_out ms (off + length m) (copy_at off m flat)

-- The lengths and their sum, by the first loop of `init_keys`.
unfoldable pub master_lens : List Bytes → List ℕ
master_lens [] = []
master_lens (m ∷ ms) = length m ∷ master_lens ms

unfoldable pub total_len : ℕ → List Bytes → ℕ
total_len total [] = total
total_len total (m ∷ ms) = total_len (total + length m) ms

unfoldable pub flatten : List Bytes → Bytes
unfolding lay_out total_len
flatten masters = lay_out masters 0 (zeros (total_len 0 masters))

-- The move constructor: the new object, and what is left of the other.
unfoldable pub move_construct : Pipeline → Pipeline × Pipeline
move_construct other = (record { handle = other.handle }, no_pipeline)

-- A constructing call that the library answers with 0 has opened the handle that it stores; a ghost
-- entry says so.
abbrev pub entry_of : ℤ → ℕ → List Call
entry_of rc h = if is_nat rc 0 then pipe_opened h ∷ [] else []

abbrev pub open_entry : Reply × ℕ → List Call
open_entry (r, h) = entry_of r.rc h

abbrev pub load_entry : Opened → List Call
load_entry r = entry_of r.rc (or_else r.handle 0)

module _ {L : Type 0} (lib : Library L) where
  -- `handle = 0;` and the call, as the lambda captures them.
  abbrev pub opening : (L → (Reply × Option ℕ) × L) → L → (Reply × ℕ) × L
  opening f l = let ((r, h), l') = f l in ((r, or_else h 0), l')

  unfoldable pub init : Bytes → Opts → M L Pipeline
  init profile opts = do
    (blob, handle) ←
        buf_call lib open_entry
          (λ cap. opening (lib.init (c_string profile) (c_string opts.query) cap))
          (codes "Pipeline::init")
    release (wipe_bytes blob)
    pure (record { handle = handle })

  -- The body of `init_keys`, inside the scope of the flat secret buffer.
  pub init_flat : Bytes → List ℕ → Bytes → Opts → M L Pipeline
  init_flat profile lens flat opts = do
    (blob, handle) ←
        buf_call lib open_entry
          (λ cap. opening (lib.init_keys (c_string profile) (c_string opts.query) flat lens cap))
          (codes "Pipeline::init_keys")
    release (wipe_bytes blob)
    pure (record { handle = handle })

  -- `SecretBuf` wipes itself on every way out.
  unfoldable pub init_keys : Bytes → List Bytes → Opts → M L Pipeline
  unfolding flatten
  init_keys profile masters opts =
      finally (init_flat profile (master_lens masters) (flatten masters) opts)
        (release (wipe_bytes (flatten masters)))

  unfoldable pub load : Bytes → Bytes → Bytes → M L Pipeline
  load blob perm wrap = do
    r ← ffi_entered load_entry (lib.load blob perm wrap (masters_count perm wrap))
    check lib r.rc (codes "Pipeline::load")
    pure (record { handle = or_else r.handle 0 })

  unfoldable pub load_f : Bytes → Bytes → Bytes → M L Pipeline
  load_f path perm wrap = do
    r ← ffi_entered load_entry (lib.load_f (c_string path) perm wrap (masters_count perm wrap))
    check lib r.rc (codes "Pipeline::load_f")
    pure (record { handle = or_else r.handle 0 })

  -- `if (handle_ != 0) (void)ITB_Triple_Free(handle_)`.
  pub free_handle : ℕ → M L (Unit {0})
  free_handle h =
      if h == 0 then pure tt else do _ ← ffi_logged (λ _. pipe_freed h) (lib.free h); pure tt

  -- `~Pipeline`.
  unfoldable pub destroy : Pipeline → M L Pipeline
  destroy p = do free_handle p.handle; pure no_pipeline

  -- `operator=(Pipeline &&)` on two objects; `same` is `this == &other`.
  unfoldable pub move_assign : Bool → Pipeline → Pipeline → M L (Pipeline × Pipeline)
  move_assign same this other =
      if same
      then pure (this, other)
      else do free_handle this.handle; pure (record { handle = other.handle }, no_pipeline)

  unfoldable pub close : Pipeline → M L (Unit {0})
  close p =
      if p.handle == 0
      then pure tt
      else do _ ← ffi_logged (λ _. pipe_closed p.handle) (lib.close p.handle); pure tt

  -- A call whose lambda captures nothing that it writes.
  abbrev bytes_call : (ℕ → L → Reply × L) → Bytes → M L Bytes
  bytes_call fn what = do
    r ← buf_call lib (λ a. []) (λ cap l. let (r, l') = fn cap l in ((r, tt {0}), l')) what
    pure r.0

  unfoldable pub save : Pipeline → M L Bytes
  save p = bytes_call (lib.save p.handle) (codes "Pipeline::save")

  unfoldable pub save_f : Pipeline → Bytes → M L (Unit {0})
  save_f p path = do
    rc ← ffi (lib.save_f p.handle (c_string path))
    check lib rc (codes "Pipeline::save_f")

  unfoldable pub max_workers : Pipeline → ℤ → M L (Unit {0})
  max_workers p n = do
    rc ← ffi (lib.max_workers p.handle n)
    check lib rc (codes "Pipeline::max_workers")

  unfoldable pub rekey : Pipeline → Bytes → Bytes → M L Bytes
  rekey p perm wrap = bytes_call (lib.rekey p.handle perm wrap) (codes "Pipeline::rekey")

  unfoldable pub encrypt_message : Pipeline → Bytes → M L Bytes
  encrypt_message p plain =
      cipher_call lib (lib.encrypt_message p.handle plain) plain (codes "Pipeline::encrypt_message")

  unfoldable pub decrypt_message : Pipeline → Bytes → M L Bytes
  decrypt_message p wire =
      cipher_call lib (lib.decrypt_message p.handle wire) wire (codes "Pipeline::decrypt_message")

  unfoldable pub encrypt_message_into : Pipeline → Bytes → Bytes → M L (ℕ × Bytes)
  encrypt_message_into p plain dst =
      cipher_call_into lib (lib.encrypt_message p.handle plain) dst
        (codes "Pipeline::encrypt_message_into")

  unfoldable pub decrypt_message_into : Pipeline → Bytes → Bytes → M L (ℕ × Bytes)
  decrypt_message_into p wire dst =
      cipher_call_into lib (lib.decrypt_message p.handle wire) dst
        (codes "Pipeline::decrypt_message_into")

  unfoldable pub encrypt_stream_one_shot : Pipeline → Bytes → M L Bytes
  encrypt_stream_one_shot p plain =
      cipher_call lib (lib.encrypt_stream p.handle plain) plain
        (codes "Pipeline::encrypt_stream_one_shot")

  unfoldable pub decrypt_stream_one_shot : Pipeline → Bytes → M L Bytes
  decrypt_stream_one_shot p wire =
      cipher_call lib (lib.decrypt_stream p.handle wire) wire
        (codes "Pipeline::decrypt_stream_one_shot")

  unfoldable pub encrypt_stream_one_shot_into : Pipeline → Bytes → Bytes → M L (ℕ × Bytes)
  encrypt_stream_one_shot_into p plain dst =
      cipher_call_into lib (lib.encrypt_stream p.handle plain) dst
        (codes "Pipeline::encrypt_stream_one_shot_into")

  unfoldable pub decrypt_stream_one_shot_into : Pipeline → Bytes → Bytes → M L (ℕ × Bytes)
  decrypt_stream_one_shot_into p wire dst =
      cipher_call_into lib (lib.decrypt_stream p.handle wire) dst
        (codes "Pipeline::decrypt_stream_one_shot_into")

  unfoldable pub inspect : Bytes → M L Bytes
  inspect blob = bytes_call (lib.inspect blob) (codes "inspect")

  unfoldable pub register_profile : Bytes → Bytes → M L (Unit {0})
  register_profile name json = do
    rc ← ffi (lib.register (c_string name) (c_string json))
    check lib rc (codes "register_profile")

  unfoldable pub lookup : Bytes → M L Bytes
  lookup name = bytes_call (lib.lookup (c_string name)) (codes "lookup")

  unfoldable pub profiles : M L Bytes
  profiles = bytes_call lib.profiles (codes "profiles")

  unfoldable pub hash_names : M L Bytes
  hash_names = bytes_call lib.hash_names (codes "hash_names")
