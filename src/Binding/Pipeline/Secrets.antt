-- ===== src/Binding/Pipeline/Secrets.antt =====
-- The entries of src/pipeline.cpp that move key material, and the storage that they give back.
use itb_cpp.Base.{ℕ, List, Bytes}
use itb_cpp.Binding.World.{Library, World, world}
use itb_cpp.Binding.World.Keeps.{Keeps, keeps_rules}
use itb_cpp.Binding.Opts.{Opts}
use itb_cpp.Binding.Buffers.Wiping.{
  IsClean, IsClean-IsStable, release_wiped-IsClean, buf_call-IsClean,
}
use itb_cpp.Binding.Pipeline.{Pipeline, init, init_flat, init_keys, save, rekey}

module _ {L : Type 0} (lib : Library L) where
  ruleset clean_rules = (keeps_rules, release_wiped-IsClean, buf_call-IsClean, IsClean-IsStable)

  init-IsClean : (profile : Bytes) (opts : Opts) → Keeps IsClean (init lib profile opts)
  unfolding init
  init-IsClean profile opts = search clean_rules

  init_flat-IsClean :
      (profile : Bytes) (lens : List ℕ) (flat : Bytes) (opts : Opts)
      → Keeps IsClean (init_flat lib profile lens flat opts)
  unfolding init_flat
  init_flat-IsClean profile lens flat opts = search clean_rules

  init_keys-IsClean :
      (profile : Bytes) (masters : List Bytes) (opts : Opts)
      → Keeps IsClean (init_keys lib profile masters opts)
  unfolding init_keys
  init_keys-IsClean profile masters opts = search (clean_rules, init_flat-IsClean)

  save-IsClean : (p : Pipeline) → Keeps IsClean (save lib p)
  unfolding save
  save-IsClean p = search clean_rules

  rekey-IsClean : (p : Pipeline) (perm wrap : Bytes) → Keeps IsClean (rekey lib p perm wrap)
  unfolding rekey
  rekey-IsClean p perm wrap = search clean_rules

  -- Where storage given back so far was clean, constructing a pipeline (from a profile, or from
  -- caller-supplied master keys), saving it and rotating its masters give no storage back that still
  -- holds a byte of a blob or of a key, whatever the library answers and however the call ends.
  pub key_material-IsClean :
      (profile : Bytes) (masters : List Bytes) (opts : Opts) (p : Pipeline) (perm wrap : Bytes)
      (w : World L)
      → IsClean w
      → IsClean (world (init lib profile opts w))
        × IsClean (world (init_keys lib profile masters opts w))
        × IsClean (world (save lib p w))
        × IsClean (world (rekey lib p perm wrap w))
  key_material-IsClean profile masters opts p perm wrap w i = (
    (init-IsClean profile opts).keeps w i,
    (init_keys-IsClean profile masters opts).keeps w i,
    (save-IsClean p).keeps w i,
    (rekey-IsClean p perm wrap).keeps w i,
  )
