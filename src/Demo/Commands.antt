-- ===== src/Demo/Commands.antt =====
-- The commands of eitb/eitb.cpp. The file system is a parameter, and so is the version macro of the
-- build.
use itb_cpp.Base.{
  Bool, ℕ, zero, suc, ◌*◌, ◌^◌, ◌⊎◌, inl, inr, List, [], ◌∷◌, ◌++◌, Option, some, none, Bytes,
  codes, length, ◌==◌, ◌=s=◌, if◌then◌else◌,
}
use itb_cpp.Base.Int.{ℤ, pos, is_nat}
use itb_cpp.Base.Decimal.{decimal}
use itb_cpp.Binding.World.{
  Library, Exn, itb_error, invalid_argument, ret, raise, spin, M, pure, ◌>>=◌, ◌>>◌, ffi, finally,
}
use itb_cpp.Binding.Opts.{no_opts}
use itb_cpp.Binding.Pipeline.{Pipeline, init, load, save, destroy, encrypt_message, decrypt_message}
use itb_cpp.Binding.Stream.{encrypt_stream_pump, decrypt_stream_pump}
use itb_cpp.Binding.Runtime.{version, set_memory_limit, set_gc_percent}
use itb_cpp.Demo.Blob.{decode_blob, encode_blob}
use itb_cpp.Demo.Catalogue.{is_streaming_profile, cmd_profiles}

-- `fopen` for reading answers whether the file is open; `fread` the bytes that it read;
-- `create_directories` the message of a failure; `parent_path` the directory part of a path.
pub record Files (L : Type 0) : Type 0 where
  pub lib : Library L
  pub open_read : Bytes → L → Bool × L
  pub fread : ℕ → L → Bytes × L
  pub ferror : L → Bool × L
  pub parent_path : Bytes → Bytes
  pub create_directories : Bytes → L → Option Bytes × L
  pub open_write : Bytes → L → Bool × L
  pub fwrite : Bytes → L → ℕ × L
  pub fclose : L → ℤ × L
  pub cpp_version : Bytes

-- The exit status with what was printed.
pub record Ran : Type 0 where
  pub status : ℕ
  pub out : Bytes
  pub err : Bytes

abbrev failed : Bytes → Ran
failed text = record { status = 1; out = []; err = text }

unfoldable pub usage : Bytes
usage =
    codes "usage: eitb version\n"
    ++ codes "       eitb profiles\n"
    ++ codes "       eitb encrypt <profile> <in-file> <out-file>\n"
    ++ codes "       eitb decrypt <profile> <blob-hex> <in-file> <out-file>\n"

pub data Command : Type 0 where
  version_of profiles_of : Command
  encrypt_of : Bytes → Bytes → Bytes → Command
  decrypt_of : Bytes → Bytes → Bytes → Bytes → Command

-- The chain of `strcmp` tests of `main`, with the counts of arguments.
unfoldable pub command_of : List Bytes → Option Command
command_of (name ∷ []) =
    if name =s= codes "version"
    then some version_of
    else if name =s= codes "profiles"
    then some profiles_of
    else none
command_of (name ∷ profile ∷ infile ∷ outfile ∷ []) =
    if name =s= codes "encrypt" then some (encrypt_of profile infile outfile) else none
command_of (name ∷ profile ∷ blob_hex ∷ infile ∷ outfile ∷ []) =
    if name =s= codes "decrypt" then some (decrypt_of profile blob_hex infile outfile) else none
command_of _ = none

module _ {L : Type 0} (files : Files L) where
  -- The loop over `fread`, in at most so many rounds.
  pub read_from : ℕ → Bytes → M L Bytes
  read_from zero out = λ w. spin w
  read_from (suc rounds) out = ffi (files.fread 65536) >>= λ chunk.
      let rest = read_from rounds (out ++ chunk) in if length chunk == 0 then pure out else rest

  -- The message, or the contents.
  unfoldable pub read_file : ℕ → Bytes → M L (Bytes ⊎ Bytes)
  unfolding read_from
  read_file rounds path = ffi (files.open_read path) >>= λ opened.
      if opened
      then (do
        out ← read_from rounds []
        bad ← ffi files.ferror
        _ ← ffi files.fclose
        pure (if bad then inl (codes "eitb: read error on " ++ path ++ codes "\n") else inr out))
      else pure (inl (codes "eitb: cannot open " ++ path ++ codes "\n"))

  -- The message of a failure.
  unfoldable pub ensure_parent_dir : Bytes → M L (Option Bytes)
  ensure_parent_dir path =
      let parent = files.parent_path path in
      if length parent == 0
      then pure none
      else ffi (files.create_directories parent) >>= λ r. elim r [
        | none ↦ pure none
        | some why ↦ pure (some (codes "eitb: mkdir " ++ parent ++ codes ": " ++ why ++ codes "\n"))
      ]

  abbrev closed : Bytes → M L (Option Bytes)
  closed path = ffi files.fclose >>= λ rc.
      pure
        (if is_nat rc 0 then none else some (codes "eitb: close error on " ++ path ++ codes "\n"))

  abbrev closed_after : Bytes → Bytes → M L (Option Bytes)
  closed_after path buf = ffi (files.fwrite buf) >>= λ n. ffi files.fclose >>= λ rc. pure (
      if n == length buf
      then (if is_nat rc 0
          then none
          else some (codes "eitb: close error on " ++ path ++ codes "\n"))
      else some (codes "eitb: write error on " ++ path ++ codes "\n"))

  -- `fwrite` of no bytes is left out, and counts as complete.
  unfoldable pub write_file : Bytes → Bytes → M L (Option Bytes)
  write_file path buf = ensure_parent_dir path >>= λ r. elim r [
    | some text ↦ pure (some text)
    | none ↦ ffi (files.open_write path) >>= λ opened.
        if opened
        then (if length buf == 0 then closed path else closed_after path buf)
        else pure (some (codes "eitb: cannot create " ++ path ++ codes "\n"))
  ]

  unfoldable pub cap_go_runtime : M L (Unit {0})
  cap_go_runtime = do
    _ ← set_memory_limit files.lib (pos (4 * 2 ^ 30))
    _ ← set_gc_percent files.lib (pos 100)
    pure tt

  unfoldable pub cmd_version : M L Ran
  cmd_version = do
    text ← version files.lib
    pure (record {
      status = 0;
      out = codes "libitb3 " ++ text ++ codes "\nitb-cpp " ++ files.cpp_version ++ codes "\n";
      err = [];
    })

  abbrev report : Bytes → Bytes → Bytes → Bytes → Bytes → Bytes
  report verb infile outfile before after =
      verb
      ++ infile
      ++ codes " -> "
      ++ outfile
      ++ codes " ("
      ++ decimal (length before)
      ++ codes " -> "
      ++ decimal (length after)
      ++ codes " bytes)\n"

  -- While the pipeline is in scope.
  abbrev encrypt_with : Bytes → Bytes → Bytes → Bytes → Pipeline → M L Ran
  encrypt_with profile infile outfile plain pipe = do
    wire ←
        (if is_streaming_profile profile
          then encrypt_stream_pump files.lib pipe plain
          else encrypt_message files.lib pipe plain)
    written ← write_file outfile wire
    elim written [
      | some text ↦ pure (failed text)
      | none ↦ save files.lib pipe >>= λ blob. pure (record {
        status = 0;
        out = report (codes "encrypted ") infile outfile plain wire;
        err = encode_blob blob ++ codes "\n";
      })
    ]

  unfoldable pub cmd_encrypt : ℕ → Bytes → Bytes → Bytes → M L Ran
  cmd_encrypt rounds profile infile outfile = do
    cap_go_runtime
    r ← read_file rounds infile
    elim r [
      | inl text ↦ pure (failed text)
      | inr plain ↦ init files.lib profile no_opts >>= λ pipe.
          finally (encrypt_with profile infile outfile plain pipe)
            (destroy files.lib pipe >>= λ _. pure tt)
    ]

  abbrev decrypt_with : Bytes → Bytes → Bytes → Bytes → Pipeline → M L Ran
  decrypt_with profile infile outfile wire pipe = do
    plain ←
        (if is_streaming_profile profile
          then decrypt_stream_pump files.lib pipe wire
          else decrypt_message files.lib pipe wire)
    written ← write_file outfile plain
    elim written [
      | some text ↦ pure (failed text)
      | none ↦ pure (record {
        status = 0;
        out = report (codes "decrypted ") infile outfile wire plain;
        err = [];
      })
    ]

  unfoldable pub cmd_decrypt : ℕ → Bytes → Bytes → Bytes → Bytes → M L Ran
  cmd_decrypt rounds profile blob_hex infile outfile = do
    cap_go_runtime
    elim (decode_blob blob_hex) [
      | inl text ↦ pure (failed text)
      | inr blob ↦ read_file rounds infile >>= λ r. elim r [
        | inl text ↦ pure (failed text)
        | inr wire ↦ load files.lib blob [] [] >>= λ pipe.
            finally (decrypt_with profile infile outfile wire pipe)
              (destroy files.lib pipe >>= λ _. pure tt)
      ]
    ]

  unfoldable pub run_command : ℕ → Command → M L Ran
  run_command rounds version_of = cmd_version
  run_command rounds profiles_of = do
    text ← cmd_profiles files.lib
    pure (record { status = 0; out = text; err = [] })
  run_command rounds (encrypt_of profile infile outfile) = cmd_encrypt rounds profile infile outfile
  run_command rounds (decrypt_of profile blob_hex infile outfile) =
      cmd_decrypt rounds profile blob_hex infile outfile

  abbrev what : Exn → Bytes
  what (itb_error status text) = text
  what (invalid_argument text) = text

  -- The arguments behind the program's name.
  unfoldable pub main : ℕ → List Bytes → M L Ran
  main rounds args w = elim (command_of args) [
    | none ↦ ret (record { status = 2; out = []; err = usage }) w
    | some command ↦ elim (run_command rounds command w) [
      | ret r w' ↦ ret r w'
      | raise e w' ↦ ret (failed (codes "eitb: " ++ what e ++ codes "\n")) w'
      | spin w' ↦ spin w'
    ]
  ]
