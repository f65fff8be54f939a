-- ===== src/Demo/Dispatch.antt =====
-- Which command lines of eitb/eitb.cpp are commands.
use itb_cpp.Base.{
  ◌≡◌, ◌↔◌, inl, inr, refl, List, [], ◌∷◌, some, none, Bytes, codes, ◌=s=◌, =s=_sound, Bool-cases,
  ap, sym, subst, ◌∙◌,
}
use itb_cpp.Demo.Commands.{Command, version_of, profiles_of, encrypt_of, decrypt_of, command_of}

-- A command as the usage text writes it.
unfoldable pub arguments : Command → List Bytes
arguments version_of = codes "version" ∷ []
arguments profiles_of = codes "profiles" ∷ []
arguments (encrypt_of profile infile outfile) = codes "encrypt" ∷ profile ∷ infile ∷ outfile ∷ []
arguments (decrypt_of profile blob_hex infile outfile) =
    codes "decrypt" ∷ profile ∷ blob_hex ∷ infile ∷ outfile ∷ []

by_name :
    (args : List Bytes) (k c : Command)
    → command_of args ≡ some k
    → args ≡ arguments k
    → command_of args ≡ some c
    → args ≡ arguments c
by_name args k c got h e = subst (λ x. args ≡ arguments x) (same (sym got ∙ e)) h
  where
    same : some k ≡ some c → k ≡ c
    same e = cc

no_command :
    (args : List Bytes) (c : Command) → command_of args ≡ none → command_of args ≡ some c → ⊥
no_command args c h e = none-some (sym h ∙ e)
  where
    none-some : none ≡ some c → ⊥
    none-some e = cc

sound : (args : List Bytes) (c : Command) → command_of args ≡ some c → args ≡ arguments c
unfolding command_of arguments
sound [] c e = cc
sound (name ∷ []) c e = elim (Bool-cases (name =s= codes "version")) [
  | inl v ↦
      by_name (name ∷ []) version_of c (rw v refl)
        (ap (λ n. n ∷ []) (=s=_sound name (codes "version") v)) e
  | inr v0 ↦ elim (Bool-cases (name =s= codes "profiles")) [
    | inl v ↦
        by_name (name ∷ []) profiles_of c (rw (v0, v) refl)
          (ap (λ n. n ∷ []) (=s=_sound name (codes "profiles") v)) e
    | inr n ↦ absurd (no_command (name ∷ []) c (rw (v0, n) refl) e)
  ]
]
sound (name ∷ a ∷ []) c e = cc
sound (name ∷ a ∷ b ∷ []) c e = cc
sound (name ∷ a ∷ b ∷ d ∷ []) c e = elim (Bool-cases (name =s= codes "encrypt")) [
  | inl v ↦
      by_name (name ∷ a ∷ b ∷ d ∷ []) (encrypt_of a b d) c (rw v refl)
        (ap (λ n. n ∷ a ∷ b ∷ d ∷ []) (=s=_sound name (codes "encrypt") v)) e
  | inr n ↦ absurd (no_command (name ∷ a ∷ b ∷ d ∷ []) c (rw n refl) e)
]
sound (name ∷ a ∷ b ∷ d ∷ f ∷ []) c e = elim (Bool-cases (name =s= codes "decrypt")) [
  | inl v ↦
      by_name (name ∷ a ∷ b ∷ d ∷ f ∷ []) (decrypt_of a b d f) c (rw v refl)
        (ap (λ n. n ∷ a ∷ b ∷ d ∷ f ∷ []) (=s=_sound name (codes "decrypt") v)) e
  | inr n ↦ absurd (no_command (name ∷ a ∷ b ∷ d ∷ f ∷ []) c (rw n refl) e)
]
sound (name ∷ a ∷ b ∷ d ∷ f ∷ g ∷ rest) c e = cc

complete : (c : Command) → command_of (arguments c) ≡ some c
unfolding command_of arguments
complete version_of = refl
complete profiles_of = refl
complete (encrypt_of profile infile outfile) = refl
complete (decrypt_of profile blob_hex infile outfile) = refl

-- Whatever the arguments, `main` takes them for a command exactly if they are written as the usage
-- text writes that command.
pub command_of_iff :
    (args : List Bytes) (c : Command) → (command_of args ≡ some c) ↔ (args ≡ arguments c)
command_of_iff args c = (sound args c, λ e. rw e (complete c))
