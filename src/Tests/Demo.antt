-- ===== src/Tests/Demo.antt =====
-- Command lines of the demonstrator.
use itb_cpp.Base.{◌≡◌, ◌↔◌, [], ◌∷◌, some, codes}
use itb_cpp.Demo.Commands.{command_of, encrypt_of}
use itb_cpp.Demo.Dispatch.{arguments, command_of_iff}

command_of_iff_example :
    (command_of (codes "encrypt" ∷ codes "p" ∷ codes "a" ∷ codes "b" ∷ [])
      ≡ some (encrypt_of (codes "p") (codes "a") (codes "b")))
    ↔ (codes "encrypt" ∷ codes "p" ∷ codes "a" ∷ codes "b" ∷ []
        ≡ arguments (encrypt_of (codes "p") (codes "a") (codes "b")))
command_of_iff_example =
    command_of_iff (codes "encrypt" ∷ codes "p" ∷ codes "a" ∷ codes "b" ∷ [])
      (encrypt_of (codes "p") (codes "a") (codes "b"))
