-- ===== src/Tests/Sessions.antt =====
-- The pumps and the owners of handles, against the mirror library.
use itb_cpp.Base.{true, ◌≡◌, refl, List, [], ◌∷◌, Bytes, codes}
use itb_cpp.Binding.Stream.Scope.{Scoped}
use itb_cpp.Binding.World.{World, world, ret, stream_begun}
use itb_cpp.Binding.World.Ends.{Comes}
use itb_cpp.Binding.Pipeline.{Pipeline}
use itb_cpp.Binding.Pipeline.Ownership.{
  Op, run, opens, moves, assigns, destroys, Balanced, run-Balanced, opened, freed, held,
}
use itb_cpp.Binding.Stream.{
  Stream, pump_into, encrypt_stream_pump, decrypt_stream_pump, encrypt_stream_pump_into,
  decrypt_stream_pump_into,
}
use itb_cpp.Binding.Stream.Session.{written, drained, phase, finished}
use itb_cpp.Binding.Stream.Transport.{Tracks}
use itb_cpp.Binding.Stream.Pumps.{Pumped, Delivers}
use itb_cpp.Binding.Stream.Delivery.{pump_into-Comes, pumps_into-Comes, pumps-Comes}
use itb_cpp.Tests.Mirror.{Mirror, mirror, start, mirror-EndsItself, opened_one}

abbrev fresh : World Mirror
fresh = record start { calls = stream_begun 7 ∷ [] }

abbrev session : Stream
session = record { handle = 7 }

abbrev room : Bytes
room = codes "........"

pump_into-Comes_example :
    Comes
      (λ p w'. Tracks (codes "hello") 8 5 finished p w')
      (pump_into mirror session (codes "hello") room fresh)
unfolding written drained phase
pump_into-Comes_example =
    pump_into-Comes mirror (λ h l. l.over ≡ true) mirror-EndsItself (codes "hello") room session
      fresh refl refl refl tt

pumps_into-Comes_example :
    (Comes
        (Pumped mirror (codes "hello") room)
        (encrypt_stream_pump_into mirror (record { handle = 7 }) (codes "hello") room start)
      × Scoped opened_one start (
          world
            (encrypt_stream_pump_into mirror (record { handle = 7 }) (codes "hello") room start)))
    × (Comes
          (Pumped mirror (codes "hello") room)
          (decrypt_stream_pump_into mirror (record { handle = 7 }) (codes "hello") room start)
        × Scoped opened_one start (
            world
              (decrypt_stream_pump_into mirror (record { handle = 7 }) (codes "hello") room start)))
pumps_into-Comes_example =
    pumps_into-Comes mirror (λ h l. l.over ≡ true) mirror-EndsItself (record { handle = 7 })
      (codes "hello") room start

pumps-Comes_example :
    Comes
      (Delivers mirror (codes "hello"))
      (encrypt_stream_pump mirror (record { handle = 7 }) (codes "hello") start)
    × Comes
        (Delivers mirror (codes "hello"))
        (decrypt_stream_pump mirror (record { handle = 7 }) (codes "hello") start)
pumps-Comes_example =
    pumps-Comes mirror (λ h l. l.over ≡ true) mirror-EndsItself (record { handle = 7 })
      (codes "hello") start

-- A pipeline that is moved, a second one assigned over it, and both objects destroyed.
abbrev program : List Op
program = opens 3 ∷ moves 0 ∷ opens 5 ∷ assigns 1 0 ∷ destroys 0 ∷ destroys 1 ∷ []

run-Balanced_example :
    (objs : List Pipeline) × (w : World Mirror) × (run mirror program [] start ≡ ret objs w)
    × Balanced w.calls objs
run-Balanced_example =
    run-Balanced mirror program [] start (λ h nz. unfold opened freed held in refl)
