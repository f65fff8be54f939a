-- ===== src/Binding/Stream/Session.antt =====
-- The current session as the list of calls shows it: the calls since the latest begin.
use itb_cpp.Base.{Bool, true, false, zero, ◌≤◌, ◌<◌, List, [], ◌∷◌, ◌++◌, Bytes, length}
use itb_cpp.Base.Int.{ℤ, pos}
use itb_cpp.Binding.World.{
  Call, stream_begun, stream_wrote, stream_ended, stream_drained, stream_freed,
}
use itb_cpp.Binding.Stream.{pump_buf}

-- The bytes written into the session so far, in order.
unfoldable pub written : List Call → Bytes
written [] = []
written (stream_begun h ∷ cs) = []
written (stream_wrote rc b ∷ cs) = written cs ++ b
written (c ∷ cs) = written cs

-- The bytes that its reads have delivered so far, in order.
unfoldable pub drained : List Call → Bytes
drained [] = []
drained (stream_begun h ∷ cs) = []
drained (stream_drained rc b fin ∷ cs) = drained cs ++ b
drained (c ∷ cs) = drained cs

-- Where the session stands: writes and reads come first, then one end, then reads up to the first
-- that reports the finish. Any other order, or a code other than 0, is `broken`.
pub data Phase : Type 0 where
  feeding ending finished broken : Phase

abbrev pub after_write : ℤ → Phase → Phase
after_write (pos zero) feeding = feeding
after_write _ _ = broken

abbrev pub after_end : ℤ → Phase → Phase
after_end (pos zero) feeding = ending
after_end _ _ = broken

abbrev pub after_read : ℤ → Bool → Phase → Phase
after_read (pos zero) fin feeding = feeding
after_read (pos zero) true ending = finished
after_read (pos zero) false ending = ending
after_read _ _ _ = broken

unfoldable pub phase : List Call → Phase
phase [] = broken
phase (stream_begun h ∷ cs) = feeding
phase (stream_wrote rc b ∷ cs) = after_write rc (phase cs)
phase (stream_ended rc ∷ cs) = after_end rc (phase cs)
phase (stream_drained rc b fin ∷ cs) = after_read rc fin (phase cs)
phase (stream_freed h ∷ cs) = phase cs
phase (c ∷ cs) = phase cs

-- No write of the session is empty or longer than a slice.
abbrev pub AreSlices : List Call → Type 0
AreSlices [] = Unit
AreSlices (stream_begun h ∷ cs) = Unit
AreSlices (stream_wrote rc b ∷ cs) = (0 < length b) × (length b ≤ pump_buf) × AreSlices cs
AreSlices (c ∷ cs) = AreSlices cs
