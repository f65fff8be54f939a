-- ===== src/Loop/Summary/Rss.antt =====
-- The resident set of the process, as loop/summary.cpp reads it from /proc/self/status.
use itb_cpp.Base.{
  ℕ, ◌*◌, ◌%◌, List, [], ◌∷◌, Option, some, none, Bytes, codes, take, ltb, ◌=s=◌, if◌then◌else◌,
  ◌-◌, ◌^◌,
}
use itb_cpp.Loop.Flags.Argv.{cut_at}
use itb_cpp.Loop.Numbers.{numeral}
use itb_cpp.Binding.Memory.{c_string}

-- `strtoull` of a text, cut off at its bound; `errno` is not asked.
unfoldable pub strtoull : Bytes → ℕ
unfolding numeral
strtoull s =
    let n = numeral (c_string s) in
    if ltb (2 ^ 64 - 1) n.magnitude
    then 2 ^ 64 - 1
    else if n.minus
    then (2 ^ 64 - n.magnitude) % 2 ^ 64
    else n.magnitude

unfoldable pub status_kb : Bytes → ℕ
unfolding cut_at
status_kb line = elim (cut_at b':' line) [
  | none ↦ 0
  | some (front, behind) ↦ strtoull behind * 1024 % 2 ^ 64
]

-- The loop over the lines of the file: the current set and the high-water mark.
unfoldable pub rss_of : List Bytes → ℕ × ℕ → ℕ × ℕ
rss_of [] (current, peak) = (current, peak)
rss_of (line ∷ lines) (current, peak) =
    if take 6 line =s= codes "VmRSS:"
    then rss_of lines (status_kb line, peak)
    else if take 6 line =s= codes "VmHWM:"
    then rss_of lines (current, status_kb line)
    else rss_of lines (current, peak)

-- `none` is a file that does not open.
unfoldable pub read_rss : Option (List Bytes) → ℕ × ℕ
read_rss none = (0, 0)
read_rss (some lines) = rss_of lines (0, 0)
