-- ===== src/Tests/Runs.antt =====
-- The main thread of a run, with a `double` that holds whole numbers.
use itb_cpp.Base.{
  false, ℕ, zero, suc, ◌+◌, ◌*◌, ◌/◌, ◌≡◌, ◌≢◌, refl, arith, [], ◌∷◌, ◌++◌, some, none, codes,
  length, replicate, ltb, All,
}
use itb_cpp.Base.Int.{pos}
use itb_cpp.Base.Decimal.{decimal, value, IsDigit, decimal-IsDigit, decimal-is_whole}
use itb_cpp.Binding.World.{World, pipe_opened}
use itb_cpp.Binding.World.Ways.{Returns}
use itb_cpp.Binding.Pipeline.Ownership.{opened, freed, held}
use itb_cpp.Loop.Names.{both}
use itb_cpp.Loop.Numbers.{digits_of, magnitude_of}
use itb_cpp.Loop.Real.{Real}
use itb_cpp.Loop.Size.Durations.{unfinished, durations, durations-steady}
use itb_cpp.Loop.State.{Config, RunState, Site}
use itb_cpp.Loop.Summary.Pools.{no_delta}
use itb_cpp.Loop.Summary.Document.{read_json}
use itb_cpp.Loop.Summary.Document.Digits.{IsNumeral}
use itb_cpp.Loop.Summary.Final.{Ended, Answers, final_json}
use itb_cpp.Loop.Summary.Final.Doubles.{Laws}
use itb_cpp.Loop.Summary.Final.Object.{summary_document}
use itb_cpp.Loop.Summary.Final.Printed.{read_json-final_json}
use itb_cpp.Loop.Main.{set_up}
use itb_cpp.Loop.Main.Phases.{conclude}
use itb_cpp.Loop.Main.Balance.{Settled, pipes_of}
use itb_cpp.Loop.Main.Exits.{Finished, set_up-Settled, conclude-Finished}
use itb_cpp.Tests.Mirror.{Mirror, mirror-Constructs, start}
use itb_cpp.Tests.Loops.{host, config, site}
use itb_cpp.Tests.Summary.{two}

abbrev toy : Real ℕ
toy = record {
  of_int = magnitude_of;
  add = ◌+◌;
  mul = ◌*◌;
  div = ◌/◌;
  lt = ltb;
  to_int = pos;
  printed = λ d x. decimal x ++ b'.' ∷ replicate d b'0';
  strtod = λ s. (value 0 (digits_of s).0, length (digits_of s).0);
}

zeros-IsDigit : (d : ℕ) → All IsDigit (replicate d b'0')
unfolding replicate
zeros-IsDigit zero = tt
zeros-IsDigit (suc d) = ((omega arith, omega arith), zeros-IsDigit d)

toy-IsNumeral : (d x : ℕ) → IsNumeral (toy.printed (suc d) x)
unfolding replicate
toy-IsNumeral d x = record {
  minus = false;
  whole = decimal x;
  fraction = replicate (suc d) b'0';
  whole_digits = decimal-IsDigit x;
  no_zero = decimal-is_whole x;
  fraction_digits = zeros-IsDigit (suc d);
  spelled = refl;
}

toy-Laws : Laws toy
toy-Laws = record {
  Within = λ k x. Unit;
  AtLeast = λ k x. Unit;
  of_int-Within = λ z. tt;
  of_int-AtLeast = λ n h. tt;
  mul-Within = λ a b x y h p q. tt;
  div-Within = λ a b x y h p q. tt;
  div-AtLeast = λ a b x y h p q. tt;
  shown-IsNumeral = λ d k x h w. toy-IsNumeral d x;
}

abbrev ended : Ended
ended = record {
  run = site.run;
  workers = two;
  elapsed_ns = 2500000000;
  rss_warmup = 4096;
  rss_peak = 8192;
  rss_final = 8192;
  pools = record no_delta {
    tiers = 1;
    starter = pos 2 ∷ [];
    get = pos 8 ∷ [];
    fresh = pos 1 ∷ [];
    regrow = pos 1 ∷ [];
    new_bytes = pos 64 ∷ [];
  };
  microbatch_tiers = none;
  hashpool_starters = some (codes "16");
}

abbrev answers : Answers
answers = record { gomaxprocs = pos 4; auto_tier = codes "aes"; gogc = pos 100 }

read_json-final_json_example :
    read_json (final_json toy ended answers) ≡ some (summary_document toy ended answers, codes "\n")
read_json-final_json_example = read_json-final_json toy toy-Laws ended answers

durations-steady_example :
    (durations toy 9 0 (codes "1m30s") ≢ unfinished)
    × (durations toy 9 0 (codes "1m30s") ≡ durations toy 5 0 (codes "1m30s"))
durations-steady_example = durations-steady toy 9 5 0 (codes "1m30s") (omega arith) (omega arith)

abbrev two_shapes : Config
two_shapes = record config { shape = both }

set_up-Settled_example : Returns (λ r. Settled pipes_of r.1) (set_up host two_shapes) start
unfolding opened freed held
set_up-Settled_example = set_up-Settled host mirror-Constructs two_shapes start (λ h nz. refl)

abbrev owning : RunState
owning = record site.run { stream_pipe = some (record { handle = 7 }) }

abbrev one_open : World Mirror
one_open = record start { calls = pipe_opened 7 ∷ [] }

conclude-Finished_example :
    Returns
      (Finished host toy none none (λ l. (none, l)) two)
      (conclude host toy none none (λ l. (none, l)) owning two 0 4096 [] [])
      one_open
unfolding opened freed held
conclude-Finished_example =
    conclude-Finished host toy none none (λ l. (none, l)) owning two 0 4096 [] [] one_open
      (λ h nz. omega arith)

-- Every fourth iteration reopens the pipelines.
abbrev cycling : Site
cycling = record site {
  run = record owning { cfg = record config { rekey_every = 2; blob_cycle_every = 4 } };
}
