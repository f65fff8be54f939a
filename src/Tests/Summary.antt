-- ===== src/Tests/Summary.antt =====
-- The summary of a run.
use itb_cpp.Base.{true, false, ◌≤◌, ◌≡◌, ◌↔◌, List, [], ◌∷◌, some, codes, replicate, All, length}
use itb_cpp.Base.Int.{pos}
use itb_cpp.Loop.Names.{fixed}
use itb_cpp.Loop.State.{Worker}
use itb_cpp.Loop.Summary.Pools.{PoolDelta, IsEven, pool_diff, pool_diff-InBounds}
use itb_cpp.Loop.Summary.Verdict.{totals, failures, verdict, verdict_lem}

abbrev quiet : Worker
quiet = record {
  id = 0;
  plaintext = [];
  payload_mode = fixed;
  seeded = false;
  rng = 0;
  wire = [];
  plain = [];
  scratch = [];
  iters = 4;
  bytes_enc = 8;
  bytes_dec = 8;
  nanos_enc = 1;
  nanos_dec = 1;
  failed = false;
  error = [];
}

abbrev pub two : List Worker
two = quiet ∷ record quiet { failed = true; error = codes "Load(\"p\")" } ∷ []

pool_diff-InBounds_example :
    (d : PoolDelta) × (pool_diff (replicate 14 (pos 1)) (replicate 14 (pos 1)) ≡ some d)
    × (d.tiers ≤ 64)
    × IsEven d
pool_diff-InBounds_example = pool_diff-InBounds (replicate 14 (pos 1)) (replicate 14 (pos 1))

verdict_lem_example :
    ((totals two).errors ≡ length (failures two))
    × ((verdict two ≡ 0) ↔ All (λ w. w.failed ≡ false) two)
verdict_lem_example = verdict_lem two
