-- ===== src/Evals/Tests.antt =====
-- Witnesses of the gate.
use resgraph.Prelude.{ℕ, ◌≡◌, ◌↔◌, refl, true, some, none, [], ◌∷◌}
use resgraph.Floats.Tests.{per_mille}
use resgraph.Evals.Gate.{Summary, evaluate, passed, decided, fabrications, slice_dropped}
use resgraph.Evals.Gate.Passes.{IsClean, evaluate-IsClean}

-- Rates are per mille. The run has one fabrication, and one of its slices has fallen by 100.
abbrev baseline : Summary ℕ
baseline = record {
  item_ids = some ("i1" ∷ "i2" ∷ []);
  items = some 2;
  trials = some 3;
  model = some "haiku";
  fabrication_count = none;
  pass_all_trials = some 900;
  slices = ("injection", some 900) ∷ [];
}

abbrev worse_run : Summary ℕ
worse_run = record baseline {
  fabrication_count = some 1;
  pass_all_trials = some 890;
  slices = ("injection", some 800) ∷ [];
}

blocks_worse :
    evaluate per_mille 20 50 3 worse_run baseline
    ≡ decided (fabrications 1 ∷ slice_dropped "injection" ∷ []) []
unfolding evaluate
blocks_worse = refl

evaluate-IsClean_example :
    (passed (evaluate per_mille 20 50 3 worse_run baseline) ≡ true)
    ↔ IsClean per_mille 20 50 3 worse_run baseline
evaluate-IsClean_example = evaluate-IsClean per_mille 20 50 3 worse_run baseline
