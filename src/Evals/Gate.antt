-- ===== src/Evals/Gate.antt =====
-- `evaluate` of src/resgraph/evals/gate.py: a run against the baseline. Rates and bars are floats, and
-- a mapping of slices is its items in the order of the sorted names. The
-- texts of the blocks and of the reasons are left out.
pub mod Passes
use resgraph.Prelude.{
  ℕ, ◌+◌, String, Bool, true, false, not, ◌&&◌, ◌||◌, Option, none, some, List, [], ◌∷◌, ◌++◌, map,
  str_eq, any, filter, ltb, leb, ◌==◌, if◌then◌else◌,
}
use resgraph.Floats.{Floats}

abbrev pub Slices : Type 0 → Type 0
Slices Rate = List (String × Option Rate)

-- What `report.aggregate` gives the gate; an absent key is `none`.
pub record Summary (Rate : Type 0) : Type 0 where
  pub item_ids : Option (List String)
  pub items : Option ℕ
  pub trials : Option ℕ
  pub model : Option String
  pub fabrication_count : Option ℕ
  pub pass_all_trials : Option Rate
  pub slices : Slices Rate

pub data Reason : Type 0 where
  not_comparable too_few_trials worker_mismatch : Reason

pub data Block : Type 0 where
  fabrications : (count : ℕ) → Block
  overall_dropped : Block
  slice_dropped : (name : String) → Block

pub data Warning : Type 0 where
  new_slice : (name : String) → Warning
  absent_slice : (name : String) → Warning

pub data GateVerdict : Type 0 where
  undecided : (reason : Reason) → GateVerdict
  decided : (blocks : List Block) → (warnings : List Warning) → GateVerdict

-- `set(xs) - set(ys)`
abbrev pub missing_from : List String → List String → List String
missing_from ys xs = filter (λ x. not (any (str_eq x) ys)) xs

abbrev pub is_empty : {A : Type 0} → List A → Bool
is_empty [] = true
is_empty (x ∷ xs) = false

abbrev pub same_count : Option ℕ → Option ℕ → Bool
same_count none none = true
same_count (some a) (some b) = a == b
same_count _ _ = false

abbrev pub same_items : Option (List String) → Option (List String) → Bool → Bool
same_items (some run_ids) (some base_ids) counts =
    is_empty (missing_from run_ids base_ids) && is_empty (missing_from base_ids run_ids)
same_items _ _ counts = counts

-- `not _not_comparable(run, baseline)`
unfoldable pub is_comparable : {Rate : Type 0} → Summary Rate → Summary Rate → Bool
is_comparable run baseline =
    same_items run.item_ids baseline.item_ids (same_count run.items baseline.items)

abbrev pub or_zero : Option ℕ → ℕ
or_zero none = 0
or_zero (some n) = n

-- `not _too_few_trials(run, min_trials)`
abbrev pub has_trials : {Rate : Type 0} → ℕ → Summary Rate → Bool
has_trials min_trials run = leb min_trials (or_zero run.trials)

-- `not _worker_mismatch(run, baseline)`: a model that is absent or empty matches any.
abbrev pub matches_model : Option String → Option String → Bool
matches_model none base = true
matches_model (some String.[]) base = true
matches_model (some (String.◌∷◌ c s)) none = true
matches_model (some (String.◌∷◌ c s)) (some String.[]) = true
matches_model (some (String.◌∷◌ c s)) (some (String.◌∷◌ d t)) =
    str_eq (String.◌∷◌ c s) (String.◌∷◌ d t)

unfoldable pub undecided_reason : {Rate : Type 0} → ℕ → Summary Rate → Summary Rate → Option Reason
unfolding is_comparable
undecided_reason min_trials run baseline =
    if not (is_comparable run baseline)
    then some not_comparable
    else if not (has_trials min_trials run)
    then some too_few_trials
    else if not (matches_model run.model baseline.model)
    then some worker_mismatch
    else none

-- `_drop(current, base)`, and whether it is over the bar: `base - current > bar`.
abbrev pub is_over : (F : Floats) → F.Float → Option F.Float → Option F.Float → Bool
is_over F bar none base = false
is_over F bar (some current) none = false
is_over F bar (some current) (some base) = F.lt bar (F.sub base current)

abbrev pub get_slice : {Rate : Type 0} → String → Slices Rate → Option (Option Rate)
get_slice name [] = none
get_slice name ((n, v) ∷ rest) =
    let later = get_slice name rest in if str_eq name n then some v else later

abbrev pub slice_blocks_at :
    (F : Floats) → F.Float → String → Option F.Float → Option (Option F.Float) → List Block
slice_blocks_at F bar name current none = []
slice_blocks_at F bar name current (some base) =
    if is_over F bar current base then slice_dropped name ∷ [] else []

-- The blocks of the loop over the run's slices.
unfoldable pub slice_blocks : (F : Floats) → F.Float → Slices F.Float → Slices F.Float → List Block
slice_blocks F bar [] base = []
slice_blocks F bar ((name, current) ∷ rest) base =
    slice_blocks_at F bar name current (get_slice name base) ++ slice_blocks F bar rest base

abbrev pub names_missing : {Rate : Type 0} → Slices Rate → Slices Rate → List String
names_missing {Rate} known slices =
    missing_from (map (λ (s : String × Option Rate). s.0) known)
      (map (λ (s : String × Option Rate). s.0) slices)

abbrev pub fabrication_blocks : ℕ → List Block
fabrication_blocks count = if count == 0 then [] else fabrications count ∷ []

abbrev pub overall_blocks : (F : Floats) → F.Float → Option F.Float → Option F.Float → List Block
overall_blocks F bar current base = if is_over F bar current base then overall_dropped ∷ [] else []

abbrev pub verdict_on : Option Reason → List Block → List Warning → GateVerdict
verdict_on (some reason) blocks warnings = undecided reason
verdict_on none blocks warnings = decided blocks warnings

unfoldable pub evaluate :
    (F : Floats) (overall_drop slice_drop : F.Float) (min_trials : ℕ)
    → Summary F.Float
    → Summary F.Float
    → GateVerdict
unfolding undecided_reason slice_blocks
evaluate F overall_drop slice_drop min_trials run baseline =
    verdict_on (undecided_reason min_trials run baseline)
      (fabrication_blocks (or_zero run.fabrication_count)
        ++ overall_blocks F overall_drop run.pass_all_trials baseline.pass_all_trials
        ++ slice_blocks F slice_drop run.slices baseline.slices)
      (map new_slice (names_missing baseline.slices run.slices)
        ++ map absent_slice (names_missing run.slices baseline.slices))

-- `GateVerdict.passed`
abbrev pub passed : GateVerdict → Bool
passed (undecided reason) = false
passed (decided blocks warnings) = is_empty blocks
