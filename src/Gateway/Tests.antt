-- ===== src/Gateway/Tests.antt =====
-- The backends, the routes and the quality table at concrete backends, routes and scores.
mod Requests
use resgraph.Prelude.{
  ℕ, ◌+◌, ◌*◌, ◌/◌, max, ◌≤◌, ◌<◌, ◌≡◌, refl, ◌≢◌, String, true, false, none, some, List, [], ◌∷◌,
  length, arith, ◌==◌, leb, ltb, inl, inr, ◌↔◌, In, subst,
}
use resgraph.Gateway.Dispatch.{
  HealthState, healthy, down, ok, slow, fail, Backend, evict_samples, nearest_rank, choose,
  is_eligible, sort_key,
}
use resgraph.Gateway.Dispatch.Recovery.{
  health_after, state_by, passes_since_fail, health_after-state_by,
}
use resgraph.Gateway.Dispatch.Windows.{count, In-evict_samples, nearest_rank_lem}
use resgraph.Gateway.Dispatch.Choose.{AtLeast, choose-some, choose-none}
use resgraph.Gateway.Router.{
  RouteDecision, task_class_default, default_registry, get_route, given, resolve, Explains,
  resolve-Explains, resolve-none,
}
use resgraph.Gateway.Quality.{
  Score, Scores, get_score, eligible, fabricating, frontier, quality_route, raises,
}
use resgraph.Gateway.Quality.Frontier.{Clears, Comparable, eligible-In, frontier-nonempty}
use resgraph.Gateway.Quality.Route.{AllComparable, quality_route-raises}
use mathlib.Core.Option.{some-injective}

health_after-state_by_example :
    (health_after (ok ∷ slow ∷ fail ∷ [])).state
    ≡ state_by (passes_since_fail (ok ∷ slow ∷ fail ∷ [])) ok
health_after-state_by_example = health_after-state_by ok (slow ∷ fail ∷ [])

abbrev samples : List (ℕ × ℕ)
samples = (1000, 5) ∷ (4000, 7) ∷ []

In-evict_samples_example :
    In (1000, 5) (evict_samples 2000 5000 samples) ↔ (In (1000, 5) samples × (5000 ≤ 1000 + 2000))
In-evict_samples_example =
    In-evict_samples 2000 5000 (1000, 5) samples ((omega arith, tt), (tt, tt))

abbrev readings : List ℕ
readings = 9 ∷ 3 ∷ 7 ∷ 5 ∷ []

readings-nonempty : readings ≢ []
readings-nonempty e = cc

-- `ceil(95 / 100 * n)`, where the floats are exact.
abbrev ceil_95 : ℕ → ℕ → ℕ
ceil_95 p n = (p * n + 99) / 100

nearest_rank_lem_example :
    (v : ℕ) × (nearest_rank ceil_95 95 readings ≡ some v)
    × (0 < count (λ x. x == v) readings)
    × (max 1 (ceil_95 95 (length readings)) ≤ count (λ x. leb x v) readings)
    × (count (λ x. ltb x v) readings < max 1 (ceil_95 95 (length readings)))
nearest_rank_lem_example = nearest_rank_lem ceil_95 95 readings (omega arith) readings-nonempty

abbrev backend_in : HealthState → String → Backend
backend_in state name = record {
  name = name;
  concurrency = 1;
  queue_max = 4;
  ttft = record { window = 300000; samples = [] };
  tps = record { window = 300000; samples = [] };
  errors = record { window = 300000; events = [] };
  health = record { state = state; streak = 0 };
  in_flight = 0;
}

abbrev up_backend : Backend
up_backend = backend_in healthy "local"

abbrev down_backend : Backend
down_backend = backend_in down "anthropic"

choose-up : choose 0 (down_backend ∷ up_backend ∷ []) ≡ some up_backend
unfolding choose
choose-up = refl

choose-some_example :
    In up_backend (down_backend ∷ up_backend ∷ [])
    × (is_eligible up_backend ≡ true)
    × ((x : Backend)
        → In x (down_backend ∷ up_backend ∷ [])
        → is_eligible x ≡ true
        → AtLeast (sort_key 0 x) (sort_key 0 up_backend))
choose-some_example = choose-some 0 (down_backend ∷ up_backend ∷ []) up_backend choose-up

choose-none_example :
    (choose 0 (down_backend ∷ []) ≡ none)
    ↔ ((x : Backend) → In x (down_backend ∷ []) → is_eligible x ≡ false)
choose-none_example = choose-none 0 (down_backend ∷ [])

abbrev judged : RouteDecision
judged = record {
  model = "haiku";
  source = task_class_default;
  fallback_allowed = true;
  rationale = "triage reasoning; the daily-driver setup chosen by the model arms";
}

resolve-judged : resolve none (some "") (some "judgment") default_registry ≡ some judged
unfolding resolve
resolve-judged = refl

resolve-Explains_example :
    Explains
      (given none)
      (given (some ""))
      (some "judgment")
      default_registry
      judged
      task_class_default
resolve-Explains_example =
    resolve-Explains none (some "") (some "judgment") default_registry judged resolve-judged

resolve-none_example : (resolve none none (some "poetry") default_registry ≡ none) ↔ (
    (given none ≡ none)
    × (given none ≡ none)
    × ((k : String) × (some "poetry" ≡ some k) × (get_route k default_registry ≡ none)))
resolve-none_example = resolve-none none none (some "poetry") default_registry

abbrev score_of : ℕ → ℕ → ℕ → Score
score_of passk cost fabricated = record {
  passk = passk;
  cost_per_passed = some cost;
  latency_p50 = some 900;
  latency_p95 = none;
  fabrication_count = fabricated;
}

abbrev scores : Scores
scores =
    ("haiku", score_of 950000 120 0)
    ∷ ("local", score_of 900000 0 0)
    ∷ ("made_up", score_of 990000 1 2)
    ∷ []

abbrev disqualified : String
disqualified = "made_up"

eligible-In_example :
    In disqualified (eligible scores ("haiku" ∷ "made_up" ∷ []) 900000)
    ↔ (In disqualified ("haiku" ∷ "made_up" ∷ []) × Clears 900000 (get_score "made_up" scores))
eligible-In_example = eligible-In scores ("haiku" ∷ "made_up" ∷ []) 900000 "made_up"

abbrev arms : List String
arms = "haiku" ∷ "local" ∷ []

scores-Comparable :
    (c : String) → In c arms → Comparable (score_of 950000 120 0) (get_score c scores)
unfolding get_score
scores-Comparable c (inl e) = rw e ((refl, refl, refl), omega arith)
scores-Comparable c (inr (inl e)) = rw e ((refl, refl, refl), omega arith)
scores-Comparable c (inr (inr n)) = absurd n

haiku-scored : get_score "haiku" scores ≡ some (score_of 950000 120 0)
unfolding get_score
haiku-scored = refl

frontier-nonempty_example : (b : String) × In b (frontier scores arms)
frontier-nonempty_example =
    frontier-nonempty scores arms "haiku" (score_of 950000 120 0) (inl refl) haiku-scored
      scores-Comparable

-- Three arms that do not record the same axes, and dominate one another in turn: none is left.
abbrev partial_scores : Scores
partial_scores =
    (
      "a",
      record {
        passk = 900000;
        cost_per_passed = some 2;
        latency_p50 = some 1;
        latency_p95 = none;
        fabrication_count = 0;
      },
    )
    ∷ (
      "b",
      record {
        passk = 900000;
        cost_per_passed = none;
        latency_p50 = some 2;
        latency_p95 = some 1;
        fabrication_count = 0;
      },
    )
    ∷ (
      "c",
      record {
        passk = 900000;
        cost_per_passed = some 1;
        latency_p50 = none;
        latency_p95 = some 2;
        fabrication_count = 0;
      },
    )
    ∷ []

frontier_of_a_cycle : frontier partial_scores ("a" ∷ "b" ∷ "c" ∷ []) ≡ []
unfolding frontier
frontier_of_a_cycle = refl

abbrev one_arm : List String
one_arm = "haiku" ∷ []

-- Of one arm alone: its score is comparable with itself.
one_arm-AllComparable : AllComparable scores one_arm
unfolding get_score
one_arm-AllComparable a c s (inl e) (inl f) g =
    let named : some (score_of 950000 120 0) ≡ some s =
      subst (λ x. get_score x scores ≡ some s) e g in
    rw f (
      subst (λ x. Comparable x (some (score_of 950000 120 0)))
        (some-injective (score_of 950000 120 0) s named) ((refl, refl, refl), omega arith))
one_arm-AllComparable a c s (inr n) i g = absurd n
one_arm-AllComparable a c s (inl e) (inr n) g = absurd n

quality_route-raises_example : quality_route (λ a pool. a) scores one_arm (some 900000) ≢ raises
quality_route-raises_example =
    quality_route-raises (λ a pool. a) scores one_arm (some 900000) one_arm-AllComparable

-- So that, over those scores, routing raises.
route_of_a_cycle :
    quality_route (λ a pool. a) partial_scores ("a" ∷ "b" ∷ "c" ∷ []) (some 800000) ≡ raises
unfolding quality_route fabricating
route_of_a_cycle = refl
