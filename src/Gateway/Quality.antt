-- ===== src/Gateway/Quality.antt =====
-- src/resgraph/gateway/quality.py: which measured candidates a task class may be routed to.
pub mod Frontier
pub mod Route
use resgraph.Prelude.{
  ℕ, ◌+◌, ◌<◌, String, Bool, true, false, not, ◌&&◌, ◌||◌, Option, none, some, List, [], ◌∷◌,
  str_eq, ltb, leb, ◌==◌, if◌then◌else◌, filter, any,
}

-- One arm's entry of the table. A pass^k is in millionths, a cost in microdollars, a latency in
-- milliseconds; the fields of provenance that no decision reads are left out.
pub record Score : Type 0 where
  pub passk : ℕ
  pub cost_per_passed : Option ℕ
  pub latency_p50 : Option ℕ
  pub latency_p95 : Option ℕ
  pub fabrication_count : ℕ

-- `scores`, by alias.
abbrev pub Scores : Type 0
Scores = List (String × Score)

unfoldable pub get_score : String → Scores → Option Score
get_score k [] = none
get_score k ((a, s) ∷ rest) = if str_eq a k then some s else get_score k rest

-- Is `a in scores`, with a score that passes the test?
abbrev pub scored : (Score → Bool) → Option Score → Bool
scored test none = false
scored test (some s) = test s

abbrev pub fabricated : Score → Bool
fabricated s = not (s.fabrication_count == 0)

unfoldable pub fabricating : Scores → List String → List String
unfolding get_score
fabricating scores candidates = filter (λ a. scored fabricated (get_score a scores)) candidates

-- `a in names`
unfoldable pub is_in : String → List String → Bool
is_in a names = any (str_eq a) names

unfoldable pub eligible : Scores → List String → ℕ → List String
unfolding get_score is_in
eligible scores candidates min_passk =
    let disqualified = fabricating scores candidates in
    filter
      (λ a. scored (λ s. leb min_passk s.passk) (get_score a scores) && not (is_in a disqualified))
      candidates

-- What one axis says of an arm against another: whether it is compared, and then whether the arm is
-- worse, or better.
pub data Verdict : Type 0 where
  not_compared worse better equal : Verdict

-- An axis where less is better.
unfoldable pub lower : ℕ → ℕ → Verdict
lower x y = if ltb y x then worse else if ltb x y then better else equal

unfoldable pub compared : Option ℕ → Option ℕ → Verdict
unfolding lower
compared (some x) (some y) = lower x y
compared (some x) none = not_compared
compared none y = not_compared

-- The verdicts of `AXES`, in their order.
unfoldable pub verdicts : Score → Score → List Verdict
unfolding compared lower
verdicts a b =
    lower b.passk a.passk
    ∷ compared a.cost_per_passed b.cost_per_passed
    ∷ compared a.latency_p50 b.latency_p50
    ∷ compared a.latency_p95 b.latency_p95
    ∷ []

-- The loop of `dominates` over the axes, on its flag `better_somewhere`.
unfoldable pub wins : Bool → List Verdict → Bool
wins better_somewhere [] = better_somewhere
wins better_somewhere (worse ∷ rest) = false
wins better_somewhere (better ∷ rest) = wins true rest
wins better_somewhere (equal ∷ rest) = wins better_somewhere rest
wins better_somewhere (not_compared ∷ rest) = wins better_somewhere rest

unfoldable pub dominates : Score → Score → Bool
unfolding verdicts wins
dominates a b = wins false (verdicts a b)

-- Does the candidate `o` dominate the one with the score `s`?
unfoldable pub beats : Scores → Score → String → Bool
unfolding get_score dominates
beats scores s o = scored (λ t. dominates t s) (get_score o scores)

unfoldable pub undominated : Scores → List String → String → Bool
unfolding get_score beats
undominated scores known a =
    scored (λ s. not (any (λ o. not (str_eq o a) && beats scores s o) known)) (get_score a scores)

unfoldable pub frontier : Scores → List String → List String
unfolding get_score undominated
frontier scores candidates =
    let known = filter (λ a. scored (λ s. true) (get_score a scores)) candidates in
    filter (undominated scores known) known

-- How `_quality_route` of src/resgraph/gateway/server.py ends: without a decision, so that the class's
-- static default serves, with the arm that serves, or by the exception of `ok[0]` on no arm.
pub data QualityRoute : Type 0 where
  degrades : QualityRoute
  picks : String → QualityRoute
  raises : QualityRoute

-- `not scores[a]["cost_per_passed"]`
abbrev is_free : Score → Bool
is_free s = elim s.cost_per_passed [ none ↦ true | some cost ↦ cost == 0 ]

abbrev passk_of : Option Score → ℕ
passk_of none = 0
passk_of (some s) = s.passk

-- Python's `max(..., key=...)`: the first of the greatest.
unfoldable pub best_arm : Scores → String → List String → String
unfolding get_score
best_arm scores best [] = best
best_arm scores best (a ∷ rest) =
    best_arm scores
      (if ltb (passk_of (get_score best scores)) (passk_of (get_score a scores)) then a else best)
      rest

-- A free arm if there is one, else the lottery over the pool, which `draw` stands for.
unfoldable pub pick_from :
    (String → List String → String) → Scores → List String → List String → QualityRoute
unfolding best_arm
pick_from draw scores (f ∷ free) pool = picks (best_arm scores f free)
pick_from draw scores [] [] = raises
pick_from draw scores [] (a ∷ pool) = picks (draw a pool)

unfoldable pub route_among : (String → List String → String) → Scores → List String → QualityRoute
unfolding frontier get_score pick_from
route_among draw scores [] = degrades
route_among draw scores (a ∷ ok) =
    let admitted = frontier scores (a ∷ ok) in
    pick_from draw scores (filter (λ x. scored is_free (get_score x scores)) admitted) admitted

-- `_quality_route`, for a task class with a route, on its candidates and its floor.
unfoldable pub quality_route :
    (String → List String → String) → Scores → List String → Option ℕ → QualityRoute
unfolding eligible route_among
quality_route draw scores candidates none = degrades
quality_route draw scores candidates (some min_passk) =
    route_among draw scores (eligible scores candidates min_passk)
