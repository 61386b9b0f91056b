-- ===== src/Gateway/Quality/Route.antt =====
-- `_quality_route` of src/resgraph/gateway/server.py on arms that can be compared.
use resgraph.Prelude.{ℕ, ◌≡◌, ◌≢◌, refl, String, Option, none, some, List, [], ◌∷◌, inl, In}
use resgraph.Gateway.Quality.{
  Score, Scores, get_score, eligible, frontier, raises, pick_from, route_among, quality_route,
}
use resgraph.Gateway.Quality.Frontier.{Clears, Comparable, eligible-In, frontier-nonempty}

-- All measured arms of the list record the same axes, with no pass^k over one.
abbrev pub AllComparable : Scores → List String → Type 0
AllComparable scores arms =
    (a c : String) (s : Score)
    → In a arms
    → In c arms
    → get_score a scores ≡ some s
    → Comparable s (get_score c scores)

pick_from-raises :
    (draw : String → List String → String) (scores : Scores) (free pool : List String) (b : String)
    → In b pool
    → pick_from draw scores free pool ≢ raises
unfolding pick_from
pick_from-raises draw scores (f ∷ free) pool b h e = cc
pick_from-raises draw scores [] [] b h e = absurd h
pick_from-raises draw scores [] (a ∷ pool) b h e = cc

Clears-some : (n : ℕ) (o : Option Score) → Clears n o → (s : Score) × (o ≡ some s)
Clears-some n none h = absurd h
Clears-some n (some s) h = (s, refl)

route_among-raises :
    (draw : String → List String → String) (scores : Scores) (ok : List String) (n : ℕ)
    → ((a : String) → In a ok → Clears n (get_score a scores))
    → AllComparable scores ok
    → route_among draw scores ok ≢ raises
unfolding route_among
route_among-raises draw scores [] n clear same e = cc
route_among-raises draw scores (a ∷ ok) n clear same e =
    let (s, g) = Clears-some n (get_score a scores) (clear a (inl refl)) in
    let (b, h) =
      frontier-nonempty scores (a ∷ ok) a s (inl refl) g (λ c i. same a c s (inl refl) i g) in
    pick_from-raises draw scores _ (frontier scores (a ∷ ok)) b h e

-- Where the candidates' scores record the same axes, with no pass^k over one, quality routing never
-- raises: it picks an arm or leaves the request to the static default, whatever the lottery draws.
pub quality_route-raises :
    (draw : String → List String → String) (scores : Scores) (candidates : List String)
    (floor : Option ℕ)
    → AllComparable scores candidates
    → quality_route draw scores candidates floor ≢ raises
unfolding quality_route
quality_route-raises draw scores candidates none same e = cc
quality_route-raises draw scores candidates (some n) same e =
    let kept = λ (a : String). eligible-In scores candidates n a in
    route_among-raises draw scores (eligible scores candidates n) n (λ a h. ((kept a).0 h).1)
      (λ a c s h i g. same a c s ((kept a).0 h).0 ((kept c).0 i).0 g) e
