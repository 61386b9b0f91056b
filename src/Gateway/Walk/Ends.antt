-- ===== src/Gateway/Walk/Ends.antt =====
-- The fallback walk of src/resgraph/gateway/server.py ends.
use resgraph.Prelude.{
  ℕ, zero, suc, ◌+◌, ◌≤◌, ◌<◌, ◌≡◌, refl, sym, ap, subst, ◌∙◌, String, Bool, true, false, not,
  Option, none, some, List, [], ◌∷◌, ◌++◌, map, map-append, length, any-append, str_eq, eq_iff,
  filter, arith, In, Bool-cases, inl, inr,
}
use resgraph.Gateway.Plan.{Endpoint}
use resgraph.Gateway.Plan.Expand.{backend_key}
use resgraph.Gateway.Walk.{
  before_colon, Chain, tried_of, is_tried, Dispatch, next_alias, Attempt, served, queue_full,
  http_error, failed, Walked, out_of_fuel, give_up, pop_or_next, after_attempt, walk,
}
use resgraph.Gateway.Walk.Routes.{IsRoutable, routable_of}
use resgraph.Gateway.Walk.Hop.{IsNamed, next_alias-IsHop}

-- How many of the names were not tried.
abbrev pub untried : List String → List String → ℕ
untried tried names = length (filter (λ n. not (is_tried n tried)) names)

untried-append :
    (tried more names : List String) → untried (tried ++ more) names ≤ untried tried names
untried-append tried more [] = omega arith
untried-append tried more (n ∷ names) =
    ground (arith, untried-append tried more names, any-append (str_eq n) tried more)

-- Trying a name that was not tried leaves one less.
untried-less :
    (tried names : List String) (n : String)
    → In n names
    → is_tried n tried ≡ false
    → untried (tried ++ (n ∷ [])) names < untried tried names
untried-less tried [] n i h = absurd i
untried-less tried (m ∷ names) n (inl e) h =
    let fresh : is_tried m tried ≡ false = ap (λ x. is_tried x tried) (sym e) ∙ h in
    let hit : str_eq m n ≡ true = (eq_iff m n).1 (sym e) in
    ground (arith, untried-append tried (n ∷ []) names, any-append (str_eq m) tried (n ∷ []))
untried-less tried (m ∷ names) n (inr i) h =
    ground (arith, untried-less tried names n i h, any-append (str_eq m) tried (n ∷ []))

abbrev pub is_ended : {T : Type 0} → Walked T → Bool
is_ended out_of_fuel = false
is_ended _ = true

In-map_of : {A B : Type 0} (f : A → B) (a : A) (xs : List A) → In a xs → In (f a) (map f xs)
In-map_of f a (x ∷ xs) (inl e) = inl (ap f e)
In-map_of f a (x ∷ xs) (inr h) = inr (In-map_of f a xs h)
In-map_of f a [] h = absurd h

module _ {W : Type 0} (d : Dispatch W) (routes : List String) (setups : List Endpoint)
    (aliases : List (String × List Endpoint)) (paid : Endpoint → Bool) where
  -- No name of a routable endpoint's backend has a colon, at which the chain is split.
  abbrev pub HasNoColon : Type 0
  HasNoColon =
      (e : Endpoint)
      → IsRoutable d routes setups aliases paid e
      → before_colon (backend_key e) ≡ backend_key e

  abbrev pub keys : List String
  keys = map backend_key (routable_of d routes setups aliases paid routes)

  abbrev pub left : Chain → ℕ
  left chain = untried (tried_of chain) keys

  module _ {T : Type 0} (attempt : Endpoint → W → Attempt T × W) (fallback_allowed : Bool) where
    give_up-ends :
        (chain : Chain) (w : W)
        → is_ended (give_up d routes setups aliases paid attempt fallback_allowed chain w) ≡ true
    unfolding give_up
    give_up-ends chain w = ground arith

    after_attempt-ends :
        (next : Option Endpoint × List Endpoint → Chain → W → Walked T) (e : Endpoint)
        (within : List Endpoint) (chain : Chain) (r : Attempt T × W)
        → ((w w' : W)
            → is_ended (
                next
                  (pop_or_next d routes setups aliases paid attempt fallback_allowed within
                    (chain ++ (((d.backends w (backend_key e)).name, e.eid) ∷ []))
                    w')
                  (chain ++ (((d.backends w (backend_key e)).name, e.eid) ∷ []))
                  w')
              ≡ true)
        → is_ended (
            after_attempt d routes setups aliases paid attempt fallback_allowed next e within chain
              r)
          ≡ true
    unfolding after_attempt
    after_attempt-ends next e within chain (served result, w) h = refl
    after_attempt-ends next e within chain (queue_full, w) h = refl
    after_attempt-ends next e within chain (http_error, w) h = refl
    after_attempt-ends next e within chain (failed, w) h = elim (Bool-cases fallback_allowed) [
      | inl k ↦ rw k (h w _)
      | inr k ↦ rw k
    ]

    abbrev Ended : ℕ → Option Endpoint × List Endpoint → Chain → W → Type 0
    Ended n next chain w =
        is_ended (walk d routes setups aliases paid attempt fallback_allowed n next chain w) ≡ true

    module _ (names : IsNamed d routes setups aliases paid) (no_colon : HasNoColon) where
      -- A failed hop of a fresh backend leaves one name less; any other leaves no more.
      left-fresh :
          (chain : Chain) (e : Endpoint) (w : W)
          → IsRoutable d routes setups aliases paid e
          → is_tried (backend_key e) (tried_of chain) ≡ false
          → left (chain ++ (((d.backends w (backend_key e)).name, e.eid) ∷ [])) < left chain
      left-fresh chain e w i fresh =
          subst (λ tried. untried tried keys < left chain)
            (sym (
              map-append _ chain _
              ∙ ap (λ n. tried_of chain ++ (n ∷ []))
                  (ap before_colon (names.by_key w (backend_key e)) ∙ no_colon e i)))
            (untried-less (tried_of chain) keys (backend_key e) (In-map_of backend_key e _ i) fresh)

      left-more : (chain : Chain) (hop : String × String) → left (chain ++ (hop ∷ [])) ≤ left chain
      left-more chain hop =
          subst (λ tried. untried tried keys ≤ left chain) (sym (map-append _ chain _))
            (untried-append (tried_of chain) (before_colon hop.0 ∷ []) keys)

      -- The walk from no endpoint, or a fresh one, with none left of the routed alias.
      cross_ends :
          (n : ℕ) (o : Option Endpoint) (chain : Chain) (w v : W)
          → next_alias d routes setups aliases paid v false chain ≡ o
          → left chain < n
          → Ended n (o, []) chain w
      unfolding walk pop_or_next
      cross_ends zero o chain w v h lt = absurd (omega (arith, lt))
      cross_ends (suc n) none chain w v h lt = give_up-ends chain w
      cross_ends (suc n) (some e) chain w v h lt =
          let hop = next_alias-IsHop d routes setups aliases paid names v false chain e h in
          after_attempt-ends
            (λ next chain'' w''.
              walk d routes setups aliases paid attempt fallback_allowed n next chain'' w'')
            e [] chain (attempt e w)
            (λ u w'.
              let chain' = chain ++ (((d.backends u (backend_key e)).name, e.eid) ∷ []) in
              let less : left chain' < n =
                omega (arith, lt, left-fresh chain e u hop.routable hop.untried) in
              cross_ends n (next_alias d routes setups aliases paid w' false chain') chain' w' w'
                refl less)

      within_ends :
          (n : ℕ) (e : Endpoint) (within : List Endpoint) (chain : Chain) (w : W)
          → length within + left chain + 1 < n
          → Ended n (some e, within) chain w
      unfolding walk pop_or_next
      within_ends zero e within chain w lt = absurd (omega (arith, lt))
      within_ends (suc n) e [] chain w lt =
          after_attempt-ends
            (λ next chain'' w''.
              walk d routes setups aliases paid attempt fallback_allowed n next chain'' w'')
            e [] chain (attempt e w)
            (λ u w'.
              let chain' = chain ++ (((d.backends u (backend_key e)).name, e.eid) ∷ []) in
              let less : left chain' < n =
                omega (arith, lt, left-more chain ((d.backends u (backend_key e)).name, e.eid)) in
              cross_ends n (next_alias d routes setups aliases paid w' false chain') chain' w' w'
                refl less)
      within_ends (suc n) e (f ∷ within) chain w lt =
          after_attempt-ends
            (λ next chain'' w''.
              walk d routes setups aliases paid attempt fallback_allowed n next chain'' w'')
            e (f ∷ within) chain (attempt e w)
            (λ u w'.
              let chain' = chain ++ (((d.backends u (backend_key e)).name, e.eid) ∷ []) in
              let less : length within + left chain' + 1 < n =
                omega (arith, lt, left-more chain ((d.backends u (backend_key e)).name, e.eid)) in
              within_ends n f within chain' w' less)

      length-filter : (p : String → Bool) (xs : List String) → length (filter p xs) ≤ length xs
      length-filter p [] = omega arith
      length-filter p (x ∷ xs) = ground (arith, length-filter p xs)

      -- The walk ends, whatever the attempts do and whatever they change of the gateway: with a
      -- response, a refusal, or its own 503. Fuel for the endpoints of the routed alias and for one
      -- hop to each routable endpoint is enough. The conditions: a backend is called by its key, no
      -- provider of a routable endpoint has an `@`, and no backend's name has a colon.
      pub walk-ends :
          (n : ℕ) (first : Endpoint) (more : List Endpoint) (w : W)
          → length more + length keys + 2 ≤ n
          → is_ended
              (walk d routes setups aliases paid attempt fallback_allowed n (some first, more) [] w)
            ≡ true
      walk-ends n first more w le =
          within_ends n first more [] w
            (omega (arith, le, length-filter (λ m. not (is_tried m [])) keys))
