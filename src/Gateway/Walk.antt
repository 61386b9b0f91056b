-- ===== src/Gateway/Walk.antt =====
-- The fallback walk of src/resgraph/gateway/server.py: which endpoint serves an alias, which is the
-- next hop, and the loop over failing ones. The gateway's mutable parts are a world `W` that answers
-- for the dispatch state of a backend (gateway/dispatch.py), the fall-forward budget (`none` where
-- there is none) and the clock; metrics and logs are left out.
pub mod Routes
pub mod Hop
pub mod Ends
mod Tests
use resgraph.Prelude.{
  ℕ, zero, suc, ◌+◌, String, Bool, true, false, not, ◌&&◌, ◌||◌, Option, none, some, List, [], ◌∷◌,
  ◌++◌, map, str_eq, filter, any, ◌==◌, if◌then◌else◌,
}
use Prim.Native.Char.{code}
use resgraph.Gateway.Dispatch.{Backend, is_down, choose}
use resgraph.Gateway.Plan.{Endpoint, Setup, candidates}
use resgraph.Gateway.Plan.Expand.{provider_or, backend_key}

-- The text of a hop in front of its first colon.
unfoldable pub before_colon : String → String
before_colon String.[] = String.[]
before_colon (String.◌∷◌ c s) =
    let rest = before_colon s in if code c == b':' then String.[] else String.◌∷◌ c rest

abbrev pub provider_of : Endpoint → String
provider_of e = provider_or e.setup.provider

-- A hop of the chain: the failed backend and the endpoint, `f"{failed_backend}:{alias}"`.
abbrev pub Chain : Type 0
Chain = List (String × String)

-- `{c.split(":", 1)[0] for c in chain}`
abbrev pub tried_of : Chain → List String
tried_of chain = map (λ (hop : String × String). before_colon hop.0) chain

abbrev pub is_tried : String → List String → Bool
is_tried name tried = any (str_eq name) tried

-- `out.setdefault(provider, eid)`
abbrev pub get_route : String → List (String × Endpoint) → Option Endpoint
get_route p [] = none
get_route p ((q, e) ∷ rest) = let later = get_route p rest in if str_eq p q then some e else later

abbrev pub unless_routed :
    Option Endpoint → String → Endpoint → List (String × Endpoint) → List (String × Endpoint)
unless_routed none p e out = out ++ ((p, e) ∷ [])
unless_routed (some f) p e out = out

abbrev pub set_default : String → Endpoint → List (String × Endpoint) → List (String × Endpoint)
set_default p e out = unless_routed (get_route p out) p e out

-- How an attempt ends: served; refused by a full queue; by an HTTP error; by any other exception.
pub data Attempt (T : Type 0) : Type 0 where
  served : (result : T) → Attempt T
  queue_full : Attempt T
  http_error : Attempt T
  failed : Attempt T

pub data Walked (T : Type 0) : Type 0 where
  walked : (result : T) → (e : Endpoint) → (chain : Chain) → Walked T
  rejected_429 : (chain : Chain) → Walked T
  raised : Walked T
  pin_failed_502 : (e : Endpoint) → Walked T
  budget_503 : (chain : Chain) → Walked T
  exhausted_503 : (chain : Chain) → Walked T
  out_of_fuel : Walked T

-- What the walk reads and writes of the gateway's mutable state.
pub record Dispatch (W : Type 0) : Type 0 where
  pub backends : W → String → Backend
  pub clock : W → ℕ
  pub allows : W → Option Bool
  pub observe_error : String → W → W

module _ {W : Type 0} (d : Dispatch W) (routes : List String) (setups : List Endpoint)
    (aliases : List (String × List Endpoint)) (paid : Endpoint → Bool) where
  -- `Gateway.backend`
  abbrev pub backend : W → Endpoint → Backend
  unfolding backend_key
  backend w e = d.backends w (backend_key e)

  abbrev pub first_named : W → String → Endpoint → List Endpoint → Endpoint
  unfolding backend
  first_named w name default [] = default
  first_named w name default (e ∷ es) =
      let later = first_named w name default es in
      if str_eq (backend w e).name name then e else later

  abbrev pub serve_chosen : W → Option Backend → Endpoint → List Endpoint → Endpoint
  unfolding first_named
  serve_chosen w none e es = e
  serve_chosen w (some nxt) e es = first_named w nxt.name e (e ∷ es)

  abbrev pub serve_among : W → List Endpoint → Option Endpoint
  unfolding choose serve_chosen backend
  serve_among w [] = none
  serve_among w (e ∷ []) = some e
  serve_among w (e ∷ f ∷ es) =
      some (serve_chosen w (choose (d.clock w) (map (backend w) (e ∷ f ∷ es))) e (f ∷ es))

  unfoldable pub serving_endpoint : W → String → Option Endpoint
  unfolding candidates serve_among
  serving_endpoint w alias = serve_among w (candidates alias aliases setups)

  abbrev pub add_route : Option Endpoint → List (String × Endpoint) → List (String × Endpoint)
  add_route none out = out
  add_route (some e) out = set_default (provider_of e) e out

  unfoldable pub routed_from : W → List String → List (String × Endpoint) → List (String × Endpoint)
  unfolding serving_endpoint
  routed_from w [] out = out
  routed_from w (model ∷ models) out =
      routed_from w models (add_route (serving_endpoint w model) out)

  -- `Gateway.routed`: `routes` are the models of the registry, and the global default.
  unfoldable pub routed : W → List (String × Endpoint)
  unfolding routed_from
  routed w = routed_from w routes []

  -- `budget is not None and _paid(...) and not budget.allows()`
  abbrev pub over_budget : Option Bool → Endpoint → Bool
  over_budget none e = false
  over_budget (some allows) e = paid e && not allows

  -- Is the routed endpoint a candidate for the next hop?
  abbrev pub may_hop : W → (ignore_budget : Bool) → List String → String × Endpoint → Bool
  unfolding backend
  may_hop w ignore_budget tried (provider, e) =
      not (is_tried provider tried || is_tried (backend w e).name tried)
      && not (not ignore_budget && over_budget (d.allows w) e)
      && not (is_down (backend w e).health.state)

  abbrev pub hop_backends : W → Bool → Chain → List Backend
  unfolding may_hop routed
  hop_backends w ignore_budget chain =
      map (λ (r : String × Endpoint). backend w r.1)
        (filter (may_hop w ignore_budget (tried_of chain)) (routed w))

  abbrev pub alias_of_chosen : W → Option Backend → Option Endpoint
  unfolding routed
  alias_of_chosen w none = none
  alias_of_chosen w (some nxt) = get_route nxt.name (routed w)

  -- `_next_alias`
  unfoldable pub next_alias : W → (ignore_budget : Bool) → Chain → Option Endpoint
  unfolding hop_backends alias_of_chosen choose
  next_alias w ignore_budget chain =
      alias_of_chosen w (choose (d.clock w) (hop_backends w ignore_budget chain))

  abbrev pub is_some : Option Endpoint → Bool
  is_some none = false
  is_some (some e) = true

  abbrev pub is_spent : Option Bool → Bool
  is_spent none = false
  is_spent (some allows) = not allows

  module _ {T : Type 0} (attempt : Endpoint → W → Attempt T × W) (fallback_allowed : Bool) where
    abbrev pub give_up : Chain → W → Walked T
    unfolding next_alias
    give_up chain w =
        if is_spent (d.allows w) && is_some (next_alias w true chain)
        then budget_503 chain
        else exhausted_503 chain

    -- `within.pop(0) if within else _next_alias(gw, chain)`
    abbrev pub pop_or_next : List Endpoint → Chain → W → Option Endpoint × List Endpoint
    unfolding next_alias
    pop_or_next [] chain w = (next_alias w false chain, [])
    pop_or_next (e ∷ within) chain w = (some e, within)

    abbrev pub after_attempt :
        (Option Endpoint × List Endpoint → Chain → W → Walked T)
        → Endpoint
        → List Endpoint
        → Chain
        → Attempt T × W
        → Walked T
    unfolding pop_or_next backend
    after_attempt next e within chain (served result, w) = walked result e chain
    after_attempt next e within chain (queue_full, w) = rejected_429 chain
    after_attempt next e within chain (http_error, w) = raised
    after_attempt next e within chain (failed, w) =
        let name = (backend w e).name in
        let chain' = chain ++ ((name, e.eid) ∷ []) in
        let w' = d.observe_error name w in
        if not fallback_allowed
        then pin_failed_502 e
        else next (pop_or_next within chain' w') chain' w'

    -- `_serve_with_walk`, the loop on fuel.
    unfoldable pub walk : ℕ → Option Endpoint × List Endpoint → Chain → W → Walked T
    unfolding after_attempt give_up
    walk zero (alias, within) chain w = out_of_fuel
    walk (suc n) (none, within) chain w = give_up chain w
    walk (suc n) (some e, within) chain w =
        after_attempt (λ next chain' w'. walk n next chain' w') e within chain (attempt e w)
