-- ===== src/Gateway/Plan/Hard.antt =====
-- The pipeline of `_endpoint_plan` (src/resgraph/gateway/server.py) enforces the hard constraints,
-- and refuses nothing else.
use resgraph.Prelude.{
  ℕ, ◌≤◌, ◌≡◌, refl, String, Bool, true, false, not, ◌&&◌, Option, none, some, List, [], ◌∷◌, ◌↔◌,
  leb, leb→le, arith, In, In-filter, filter,
}
use resgraph.Gateway.Plan.{
  Setup, Endpoint, past, lifecycle_state, policy_allows, Mismatch, capability_mismatch, Prices,
  endpoint_price, Request, Gateway, Refusal, Plan, refused, planned, and_then, or_refuse, keep,
  get_policy, filter_policy, policy_filter, names, selects, narrow, live, capable, or_free,
  within_price, price_ceiling, refuse_sunset, refuse_incapable, hard_limits, plan_candidates,
  plan_pin, find_setup, candidates, prefer_up, or_all, endpoint_plan,
}

-- The endpoints of a plan; a refusal has none.
abbrev pub InPlan : Endpoint → Plan → Type 0
InPlan e (refused r) = ⊥
InPlan e (planned es) = In e es

-- The operator's policy for the caller, where there is one, names the endpoint.
abbrev pub Permits : Option (List String) → Endpoint → Type 0
Permits none e = Unit
Permits (some allowed) e = policy_allows allowed e ≡ true

-- The caller's words: within `only`, where it is given, and not ignored.
abbrev pub Chosen : Request → Endpoint → Type 0
Chosen req e = (selects req.only e ≡ true) × (names req.ignore e ≡ false)

abbrev pub Affordable : Option ℕ → Prices → Endpoint → Type 0
Affordable none prices e = Unit
Affordable (some top) prices e = or_free (endpoint_price e.setup prices) ≤ top

-- Not past its sunset, able to serve the request, and within the price ceiling.
abbrev pub Serviceable : Gateway → Request → Endpoint → Type 0
Serviceable gw req e =
    (past gw.today e.setup.sunset ≡ false)
    × ((capability_mismatch e.setup req.wants_tools req.max_tokens ≡ none)
        × Affordable req.max_price gw.prices e)

or_refuse-In :
    (r : Refusal) (es : List Endpoint) (e : Endpoint) → InPlan e (or_refuse r es) ↔ In e es
or_refuse-In r [] e = (λ h. h, λ h. h)
or_refuse-In r (x ∷ es) e = (λ h. h, λ h. h)

keep-In :
    (r : Refusal) (test : Endpoint → Bool) (es : List Endpoint) (e : Endpoint)
    → InPlan e (keep r test es) ↔ (In e es × (test e ≡ true))
unfolding keep
keep-In r test es e =
    let there = or_refuse-In r (filter test es) e in
    let kept = In-filter test e es in (λ h. kept.0 (there.0 h), λ h. there.1 (kept.1 h))

-- A stage that keeps what has `Q`, after a plan that keeps what has `P`.
module _ (I P Q : Type 0) (e : Endpoint) where
  and_then-In :
      (p : Plan) (next : List Endpoint → Plan)
      → InPlan e p ↔ (I × P)
      → ((es : List Endpoint) → InPlan e (next es) ↔ (In e es × Q))
      → InPlan e (and_then p next) ↔ (I × (P × Q))
  and_then-In (refused r) next h k = (λ l. absurd l, λ (i, (p, q)). h.1 (i, p))
  and_then-In (planned es) next h k = (
    λ l. let (i, q) = (k es).0 l in let (j, p) = h.0 i in (j, (p, q)),
    λ (i, (p, q)). (k es).1 (h.1 (i, p), q),
  )

filter_policy-In :
    (policy : Option (List String)) (es : List Endpoint) (e : Endpoint)
    → InPlan e (filter_policy policy es) ↔ (In e es × Permits policy e)
unfolding filter_policy
filter_policy-In none es e = (λ h. (h, tt), λ h. h.0)
filter_policy-In (some allowed) es e = keep-In _ (policy_allows allowed) es e

narrow-In :
    (req : Request) (es : List Endpoint) (e : Endpoint)
    → InPlan e (narrow req es) ↔ (In e es × Chosen req e)
unfolding narrow
narrow-In req es e =
    let kept =
      keep-In Refusal.bad_request (λ x. selects req.only x && not (names req.ignore x)) es e in
    (λ h. let (i, t) = kept.0 h in ground arith, λ (i, (c, n)). kept.1 (i, ground arith))

live_iff :
    (s : Setup) (today : String)
    → (live (lifecycle_state s today) ≡ true) ↔ (past today s.sunset ≡ false)
unfolding lifecycle_state
live_iff s today = ground arith

refuse_sunset-In :
    (gw : Gateway) (es : List Endpoint) (e : Endpoint)
    → InPlan e (refuse_sunset gw es) ↔ (In e es × (past gw.today e.setup.sunset ≡ false))
unfolding refuse_sunset
refuse_sunset-In gw es e =
    let kept = keep-In Refusal.gone (λ x. live (lifecycle_state x.setup gw.today)) es e in
    let alive = live_iff e.setup gw.today in
    (λ h. ((kept.0 h).0, alive.0 (kept.0 h).1), λ (i, a). kept.1 (i, alive.1 a))

capable_iff : (m : Option Mismatch) → (capable m ≡ true) ↔ (m ≡ none)
capable_iff none = (λ h. refl, λ h. refl)
capable_iff (some m) = (λ h. cc, λ h. cc)

refuse_incapable-In :
    (req : Request) (es : List Endpoint) (e : Endpoint)
    → InPlan e (refuse_incapable req es)
      ↔ (In e es × (capability_mismatch e.setup req.wants_tools req.max_tokens ≡ none))
unfolding refuse_incapable
refuse_incapable-In req es e =
    let kept =
      keep-In Refusal.bad_request
        (λ x. capable (capability_mismatch x.setup req.wants_tools req.max_tokens)) es e in
    let fit = capable_iff (capability_mismatch e.setup req.wants_tools req.max_tokens) in
    (λ h. ((kept.0 h).0, fit.0 (kept.0 h).1), λ (i, a). kept.1 (i, fit.1 a))

within_price-In :
    (top : Option ℕ) (prices : Prices) (es : List Endpoint) (e : Endpoint)
    → InPlan e (within_price top prices es) ↔ (In e es × Affordable top prices e)
unfolding within_price
within_price-In none prices es e = (λ h. (h, tt), λ h. h.0)
within_price-In (some top) prices es e =
    let kept =
      keep-In Refusal.bad_request (λ x. leb (or_free (endpoint_price x.setup prices)) top) es e in
    (λ h. ((kept.0 h).0, leb→le _ top (kept.0 h).1), λ (i, a). kept.1 (i, ground arith))

hard_limits-In :
    (gw : Gateway) (req : Request) (es : List Endpoint) (e : Endpoint)
    → InPlan e (hard_limits gw req es) ↔ (In e es × Serviceable gw req e)
unfolding hard_limits price_ceiling
hard_limits-In gw req es e =
    and_then-In _ _ _ e (refuse_sunset gw es) _ (refuse_sunset-In gw es e) (λ alive.
      and_then-In _ _ _ e (refuse_incapable req alive) _ (refuse_incapable-In req alive e)
        (λ fit. within_price-In req.max_price gw.prices fit e))

-- The pipeline plans exactly the candidates that the caller's policy permits, that the caller chose,
-- that are not past their sunset, are capable of the request, and fit under its price ceiling; it
-- refuses only where there is none.
pub plan_candidates-In :
    (gw : Gateway) (req : Request) (es : List Endpoint) (e : Endpoint)
    → InPlan e (plan_candidates gw req es) ↔ (
        In e es
        × (Permits (get_policy req.caller gw.policy) e × (Chosen req e × Serviceable gw req e)))
unfolding plan_candidates policy_filter
plan_candidates-In gw req es e =
    and_then-In _ _ _ e (policy_filter gw req.caller es) _ (filter_policy-In _ es e) (λ allowed.
      and_then-In _ _ _ e (narrow req allowed) _ (narrow-In req allowed e)
        (λ chosen. hard_limits-In gw req chosen e))

plan_pin-In :
    (gw : Gateway) (req : Request) (es : List Endpoint) (e : Endpoint)
    → InPlan e (plan_pin gw req es)
      ↔ (In e es × (Permits (get_policy req.caller gw.policy) e × Serviceable gw req e))
unfolding plan_pin policy_filter
plan_pin-In gw req es e =
    and_then-In _ _ _ e (policy_filter gw req.caller es) _ (filter_policy-In _ es e)
      (λ allowed. hard_limits-In gw req allowed e)

In-or_all :
    (up es : List Endpoint) (e : Endpoint)
    → ((x : Endpoint) → In x up → In x es)
    → In e (or_all up es)
    → In e es
In-or_all [] es e h i = i
In-or_all (u ∷ up) es e h i = h e i

prefer_up-In :
    (down : Endpoint → Bool) (p : Plan) (e : Endpoint)
    → InPlan e (and_then p (prefer_up down))
    → InPlan e p
unfolding prefer_up
prefer_up-In down (refused r) e h = h
prefer_up-In down (planned es) e h =
    In-or_all (filter (λ x. not (down x)) es) es e
      (λ x i. ((In-filter (λ x. not (down x)) x es).0 i).0) h

known-next :
    (es : List Endpoint) (next : List Endpoint → Plan) (e : Endpoint)
    → InPlan e (and_then (or_refuse Refusal.bad_request es) next)
    → InPlan e (next es)
known-next [] next e h = absurd h
known-next (x ∷ es) next e h = h

-- What a request may be served by: a pin binds itself to the operator's policy and the hard limits,
-- and any other request to its own narrowing too.
abbrev pub Admissible : Gateway → Request → (pinned : Bool) → String → Endpoint → Type 0
Admissible gw req true target e =
    In e (find_setup target gw.setups)
    × (Permits (get_policy req.caller gw.policy) e × Serviceable gw req e)
Admissible gw req false target e =
    In e (candidates target gw.aliases gw.setups)
    × (Permits (get_policy req.caller gw.policy) e × (Chosen req e × Serviceable gw req e))

-- Every endpoint that the plan of a request names is a candidate of its target that the caller's
-- policy permits, that is not past its sunset, can serve the request and fits under its price
-- ceiling, and, unless it is pinned, that the caller's `only` and `ignore` leave.
pub endpoint_plan-Admissible :
    (gw : Gateway) (down : Endpoint → Bool) (pinned : Bool) (target : String) (req : Request)
    (e : Endpoint)
    → InPlan e (endpoint_plan gw down pinned target req)
    → Admissible gw req pinned target e
unfolding endpoint_plan
endpoint_plan-Admissible gw down true target req e h =
    (plan_pin-In gw req (find_setup target gw.setups) e).0
      (known-next (find_setup target gw.setups) (plan_pin gw req) e h)
endpoint_plan-Admissible gw down false target req e h =
    let es = candidates target gw.aliases gw.setups in
    (plan_candidates-In gw req es e).0 (
      prefer_up-In down (plan_candidates gw req es) e
        (known-next es (λ xs. and_then (plan_candidates gw req xs) (prefer_up down)) e h))

IsPlanned : Plan → Type 0
IsPlanned p = (e : Endpoint) × InPlan e p
