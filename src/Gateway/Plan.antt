-- ===== src/Gateway/Plan.antt =====
-- The endpoints that may serve a request: src/resgraph/gateway/registry.py's tests of one endpoint,
-- and the constraint pipeline of `_endpoint_plan` in src/resgraph/gateway/server.py. Prices are
-- microdollars per million tokens.
pub mod Hard
pub mod Expand
use resgraph.Prelude.{
  ℕ, ◌+◌, String, Bool, true, false, not, ◌&&◌, ◌||◌, Option, none, some, List, [], ◌∷◌, str_eq,
  ltb, leb, ◌==◌, if◌then◌else◌, filter, any,
}
use Prim.Native.Char.{code}
use Prim.Native.String.{compare}
use Prim.Native.Nat.{lt, eq, gt}

-- A setup's declarations that decide who may be served; an absent key is `none`.
pub record Setup : Type 0 where
  pub provider : Option String
  pub model : Option String
  pub deprecated : Option String
  pub sunset : Option String
  pub tools : Option Bool
  pub context_window : Option ℕ
  pub price_per_mtok : Option (ℕ × ℕ)

-- An endpoint id with its merged setup. The alias index that `expand` builds names entries of its
-- endpoint table; here it holds them.
pub record Endpoint : Type 0 where
  pub eid : String
  pub setup : Setup

pub data Lifecycle : Type 0 where
  active : Lifecycle
  is_deprecated : Lifecycle
  is_sunset : Lifecycle

-- `text and today >= text`: ISO days, compared lexically.
unfoldable pub past : String → Option String → Bool
past today none = false
past today (some String.[]) = false
past today (some (String.◌∷◌ c s)) = elim (compare today (String.◌∷◌ c s)) as (λ _. Bool) [
  | lt ↦ false
  | eq ↦ true
  | gt ↦ true
]

unfoldable pub lifecycle_state : Setup → String → Lifecycle
lifecycle_state s today =
    if past today s.sunset
    then is_sunset
    else if past today s.deprecated
    then is_deprecated
    else active

-- `eid.split("@", 1)[0]`
unfoldable pub alias_of : String → String
alias_of String.[] = String.[]
alias_of (String.◌∷◌ c s) =
    let rest = alias_of s in if code c == b'@' then String.[] else String.◌∷◌ c rest

abbrev is_provider : String → Option String → Bool
is_provider entry none = false
is_provider entry (some p) = str_eq entry p

unfoldable pub policy_allows : List String → Endpoint → Bool
unfolding alias_of
policy_allows allowed e =
    any
      (λ entry.
        str_eq entry e.eid || str_eq entry (alias_of e.eid) || is_provider entry e.setup.provider)
      allowed

-- Why an endpoint cannot serve a request.
pub data Mismatch : Type 0 where
  needs_tools : Mismatch
  exceeds_window : ℕ → ℕ → Mismatch

abbrev declines_tools : Option Bool → Bool
declines_tools none = false
declines_tools (some b) = not b

abbrev window_mismatch : Option ℕ → ℕ → Option Mismatch
window_mismatch none max_tokens = none
window_mismatch (some w) max_tokens =
    if ltb w max_tokens then some (exceeds_window max_tokens w) else none

unfoldable pub capability_mismatch : Setup → Bool → ℕ → Option Mismatch
capability_mismatch s wants_tools max_tokens =
    if wants_tools && declines_tools s.tools
    then some needs_tools
    else window_mismatch s.context_window max_tokens

-- The pricing table: a wire model's input and output rates.
abbrev pub Prices : Type 0
Prices = List (String × ℕ × ℕ)

unfoldable pub get_price : Prices → String → Option ℕ
get_price [] model = none
get_price ((m, i, o) ∷ rest) model = if str_eq m model then some (i + o) else get_price rest model

unfoldable pub model_price : Prices → Option String → Option ℕ
unfolding get_price
model_price prices none = none
model_price prices (some m) = get_price prices m

abbrev price_or : Option ℕ → Option (ℕ × ℕ) → Option ℕ
price_or p none = p
price_or p (some (i, o)) = some (i + o)

unfoldable pub endpoint_price : Setup → Prices → Option ℕ
unfolding model_price get_price
endpoint_price s prices = price_or (model_price prices s.model) s.price_per_mtok

-- The request's hard constraints.
pub record Request : Type 0 where
  pub caller : Option String
  pub wants_tools : Bool
  pub max_tokens : ℕ
  pub max_price : Option ℕ
  pub only : List String
  pub ignore : List String

pub record Gateway : Type 0 where
  pub setups : List Endpoint
  pub aliases : List (String × List Endpoint)
  pub policy : List (String × List String)
  pub prices : Prices
  pub today : String

-- The refusals, by the status they answer with: 403, 400 and 410.
pub data Refusal : Type 0 where
  forbidden bad_request gone : Refusal

pub data Plan : Type 0 where
  refused : Refusal → Plan
  planned : List Endpoint → Plan

abbrev pub and_then : Plan → (List Endpoint → Plan) → Plan
and_then (refused r) next = refused r
and_then (planned es) next = next es

-- Keep what passes, and refuse where nothing does.
abbrev pub or_refuse : Refusal → List Endpoint → Plan
or_refuse r [] = refused r
or_refuse r (e ∷ es) = planned (e ∷ es)

unfoldable pub keep : Refusal → (Endpoint → Bool) → List Endpoint → Plan
keep r test es = or_refuse r (filter test es)

unfoldable pub get_policy : Option String → List (String × List String) → Option (List String)
get_policy none policy = none
get_policy (some c) [] = none
get_policy (some c) ((d, allowed) ∷ rest) =
    if str_eq d c then some allowed else get_policy (some c) rest

unfoldable pub filter_policy : Option (List String) → List Endpoint → Plan
unfolding keep policy_allows
filter_policy none es = planned es
filter_policy (some allowed) es = keep forbidden (policy_allows allowed) es

unfoldable pub policy_filter : Gateway → Option String → List Endpoint → Plan
unfolding filter_policy get_policy
policy_filter gw caller es = filter_policy (get_policy caller gw.policy) es

-- `names & {e, e.split("@", 1)[0]}`
unfoldable pub names : List String → Endpoint → Bool
unfolding alias_of
names sel e = any (λ n. str_eq n e.eid || str_eq n (alias_of e.eid)) sel

-- An empty `only` is falsy, and narrows nothing.
unfoldable pub selects : List String → Endpoint → Bool
unfolding names
selects [] e = true
selects (n ∷ sel) e = names (n ∷ sel) e

unfoldable pub narrow : Request → List Endpoint → Plan
unfolding keep names selects
narrow req es = keep bad_request (λ e. selects req.only e && not (names req.ignore e)) es

abbrev pub live : Lifecycle → Bool
live active = true
live is_deprecated = true
live is_sunset = false

abbrev pub capable : Option Mismatch → Bool
capable none = true
capable (some m) = false

-- `endpoint_price(...) or 0.0`
abbrev pub or_free : Option ℕ → ℕ
or_free none = 0
or_free (some p) = p

unfoldable pub within_price : Option ℕ → Prices → List Endpoint → Plan
unfolding keep endpoint_price
within_price none prices es = planned es
within_price (some top) prices es =
    keep bad_request (λ e. leb (or_free (endpoint_price e.setup prices)) top) es

unfoldable pub price_ceiling : Gateway → Request → List Endpoint → Plan
unfolding within_price
price_ceiling gw req es = within_price req.max_price gw.prices es

unfoldable pub refuse_sunset : Gateway → List Endpoint → Plan
unfolding keep lifecycle_state
refuse_sunset gw es = keep gone (λ e. live (lifecycle_state e.setup gw.today)) es

unfoldable pub refuse_incapable : Request → List Endpoint → Plan
unfolding keep capability_mismatch
refuse_incapable req es =
    keep bad_request (λ e. capable (capability_mismatch e.setup req.wants_tools req.max_tokens)) es

-- The hard constraints that follow the caller's narrowing, which bind a pin too.
unfoldable pub hard_limits : Gateway → Request → List Endpoint → Plan
unfolding refuse_sunset refuse_incapable price_ceiling
hard_limits gw req es =
    and_then (refuse_sunset gw es)
      (λ alive. and_then (refuse_incapable req alive) (price_ceiling gw req))

-- The pipeline for a request that is not pinned.
unfoldable pub plan_candidates : Gateway → Request → List Endpoint → Plan
unfolding policy_filter narrow hard_limits
plan_candidates gw req es =
    and_then (policy_filter gw req.caller es)
      (λ allowed. and_then (narrow req allowed) (hard_limits gw req))

-- The pipeline for a pinned endpoint.
unfoldable pub plan_pin : Gateway → Request → List Endpoint → Plan
unfolding policy_filter hard_limits
plan_pin gw req es = and_then (policy_filter gw req.caller es) (hard_limits gw req)

-- `Gateway.candidates`, with the override that names an endpoint id directly.
unfoldable pub find_setup : String → List Endpoint → List Endpoint
find_setup target [] = []
find_setup target (e ∷ es) = if str_eq e.eid target then e ∷ [] else find_setup target es

unfoldable pub candidates : String → List (String × List Endpoint) → List Endpoint → List Endpoint
unfolding find_setup
candidates target [] setups = find_setup target setups
candidates target ((a, es) ∷ rest) setups =
    if str_eq a target then es else candidates target rest setups

-- `[e for e in admitted if ... != "down"] or admitted`
abbrev pub or_all : List Endpoint → List Endpoint → List Endpoint
or_all [] es = es
or_all (u ∷ up) es = u ∷ up

unfoldable pub prefer_up : (Endpoint → Bool) → List Endpoint → Plan
prefer_up down es = planned (or_all (filter (λ e. not (down e)) es) es)

abbrev known : List Endpoint → Plan
known es = or_refuse bad_request es

-- `_endpoint_plan`, up to the order of the endpoints that it returns; `down` is the health of an
-- endpoint's backend.
unfoldable pub endpoint_plan :
    Gateway → (Endpoint → Bool) → (pinned : Bool) → String → Request → Plan
unfolding plan_pin plan_candidates candidates find_setup prefer_up
endpoint_plan gw down true target req =
    and_then (known (find_setup target gw.setups)) (plan_pin gw req)
endpoint_plan gw down false target req =
    and_then (known (candidates target gw.aliases gw.setups))
      (λ es. and_then (plan_candidates gw req es) (prefer_up down))
