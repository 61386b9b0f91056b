-- ===== src/Gateway/Walk/Tests.antt =====
-- Witnesses of the fallback walk: a local model and a paid one, each its own provider.
use resgraph.Prelude.{
  ℕ, ◌+◌, ◌≤◌, ◌≡◌, refl, sym, subst, String, Bool, true, false, none, some, List, [], ◌∷◌, length,
  arith, str_eq, inl, inr,
}
use resgraph.Gateway.Dispatch.{healthy, Backend}
use resgraph.Gateway.Plan.{Setup, Endpoint, candidates}
use resgraph.Gateway.Plan.Expand.{backend_key, has_at}
use resgraph.Gateway.Walk.{before_colon, provider_of, Dispatch, Attempt, failed, next_alias, walk}
use resgraph.Gateway.Walk.Hop.{IsNamed, IsHop, next_alias-IsHop}
use resgraph.Gateway.Walk.Ends.{HasNoColon, keys, is_ended, walk-ends}

abbrev backend_up : String → Backend
backend_up name = record {
  name = name;
  concurrency = 1;
  queue_max = 4;
  ttft = record { window = 300000; samples = [] };
  tps = record { window = 300000; samples = [] };
  errors = record { window = 300000; events = [] };
  health = record { state = healthy; streak = 0 };
  in_flight = 0;
}

abbrev setup_of : String → Setup
setup_of provider = record {
  provider = some provider;
  model = none;
  deprecated = none;
  sunset = none;
  tools = none;
  context_window = none;
  price_per_mtok = none;
}

abbrev local_endpoint : Endpoint
local_endpoint = record { eid = "qwen"; setup = setup_of "local" }

abbrev paid_endpoint : Endpoint
paid_endpoint = record { eid = "haiku"; setup = setup_of "anthropic" }

-- The world counts the errors; there is budget.
abbrev counting : Dispatch ℕ
counting = record {
  backends = λ w key. backend_up key;
  clock = λ w. w;
  allows = λ w. some true;
  observe_error = λ key w. w + 1;
}

abbrev two_routes : List String
two_routes = "qwen" ∷ "haiku" ∷ []

abbrev two_setups : List Endpoint
two_setups = local_endpoint ∷ paid_endpoint ∷ []

abbrev is_paid : Endpoint → Bool
is_paid e = str_eq (provider_of e) "anthropic"

named_two : IsNamed counting two_routes two_setups [] is_paid
unfolding candidates has_at
named_two = record {
  by_key = λ w key. refl;
  no_at = λ e i. elim i [
    | inl same ↦ subst (λ x. has_at (provider_of x) ≡ false) (sym same) refl
    | inr (inl same) ↦ subst (λ x. has_at (provider_of x) ≡ false) (sym same) refl
    | inr (inr none_left) ↦ absurd none_left
  ];
}

no_colon_two : HasNoColon counting two_routes two_setups [] is_paid
unfolding candidates before_colon backend_key
no_colon_two e (inl same) =
    subst (λ x. before_colon (backend_key x) ≡ backend_key x) (sym same) refl
no_colon_two e (inr (inl same)) =
    subst (λ x. before_colon (backend_key x) ≡ backend_key x) (sym same) refl
no_colon_two e (inr (inr none_left)) = absurd none_left

hops_to_paid :
    next_alias counting two_routes two_setups [] is_paid 0 false (("local", "qwen") ∷ [])
    ≡ some paid_endpoint
unfolding next_alias before_colon
hops_to_paid = refl

next_alias-IsHop_example :
    IsHop counting two_routes two_setups [] is_paid 0 false (("local", "qwen") ∷ []) paid_endpoint
next_alias-IsHop_example =
    next_alias-IsHop counting two_routes two_setups [] is_paid named_two 0 false
      (("local", "qwen") ∷ []) paid_endpoint hops_to_paid

always_failing : Endpoint → ℕ → Attempt ℕ × ℕ
always_failing e w = (failed, w)

enough_fuel :
    length (local_endpoint ∷ []) + length (keys counting two_routes two_setups [] is_paid) + 2 ≤ 5
unfolding candidates
enough_fuel = omega arith

walk-ends_example :
    is_ended (
      walk counting two_routes two_setups [] is_paid always_failing true 5
        (some local_endpoint, local_endpoint ∷ [])
        []
        0)
    ≡ true
walk-ends_example =
    walk-ends counting two_routes two_setups [] is_paid always_failing true named_two no_colon_two 5
      local_endpoint (local_endpoint ∷ []) 0 enough_fuel
