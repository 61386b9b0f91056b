-- ===== src/Gateway/Tests/Requests.antt =====
-- Streams, plans, cached answers, spends and accounts of concrete requests.
use resgraph.Prelude.{
  ℕ, ◌+◌, ◌-◌, ◌≤◌, ◌≡◌, refl, String, Bool, true, false, Option, none, some, List, [], ◌∷◌, length,
  arith, if◌then◌else◌, leb, ltb, inl, any, take, filter,
}
use resgraph.Gateway.Relay.{Stream, content_event, usage_event, exhausted, raised, Reopen, relay}
use resgraph.Gateway.Relay.Slots.{Relays, relay-Relays}
use resgraph.Gateway.Plan.{Setup, Endpoint, Request, Gateway, endpoint_plan, past}
use resgraph.Gateway.Plan.Hard.{InPlan, Admissible, endpoint_plan-Admissible}
use resgraph.Gateway.Cache.{ResponseCache, get, put}
use resgraph.Gateway.Cache.Lru.{get-put}
use resgraph.Floats.Tests.{per_mille}
use resgraph.Gateway.Budget.{
  Spend, fresh, load, spent_today, allows, warn_line, charge_all, judge_all,
}
use resgraph.Gateway.Budget.Judge.{Stops, costs_of, judge_all-Stops}
use resgraph.Gateway.Budget.Warning.{running, total, charge_all-budget}
use resgraph.Gateway.Accounts.{
  Keys, Row, of_account, aggregate, Grants, grant_of, spent_of, charge_each, check_balance,
}
use resgraph.Gateway.Accounts.Totals.{
  charged_to, sum_buckets, sum_rows, aggregate-sums, check_balance-charge_each,
}

abbrev stream_from : String → List (ℕ × ℕ) → Stream
stream_from backend times = record {
  alias = "local";
  backend = backend;
  started_at = 0;
  events = (40, content_event "he") ∷ (50, content_event "llo") ∷ (60, usage_event 7 2) ∷ [];
  ending = exhausted;
  stops_at = 70;
}

-- Its backend dies before a token.
abbrev stillborn : Stream
stillborn = record {
  alias = "haiku";
  backend = "anthropic";
  started_at = 0;
  events = [];
  ending = raised "overloaded";
  stops_at = 10;
}

-- One other backend is left to walk to, while the chain is short.
abbrev walk : Reopen
walk [] = ([], none)
walk (x ∷ []) = (x ∷ [], some (stream_from "local" []))
walk (x ∷ y ∷ rest) = (x ∷ y ∷ rest, none)

walk-grows : (chain : List String) → length chain ≤ length (walk chain).0
walk-grows [] = omega arith
walk-grows (x ∷ []) = omega arith
walk-grows (x ∷ y ∷ rest) = omega arith

walk-stops : (chain : List String) → 2 ≤ length chain → (walk chain).1 ≡ none
walk-stops [] h = refl
walk-stops (x ∷ []) h = absurd (omega (arith, h))
walk-stops (x ∷ y ∷ rest) h = refl

relay-Relays_example : Relays walk [] stillborn (relay 3 walk "override" stillborn [])
relay-Relays_example =
    relay-Relays walk 2 2 "override" stillborn [] (walk-grows, walk-stops) (omega arith)

abbrev setup_at : Option ℕ → Setup
setup_at window = record {
  provider = some "vllm";
  model = some "qwen";
  deprecated = some "2025-01-01";
  sunset = some "2026-01-01";
  tools = some true;
  context_window = window;
  price_per_mtok = some (100, 200);
}

abbrev small_endpoint : Endpoint
small_endpoint = record { eid = "qwen@small"; setup = setup_at (some 1000) }

abbrev large_endpoint : Endpoint
large_endpoint = record { eid = "qwen@large"; setup = setup_at (some 32000) }

abbrev small_gateway : Gateway
small_gateway = record {
  setups = small_endpoint ∷ large_endpoint ∷ [];
  aliases = ("qwen", small_endpoint ∷ large_endpoint ∷ []) ∷ [];
  policy = ("batch", "qwen" ∷ []) ∷ [];
  prices = [];
  today = "2025-06-01";
}

abbrev long_request : Request
long_request = record {
  caller = some "batch";
  wants_tools = true;
  max_tokens = 4000;
  max_price = some 500;
  only = [];
  ignore = [];
}

abbrev none_down : Endpoint → Bool
none_down e = false

large-InPlan :
    InPlan large_endpoint (endpoint_plan small_gateway none_down false "qwen" long_request)
unfolding endpoint_plan past
large-InPlan = inl refl

endpoint_plan-Admissible_example : Admissible small_gateway long_request false "qwen" large_endpoint
endpoint_plan-Admissible_example =
    endpoint_plan-Admissible small_gateway none_down false "qwen" long_request large_endpoint
      large-InPlan

abbrev full_cache : ResponseCache
full_cache = record {
  ttl = 900000;
  max_entries = 1;
  hits = 0;
  misses = 0;
  tokens_saved = 0;
  entries = ("k1", record { expires_at = 5000; value = "old"; tokens = 3 }) ∷ [];
}

get-put_example :
    ((get 20 "k2" (put 10 "k2" "new" 4 full_cache)).0
      ≡ (if leb (10 + 900000) 20 then none else some "new"))
    × (length ((put 10 "k2" "new" 4 full_cache).entries) ≤ 1)
get-put_example = get-put full_cache "k2" "new" 4 10 20 (omega arith)

abbrev yesterday : Option (Spend ℕ)
yesterday = some (record { date = "2025-06-01"; spent = 900; warned = true })

yesterday-load : load per_mille "2025-06-02" yesterday ≡ fresh per_mille "2025-06-02"
unfolding load
yesterday-load = refl

abbrev todays_costs : List ℕ
todays_costs = 500 ∷ 450 ∷ 80 ∷ []

charge_all-budget_example :
    let (warnings, last) = charge_all per_mille 1000 "2025-06-02" todays_costs yesterday in
    (warnings
      ≡ (if any (leb (warn_line per_mille 1000)) (running per_mille 0 todays_costs) then 1 else 0))
    × (spent_today per_mille "2025-06-02" last ≡ total per_mille 0 todays_costs)
    × (allows per_mille 1000 "2025-06-02" last ≡ ltb (total per_mille 0 todays_costs) 1000)
charge_all-budget_example =
    charge_all-budget per_mille 1000 "2025-06-02" todays_costs yesterday yesterday-load

-- Rates of one dollar for a token: the second call reaches the cap.
abbrev judge_calls : List (ℕ × ℕ)
judge_calls = (1, 1) ∷ (2, 1) ∷ (1, 0) ∷ []

abbrev million : ℕ
million = 1000000000

judge_all-Stops_example :
    let (made, last) =
      judge_all per_mille 5000 million million "2025-06-02" judge_calls yesterday in
    Stops per_mille 5000 million million "2025-06-02"
      (spent_today per_mille "2025-06-02" yesterday)
      judge_calls
      made
    × (spent_today per_mille "2025-06-02" last
        ≡ total per_mille
            (spent_today per_mille "2025-06-02" yesterday)
            (take made (costs_of per_mille 5000 million million "2025-06-02" judge_calls)))
judge_all-Stops_example =
    judge_all-Stops per_mille 5000 million million "2025-06-02" judge_calls yesterday

judges_two : (judge_all per_mille 5000 million million "2025-06-02" judge_calls yesterday).0 ≡ 2
unfolding judge_all
judges_two = refl

abbrev ledger : List Row
ledger =
    (record {
      day = "2025-06-01";
      account = "lab";
      endpoint = "qwen";
      input_tokens = 10;
      output_tokens = 4;
      cost = 7;
    })
    ∷ (record {
      day = "2025-06-01";
      account = "anonymous";
      endpoint = "qwen";
      input_tokens = 1;
      output_tokens = 1;
      cost = 0;
    })
    ∷ (record {
      day = "2025-06-01";
      account = "lab";
      endpoint = "qwen";
      input_tokens = 20;
      output_tokens = 5;
      cost = 9;
    })
    ∷ []

abbrev kept_rows : List Row
kept_rows = filter (of_account (some "lab")) ledger

aggregate-sums_example :
    (sum_buckets (λ b. b.requests) "2025-06-01" "lab" "qwen" (aggregate (some "lab") ledger)
      ≡ sum_rows (λ r. 1) "2025-06-01" "lab" "qwen" kept_rows)
    × (sum_buckets (λ b. b.input_tokens) "2025-06-01" "lab" "qwen" (aggregate (some "lab") ledger)
        ≡ sum_rows (λ r. r.input_tokens) "2025-06-01" "lab" "qwen" kept_rows)
    × (sum_buckets (λ b. b.output_tokens) "2025-06-01" "lab" "qwen" (aggregate (some "lab") ledger)
        ≡ sum_rows (λ r. r.output_tokens) "2025-06-01" "lab" "qwen" kept_rows)
    × (sum_buckets (λ b. b.cost) "2025-06-01" "lab" "qwen" (aggregate (some "lab") ledger)
        ≡ sum_rows (λ r. r.cost) "2025-06-01" "lab" "qwen" kept_rows)
aggregate-sums_example = aggregate-sums (some "lab") ledger "2025-06-01" "lab" "qwen"

abbrev grants : Grants ℕ
grants = ("lab", 500) ∷ []

lab-granted : grant_of "lab" grants ≡ some 500
unfolding grant_of
lab-granted = refl

abbrev lab_charges : List (String × ℕ)
lab_charges = ("lab", 300) ∷ ("other", 900) ∷ ("lab", 250) ∷ []

check_balance-charge_each_example :
    (spent_of per_mille "lab" (charge_each per_mille lab_charges [])
      ≡ charged_to per_mille "lab" (spent_of per_mille "lab" []) lab_charges)
    × (check_balance per_mille grants (charge_each per_mille lab_charges []) (some "lab")
        ≡ leb (500 - charged_to per_mille "lab" (spent_of per_mille "lab" []) lab_charges) 0)
check_balance-charge_each_example =
    check_balance-charge_each per_mille "lab" 500 grants lab_charges [] lab-granted

-- The keys of the environment: one account has none.
abbrev keys : Keys
keys = ("lab", some "k-lab") ∷ ("batch", none) ∷ []

abbrev no_caller : Option String
no_caller = none

abbrev lab : String
lab = "lab"
