-- ===== src/Gateway/Router.antt =====
-- src/resgraph/gateway/router.py: which model serves a request, by precedence.
use resgraph.Prelude.{
  ℕ, String, Bool, true, false, ◌≡◌, refl, Option, none, some, List, [], ◌∷◌, str_eq, if◌then◌else◌,
  ◌↔◌, subst,
}
use mathlib.Core.Option.{some-injective}

pub data Source : Type 0 where
  pin override quality_route task_class_default global_default : Source

-- A task class's default; floors are fractions, in millionths.
pub record ClassRoute : Type 0 where
  pub model : String
  pub rationale : String
  pub candidates : List String
  pub min_passk : Option ℕ

pub record RouteDecision : Type 0 where
  pub model : String
  pub source : Source
  pub fallback_allowed : Bool
  pub rationale : String

abbrev pub Registry : Type 0
Registry = List (String × ClassRoute)

abbrev pub default_registry : Registry
default_registry =
    (
      "judgment",
      record {
        model = "haiku";
        rationale = "triage reasoning; the daily-driver setup chosen by the model arms";
        candidates = [];
        min_passk = none;
      },
    )
    ∷ (
      "workhorse",
      record {
        model = "qwen-local-1.5b";
        rationale = "bulk/replay serving-shape traffic; the setup that fits this host";
        candidates = [];
        min_passk = none;
      },
    )
    ∷ (
      "classification",
      record {
        model = "qwen-local-1.5b";
        rationale =
            "light classification calls; deterministic graders dominate, replay fills this class";
        candidates = [];
        min_passk = none;
      },
    )
    ∷ []

abbrev pub global_default_model : ClassRoute
global_default_model = record {
  model = "qwen-local-1.5b";
  rationale = "no signal from the request: fail cheap";
  candidates = [];
  min_passk = none;
}

-- `table.get(task_class)`
abbrev pub get_route : String → Registry → Option ClassRoute
get_route k [] = none
get_route k ((j, r) ∷ rest) = if str_eq j k then some r else get_route k rest

-- `if value:`, of an optional text: the empty text is falsy.
abbrev pub given : Option String → Option String
given none = none
given (some String.[]) = none
given (some (String.◌∷◌ c s)) = some (String.◌∷◌ c s)

-- `none` is the `ValueError` of an unknown task class.
abbrev class_decision : Option ClassRoute → Option RouteDecision
class_decision none = none
class_decision (some r) = some (record {
  model = r.model;
  source = task_class_default;
  fallback_allowed = true;
  rationale = r.rationale;
})

abbrev by_class : Option String → Registry → Option RouteDecision
by_class none table = some (record {
  model = global_default_model.model;
  source = global_default;
  fallback_allowed = true;
  rationale = global_default_model.rationale;
})
by_class (some c) table = class_decision (get_route c table)

abbrev by_model : Option String → Option String → Registry → Option RouteDecision
by_model none task_class table = by_class task_class table
by_model (some m) task_class table = some (record {
  model = m;
  source = override;
  fallback_allowed = true;
  rationale = "explicit model override";
})

abbrev by_pin : Option String → Option String → Option String → Registry → Option RouteDecision
by_pin none model task_class table = by_model model task_class table
by_pin (some p) model task_class table = some (record {
  model = p;
  source = pin;
  fallback_allowed = false;
  rationale = "pinned: exact model, no fallback, no substitution";
})

-- `resolve`, on a pin, a model and a task class.
unfoldable pub resolve : (p m c : Option String) → Registry → Option RouteDecision
resolve p m c table = by_pin (given p) (given m) c table

-- How a decision relates to the signals of its request, by its source: the pin and the model are
-- those that were given.
abbrev pub Explains :
    Option String → Option String → Option String → Registry → RouteDecision → Source → Type 0
Explains p m c table d pin = (p ≡ some d.model) × (d.fallback_allowed ≡ false)
Explains p m c table d override = (p ≡ none) × (m ≡ some d.model) × (d.fallback_allowed ≡ true)
Explains p m c table d quality_route = ⊥
Explains p m c table d task_class_default =
    (p ≡ none)
    × (m ≡ none)
    × (d.fallback_allowed ≡ true)
    × ((k : String) × (r : ClassRoute) × (c ≡ some k)
        × (get_route k table ≡ some r)
        × (r.model ≡ d.model))
Explains p m c table d global_default =
    (p ≡ none)
    × (m ≡ none)
    × (c ≡ none)
    × (d.fallback_allowed ≡ true)
    × (d.model ≡ global_default_model.model)

by_some :
    (p m c : Option String) (table : Registry) (x d : RouteDecision)
    → some x ≡ some d
    → Explains p m c table x x.source
    → Explains p m c table d d.source
by_some p m c table x d e h = subst (λ y. Explains p m c table y y.source) (some-injective x d e) h

class_decision-Explains :
    (k : String) (r : Option ClassRoute) (table : Registry) (d : RouteDecision)
    → get_route k table ≡ r
    → class_decision r ≡ some d
    → Explains none none (some k) table d d.source
class_decision-Explains k none table d g e = cc
class_decision-Explains k (some r) table d g e =
    by_some _ _ _ table _ d e (refl, refl, refl, (k, r, refl, g, refl))

by_pin-Explains :
    (p m c : Option String) (table : Registry) (d : RouteDecision)
    → by_pin p m c table ≡ some d
    → Explains p m c table d d.source
by_pin-Explains (some p) m c table d e = by_some _ _ _ table _ d e (refl, refl)
by_pin-Explains none (some m) c table d e = by_some _ _ _ table _ d e (refl, refl, refl)
by_pin-Explains none none none table d e = by_some _ _ _ table _ d e (refl, refl, refl, refl, refl)
by_pin-Explains none none (some k) table d e =
    class_decision-Explains k (get_route k table) table d refl e

class_decision-none : (r : Option ClassRoute) → (class_decision r ≡ none) ↔ (r ≡ none)
class_decision-none none = (λ e. refl, λ e. refl)
class_decision-none (some r) = (λ e. cc, λ e. cc)

by_pin-none :
    (p m c : Option String) (table : Registry)
    → (by_pin p m c table ≡ none)
      ↔ ((p ≡ none) × (m ≡ none) × ((k : String) × (c ≡ some k) × (get_route k table ≡ none)))
by_pin-none (some p) m c table = (λ e. cc, λ h. cc (h.0))
by_pin-none none (some m) c table = (λ e. cc, λ h. cc (h.1))
by_pin-none none none none table = (λ e. cc, λ (_, _, (_, e, _)). cc)
by_pin-none none none (some k) table = (
  λ e. (refl, refl, (k, refl, (class_decision-none (get_route k table)).0 e)),
  λ (_, _, (j, e, unknown)). cc (some-injective k j e),
)

-- A decision states the signal that it rests on: a pin outranks an override, an override a task
-- class, a task class the global default; the model is the one that this signal names, and falling
-- back is refused for a pin alone. An empty pin or override is none.
pub resolve-Explains :
    (p m c : Option String) (table : Registry) (d : RouteDecision)
    → resolve p m c table ≡ some d
    → Explains (given p) (given m) c table d d.source
unfolding resolve
resolve-Explains p m c table d e = by_pin-Explains (given p) (given m) c table d e

-- Resolution raises exactly for a request with neither pin nor override whose task class is not in
-- the table.
pub resolve-none :
    (p m c : Option String) (table : Registry)
    → (resolve p m c table ≡ none) ↔ (
        (given p ≡ none)
        × (given m ≡ none)
        × ((k : String) × (c ≡ some k) × (get_route k table ≡ none)))
unfolding resolve
resolve-none p m c table = by_pin-none (given p) (given m) c table
