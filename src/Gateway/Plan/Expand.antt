-- ===== src/Gateway/Plan/Expand.antt =====
-- `expand` of src/resgraph/gateway/registry.py: the endpoint table and the alias index.
use resgraph.Prelude.{
  String, Bool, true, false, Option, none, some, List, [], ◌∷◌, ◌++◌, str_eq, ◌==◌, any,
  if◌then◌else◌,
}
use Prim.Native.Char.{code}
use Prim.Native.String.{◌++◌ as join}
use resgraph.Gateway.Plan.{Setup, Endpoint}

-- A setup of models.yaml; an entry of `endpoints:` is its name, if it has one, and its own keys.
pub record RawSetup : Type 0 where
  pub alias : String
  pub setup : Setup
  pub endpoints : Option (List (Option String × Setup))

-- `"@" in alias`
unfoldable pub has_at : String → Bool
has_at String.[] = false
has_at (String.◌∷◌ c s) = let rest = has_at s in if code c == b'@' then true else rest

abbrev or_parent : {A : Type 0} → Option A → Option A → Option A
or_parent none p = p
or_parent (some x) p = some x

-- `{**parent, **entry}`
unfoldable pub merge : Setup → Setup → Setup
merge parent entry = record {
  provider = or_parent entry.provider parent.provider;
  model = or_parent entry.model parent.model;
  deprecated = or_parent entry.deprecated parent.deprecated;
  sunset = or_parent entry.sunset parent.sunset;
  tools = or_parent entry.tools parent.tools;
  context_window = or_parent entry.context_window parent.context_window;
  price_per_mtok = or_parent entry.price_per_mtok parent.price_per_mtok;
}

-- `f"{alias}@{name}"`
abbrev pub endpoint_id : String → String → String
endpoint_id alias name = join alias (join "@" name)

abbrev pub has_id : String → List Endpoint → Bool
has_id eid es = any (λ (e : Endpoint). str_eq eid e.eid) es

-- The endpoints of one setup, after those of the table; `none` is a `SystemExit`, on an entry without
-- a name and on a name that is taken.
unfoldable pub expand_entries :
    String → Setup → List (Option String × Setup) → List Endpoint → Option (List Endpoint)
unfolding merge
expand_entries alias parent [] table = some []
expand_entries alias parent ((none, entry) ∷ rest) table = none
expand_entries alias parent ((some String.[], entry) ∷ rest) table = none
expand_entries alias parent ((some (String.◌∷◌ c s), entry) ∷ rest) table =
    let e : Endpoint = record {
      eid = endpoint_id alias (String.◌∷◌ c s);
      setup = merge parent entry;
    } in
    let later = expand_entries alias parent rest (table ++ (e ∷ [])) in
    if has_id e.eid table then none else elim later [ none ↦ none | some es ↦ some (e ∷ es) ]

unfoldable pub expand_setup : RawSetup → List Endpoint → Option (List Endpoint)
unfolding has_at expand_entries
expand_setup r table = if has_at r.alias then none else elim r.endpoints [
  | none ↦ some ((record { eid = r.alias; setup = r.setup }) ∷ [])
  | some entries ↦ elim entries [
    | [] ↦ none
    | e ∷ es ↦ expand_entries r.alias r.setup (e ∷ es) table
  ]
]

-- `expand`, over the table and the index that are built so far. The aliases of a mapping differ, and
-- one with no `@` is no endpoint id, so that a plain setup never replaces an entry.
unfoldable pub expand :
    List RawSetup
    → List Endpoint × List (String × List Endpoint)
    → Option (List Endpoint × List (String × List Endpoint))
unfolding expand_setup
expand [] built = some built
expand (r ∷ rs) (table, index) = elim (expand_setup r table) [
  | none ↦ none
  | some es ↦ expand rs (table ++ es, index ++ ((r.alias, es) ∷ []))
]

-- The key of an endpoint's dispatch state, as `Gateway.backend` forms it: its own id for an endpoint
-- that was expanded, its provider's name for a plain setup.
abbrev pub provider_or : Option String → String
provider_or none = "default"
provider_or (some p) = p

unfoldable pub backend_key : Endpoint → String
unfolding has_at
backend_key e = if has_at e.eid then e.eid else provider_or e.setup.provider
