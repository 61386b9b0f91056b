-- ===== src/Reconcile.antt =====
-- `compare` of src/resgraph/reconcile.py: two stores' states, resource by resource. The equality of
-- attribute mappings and of sorted relationships is Python's, an argument. Sorting, which only orders
-- the report, is left out, as are the dumps of the stores, which are queries.
pub mod Agrees
mod Tests
use resgraph.Prelude.{
  ℕ, String, Bool, true, false, not, ◌&&◌, Option, none, some, List, [], ◌∷◌, str_eq, any, filter,
  lookup, keys_of, ◌==◌,
}

pub record Resource (A R : Type 0) : Type 0 where
  pub attrs : A
  pub relationships : R
  pub sequence : Option ℕ

abbrev pub State : Type 0 → Type 0 → Type 0
State A R = List (String × Resource A R)

pub record Report : Type 0 where
  pub only_in_a : List String
  pub only_in_b : List String
  pub attr_mismatches : List String
  pub relationship_mismatches : List String
  pub sequence_mismatches : List String
  pub ok : Bool

abbrev pub is_nil : List String → Bool
is_nil [] = true
is_nil (x ∷ xs) = false

abbrev pub is_key : {B : Type 0} → List (String × B) → String → Bool
is_key rows i = any (str_eq i) (keys_of rows)

abbrev pub is_unknown : {B : Type 0} → List (String × B) → String → Bool
is_unknown rows i = not (is_key rows i)

abbrev pub same_sequence : Option ℕ → Option ℕ → Bool
same_sequence none none = true
same_sequence (some m) (some n) = m == n
same_sequence _ _ = false

module _ {A R : Type 0} (same_attrs : A → A → Bool) (same_rels : R → R → Bool) where
  abbrev pub differ_at :
      (Resource A R → Resource A R → Bool) → Option (Resource A R) → Option (Resource A R) → Bool
  differ_at same (some x) (some y) = not (same x y)
  differ_at same _ _ = false

  abbrev pub attrs_agree : Resource A R → Resource A R → Bool
  attrs_agree x y = same_attrs x.attrs y.attrs

  abbrev pub rels_agree : Resource A R → Resource A R → Bool
  rels_agree x y = same_rels x.relationships y.relationships

  abbrev pub sequences_agree : Resource A R → Resource A R → Bool
  sequences_agree x y = same_sequence x.sequence y.sequence

  -- The ids that both have and of which `same` does not hold.
  abbrev pub mismatches : (Resource A R → Resource A R → Bool) → State A R → State A R → List String
  mismatches same a b =
      filter (λ i. differ_at same (lookup i a) (lookup i b)) (filter (is_key b) (keys_of a))

  unfoldable pub compare : State A R → State A R → Report
  compare a b =
      let only_a = filter (is_unknown b) (keys_of a) in
      let only_b = filter (is_unknown a) (keys_of b) in
      let attrs = mismatches attrs_agree a b in
      let rels = mismatches rels_agree a b in
      let seqs = mismatches sequences_agree a b in
      record {
        only_in_a = only_a;
        only_in_b = only_b;
        attr_mismatches = attrs;
        relationship_mismatches = rels;
        sequence_mismatches = seqs;
        ok = is_nil only_a && is_nil only_b && is_nil attrs && is_nil rels && is_nil seqs;
      }
