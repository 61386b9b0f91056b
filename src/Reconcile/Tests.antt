-- ===== src/Reconcile/Tests.antt =====
-- Witnesses of the reconciliation.
use resgraph.Prelude.{◌≡◌, ◌↔◌, refl, String, true, some, [], ◌∷◌, lookup, str_eq}
use resgraph.Reconcile.{State, compare}
use resgraph.Reconcile.Agrees.{SameAt, compare-SameAt}

-- Attributes and relationships are texts here; the stores differ in a sequence.
abbrev hot_state : State String String
hot_state =
    ("db-1", record { attrs = "small"; relationships = "vm-1"; sequence = some 4 })
    ∷ ("vm-1", record { attrs = ""; relationships = ""; sequence = some 2 })
    ∷ []

abbrev cold_state : State String String
cold_state =
    ("vm-1", record { attrs = ""; relationships = ""; sequence = some 2 })
    ∷ ("db-1", record { attrs = "small"; relationships = "vm-1"; sequence = some 5 })
    ∷ []

finds_sequence : (compare str_eq str_eq hot_state cold_state).sequence_mismatches ≡ "db-1" ∷ []
unfolding compare
finds_sequence = refl

compare-SameAt_example :
    ((compare str_eq str_eq hot_state cold_state).ok ≡ true)
    ↔ ((i : String) → SameAt str_eq str_eq (lookup i hot_state) (lookup i cold_state))
compare-SameAt_example = compare-SameAt str_eq str_eq hot_state cold_state
