-- ===== src/Prelude/Dict.antt =====
-- Mappings as association lists: what a key stands for, and the keys.
use mathlib.Core.Path.{◌≡◌}
use mathlib.Core.Logic.{◌↔◌, inl, inr}
use mathlib.Core.Bool.{true}
use mathlib.Core.Option.{Option, none, some}
use mathlib.Core.List.{List, [], ◌∷◌, map}
use Prim.Native.String.{String}
use native.Mathlib.Omega.{arith}
use text.Mathlib.Text.{◌==◌ as str_eq}
use text.Mathlib.TextEquality.{eq_iff}
use resgraph.Prelude.Tests.{if◌then◌else◌, Bool-cases}
use resgraph.Prelude.Lists.{In, any}

module _ {A : Type 0} where
  abbrev pub lookup : String → List (String × A) → Option A
  lookup k [] = none
  lookup k ((j, a) ∷ rest) = let found = lookup k rest in if str_eq k j then some a else found

  abbrev pub keys_of : List (String × A) → List String
  keys_of rows = map (λ (r : String × A). r.0) rows

-- A key is among the keys exactly where it stands for something.
pub In-keys :
    {A : Type 0} (i : String) (rows : List (String × A))
    → In i (keys_of rows) ↔ ((a : A) × (lookup i rows ≡ some a))
In-keys i [] = (λ h. absurd h, λ h. absurd (ground (arith, h.1)))
In-keys i ((j, a) ∷ rows) = (
  λ h. elim h [
    | inl e ↦ (a, rw ((eq_iff i j).1 e))
    | inr k ↦ elim (Bool-cases (str_eq i j)) [
      | inl f ↦ (a, rw f)
      | inr f ↦ let found = (In-keys i rows).0 k in (found.0, rw f found.1)
    ]
  ],
  λ h. elim (Bool-cases (str_eq i j)) [
    | inl f ↦ inl ((eq_iff i j).0 f)
    | inr f ↦ inr ((In-keys i rows).1 (h.0, (rw f at h.1)))
  ],
)

-- The Boolean test for a member.
pub any-In : (i : String) (xs : List String) → (any (str_eq i) xs ≡ true) ↔ In i xs
any-In i [] = (λ h. absurd (ground (arith, h)), λ h. absurd h)
any-In i (x ∷ xs) = (
  λ h. elim (Bool-cases (str_eq i x)) [
    | inl e ↦ inl ((eq_iff i x).0 e)
    | inr e ↦ inr ((any-In i xs).0 (rw e at h))
  ],
  λ h. elim h [ inl e ↦ rw ((eq_iff i x).1 e) | inr k ↦ ground (arith, (any-In i xs).1 k) ],
)
