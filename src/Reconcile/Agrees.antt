-- ===== src/Reconcile/Agrees.antt =====
-- When src/resgraph/reconcile.py reports that two stores agree.
use resgraph.Prelude.{
  any-In, ◌≡◌, ◌↔◌, refl, subst, String, Bool, true, Option, none, some, List, [], ◌∷◌, filter,
  lookup, keys_of, arith, and_left, and_right, In, In-keys, In-filter, Bool-cases, inl, inr,
}
use resgraph.Reconcile.{
  Resource, State, is_nil, is_key, is_unknown, same_sequence, attrs_agree, rels_agree,
  sequences_agree, mismatches, compare,
}

is_nil-none : (xs : List String) → (is_nil xs ≡ true) ↔ ((i : String) → In i xs → ⊥)
is_nil-none [] = (λ h i i_in. i_in, λ h. refl)
is_nil-none (x ∷ xs) = (λ h. absurd (ground (arith, h)), λ h. absurd (h x (inl refl)))

module _ {A R : Type 0} (same_attrs : A → A → Bool) (same_rels : R → R → Bool) where
  -- Both have the resource and agree on it, or neither has it.
  abbrev pub SameAt : Option (Resource A R) → Option (Resource A R) → Type 0
  SameAt none none = Unit
  SameAt (some x) (some y) =
      (same_attrs x.attrs y.attrs ≡ true)
      × (same_rels x.relationships y.relationships ≡ true)
      × (same_sequence x.sequence y.sequence ≡ true)
  SameAt _ _ = ⊥

  -- What one store alone has: nothing.
  only-none :
      (a b : State A R)
      → (is_nil (filter (is_unknown b) (keys_of a)) ≡ true) ↔ (
          (i : String) (x : Resource A R)
          → lookup i a ≡ some x
          → (y : Resource A R) × (lookup i b ≡ some y))
  only-none a b = (
    λ h i x e. elim (Bool-cases (is_key b i)) [
      | inl k ↦ (In-keys i b).0 ((any-In i (keys_of b)).0 k)
      | inr k ↦ absurd (
          (is_nil-none _).0 h i
            ((In-filter (is_unknown b) i (keys_of a)).1 ((In-keys i a).1 (x, e), rw k)))
    ],
    λ h. (is_nil-none _).1 (λ i i_in.
        let f = (In-filter (is_unknown b) i (keys_of a)).0 i_in in
        let (x, e) = (In-keys i a).0 f.0 in
        ground (arith, f.1, (any-In i (keys_of b)).1 ((In-keys i b).1 (h i x e)))),
  )

  -- No mismatch: the two agree wherever both have the resource.
  mismatches-none :
      (same : Resource A R → Resource A R → Bool) (a b : State A R)
      → (is_nil (mismatches same_attrs same_rels same a b) ≡ true) ↔ (
          (i : String) (x y : Resource A R)
          → lookup i a ≡ some x
          → lookup i b ≡ some y
          → same x y ≡ true)
  mismatches-none same a b = (
    λ h i x y e f. elim (Bool-cases (same x y)) [
      | inl k ↦ k
      | inr k ↦ absurd (
          (is_nil-none _).0 h i (
            (In-filter _ i _).1 (
              (In-filter (is_key b) i (keys_of a)).1
                  ((In-keys i a).1 (x, e), (any-In i (keys_of b)).1 ((In-keys i b).1 (y, f))),
              rw (e, f, k),
            )))
    ],
    λ h. (is_nil-none _).1 (λ i i_in.
        let g = (In-filter _ i _).0 i_in in
        let k = (In-filter (is_key b) i (keys_of a)).0 g.0 in
        let (x, e) = (In-keys i a).0 k.0 in
        let (y, f) = (In-keys i b).0 ((any-In i (keys_of b)).0 k.1) in
        ground (arith, h i x y e f, (rw (e, f) at g.1))),
  )

  -- What the five lists say, resource by resource.
  SameAt-of :
      (x y : Option (Resource A R))
      → ((r : Resource A R) → x ≡ some r → (s : Resource A R) × (y ≡ some s))
      → ((s : Resource A R) → y ≡ some s → (r : Resource A R) × (x ≡ some r))
      → ((r s : Resource A R) → x ≡ some r → y ≡ some s → SameAt (some r) (some s))
      → SameAt x y
  SameAt-of none none to from both = tt
  SameAt-of none (some s) to from both = absurd (ground (arith, (from s refl).1))
  SameAt-of (some r) none to from both = absurd (ground (arith, (to r refl).1))
  SameAt-of (some r) (some s) to from both = both r s refl refl

  SameAt-some :
      (x y : Option (Resource A R)) (r : Resource A R)
      → SameAt x y
      → x ≡ some r
      → (s : Resource A R) × (y ≡ some s)
  SameAt-some none y r same e = absurd (ground (arith, e))
  SameAt-some (some x) none r same e = absurd same
  SameAt-some (some x) (some y) r same e = (y, refl)

  SameAt-none :
      (x y : Option (Resource A R)) (s : Resource A R)
      → SameAt x y
      → y ≡ some s
      → (r : Resource A R) × (x ≡ some r)
  SameAt-none x none s same e = absurd (ground (arith, e))
  SameAt-none none (some y) s same e = absurd same
  SameAt-none (some x) (some y) s same e = (x, refl)

  -- The report says `ok` exactly if the two states have the same resources, and agree on the
  -- attributes, the relationships and the sequence of each.
  pub compare-SameAt :
      (a b : State A R)
      → ((compare same_attrs same_rels a b).ok ≡ true)
        ↔ ((i : String) → SameAt (lookup i a) (lookup i b))
  unfolding compare
  compare-SameAt a b = (
    λ h i.
        let seqs =
          (mismatches-none (sequences_agree same_attrs same_rels) a b).0 (and_right _ _ h) in
        let rels =
          (mismatches-none (rels_agree same_attrs same_rels) a b).0
            (and_right _ _ (and_left _ _ h)) in
        let attrs =
          (mismatches-none (attrs_agree same_attrs same_rels) a b).0
            (and_right _ _ (and_left _ _ (and_left _ _ h))) in
        let from =
          (only-none b a).0 (and_right _ _ (and_left _ _ (and_left _ _ (and_left _ _ h)))) in
        let to = (only-none a b).0 (and_left _ _ (and_left _ _ (and_left _ _ (and_left _ _ h)))) in
        SameAt-of (lookup i a) (lookup i b) (to i) (from i)
          (λ r s e f. (attrs i r s e f, rels i r s e f, seqs i r s e f)),
    λ h.
        let both =
          λ (i : String) (x y : Resource A R) (e : lookup i a ≡ some x) (f : lookup i b ≡ some y).
            subst (λ o. SameAt o (some y)) e (subst (SameAt (lookup i a)) f (h i)) in
        rw (
          (only-none a b).1 (λ i x e. SameAt-some (lookup i a) (lookup i b) x (h i) e),
          (only-none b a).1 (λ i x e. SameAt-none (lookup i a) (lookup i b) x (h i) e),
          (mismatches-none (attrs_agree same_attrs same_rels) a b).1
              (λ i x y e f. (both i x y e f).0),
          (mismatches-none (rels_agree same_attrs same_rels) a b).1
              (λ i x y e f. (both i x y e f).1),
          (mismatches-none (sequences_agree same_attrs same_rels) a b).1
              (λ i x y e f. (both i x y e f).2),
        ),
  )
