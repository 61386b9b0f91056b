-- ===== src/Evals/Gate/Passes.antt =====
-- When a run passes the gate of src/resgraph/evals/gate.py.
use resgraph.Prelude.{
  any-In, ℕ, ◌≤◌, ◌≡◌, ◌↔◌, refl, sym, ap, subst, ◌∙◌, String, true, false, ◌&&◌, Option, none,
  some, List, [], ◌∷◌, ◌++◌, str_eq, any, leb→le, arith, In, ==_iff, and_left, and_right,
  Bool-cases, Option-cases, some-inj, inl, inr,
}
use resgraph.Evals.Gate.{
  Slices, Summary, missing_from, is_empty, same_count, same_items, is_comparable, or_zero,
  has_trials, matches_model, undecided_reason, is_over, get_slice, slice_blocks_at, slice_blocks,
  fabrication_blocks, overall_blocks, evaluate, passed,
}
use resgraph.Floats.{Floats}

-- A rate that both have is not more than the bar below what it was, in the program's subtraction.
abbrev pub Kept : (F : Floats) → F.Float → Option F.Float → Option F.Float → Type 0
Kept F bar current was =
    (c w : F.Float) → current ≡ some c → was ≡ some w → F.lt bar (F.sub w c) ≡ false

is_over-Kept :
    (F : Floats) (bar : F.Float) (current was : Option F.Float)
    → (is_over F bar current was ≡ false) ↔ Kept F bar current was
is_over-Kept F bar none was = (λ h c w e f. absurd (ground (arith, e)), λ h. refl)
is_over-Kept F bar (some x) none = (λ h c w e f. absurd (ground (arith, f)), λ h. refl)
is_over-Kept F bar (some x) (some y) =
    (λ h c w e f. rw (sym (some-inj x c e), sym (some-inj y w f), h), λ h. h x y refl refl)

-- No slice that both have has dropped by more than the bar.
abbrev pub NoneDropped : (F : Floats) → F.Float → Slices F.Float → Slices F.Float → Type 0
NoneDropped F bar run base =
    (name : String) (current was : Option F.Float)
    → In (name, current) run
    → get_slice name base ≡ some was
    → Kept F bar current was

-- The same, by the test of the code.
abbrev NoneOver : (F : Floats) → F.Float → Slices F.Float → Slices F.Float → Type 0
NoneOver F bar run base =
    (name : String) (current was : Option F.Float)
    → In (name, current) run
    → get_slice name base ≡ some was
    → is_over F bar current was ≡ false

NoneOver-NoneDropped :
    (F : Floats) (bar : F.Float) (run base : Slices F.Float)
    → NoneOver F bar run base ↔ NoneDropped F bar run base
NoneOver-NoneDropped F bar run base = (
  λ h name current was i e. (is_over-Kept F bar current was).0 (h name current was i e),
  λ h name current was i e. (is_over-Kept F bar current was).1 (h name current was i e),
)

empty-append : {A : Type 0} (xs ys : List A) → is_empty (xs ++ ys) ≡ is_empty xs && is_empty ys
empty-append [] ys = refl
empty-append (x ∷ xs) ys = refl

slice_blocks_at-empty :
    (F : Floats) (bar : F.Float) (name : String) (current : Option F.Float)
    (base : Option (Option F.Float))
    → (is_empty (slice_blocks_at F bar name current base) ≡ true)
      ↔ ((was : Option F.Float) → base ≡ some was → is_over F bar current was ≡ false)
slice_blocks_at-empty F bar name current none = (λ h was e. absurd (ground (arith, e)), λ h. refl)
slice_blocks_at-empty F bar name current (some base) = (
  λ h was e. subst (λ b. is_over F bar current b ≡ false) (some-inj base was e) (ground (arith, h)),
  λ h. ground (arith, h base refl),
)

slice_blocks-NoneOver :
    (F : Floats) (bar : F.Float) (run base : Slices F.Float)
    → (is_empty (slice_blocks F bar run base) ≡ true) ↔ NoneOver F bar run base
unfolding slice_blocks
slice_blocks-NoneOver F bar [] base = (λ h name current was i. absurd i, λ h. refl)
slice_blocks-NoneOver F bar ((name, current) ∷ rest) base =
    let ih = slice_blocks-NoneOver F bar rest base in
    let here = slice_blocks_at-empty F bar name current (get_slice name base) in
    let split =
      empty-append (slice_blocks_at F bar name current (get_slice name base))
        (slice_blocks F bar rest base) in
    (
      λ h n c w i e. elim i [
        | inr later ↦ ih.0 (and_right _ _ (sym split ∙ h)) n c w later e
        | inl same ↦
            subst (λ x. is_over F bar x w ≡ false) (sym (ap (λ s. s.1) same))
              (here.0 (and_left _ _ (sym split ∙ h)) w
                (ap (λ s. get_slice s.0 base) (sym same) ∙ e))
      ],
      λ h.
          split
          ∙ rw (
            here.1 (λ was e. h name current was (inl refl) e),
            ih.1 (λ n c w i e. h n c w (inr i) e),
          ),
    )

-- Nothing of `xs` is missing from `ys`.
missing_from-In :
    (xs ys : List String)
    → (is_empty (missing_from ys xs) ≡ true) ↔ ((i : String) → In i xs → any (str_eq i) ys ≡ true)
missing_from-In [] ys = (λ h i i_in. absurd i_in, λ h. refl)
missing_from-In (x ∷ xs) ys = elim (Bool-cases (any (str_eq x) ys)) [
  | inl k ↦ (
    λ h i i_in. elim i_in [
      | inl e ↦ ap (λ j. any (str_eq j) ys) e ∙ k
      | inr later ↦ (missing_from-In xs ys).0 (rw k at h) i later
    ],
    λ h. rw k ((missing_from-In xs ys).1 (λ i i_in. h i (inr i_in))),
  )
  | inr k ↦ (λ h. absurd (ground (arith, h)), λ h. ground (arith, h x (inl refl)))
]

-- The run and the baseline measure the same items; without their ids, as many.
abbrev pub SameItems : Option (List String) → Option (List String) → Option ℕ → Option ℕ → Type 0
SameItems (some run) (some base) n m = (i : String) → In i run ↔ In i base
SameItems none base n m = n ≡ m
SameItems (some run) none n m = n ≡ m

same_count_iff : (n m : Option ℕ) → (same_count n m ≡ true) ↔ (n ≡ m)
same_count_iff none none = (λ h. refl, λ h. refl)
same_count_iff none (some b) = (λ h. absurd (ground (arith, h)), λ h. absurd (ground (arith, h)))
same_count_iff (some a) none = (λ h. absurd (ground (arith, h)), λ h. absurd (ground (arith, h)))
same_count_iff (some a) (some b) =
    (λ h. ap some ((==_iff a b).0 h), λ h. (==_iff a b).1 (some-inj a b h))

same_items_iff :
    (run base : Option (List String)) (n m : Option ℕ)
    → (same_items run base (same_count n m) ≡ true) ↔ SameItems run base n m
same_items_iff none base n m = same_count_iff n m
same_items_iff (some run) none n m = same_count_iff n m
same_items_iff (some run) (some base) n m = (
  λ h i. (
    λ i_in. (any-In i base).0 ((missing_from-In run base).0 (and_right _ _ h) i i_in),
    λ i_in. (any-In i run).0 ((missing_from-In base run).0 (and_left _ _ h) i i_in),
  ),
  λ h. rw (
    (missing_from-In base run).1 (λ i i_in. (any-In i run).1 ((h i).1 i_in)),
    (missing_from-In run base).1 (λ i i_in. (any-In i base).1 ((h i).0 i_in)),
  ),
)

-- What the gate asks of a run.
pub record IsClean (F : Floats) (overall_drop slice_drop : F.Float) (min_trials : ℕ)
    (run baseline : Summary F.Float) : Type 0 where
  pub same_items : SameItems run.item_ids baseline.item_ids run.items baseline.items
  pub enough_trials : min_trials ≤ or_zero run.trials
  pub same_model : matches_model run.model baseline.model ≡ true
  pub none_fabricated : or_zero run.fabrication_count ≡ 0
  pub overall_kept : Kept F overall_drop run.pass_all_trials baseline.pass_all_trials
  pub slices_kept : NoneDropped F slice_drop run.slices baseline.slices

comparable_lem :
    {Rate : Type 0} (run baseline : Summary Rate)
    → is_comparable run baseline
      ≡ same_items run.item_ids baseline.item_ids (same_count run.items baseline.items)
unfolding is_comparable
comparable_lem run baseline = refl

undecided_reason-none :
    {Rate : Type 0} (min_trials : ℕ) (run baseline : Summary Rate)
    → (undecided_reason min_trials run baseline ≡ none) ↔ (
        (is_comparable run baseline ≡ true)
        × (has_trials min_trials run ≡ true)
        × (matches_model run.model baseline.model ≡ true))
unfolding undecided_reason
undecided_reason-none min_trials run baseline = (λ h. ground arith, λ h. ground arith)

fabrication_blocks-empty : (n : ℕ) → (is_empty (fabrication_blocks n) ≡ true) ↔ (n ≡ 0)
fabrication_blocks-empty n = (λ h. ground arith, λ h. ground arith)

overall_blocks-empty :
    (F : Floats) (bar : F.Float) (current base : Option F.Float)
    → (is_empty (overall_blocks F bar current base) ≡ true) ↔ (is_over F bar current base ≡ false)
overall_blocks-empty F bar current base = (λ h. ground arith, λ h. ground arith)

-- The gate passes a run exactly if it measures the items of the baseline, with enough trials and the
-- same worker, has no fabrication, and neither the overall rate nor a slice that both have fell by
-- more than its bar, where the fall is the program's float subtraction. So a run that it cannot judge never passes, and a fabrication always blocks.
pub evaluate-IsClean :
    (F : Floats) (overall_drop slice_drop : F.Float) (min_trials : ℕ)
    (run baseline : Summary F.Float)
    → (passed (evaluate F overall_drop slice_drop min_trials run baseline) ≡ true)
      ↔ IsClean F overall_drop slice_drop min_trials run baseline
unfolding evaluate
evaluate-IsClean F overall_drop slice_drop min_trials run baseline =
    let fab = fabrication_blocks (or_zero run.fabrication_count) in
    let over = overall_blocks F overall_drop run.pass_all_trials baseline.pass_all_trials in
    let slices = slice_blocks F slice_drop run.slices baseline.slices in
    let split : is_empty (fab ++ over ++ slices)
        ≡ is_empty fab && is_empty over && is_empty slices =
      empty-append (fab ++ over) slices ∙ ap (λ b. b && is_empty slices) (empty-append fab over) in
    let items = same_items_iff run.item_ids baseline.item_ids run.items baseline.items in
    let at_all = undecided_reason-none min_trials run baseline in
    (
      λ h. elim (Option-cases (undecided_reason min_trials run baseline)) [
        | inr (reason, k) ↦ absurd (ground (arith, (rw k at h)))
        | inl k ↦
            let clear = sym split ∙ (rw k at h) in
            let both = and_left (is_empty fab && is_empty over) (is_empty slices) clear in
            record {
              same_items = items.0 (sym (comparable_lem run baseline) ∙ (at_all.0 k).0);
              enough_trials = leb→le _ _ (at_all.0 k).1;
              same_model = (at_all.0 k).2;
              none_fabricated =
                  (fabrication_blocks-empty (or_zero run.fabrication_count)).0
                    (and_left (is_empty fab) (is_empty over) both);
              overall_kept =
                  (is_over-Kept F overall_drop run.pass_all_trials baseline.pass_all_trials).0 (
                    (overall_blocks-empty F overall_drop run.pass_all_trials
                        baseline.pass_all_trials).0
                      (and_right (is_empty fab) (is_empty over) both));
              slices_kept = (NoneOver-NoneDropped F slice_drop run.slices baseline.slices).0 (
                  (slice_blocks-NoneOver F slice_drop run.slices baseline.slices).0
                    (and_right (is_empty fab && is_empty over) (is_empty slices) clear));
            }
      ],
      λ c.
          let k = at_all.1 (
            comparable_lem run baseline ∙ items.1 c.same_items,
            (let le = c.enough_trials in ground (arith, le)),
            c.same_model,
          ) in
          rw k (
            split
            ∙ rw (
              (fabrication_blocks-empty (or_zero run.fabrication_count)).1 c.none_fabricated,
              (overall_blocks-empty F overall_drop run.pass_all_trials baseline.pass_all_trials).1 (
                  (is_over-Kept F overall_drop run.pass_all_trials baseline.pass_all_trials).1
                    c.overall_kept),
              (slice_blocks-NoneOver F slice_drop run.slices baseline.slices).1
                  ((NoneOver-NoneDropped F slice_drop run.slices baseline.slices).1 c.slices_kept),
            )),
    )
