-- ===== src/Gateway/Budget/Judge.antt =====
-- The judge's breaker of src/resgraph/evals/breaker.py: how far a day's calls go.
use resgraph.Prelude.{
  ℕ, zero, suc, ◌≤◌, ◌<◌, ◌≡◌, refl, ap, String, true, false, Option, some, List, [], ◌∷◌, length,
  map, take, str_eq, eq_iff, arith, Bool-cases, Option-cases, inl, inr, ◌⊎◌,
}
use resgraph.Floats.{Floats}
use resgraph.Gateway.Budget.{Spend, load, spent_today, charge, trips, call_cost, judge_all}
use resgraph.Gateway.Budget.Warning.{total}

module _ (F : Floats) (cap input_rate output_rate : F.Float) (today : String) where
  -- What the calls cost, in order.
  abbrev pub costs_of : List (ℕ × ℕ) → List F.Float
  costs_of calls = map (λ (c : ℕ × ℕ). call_cost F input_rate output_rate c.0 c.1) calls

  -- A day that starts at `spent` makes `made` of the calls: the spend is under the cap in front of each,
  -- and has reached it behind the last, unless all calls are made.
  pub record Stops (spent : F.Float) (calls : List (ℕ × ℕ)) (made : ℕ) : Type 0 where
    pub at_most : made ≤ length calls
    pub under : (k : ℕ) → k < made → F.le cap (total F spent (take k (costs_of calls))) ≡ false
    pub over :
        (made ≡ length calls) ⊎ (F.le cap (total F spent (take made (costs_of calls))) ≡ true)

  load-date : (file : Option (Spend F.Float)) → (load F today file).date ≡ today
  unfolding load
  load-date file = elim (Option-cases file) [
    | inl e ↦ rw e refl
    | inr (s, e) ↦ elim (Bool-cases (str_eq s.date today)) [
      | inl same ↦ rw (e, same) ((eq_iff s.date today).0 same)
      | inr other ↦ rw (e, other) refl
    ]
  ]

  spent_today-charge :
      (cost : F.Float) (file : Option (Spend F.Float))
      → spent_today F today (some (charge F cap today cost file).1)
        ≡ F.add (spent_today F today file) cost
  unfolding spent_today charge load
  spent_today-charge cost file =
      let same = (eq_iff (load F today file).date today).1 (load-date file) in
      rw (spent_today, same) refl

  under_next :
      (cost : F.Float) (costs : List F.Float) (spent : F.Float) (made : ℕ)
      → F.le cap spent ≡ false
      → ((k : ℕ) → k < made → F.le cap (total F (F.add spent cost) (take k costs)) ≡ false)
      → (k : ℕ) → k < suc made
      → F.le cap (total F spent (take k (cost ∷ costs))) ≡ false
  under_next cost costs spent made first rest zero lt = first
  under_next cost costs spent made first rest (suc k) lt = rest k (omega (arith, lt))

  -- The judge's calls of a day stop as soon as the spend has reached the cap, and no sooner; and what is
  -- then on the ledger is what was there and the costs of the calls that were made. The sums are the
  -- program's, of rounding additions in the order of the calls.
  pub judge_all-Stops :
      (calls : List (ℕ × ℕ)) (file : Option (Spend F.Float))
      → let (made, last) = judge_all F cap input_rate output_rate today calls file in
        Stops (spent_today F today file) calls made
        × (spent_today F today last
            ≡ total F (spent_today F today file) (take made (costs_of calls)))
  unfolding judge_all trips
  judge_all-Stops [] file = (
    record { at_most = omega arith; under = λ k lt. absurd (omega (arith, lt)); over = inl refl },
    refl,
  )
  judge_all-Stops ((i, o) ∷ calls) file =
      let cost = call_cost F input_rate output_rate i o in
      let next = some (charge F cap today cost file).1 in
      let (stops, sum) = judge_all-Stops calls next in
      let spent = spent_today-charge cost file in
      elim (Bool-cases (F.le cap (spent_today F today file))) [
        | inl now ↦ rw now (
          record {
            at_most = omega arith;
            under = λ k lt. absurd (omega (arith, lt));
            over = inr now;
          },
          refl,
        )
        | inr later ↦ rw later (
          record {
            at_most = omega (arith, stops.at_most);
            under =
                under_next cost (costs_of calls) (spent_today F today file) _ later
                  (λ k lt. rw spent at (stops.under k lt));
            over = elim stops.over [
              | inl all ↦ inl (ap suc all)
              | inr reached ↦ inr (rw spent at reached)
            ];
          },
          rw spent at sum,
        )
      ]
