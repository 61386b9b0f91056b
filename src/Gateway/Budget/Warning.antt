-- ===== src/Gateway/Budget/Warning.antt =====
-- The daily ledger of src/resgraph/evals/breaker.py, under the fall-forward budget of
-- src/resgraph/gateway/budget.py: the sum it keeps, and its one warning.
use resgraph.Prelude.{
  suc, ◌≡◌, refl, String, true, false, ◌||◌, Option, some, ap, ◌∙◌, Bool-cases, inl, inr, List, [],
  ◌∷◌, str_eq, eq_iff, any, if◌then◌else◌,
}
use resgraph.Floats.{Floats}
use resgraph.Gateway.Budget.{
  Spend, fresh, load, spent_today, is_crossed, add, allows, warn_line, charge, charge_all,
}

-- The sums that the charges make of `s`, one after the other, in the program's addition.
abbrev pub running : (F : Floats) → F.Float → List F.Float → List F.Float
running F s [] = []
running F s (cost ∷ costs) = F.add s cost ∷ running F (F.add s cost) costs

-- The last of them.
abbrev pub total : (F : Floats) → F.Float → List F.Float → F.Float
total F s [] = s
total F s (cost ∷ costs) = total F (F.add s cost) costs

module _ (F : Floats) (cap : F.Float) (today : String) where
  same_day : (s : Spend F.Float) → s.date ≡ today → str_eq s.date today ≡ true
  same_day s e = (eq_iff s.date today).1 e

  load-fresh : load F today (some (fresh F today)) ≡ fresh F today
  unfolding load
  load-fresh = rw (same_day (fresh F today) refl) refl

  -- The state after one charge of a day that the file is of already.
  abbrev after : F.Float → Spend F.Float → Spend F.Float
  after cost s = record {
    date = s.date;
    spent = F.add s.spent cost;
    warned = s.warned || is_crossed F cost (warn_line F cap) s;
  }

  -- One step of a day's charges, from a file of the day.
  charge_all-step :
      (cost : F.Float) (costs : List F.Float) (s : Spend F.Float)
      → s.date ≡ today
      → charge_all F cap today (cost ∷ costs) (some s) ≡ (
        if is_crossed F cost (warn_line F cap) s
            then suc (charge_all F cap today costs (some (after cost s))).0
            else (charge_all F cap today costs (some (after cost s))).0,
        (charge_all F cap today costs (some (after cost s))).1,
      )
  unfolding charge_all charge add load
  charge_all-step cost costs s e = rw (same_day s e) refl

  charge_all-spent :
      (costs : List F.Float) (s : Spend F.Float)
      → s.date ≡ today
      → spent_today F today (charge_all F cap today costs (some s)).1 ≡ total F s.spent costs
  unfolding spent_today charge_all load
  charge_all-spent [] s e = rw (spent_today, same_day s e) refl
  charge_all-spent (cost ∷ costs) s e =
      ap (λ x. spent_today F today x.1) (charge_all-step cost costs s e)
      ∙ charge_all-spent costs (after cost s) e

  charge_all-warned :
      (costs : List F.Float) (s : Spend F.Float)
      → s.date ≡ today
      → s.warned ≡ true
      → (charge_all F cap today costs (some s)).0 ≡ 0
  unfolding charge_all
  charge_all-warned [] s e w = refl
  charge_all-warned (cost ∷ costs) s e w =
      let rest = charge_all-warned costs (after cost s) e (rw w refl) in
      ap (λ x. x.0) (charge_all-step cost costs s e) ∙ rw w (rw w at rest)

  charge_all-once :
      (costs : List F.Float) (s : Spend F.Float)
      → s.date ≡ today
      → s.warned ≡ false
      → (charge_all F cap today costs (some s)).0
        ≡ (if any (F.le (warn_line F cap)) (running F s.spent costs) then 1 else 0)
  unfolding charge_all
  charge_all-once [] s e w = refl
  charge_all-once (cost ∷ costs) s e w =
      let step = ap (λ x. x.0) (charge_all-step cost costs s e) in
      elim (Bool-cases (F.le (warn_line F cap) (F.add s.spent cost))) [
        | inl now ↦
            let rest = charge_all-warned costs (after cost s) e (rw (w, now) refl) in
            step ∙ rw (w, now) (ap suc (rw (w, now) at rest))
        | inr later ↦
            let rest = charge_all-once costs (after cost s) e (rw (w, later) refl) in
            step ∙ rw (w, later) (rw (w, later) at rest)
      ]

  fresh-spent :
      (file : Option (Spend F.Float))
      → load F today file ≡ fresh F today
      → spent_today F today file ≡ F.nought
  unfolding spent_today
  fresh-spent file start = ap (λ (s : Spend F.Float). s.spent) start

  -- A file that reads as a fresh day is as good as a fresh day's.
  charge_all-start :
      (cost : F.Float) (costs : List F.Float) (file : Option (Spend F.Float))
      → load F today file ≡ fresh F today
      → charge_all F cap today (cost ∷ costs) file
        ≡ charge_all F cap today (cost ∷ costs) (some (fresh F today))
  unfolding charge_all charge add
  charge_all-start cost costs file start = rw (start, load-fresh) refl

-- On a day that starts with no charge, a budget warns exactly once when a sum of the day's charges so
-- far reaches the warning line, and never when none does; what is spent is the sum of them all, and
-- the budget allows more just while that is under the cap. The sums are the program's, of rounding
-- additions in the order of the charges.
pub charge_all-budget :
    (F : Floats) (cap : F.Float) (today : String) (costs : List F.Float)
    (file : Option (Spend F.Float))
    → load F today file ≡ fresh F today
    → let (warnings, last) = charge_all F cap today costs file in
      (warnings ≡ (if any (F.le (warn_line F cap)) (running F F.nought costs) then 1 else 0))
      × (spent_today F today last ≡ total F F.nought costs)
      × (allows F cap today last ≡ F.lt (total F F.nought costs) cap)
unfolding charge_all allows
charge_all-budget F cap today [] file start =
    let none_spent = fresh-spent F cap today file start in
    (refl, none_spent, ap (λ n. F.lt n cap) none_spent)
charge_all-budget F cap today (cost ∷ costs) file start =
    let same = charge_all-start F cap today cost costs file start in
    let sum =
      ap (λ x. spent_today F today x.1) same
      ∙ charge_all-spent F cap today (cost ∷ costs) (fresh F today) refl in
    (
      ap (λ x. x.0) same ∙ charge_all-once F cap today (cost ∷ costs) (fresh F today) refl refl,
      sum,
      ap (λ n. F.lt n cap) sum,
    )
