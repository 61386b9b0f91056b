-- ===== src/Analyst/Steps/Calls.antt =====
-- What the step machine of src/resgraph/analyst/remediation.py promises: which calls of `apply` and
-- `rollback` a run makes, in which world each is made, and what is reported of each.
use resgraph.Prelude.{
  ℕ, ◌+◌, ◌≡◌, refl, String, Bool, true, false, Option, none, some, List, [], ◌∷◌, Bool-cases, inl,
  inr, ◌⊎◌,
}
use resgraph.Analyst.Steps.{
  StepStatus, started, succeeded, failed, rolled_back, rolled_back_failed, irreversible, cancelled,
  StepEvent, Events, Applied, applied, apply_raised, RolledBack, restored, unrecoverable,
  rollback_raised, undo,
}

abbrev pub reported : ℕ → StepStatus → (output_ref error : Option String) → StepEvent
reported i status output_ref error = record {
  step_index = i;
  status = status;
  output_ref = output_ref;
  error = error;
}

RolledBack-cases :
    {W : Type 0} (r : RolledBack × W)
    → ((w : W) × (r ≡ (restored, w)))
      ⊎ (((w : W) × (r ≡ (unrecoverable, w)))
          ⊎ ((error : String) × (w : W) × (r ≡ (rollback_raised error, w))))
RolledBack-cases (restored, w) = inl (w, refl)
RolledBack-cases (unrecoverable, w) = inr (inl (w, refl))
RolledBack-cases (rollback_raised error, w) = inr (inr (error, w, refl))

module _ {Step W : Type 0} (pre_state_is_known : Step → Bool) (apply : Step → W → Applied × W)
    (rollback : Step → W → RolledBack × W) where
  -- The steps, the latest first, are undone from one world to another: `rollback` is called once for
  -- each whose state from before is known, in the world that the call before it has left, and its
  -- outcome is reported; a step whose state from before is not known is irreversible.
  pub data Undoes : List (ℕ × Step) → W → Events → W → Type 0 where
    none_left : (w : W) → Undoes [] w [] w
    not_known :
        (i : ℕ) (step : Step) (earlier : List (ℕ × Step)) (w w' : W) (es : Events)
        → pre_state_is_known step ≡ false
        → Undoes earlier w es w'
        → Undoes ((i, step) ∷ earlier) w (reported i irreversible none none ∷ es) w'
    was_restored :
        (i : ℕ) (step : Step) (earlier : List (ℕ × Step)) (w w1 w' : W) (es : Events)
        → pre_state_is_known step ≡ true
        → rollback step w ≡ (restored, w1)
        → Undoes earlier w1 es w'
        → Undoes ((i, step) ∷ earlier) w (reported i rolled_back none none ∷ es) w'
    was_unrecoverable :
        (i : ℕ) (step : Step) (earlier : List (ℕ × Step)) (w w1 w' : W) (es : Events)
        → pre_state_is_known step ≡ true
        → rollback step w ≡ (unrecoverable, w1)
        → Undoes earlier w1 es w'
        → Undoes ((i, step) ∷ earlier) w (reported i irreversible none none ∷ es) w'
    was_raised :
        (i : ℕ) (step : Step) (earlier : List (ℕ × Step)) (w w1 w' : W) (es : Events)
        (error : String)
        → pre_state_is_known step ≡ true
        → rollback step w ≡ (rollback_raised error, w1)
        → Undoes earlier w1 es w'
        → Undoes ((i, step) ∷ earlier) w (reported i rolled_back_failed none (some error) ∷ es) w'

  -- A run from the step `i` on, the steps `executed` being applied already: `apply` is called for each
  -- step in turn until a cancellation is seen or a call raises, and then the steps applied are undone.
  pub data Runs (cancelled_at : ℕ → Bool)
      : ℕ → List Step → List (ℕ × Step) → W → Events → W → Type 0 where
    all_applied :
        (i : ℕ) (executed : List (ℕ × Step)) (w : W) → Runs cancelled_at i [] executed w [] w
    one_applied :
        (i : ℕ) (step : Step) (steps : List Step) (executed : List (ℕ × Step)) (w w1 w' : W)
        (es : Events) (ref : String)
        → cancelled_at i ≡ false
        → apply step w ≡ (applied ref, w1)
        → Runs cancelled_at (i + 1) steps ((i, step) ∷ executed) w1 es w'
        → Runs cancelled_at i
            (step ∷ steps)
            executed
            w
            (reported i started none none ∷ reported i succeeded (some ref) none ∷ es)
            w'
    one_raised :
        (i : ℕ) (step : Step) (steps : List Step) (executed : List (ℕ × Step)) (w w1 w' : W)
        (es : Events) (error : String)
        → cancelled_at i ≡ false
        → apply step w ≡ (apply_raised error, w1)
        → Undoes executed w1 es w'
        → Runs cancelled_at i
            (step ∷ steps)
            executed
            w
            (reported i started none none ∷ reported i failed none (some error) ∷ es)
            w'
    was_cancelled :
        (i : ℕ) (step : Step) (steps : List Step) (executed : List (ℕ × Step)) (w w' : W)
        (es : Events)
        → cancelled_at i ≡ true
        → Undoes executed w es w'
        → Runs cancelled_at i (step ∷ steps) executed w (reported i cancelled none none ∷ es) w'

  -- One step is undone as promised.
  pub undo-Undoes :
      (i : ℕ) (step : Step) (earlier : List (ℕ × Step)) (w w' : W) (es : Events)
      → Undoes earlier (undo pre_state_is_known apply rollback i step w).1 es w'
      → Undoes ((i, step) ∷ earlier) w ((undo pre_state_is_known apply rollback i step w).0 ∷ es) w'
  undo-Undoes i step earlier w w' es rest = elim (Bool-cases (pre_state_is_known step)) [
    | inr e ↦ rw e (not_known i step earlier w w' es e (rw e at rest))
    | inl e ↦ elim (RolledBack-cases (rollback step w)) [
      | inl (w1, r) ↦ rw (e, r) (was_restored i step earlier w w1 w' es e r (rw (e, r) at rest))
      | inr (inl (w1, r)) ↦
          rw (e, r) (was_unrecoverable i step earlier w w1 w' es e r (rw (e, r) at rest))
      | inr (inr (error, w1, r)) ↦
          rw (e, r) (was_raised i step earlier w w1 w' es error e r (rw (e, r) at rest))
    ]
  ]
