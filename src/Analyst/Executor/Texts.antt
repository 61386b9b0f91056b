-- ===== src/Analyst/Executor/Texts.antt =====
-- A rollback of src/resgraph/analyst/executor.py that fails says why.
use resgraph.Prelude.{
  ℕ, ◌≡◌, refl, String, Bool, true, false, Option, none, some, List, Bool-cases, inl, inr,
}
use resgraph.Schema.{UpdateMessage}
use resgraph.Analyst.Steps.{RolledBack, rollback_raised, is_given}
use resgraph.Analyst.Executor.{
  Snapshot, PlannedStep, Planned, raised, planned, World, unknown_action, absent, invalid_message,
  never_reached, emit_and_confirm, compensate, after_rollback, is_ours, written_by, rollback_to,
  rollback_step,
}

abbrev pub is_said : RolledBack → Bool
is_said (rollback_raised error) = is_given (some error)
is_said _ = true

module _ {S : Type 0} (read : String → S → Option Snapshot) (emit : List UpdateMessage → S → S)
    (sleep : S → S) (confirm_attempts now : ℕ) where
  is_said-after_rollback :
      (w : World S) (r : Bool × S)
      → is_said (after_rollback read emit sleep confirm_attempts now w.written r).0 ≡ true
  is_said-after_rollback w (true, s) = refl
  is_said-after_rollback w (false, s) = refl

  is_said-compensate :
      (w : World S) (p : Planned)
      → is_said (compensate read emit sleep confirm_attempts now w p).0 ≡ true
  unfolding compensate
  is_said-compensate w (raised unknown_action) = refl
  is_said-compensate w (raised absent) = refl
  is_said-compensate w (raised invalid_message) = refl
  is_said-compensate w (raised never_reached) = refl
  is_said-compensate w (planned m) =
      is_said-after_rollback w (emit_and_confirm read emit sleep confirm_attempts now m w.store)

  is_said-rollback_to :
      (step : PlannedStep) (w : World S) (pre : Option Snapshot)
      → is_said (rollback_to read emit sleep confirm_attempts now step w pre).0 ≡ true
  unfolding rollback_to
  is_said-rollback_to step w none = refl
  is_said-rollback_to step w (some snapshot) =
      elim (Bool-cases (
        is_ours read emit sleep confirm_attempts now (written_by step.step_id w.written)
          (read step.target w.store))) [ inl e ↦ rw e (is_said-compensate w _) | inr e ↦ rw e ]

  pub is_said-rollback_step :
      (step : PlannedStep) (w : World S)
      → is_said (rollback_step read emit sleep confirm_attempts now step w).0 ≡ true
  unfolding rollback_step
  is_said-rollback_step step w = is_said-rollback_to step w step.pre_state
