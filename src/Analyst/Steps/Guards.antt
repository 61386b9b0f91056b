-- ===== src/Analyst/Steps/Guards.antt =====
-- The guards of `_emit` in src/resgraph/analyst/remediation.py: what an event that they let through
-- does to the statuses of each step.
use resgraph.Prelude.{
  ℕ, ◌<◌, ◌≡◌, refl, ap, String, Bool, true, false, not, ◌&&◌, ◌||◌, some, List, [], ◌∷◌, ◌++◌,
  arith, any, any-append, ◌==◌, ==_iff, Bool-cases, inl, inr,
}
use resgraph.Analyst.Steps.{
  StepStatus, started, succeeded, failed, rolled_back, rolled_back_failed, irreversible, cancelled,
  is_terminal_rollback, StepEvent, Events, statuses_at, is_second, RolledBack, restored,
  unrecoverable, rollback_raised, emit, rollback_event, needs_error, is_given, undo, Applied,
}

pub statuses_at-append :
    (i : ℕ) (xs ys : Events) → statuses_at i (xs ++ ys) ≡ statuses_at i xs ++ statuses_at i ys
statuses_at-append i [] ys = refl
statuses_at-append i (x ∷ xs) ys = ground (arith, statuses_at-append i xs ys)

-- Has step `i` been through its rollback?
abbrev pub is_undone : ℕ → Events → Bool
is_undone i es = any is_terminal_rollback (statuses_at i es)

-- An event of another step, or of another kind, leaves that as it is.
pub is_undone-append :
    (i : ℕ) (es : Events) (e : StepEvent)
    → ((e.step_index == i) && is_terminal_rollback e.status) ≡ false
    → is_undone i (es ++ (e ∷ [])) ≡ is_undone i es
is_undone-append i es e h = ground (
  arith,
  statuses_at-append i es (e ∷ []),
  any-append is_terminal_rollback (statuses_at i es) (statuses_at i (e ∷ [])),
)

pub statuses_at-other :
    (i : ℕ) (es : Events) (e : StepEvent)
    → (e.step_index == i) ≡ false
    → statuses_at i es ≡ []
    → statuses_at i (es ++ (e ∷ [])) ≡ []
statuses_at-other i es e h k = rw (statuses_at-append, k, h)

pub statuses_at-same :
    (es : Events) (e : StepEvent)
    → statuses_at e.step_index es ≡ []
    → statuses_at e.step_index (es ++ (e ∷ [])) ≡ e.status ∷ []
statuses_at-same es e k =
    ground (
      arith,
      statuses_at-append e.step_index es (e ∷ []),
      (==_iff e.step_index e.step_index).1 refl,
    )

pub emit-some :
    (total : ℕ) (e : StepEvent) (es : Events)
    → is_second e.status (statuses_at e.step_index es) ≡ false
    → e.step_index < total
    → (not (needs_error e.status) || is_given e.error) ≡ true
    → emit total e es ≡ some (es ++ (e ∷ []))
unfolding emit
emit-some total e es h lt given = ground (arith, lt)

pub is_second-rollback :
    (s : StepStatus) (earlier : List StepStatus)
    → is_terminal_rollback s ≡ true
    → is_second s earlier ≡ any is_terminal_rollback earlier
is_second-rollback rolled_back earlier h = refl
is_second-rollback rolled_back_failed earlier h = refl
is_second-rollback irreversible earlier h = refl
is_second-rollback started earlier h = ground arith
is_second-rollback succeeded earlier h = ground arith
is_second-rollback failed earlier h = ground arith
is_second-rollback cancelled earlier h = ground arith

-- What undoing step `i` reports: one rollback status, with an error where one is required.
pub record Reports (i : ℕ) (e : StepEvent) : Type 0 where
  pub same_index : e.step_index ≡ i
  pub is_rollback : is_terminal_rollback e.status ≡ true
  pub error_given : (not (needs_error e.status) || is_given e.error) ≡ true

rollback_event-Reports :
    (i : ℕ) (r : RolledBack)
    → ((error : String) → r ≡ rollback_raised error → is_given (some error) ≡ true)
    → Reports i (rollback_event i r)
rollback_event-Reports i restored h = record {
  same_index = refl;
  is_rollback = refl;
  error_given = refl;
}
rollback_event-Reports i unrecoverable h = record {
  same_index = refl;
  is_rollback = refl;
  error_given = refl;
}
rollback_event-Reports i (rollback_raised error) h = record {
  same_index = refl;
  is_rollback = refl;
  error_given = h error refl;
}

module _ {Step W : Type 0} (pre_state_is_known : Step → Bool) (apply : Step → W → Applied × W)
    (rollback : Step → W → RolledBack × W) where
  -- A rollback that raises says why: `str(e)` is not empty.
  abbrev pub Speaks : Type 0
  Speaks =
      (step : Step) (w w' : W) (error : String)
      → rollback step w ≡ (rollback_raised error, w')
      → is_given (some error) ≡ true

  pub undo-Reports :
      Speaks
      → (i : ℕ) (step : Step) (w : W)
      → Reports i (undo pre_state_is_known apply rollback i step w).0
  undo-Reports speaks i step w = elim (Bool-cases (pre_state_is_known step)) [
    | inl e ↦
        let r = rollback_event-Reports i (rollback step w).0 (λ error h.
          speaks step w (rollback step w).1 error (ap (λ o. (o, (rollback step w).1)) h)) in
        record {
          same_index = rw (e, r.same_index);
          is_rollback = rw (e, r.is_rollback);
          error_given = rw (e, r.error_given);
        }
    | inr e ↦ record { same_index = rw e; is_rollback = rw e; error_given = rw e }
  ]
