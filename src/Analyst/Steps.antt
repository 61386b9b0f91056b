-- ===== src/Analyst/Steps.antt =====
-- The step machine of src/resgraph/analyst/remediation.py, over any step type: `apply` and
-- `rollback` are the callables that the machine is given, on a world of their own. An event's run id,
-- action, total and timestamp are the machine's constants or the clock's, and left out.
pub mod Calls
pub mod Guards
pub mod Unwound
pub mod Forward
pub mod Run
use resgraph.Prelude.{
  ℕ, zero, suc, ◌+◌, String, Bool, true, false, not, ◌&&◌, ◌||◌, Option, none, some, List, [], ◌∷◌,
  ◌++◌, ◌==◌, any, str_eq, ltb, if◌then◌else◌, length,
}

pub data StepStatus : Type 0 where
  started succeeded failed rolled_back rolled_back_failed irreversible cancelled : StepStatus

abbrev pub is_terminal_forward : StepStatus → Bool
is_terminal_forward succeeded = true
is_terminal_forward failed = true
is_terminal_forward cancelled = true
is_terminal_forward _ = false

abbrev pub is_terminal_rollback : StepStatus → Bool
is_terminal_rollback rolled_back = true
is_terminal_rollback rolled_back_failed = true
is_terminal_rollback irreversible = true
is_terminal_rollback _ = false

abbrev pub is_started : StepStatus → Bool
is_started started = true
is_started _ = false

pub record StepEvent : Type 0 where
  pub step_index : ℕ
  pub status : StepStatus
  pub output_ref : Option String
  pub error : Option String

-- How a call of `apply` ends, and one of `rollback`: by the sentinel, by another value, or by raising.
pub data Applied : Type 0 where
  applied : (ref : String) → Applied
  apply_raised : (error : String) → Applied

pub data RolledBack : Type 0 where
  restored : RolledBack
  unrecoverable : RolledBack
  rollback_raised : (error : String) → RolledBack

abbrev pub Events : Type 0
Events = List StepEvent

abbrev pub statuses_at : ℕ → Events → List StepStatus
statuses_at i [] = []
statuses_at i (e ∷ es) = if e.step_index == i then e.status ∷ statuses_at i es else statuses_at i es

-- `per_index and per_index[-1] in _TERMINAL_FORWARD`
abbrev pub ends_forward : List StepStatus → Bool
ends_forward [] = false
ends_forward (s ∷ []) = is_terminal_forward s
ends_forward (s ∷ t ∷ rest) = ends_forward (t ∷ rest)

-- The three guards of `_emit`: would the event be a second one of its kind?
abbrev pub is_second : StepStatus → List StepStatus → Bool
is_second s earlier =
    is_started s && any is_started earlier
    || is_terminal_forward s && ends_forward earlier
    || is_terminal_rollback s && any is_terminal_rollback earlier

abbrev pub is_given : Option String → Bool
is_given none = false
is_given (some String.[]) = false
is_given (some (String.◌∷◌ c s)) = true

abbrev pub needs_error : StepStatus → Bool
needs_error rolled_back_failed = true
needs_error _ = false

-- `StepEvent._invariants`
abbrev pub is_well_formed : ℕ → StepEvent → Bool
is_well_formed total e = ltb e.step_index total && (not (needs_error e.status) || is_given e.error)

-- `_emit`; `none` is a `RuntimeError` of the guards or a `ValueError` of the event's validator.
unfoldable pub emit : (total : ℕ) → StepEvent → Events → Option Events
emit total e events =
    if is_second e.status (statuses_at e.step_index events)
    then none
    else if is_well_formed total e
    then some (events ++ (e ∷ []))
    else none

abbrev pub event : ℕ → StepStatus → StepEvent
event i s = record { step_index = i; status = s; output_ref = none; error = none }

abbrev pub event_error : ℕ → StepStatus → String → StepEvent
event_error i s error = record { step_index = i; status = s; output_ref = none; error = some error }

abbrev pub event_ref : ℕ → StepStatus → String → StepEvent
event_ref i s ref = record { step_index = i; status = s; output_ref = some ref; error = none }

abbrev pub rollback_event : ℕ → RolledBack → StepEvent
rollback_event i restored = event i rolled_back
rollback_event i unrecoverable = event i irreversible
rollback_event i (rollback_raised error) = event_error i rolled_back_failed error

-- The machine's two flags, and who owns it.
pub record Control : Type 0 where
  pub owner : String
  pub cancel_requested : Bool
  pub finished : Bool

-- `StepMachine.cancel`; `none` is a `PermissionError`.
unfoldable pub cancel : String → Control → Option Control
cancel requested_by c =
    if str_eq requested_by c.owner
    then some (if c.finished then c else record c { cancel_requested = true })
    else none

abbrev pub then_with {ℓ κ} : {A : Type ℓ} {B : Type κ} → Option A → (A → Option B) → Option B
then_with none f = none
then_with (some a) f = f a

module _ {Step W : Type 0} (pre_state_is_known : Step → Bool) (apply : Step → W → Applied × W)
    (rollback : Step → W → RolledBack × W) where
  -- What undoing one step does: nothing but an event where the snapshot is missing.
  abbrev pub undo : ℕ → Step → W → StepEvent × W
  undo i step w =
      if pre_state_is_known step
      then (let (outcome, w') = rollback step w in (rollback_event i outcome, w'))
      else (event i irreversible, w)

  -- `_unwind`, over the executed steps, the latest first.
  unfoldable pub unwind : ℕ → List (ℕ × Step) → Events → W → Option (Events × W)
  unfolding emit
  unwind total [] events w = some (events, w)
  unwind total ((i, step) ∷ earlier) events w =
      let (e, w') = undo i step w in
      then_with (emit total e events) (λ events'. unwind total earlier events' w')

  -- One step that has been started: what `execute` does next.
  abbrev pub after_apply :
      ℕ
      → (Events → W → Option (Events × W))
      → ℕ
      → List (ℕ × Step)
      → Events
      → Applied × W
      → Option (Events × W)
  unfolding unwind
  after_apply total next i executed events (applied ref, w) =
      then_with (emit total (event_ref i succeeded ref) events) (λ events'. next events' w)
  after_apply total next i executed events (apply_raised error, w) =
      then_with (emit total (event_error i failed error) events)
        (λ events'. unwind total executed events' w)

  -- The loop of `execute`, at index `i`; `cancelled_at` is the flag when it is checked there.
  unfoldable pub execute_from :
      (total : ℕ)
      → (cancelled_at : ℕ → Bool) → ℕ
      → List Step
      → List (ℕ × Step)
      → Events
      → W
      → Option (Events × W)
  unfolding after_apply unwind emit
  execute_from total cancelled_at i [] executed events w = some (events, w)
  execute_from total cancelled_at i (step ∷ steps) executed events w =
      let next = λ (events' : Events) (w' : W).
        execute_from total cancelled_at (i + 1) steps ((i, step) ∷ executed) events' w' in
      if cancelled_at i
      then then_with (emit total (event i cancelled) events)
          (λ events'. unwind total executed events' w)
      else then_with (emit total (event i started) events)
          (λ events'. after_apply total next i executed events' (apply step w))

  -- `execute`, with the plan `steps`.
  unfoldable pub execute : (cancelled_at : ℕ → Bool) → List Step → W → Option (Events × W)
  unfolding execute_from
  execute cancelled_at steps w = execute_from (length steps) cancelled_at 0 steps [] [] w
