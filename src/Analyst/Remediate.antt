-- ===== src/Analyst/Remediate.antt =====
-- `apply_remediation` and `preview_remediation` of src/resgraph/analyst/executor.py: the executor's
-- apply and rollback, driven by the step machine, behind the operator's authority. The driver may raise
-- in any call of the two: `Faults` says in which, with which text, and what is in the store then.
use resgraph.Prelude.{
  Bool-cases, Option-cases, ℕ, ◌≡◌, sym, ap, ◌∙◌, String, Bool, true, false, not, ◌&&◌, Option,
  none, some, List, [], ◌∷◌, length, ltb, any, str_eq, if◌then◌else◌, arith, inl, inr, ◌⊎◌,
}
use resgraph.Schema.{UpdateMessage}
use resgraph.Analyst.Steps.{
  Events, execute, Applied, apply_raised, RolledBack, rollback_raised, is_given,
}
use resgraph.Analyst.Steps.Calls.{Runs}
use resgraph.Analyst.Steps.Guards.{Speaks}
use resgraph.Analyst.Steps.Run.{Ended, execute-Ended}
use resgraph.Analyst.Executor.Texts.{is_said, is_said-rollback_step}
use resgraph.Analyst.Executor.{
  Snapshot, PlannedStep, Planned, planned, World, plan_message, apply_step, rollback_step,
}

pub data Caller : Type 0 where
  mcp http analyst operator : Caller

abbrev pub is_operator : Caller → Bool
is_operator operator = true
is_operator _ = false

pub record CallerContext : Type 0 where
  pub caller : Caller
  pub scopes : List String
  pub has_emit : Bool

pub data Denied : Type 0 where
  not_operator no_scope no_channel expired : Denied

-- `_authorize`; `none` is the write channel.
unfoldable pub authorize : CallerContext → Option Denied
authorize ctx =
    if not (is_operator ctx.caller)
    then some not_operator
    else if not (any (λ s. str_eq s "resgraph:write") ctx.scopes)
    then some no_scope
    else if not ctx.has_emit
    then some no_channel
    else none

-- `args.expires_at is not None and now > args.expires_at`
abbrev pub has_expired : ℕ → Option ℕ → Bool
has_expired clock none = false
has_expired clock (some expires_at) = ltb expires_at clock

abbrev pub has_pre_state : PlannedStep → Bool
has_pre_state step = elim step.pre_state [ none ↦ false | some _ ↦ true ]

-- The exceptions of the driver in a call of `apply_step` and in one of `rollback_step`: the text, and
-- the store that is left.
pub record Faults (S : Type 0) : Type 0 where
  pub on_apply : PlannedStep → World S → Option (String × S)
  pub on_rollback : PlannedStep → World S → Option (String × S)

-- How a call ends: with a `PermissionError`; with the exception of `require("hot")`; with an exception
-- that the machine lets through; or with the events of the run.
pub data Remediated (S : Type 0) : Type 0 where
  denied : (d : Denied) → Remediated S
  no_hot_store : Remediated S
  escaped : Remediated S
  remediated : (events : Events) → (w : World S) → Remediated S

abbrev pub is_authorized : CallerContext → ℕ → Option ℕ → Bool
is_authorized ctx clock expires_at =
    is_operator ctx.caller
    && any (λ s. str_eq s "resgraph:write") ctx.scopes
    && ctx.has_emit
    && not (has_expired clock expires_at)

is_authorized-none :
    (ctx : CallerContext) (clock : ℕ) (expires_at : Option ℕ)
    → is_authorized ctx clock expires_at ≡ true
    → (authorize ctx ≡ none) × (has_expired clock expires_at ≡ false)
unfolding authorize
is_authorized-none ctx clock expires_at h = ground arith

is_authorized-some :
    (ctx : CallerContext) (clock : ℕ) (expires_at : Option ℕ)
    → is_authorized ctx clock expires_at ≡ false
    → ((d : Denied) × (authorize ctx ≡ some d))
      ⊎ ((authorize ctx ≡ none) × (has_expired clock expires_at ≡ true))
unfolding authorize
is_authorized-some ctx clock expires_at h = ground arith

module _ {S : Type 0} (read : String → S → Option Snapshot) (emit : List UpdateMessage → S → S)
    (sleep : S → S) (confirm_attempts now : ℕ) where
  abbrev pub ran : Option (Events × World S) → Remediated S
  ran none = escaped
  ran (some (events, w)) = remediated events w

  -- A call of `apply_step`, and one of `rollback_step`, in which the driver may raise.
  abbrev pub apply_over : Faults S → PlannedStep → World S → Applied × World S
  apply_over faults step w = elim (faults.on_apply step w) as (λ _. Applied × World S) [
    | none ↦ apply_step read emit sleep confirm_attempts now step w
    | some (error, s) ↦ (apply_raised error, record { store = s; written = w.written })
  ]

  abbrev pub rollback_over : Faults S → PlannedStep → World S → RolledBack × World S
  rollback_over faults step w = elim (faults.on_rollback step w) as (λ _. RolledBack × World S) [
    | none ↦ rollback_step read emit sleep confirm_attempts now step w
    | some (error, s) ↦ (rollback_raised error, record { store = s; written = w.written })
  ]

  abbrev pub run_machine : Faults S → (ℕ → Bool) → List PlannedStep → S → Remediated S
  run_machine faults cancelled_at steps s = ran (
      execute has_pre_state (apply_over faults) (rollback_over faults) cancelled_at steps
        (record { store = s; written = [] }))

  abbrev pub unless_denied : Option Denied → Remediated S → Remediated S
  unless_denied (some d) run = denied d
  unless_denied none run = run

  -- `has_hot`: does `ctx.query.require("hot")` give a session?
  unfoldable pub apply_remediation :
      Faults S
      → CallerContext
      → (has_hot : Bool) (clock : ℕ) (expires_at : Option ℕ) (cancelled_at : ℕ → Bool)
      → List PlannedStep
      → S
      → Remediated S
  unfolding authorize
  apply_remediation faults ctx has_hot clock expires_at cancelled_at steps s =
      unless_denied (authorize ctx) (
        if has_expired clock expires_at
        then denied expired
        else if has_hot
        then run_machine faults cancelled_at steps s
        else no_hot_store)

  -- `preview_remediation`: the first message that cannot be planned raises.
  abbrev pub previewed : Planned → Option (List UpdateMessage) → Option (List UpdateMessage)
  previewed (planned m) (some ms) = some (m ∷ ms)
  previewed _ _ = none

  unfoldable pub preview_remediation : List PlannedStep → S → Option (List UpdateMessage)
  unfolding plan_message
  preview_remediation [] s = some []
  preview_remediation (step ∷ steps) s =
      previewed (plan_message read emit sleep confirm_attempts now step s)
        (preview_remediation steps s)

  -- The driver's exceptions in a rollback have texts.
  abbrev pub FaultsSpeak : Faults S → Type 0
  FaultsSpeak faults =
      (step : PlannedStep) (w : World S) (error : String) (s : S)
      → faults.on_rollback step w ≡ some (error, s)
      → is_given (some error) ≡ true

  -- Then every failure of a rollback has a text.
  rollback_over-Speaks :
      (faults : Faults S)
      → FaultsSpeak faults
      → Speaks has_pre_state (apply_over faults) (rollback_over faults)
  rollback_over-Speaks faults speaks step w w' error h =
      elim (Option-cases (faults.on_rollback step w)) [
        | inl e ↦
            sym (ap (λ r. is_said r.0) (rw (rollback_over, e) at h))
            ∙ is_said-rollback_step read emit sleep confirm_attempts now step w
        | inr ((text, s), e) ↦
            sym (ap (λ r. is_said r.0) (rw (rollback_over, e) at h)) ∙ speaks step w text s e
      ]

  -- A call by the operator, with the write scope and a channel and before the approval expires, ends
  -- with the exception of `require` where there is no hot store, and otherwise with the events of a run,
  -- which is complete, or cut and rolled back, and makes the calls that `Runs` says, whatever the driver
  -- raises in them. Every other call is refused. The condition: an exception that the driver raises in a
  -- rollback has a text; one without would escape the machine.
  pub apply_remediation-Ended :
      (faults : Faults S) (ctx : CallerContext) (has_hot : Bool) (clock : ℕ) (expires_at : Option ℕ)
      (cancelled_at : ℕ → Bool) (steps : List PlannedStep) (s : S)
      → FaultsSpeak faults
      → ((is_authorized ctx clock expires_at ≡ true)
          × (has_hot ≡ true)
          × ((es : Events) × (w : World S) × (apply_remediation faults ctx has_hot clock expires_at
                  cancelled_at steps s
                ≡ remediated es w)
              × Ended (length steps) cancelled_at es
              × Runs has_pre_state
                  (apply_over faults)
                  (rollback_over faults)
                  cancelled_at
                  0
                  steps
                  []
                  (record { store = s; written = [] })
                  es
                  w))
        ⊎ (((is_authorized ctx clock expires_at ≡ true)
              × (has_hot ≡ false)
              × (apply_remediation faults ctx has_hot clock expires_at cancelled_at steps s
                  ≡ no_hot_store))
            ⊎ ((is_authorized ctx clock expires_at ≡ false)
                × ((d : Denied) × (apply_remediation faults ctx has_hot clock expires_at
                        cancelled_at steps s
                      ≡ denied d))))
  unfolding apply_remediation
  apply_remediation-Ended faults ctx has_hot clock expires_at cancelled_at steps s speaks =
      let ended =
        execute-Ended has_pre_state (apply_over faults) (rollback_over faults)
          (rollback_over-Speaks faults speaks) cancelled_at steps
          (record { store = s; written = [] }) in
      elim (Bool-cases (is_authorized ctx clock expires_at)) [
        | inl h ↦
            let free = is_authorized-none ctx clock expires_at h in
            elim (Bool-cases has_hot) [
              | inl hot ↦
                  inl (
                    h,
                    hot,
                    (ended.0, ended.1, rw (free.0, free.1, hot, ended.2), ended.3, ended.4),
                  )
              | inr cold ↦ inr (inl (h, cold, rw (free.0, free.1, cold)))
            ]
        | inr h ↦ elim (is_authorized-some ctx clock expires_at h) [
          | inl (d, e) ↦ inr (inr (h, (d, rw e)))
          | inr (e, f) ↦ inr (inr (h, (expired, rw (e, f))))
        ]
      ]
