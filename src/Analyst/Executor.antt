-- ===== src/Analyst/Executor.antt =====
-- src/resgraph/analyst/executor.py: the apply and rollback pair that the step machine drives, over a
-- store that is read by `read`, written through `emit`, and moves on while `sleep` waits. A snapshot
-- holds the keys of `read_node` that the code reads; the failure texts are shortened, and a driver
-- that raises by itself is left to `Remediate`.
pub mod Confirm
pub mod Messages
pub mod Restore
pub mod Hot
pub mod Texts
use resgraph.Prelude.{
  ℕ, zero, suc, ◌+◌, String, Bool, true, false, not, ◌&&◌, ◌||◌, Option, none, some, List, [], ◌∷◌,
  ◌++◌, length, ◌==◌, any, str_eq, leb, ltb, if◌then◌else◌,
}
use resgraph.Schema.{
  Op, delete, upsert, Value, Attrs, Relationship, UpdateMessage, label_for, model_validate,
  ResourceType,
}
use resgraph.Analyst.Steps.{
  Applied, applied, apply_raised, RolledBack, restored, unrecoverable, rollback_raised, Events,
  execute,
}

-- What `read_node` returns of a node.
pub record Snapshot : Type 0 where
  pub applied_seq : Option ℕ
  pub deleted : Bool
  pub attrs : Attrs
  pub rels : List Relationship

-- `step_id` is the step's identity, `id(step)`.
pub record PlannedStep : Type 0 where
  pub step_id : ℕ
  pub action : String
  pub target : String
  pub patch : Attrs
  pub pre_state : Option Snapshot

pub data Failure : Type 0 where
  unknown_action absent invalid_message never_reached : Failure

abbrev pub text_of : Failure → String
text_of unknown_action = "unknown remediation action"
text_of absent = "not in the graph; nothing to remediate"
text_of invalid_message = "validation error"
text_of never_reached = "emitted sequence never reached the store"

pub data Planned : Type 0 where
  raised : (f : Failure) → Planned
  planned : (m : UpdateMessage) → Planned

-- `{**attrs, **patch}`
abbrev pub set_attr : String → Value → Attrs → Attrs
set_attr k v [] = (k, v) ∷ []
set_attr k v (kv ∷ kvs) =
    let rest = set_attr k v kvs in if str_eq k kv.0 then (k, v) ∷ kvs else kv ∷ rest

abbrev pub patched : Attrs → Attrs → Attrs
patched attrs [] = attrs
patched attrs ((k, v) ∷ patch) = patched (set_attr k v attrs) patch

-- `Remediator._message`, with the validators that the constructor runs.
abbrev pub checked : UpdateMessage → Planned
checked m = if model_validate m then planned m else raised invalid_message

abbrev pub message_as :
    Option ResourceType → ℕ → String → ℕ → Op → Attrs → List Relationship → Planned
message_as none now target sequence op attrs rels = raised invalid_message
message_as (some t) now target sequence op attrs rels = checked (record {
  event_time = now;
  sequence = sequence;
  op = op;
  resource_type = t;
  resource_id = target;
  attrs = attrs;
  relationships = rels;
})

unfoldable pub message : ℕ → String → ℕ → Op → Attrs → List Relationship → Planned
message now target sequence op attrs rels =
    message_as (label_for target) now target sequence op attrs rels

-- `(applied if applied is not None else -1) + 1`
abbrev pub next_sequence : Option ℕ → ℕ
next_sequence none = 0
next_sequence (some a) = a + 1

-- `applied_seq or -1`: where that is -1, `none`. Python's `or` takes zero for absent.
abbrev pub or_absent : Option ℕ → Option ℕ
or_absent none = none
or_absent (some zero) = none
or_absent (some (suc a)) = some (suc a)

abbrev pub reaches : Option ℕ → ℕ → Bool
reaches none sequence = false
reaches (some a) sequence = leb sequence a

-- `(state.get("applied_seq") or -1) >= msg.sequence`
abbrev pub confirms : Option Snapshot → ℕ → Bool
confirms none sequence = false
confirms (some state) sequence = reaches (or_absent state.applied_seq) sequence

abbrev pub is_exactly : Option ℕ → ℕ → Bool
is_exactly none written = false
is_exactly (some a) written = a == written

-- `_written`, the sequence that each step has written.
abbrev pub Written : Type 0
Written = List (ℕ × ℕ)

abbrev pub written_by : ℕ → Written → Option ℕ
written_by i [] = none
written_by i ((j, w) ∷ ws) = if i == j then some w else written_by i ws

pub record World (S : Type 0) : Type 0 where
  pub store : S
  pub written : Written

module _ {S : Type 0} (read : String → S → Option Snapshot) (emit : List UpdateMessage → S → S)
    (sleep : S → S) (confirm_attempts now : ℕ) where
  abbrev pub sleep_before : ℕ → S → S
  sleep_before zero s = s
  sleep_before (suc more) s = sleep s

  -- The attempts of `_emit_and_confirm`, of which `n` are left.
  unfoldable pub await_confirm : ℕ → UpdateMessage → S → Bool × S
  await_confirm zero m s = (false, s)
  await_confirm (suc n) m s =
      let rest = await_confirm n m (sleep_before n s) in
      if confirms (read m.resource_id s) m.sequence then (true, s) else rest

  unfoldable pub emit_and_confirm : UpdateMessage → S → Bool × S
  unfolding await_confirm
  emit_and_confirm m s = await_confirm confirm_attempts m (emit (m ∷ []) s)

  abbrev pub plan_on : PlannedStep → Option Snapshot → Planned
  unfolding message
  plan_on step none = raised absent
  plan_on step (some live) =
      let sequence = next_sequence live.applied_seq in
      if str_eq step.action "delete"
      then message now step.target sequence delete [] []
      else message now step.target sequence upsert (patched live.attrs step.patch) live.rels

  unfoldable pub plan_message : PlannedStep → S → Planned
  unfolding message
  plan_message step s =
      if str_eq step.action "set_attrs" || str_eq step.action "delete"
      then plan_on step (read step.target s)
      else raised unknown_action

  abbrev pub after_apply : PlannedStep → ℕ → Written → Bool × S → Applied × World S
  after_apply step sequence written (true, s) =
      (applied step.target, record { store = s; written = (step.step_id, sequence) ∷ written })
  after_apply step sequence written (false, s) =
      (apply_raised (text_of never_reached), record { store = s; written = written })

  abbrev pub apply_planned : PlannedStep → World S → Planned → Applied × World S
  unfolding emit_and_confirm
  apply_planned step w (raised f) = (apply_raised (text_of f), w)
  apply_planned step w (planned m) =
      after_apply step m.sequence w.written (emit_and_confirm m w.store)

  unfoldable pub apply_step : PlannedStep → World S → Applied × World S
  unfolding plan_message emit_and_confirm
  apply_step step w = apply_planned step w (plan_message step w.store)

  -- The message that a rollback emits.
  unfoldable pub compensation : PlannedStep → Snapshot → ℕ → Planned
  unfolding message
  compensation step snapshot written =
      if snapshot.deleted
      then message now step.target (written + 1) delete [] []
      else message now step.target (written + 1) upsert snapshot.attrs snapshot.rels

  abbrev pub after_rollback : Written → Bool × S → RolledBack × World S
  after_rollback written (true, s) = (restored, record { store = s; written = written })
  after_rollback written (false, s) =
      (rollback_raised (text_of never_reached), record { store = s; written = written })

  abbrev pub compensate : World S → Planned → RolledBack × World S
  unfolding emit_and_confirm
  compensate w (raised f) = (rollback_raised (text_of f), w)
  compensate w (planned m) = after_rollback w.written (emit_and_confirm m w.store)

  -- Does the store still show what the step wrote?
  abbrev pub is_ours : Option ℕ → Option Snapshot → Bool
  is_ours none live = false
  is_ours (some written) none = false
  is_ours (some written) (some live) = is_exactly (or_absent live.applied_seq) written

  abbrev pub or_first_written : Option ℕ → ℕ
  or_first_written none = 0
  or_first_written (some written) = written

  abbrev pub rollback_to : PlannedStep → World S → Option Snapshot → RolledBack × World S
  unfolding compensation emit_and_confirm
  rollback_to step w none = (unrecoverable, w)
  rollback_to step w (some snapshot) =
      let written = written_by step.step_id w.written in
      if is_ours written (read step.target w.store)
      then compensate w (compensation step snapshot (or_first_written written))
      else (unrecoverable, w)

  unfoldable pub rollback_step : PlannedStep → World S → RolledBack × World S
  unfolding compensation emit_and_confirm
  rollback_step step w = rollback_to step w step.pre_state
