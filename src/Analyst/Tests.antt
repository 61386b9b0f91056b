-- ===== src/Analyst/Tests.antt =====
-- Witnesses and tests of the step machine, the executor on a view of the hot store, and the approval.
use resgraph.Prelude.{
  ◌++◌, ◌⊎◌, some-inj, String, ℕ, zero, suc, ◌+◌, ◌≡◌, refl, sym, ap, Bool, true, false, ◌==◌,
  Option, none, some, ◌≢◌, arith, str_eq, if◌then◌else◌, List, [], ◌∷◌, length,
}
use resgraph.Analyst.Steps.{
  unrecoverable, Events, Applied, applied, apply_raised, RolledBack, restored, rollback_raised,
  execute, is_given,
}
use resgraph.Analyst.Approval.{Answer, refuse, skip, digits, Decision, approve_plan}
use resgraph.Analyst.Approval.Counted.{Approved, approve_plan-Approved}
use resgraph.Schema.{
  UpdateMessage, ResourceType, upsert, text, model_validate, label_for, delete_carries_no_payload,
  attrs_avoid_reserved_keys, id_prefix_matches_type,
}
use resgraph.Graph.View.{View}
use resgraph.Analyst.Executor.{
  emit_and_confirm, Snapshot, PlannedStep, planned, World, plan_message, compensation, message,
  apply_step, rollback_step, text_of, never_reached,
}
use resgraph.Analyst.Executor.Confirm.{shown, sleeps}
use resgraph.Analyst.Executor.Hot.{read_view, ingest_view, view-Ingests}
use resgraph.Analyst.Executor.Restore.{Restores, apply_step-rollback_step, apply_step-zero}
use resgraph.Analyst.Remediate.{
  CallerContext, operator, Denied, denied, remediated, no_hot_store, Faults, has_pre_state,
  apply_over, rollback_over, is_authorized, apply_remediation, apply_remediation-Ended,
}
use resgraph.Analyst.Steps.Calls.{Runs}
use resgraph.Analyst.Steps.Guards.{Speaks}
use resgraph.Analyst.Steps.Run.{Ended, execute-Ended}

-- Steps are numbers and the world counts the calls. Step 3 cannot be applied; the rollback of
-- step 1 raises; step 2 has no snapshot.
abbrev known_steps : ℕ → Bool
known_steps step = elim (step == 2) [ true ↦ false | false ↦ true ]

abbrev run_step : ℕ → ℕ → Applied × ℕ
run_step step w = elim (step == 3) [
  | true ↦ (apply_raised "no such node", w + 1)
  | false ↦ (applied "ref", w + 1)
]

abbrev roll_step : ℕ → ℕ → RolledBack × ℕ
roll_step zero w = (restored, w + 1)
roll_step (suc n) w = (rollback_raised "gone", w + 1)

abbrev is_said : RolledBack → Bool
is_said (rollback_raised error) = is_given (some error)
is_said _ = true

abbrev four_steps : List ℕ
four_steps = 0 ∷ 1 ∷ 2 ∷ 3 ∷ []

roll_step-Speaks : Speaks known_steps run_step roll_step
roll_step-Speaks zero w w' error h = ap (λ r. is_said r.0) (sym h)
roll_step-Speaks (suc n) w w' error h = ap (λ r. is_said r.0) (sym h)

execute-Ended_example :
    (es : Events) × (w' : ℕ) × (execute known_steps run_step roll_step (λ i. false) four_steps 0
      ≡ some (es, w'))
    × Ended (length four_steps) (λ i. false) es
    × Runs known_steps run_step roll_step (λ i. false) 0 four_steps [] 0 es w'
execute-Ended_example =
    execute-Ended known_steps run_step roll_step roll_step-Speaks (λ i. false) four_steps 0

-- The hot store shows one database at sequence 4; the plan has one step on it.
abbrev before_step : UpdateMessage
before_step = record {
  event_time = 1;
  sequence = 4;
  op = upsert;
  resource_type = ResourceType.db;
  resource_id = "db-1";
  attrs = ("size", text "small") ∷ [];
  relationships = [];
}

abbrev live_before : Snapshot
live_before = shown before_step

abbrev resize_step : PlannedStep
resize_step = record {
  step_id = 7;
  action = "set_attrs";
  target = "db-1";
  patch = ("size", text "large") ∷ [];
  pre_state = some live_before;
}

abbrev one_db : View
one_db j = if str_eq j "db-1" then some before_step else none

abbrev resized : UpdateMessage
resized = record before_step { event_time = 2; sequence = 5; attrs = ("size", text "large") ∷ [] }

abbrev undone : UpdateMessage
undone = record before_step { event_time = 2; sequence = 6 }

plans_resized :
    plan_message read_view ingest_view (λ v. v) 40 2 resize_step one_db ≡ planned resized
unfolding plan_message message label_for model_validate delete_carries_no_payload
    attrs_avoid_reserved_keys id_prefix_matches_type
plans_resized = refl

plans_undone :
    compensation read_view ingest_view (λ v. v) 40 2 resize_step live_before 5 ≡ planned undone
unfolding compensation message label_for model_validate delete_carries_no_payload
    attrs_avoid_reserved_keys id_prefix_matches_type
plans_undone = refl

abbrev live_after : Snapshot
live_after = shown resized

-- The step has landed, and nobody has written since.
abbrev after_resize : World View
after_resize = record { store = ingest_view (resized ∷ []) one_db; written = (7, 5) ∷ [] }

lands_resized :
    apply_step read_view ingest_view
      (λ v. v)
      40
      2
      resize_step
      (record { store = one_db; written = [] })
    ≡ (applied "db-1", after_resize)
unfolding apply_step emit_and_confirm plan_message message label_for model_validate
    delete_carries_no_payload attrs_avoid_reserved_keys id_prefix_matches_type
lands_resized = refl

apply_step-rollback_step_example :
    ((apply_step read_view ingest_view
        (λ v. v)
        40
        2
        resize_step
        (record { store = one_db; written = [] })).0
      ≡ applied "db-1")
    × (read_view "db-1"
          (apply_step read_view ingest_view
            (λ v. v)
            40
            2
            resize_step
            (record { store = one_db; written = [] })).1.store
        ≡ some (shown resized))
    × (((live_after.applied_seq ≡ some 5)
          × ((w' : World View) × (rollback_step read_view ingest_view
                  (λ v. v)
                  40
                  2
                  resize_step
                  after_resize
                ≡ (restored, w'))
              × Restores live_before 6 (read_view "db-1" w'.store)))
        ⊎ ((live_after.applied_seq ≢ some 5)
            × (rollback_step read_view ingest_view (λ v. v) 40 2 resize_step after_resize
                ≡ (unrecoverable, after_resize))))
apply_step-rollback_step_example =
    apply_step-rollback_step read_view ingest_view (λ v. v) 40 2 (view-Ingests 40 (omega arith))
      resize_step (record { store = one_db; written = [] }) after_resize live_before live_after 4
      resized undone refl refl refl plans_resized plans_undone
      (ap (λ r. r.1.written) (sym lands_resized)) refl

-- A store that holds a phantom until a message is emitted, and that message then.
abbrev phantom : Snapshot
phantom = record { applied_seq = none; deleted = false; attrs = []; rels = [] }

abbrev first_message : UpdateMessage
first_message = record before_step {
  event_time = 2;
  sequence = 0;
  attrs = ("size", text "large") ∷ [];
}

abbrev read_flag : String → Bool → Option Snapshot
read_flag j false = some phantom
read_flag j true = some (shown first_message)

plans_first :
    plan_message read_flag (λ ms b. true) (λ b. b) 40 2 resize_step false ≡ planned first_message
unfolding plan_message message label_for model_validate delete_carries_no_payload
    attrs_avoid_reserved_keys id_prefix_matches_type
plans_first = refl

stays : (j : ℕ) → sleeps (λ b. b) j true ≡ true
stays zero = refl
stays (suc j) = stays j

apply_step-zero_example :
    (first_message.sequence ≡ 0)
    × ((apply_step read_flag
          (λ ms b. true)
          (λ b. b)
          40
          2
          resize_step
          (record { store = false; written = [] })).0
        ≡ apply_raised (text_of never_reached))
apply_step-zero_example =
    apply_step-zero read_flag (λ ms b. true) (λ b. b) 40 2 resize_step
      (record { store = false; written = [] }) phantom first_message refl refl plans_first
      (λ j. ap (read_flag "db-1") (stays j))

abbrev by_operator : CallerContext
by_operator = record { caller = operator; scopes = "resgraph:write" ∷ []; has_emit = true }

-- The database goes down when a step is rolled back.
abbrev db_down : Faults View
db_down = record {
  on_apply = λ step w. none;
  on_rollback = λ step w. some ("connection refused", w.store);
}

apply_remediation-Ended_example :
    ((is_authorized by_operator 10 (some 20) ≡ true)
      × (true ≡ true)
      × ((es : Events) × (w : World View) × (apply_remediation read_view ingest_view
              (λ v. v)
              40
              2
              db_down
              by_operator
              true
              10
              (some 20)
              (λ i. false)
              (resize_step ∷ [])
              one_db
            ≡ remediated es w)
          × Ended 1 (λ i. false) es
          × Runs has_pre_state
              (apply_over read_view ingest_view (λ v. v) 40 2 db_down)
              (rollback_over read_view ingest_view (λ v. v) 40 2 db_down)
              (λ i. false)
              0
              (resize_step ∷ [])
              []
              (record { store = one_db; written = [] })
              es
              w))
    ⊎ (((is_authorized by_operator 10 (some 20) ≡ true)
          × (true ≡ false)
          × (apply_remediation read_view ingest_view
                (λ v. v)
                40
                2
                db_down
                by_operator
                true
                10
                (some 20)
                (λ i. false)
                (resize_step ∷ [])
                one_db
              ≡ no_hot_store))
        ⊎ ((is_authorized by_operator 10 (some 20) ≡ false)
            × ((d : Denied) × (apply_remediation read_view ingest_view
                    (λ v. v)
                    40
                    2
                    db_down
                    by_operator
                    true
                    10
                    (some 20)
                    (λ i. false)
                    (resize_step ∷ [])
                    one_db
                  ≡ denied d))))
apply_remediation-Ended_example =
    apply_remediation-Ended read_view ingest_view (λ v. v) 40 2 db_down by_operator true 10
      (some 20) (λ i. false) (resize_step ∷ []) one_db
      (λ step w error s h. ap (λ (r : String × View). is_given (some r.0)) (sym (some-inj _ _ h)))

-- The second of three steps is skipped; then the count is mistyped once.
abbrev some_answers : List Answer
some_answers = skip (some 2) ∷ digits 3 ∷ digits 2 ∷ []

approve_plan-Approved_example :
    (d : Decision) × (approve_plan 3 (some_answers ++ (refuse ∷ [])) ≡ some d)
    × Approved 3 (some_answers ++ (refuse ∷ [])) d
approve_plan-Approved_example = approve_plan-Approved 3 some_answers

approves_two :
    approve_plan 3 some_answers
    ≡ some (record { approved = true; applied = 0 ∷ 2 ∷ []; skipped = 1 ∷ [] })
unfolding approve_plan
approves_two = refl
