-- ===== src/Analyst/Executor/Messages.antt =====
-- What the messages that src/resgraph/analyst/executor.py plans and compensates with say.
use resgraph.Prelude.{
  ◌⊎◌, ℕ, ◌+◌, ◌≡◌, sym, ap, ◌∙◌, String, true, ◌||◌, Option, some, List, [], arith, str_eq,
  Bool-cases, inl, inr,
}
use resgraph.Schema.{Op, delete, upsert, Attrs, Relationship, UpdateMessage, IsValid}
use resgraph.Analyst.Executor.{
  Snapshot, PlannedStep, planned, next_sequence, patched, plan_on, plan_message, compensation,
}
use resgraph.Analyst.Executor.Confirm.{Says, message-Says, is_delete}

module _ {S : Type 0} (read : String → S → Option Snapshot) (emit : List UpdateMessage → S → S)
    (sleep : S → S) (confirm_attempts now : ℕ) where
  plan_on-Says :
      (step : PlannedStep) (live : Snapshot) (m : UpdateMessage)
      → plan_on read emit sleep confirm_attempts now step (some live) ≡ planned m
      → (op : Op) × (attrs : Attrs) × (rels : List Relationship) × Says step.target
          (next_sequence live.applied_seq)
          op
          attrs
          rels
          m
  unfolding plan_on
  plan_on-Says step live m h = elim (Bool-cases (str_eq step.action "delete")) [
    | inl e ↦ (delete, [], [], message-Says now step.target _ delete [] [] m (rw e at h))
    | inr e ↦ (
      upsert,
      patched live.attrs step.patch,
      live.rels,
      message-Says now step.target _ upsert _ live.rels m (rw e at h),
    )
  ]

  -- A planned message is about the step's target, and one above what the store shows of it.
  pub plan_message-Says :
      (step : PlannedStep) (s : S) (live : Snapshot) (m : UpdateMessage)
      → read step.target s ≡ some live
      → plan_message read emit sleep confirm_attempts now step s ≡ planned m
      → (m.resource_id ≡ step.target) × (m.sequence ≡ next_sequence live.applied_seq) × IsValid m
  unfolding plan_message
  plan_message-Says step s live m there h =
      elim (Bool-cases (str_eq step.action "set_attrs" || str_eq step.action "delete")) [
        | inl e ↦
            let says = plan_on-Says step live m (rw there at (rw e at h)) in
            (says.3.resource, says.3.sequence_is, says.3.valid)
        | inr e ↦ absurd (ground (arith, (rw e at h)))
      ]

  pub compensation-Says :
      (step : PlannedStep) (snapshot : Snapshot) (written : ℕ) (m : UpdateMessage)
      → compensation read emit sleep confirm_attempts now step snapshot written ≡ planned m
      → (m.resource_id ≡ step.target)
        × (m.sequence ≡ written + 1)
        × IsValid m
        × (is_delete m.op ≡ snapshot.deleted)
        × ((snapshot.deleted ≡ true)
            ⊎ ((m.attrs ≡ snapshot.attrs) × (m.relationships ≡ snapshot.rels)))
  unfolding compensation
  compensation-Says step snapshot written m h = elim (Bool-cases snapshot.deleted) [
    | inl e ↦
        let says = message-Says now step.target (written + 1) delete [] [] m (rw e at h) in
        (says.resource, says.sequence_is, says.valid, ap is_delete says.op_is ∙ sym e, inl e)
    | inr e ↦
        let says =
          message-Says now step.target (written + 1) upsert snapshot.attrs snapshot.rels m
            (rw e at h) in
        (
          says.resource,
          says.sequence_is,
          says.valid,
          ap is_delete says.op_is ∙ sym e,
          inr (says.attrs_are, says.rels_are),
        )
  ]
