-- ===== src/Analyst/Executor/Restore.antt =====
-- What a rollback of src/resgraph/analyst/executor.py restores, and when it writes nothing.
use resgraph.Prelude.{
  ◌⊎◌, ℕ, zero, suc, ◌+◌, ◌<◌, ◌≡◌, refl, sym, ap, ap₂, ◌≢◌, ◌∙◌, String, Bool, true, false, Option,
  none, some, List, [], ◌∷◌, arith, ◌==◌, ==_iff, some-inj, Bool-cases, Option-cases, inl, inr,
  if◌then◌else◌,
}
use resgraph.Schema.{UpdateMessage}
use resgraph.Analyst.Steps.{applied, apply_raised, restored, unrecoverable}
use resgraph.Analyst.Executor.{
  Snapshot, PlannedStep, Written, text_of, never_reached, planned, or_absent, emit_and_confirm,
  next_sequence, plan_message, apply_step, apply_planned, after_apply, compensate, after_rollback,
  rollback_to, is_ours, or_first_written, compensation, rollback_step, World, written_by,
  is_exactly,
}
use resgraph.Analyst.Executor.Confirm.{
  shown, is_above, Ingests, emit_and_confirm-lands, await_confirm-zero, sleeps,
}
use resgraph.Analyst.Executor.Messages.{plan_message-Says, compensation-Says}

-- The store shows of the target what it showed before, at the sequence `sequence`.
pub record Restores (snapshot : Snapshot) (sequence : ℕ) (live : Option Snapshot) : Type 0 where
  pub now_shown : Snapshot
  pub is_live : live ≡ some now_shown
  pub same_deleted : now_shown.deleted ≡ snapshot.deleted
  pub same_payload :
      (snapshot.deleted ≡ true)
      ⊎ ((now_shown.attrs ≡ snapshot.attrs) × (now_shown.rels ≡ snapshot.rels))
  pub at : now_shown.applied_seq ≡ some sequence

is_exactly-itself : (n : ℕ) → 0 < n → is_exactly (or_absent (some n)) n ≡ true
is_exactly-itself zero pos = absurd (omega (arith, pos))
is_exactly-itself (suc n) pos = (==_iff (suc n) (suc n)).1 refl

is_exactly-other : (o : Option ℕ) (n : ℕ) → 0 < n → o ≢ some n → is_exactly (or_absent o) n ≡ false
is_exactly-other none n pos other = refl
is_exactly-other (some zero) n pos other = refl
is_exactly-other (some (suc a)) n pos other = elim (Bool-cases (suc a == n)) [
  | inl e ↦ absurd (other (ap some ((==_iff (suc a) n).0 e)))
  | inr e ↦ e
]

module _ {S : Type 0} (read : String → S → Option Snapshot) (emit : List UpdateMessage → S → S)
    (sleep : S → S) (confirm_attempts now : ℕ) where
  above_next :
      (m : UpdateMessage) (live : Snapshot)
      → m.sequence ≡ next_sequence live.applied_seq
      → is_above m (some live) ≡ true
  above_next m live h = ground (arith, h)

  -- A planned step is applied, and the step's own sequence is remembered.
  apply_step-lands :
      (i : Ingests read emit sleep confirm_attempts) (step : PlannedStep) (w : World S)
      (live : Snapshot) (a : ℕ) (m : UpdateMessage)
      → read step.target w.store ≡ some live
      → live.applied_seq ≡ some a
      → plan_message read emit sleep confirm_attempts now step w.store ≡ planned m
      → (s' : S) × (apply_step read emit sleep confirm_attempts now step w ≡ (
        applied step.target,
        record { store = s'; written = (step.step_id, a + 1) ∷ w.written },
      ))
        × (read step.target s' ≡ some (shown m))
        × (m.sequence ≡ a + 1)
  unfolding apply_step
  apply_step-lands i step w live a m there at h =
      let says =
        plan_message-Says read emit sleep confirm_attempts now step w.store live m there h in
      let sequence_is : m.sequence ≡ a + 1 = says.1 ∙ ap next_sequence at in
      let landed =
        emit_and_confirm-lands read emit sleep confirm_attempts now i m w.store says.2
          (ap (is_above m) (ap (λ r. read r w.store) says.0 ∙ there) ∙ above_next m live says.1)
          (omega (arith, sequence_is)) in
      (
        landed.0,
        ap (apply_planned read emit sleep confirm_attempts now step w) h
            ∙ ap (after_apply read emit sleep confirm_attempts now step m.sequence w.written)
                landed.1
            ∙ ap
                (λ n. (
                  applied step.target,
                  record { store = landed.0; written = (step.step_id, n) ∷ w.written },
                ))
                sequence_is,
        ap (λ r. read r landed.0) (sym says.0) ∙ landed.2,
        sequence_is,
      )

  after_apply-false :
      (step : PlannedStep) (sequence : ℕ) (written : Written) (r : Bool × S)
      → r.0 ≡ false
      → (after_apply read emit sleep confirm_attempts now step sequence written r).0
        ≡ apply_raised (text_of never_reached)
  after_apply-false step sequence written (true, s) h = absurd (ground arith)
  after_apply-false step sequence written (false, s) h = refl

  -- A step on a node that no message was applied to yet, such as the phantom end of an edge, plans the
  -- sequence zero. However often the store is read and shows the step's message, the step fails: it
  -- was written, and it is reported as one that never reached the store.
  pub apply_step-zero :
      (step : PlannedStep) (w : World S) (live : Snapshot) (m : UpdateMessage)
      → read step.target w.store ≡ some live
      → live.applied_seq ≡ none
      → plan_message read emit sleep confirm_attempts now step w.store ≡ planned m
      → ((j : ℕ) → read m.resource_id (sleeps sleep j (emit (m ∷ []) w.store)) ≡ some (shown m))
      → (m.sequence ≡ 0)
        × ((apply_step read emit sleep confirm_attempts now step w).0
            ≡ apply_raised (text_of never_reached))
  unfolding apply_step emit_and_confirm
  apply_step-zero step w live m there at h is_shown =
      let zero_ : m.sequence ≡ 0 =
        (plan_message-Says read emit sleep confirm_attempts now step w.store live m there h).1
        ∙ ap next_sequence at in
      (
        zero_,
        ap (λ p. (apply_planned read emit sleep confirm_attempts now step w p).0) h
            ∙ after_apply-false step m.sequence w.written _ (
                await_confirm-zero read emit sleep confirm_attempts now confirm_attempts m
                  (emit (m ∷ []) w.store) zero_ is_shown),
      )

  -- Where the store still shows what the step wrote, a rollback compensates.
  rollback_step-Restores :
      (i : Ingests read emit sleep confirm_attempts) (step : PlannedStep) (w : World S)
      (snapshot : Snapshot) (a : ℕ) (live : Snapshot) (m : UpdateMessage)
      → step.pre_state ≡ some snapshot
      → written_by step.step_id w.written ≡ some (a + 1)
      → read step.target w.store ≡ some live
      → live.applied_seq ≡ some (a + 1)
      → compensation read emit sleep confirm_attempts now step snapshot (a + 1) ≡ planned m
      → (w' : World S) × (rollback_step read emit sleep confirm_attempts now step w
          ≡ (restored, w'))
        × Restores snapshot (a + 2) (read step.target w'.store)
  unfolding rollback_step
  rollback_step-Restores i step w snapshot a live m pre mine there at h =
      let says = compensation-Says read emit sleep confirm_attempts now step snapshot (a + 1) m h in
      let ours =
        ap₂ (is_ours read emit sleep confirm_attempts now) mine there
        ∙ ap (λ o. is_exactly (or_absent o) (a + 1)) at
        ∙ is_exactly-itself (a + 1) (omega arith) in
      let landed =
        emit_and_confirm-lands read emit sleep confirm_attempts now i m w.store says.2
          (ap (is_above m) (ap (λ r. read r w.store) says.0 ∙ there)
            ∙ above_next m live (says.1 ∙ sym (ap next_sequence at)))
          (omega (arith, says.1)) in
      (
        record { store = landed.0; written = w.written },
        ap (rollback_to read emit sleep confirm_attempts now step w) pre
            ∙ ap
                (λ b.
                  if b
                  then compensate read emit sleep confirm_attempts now w (
                      compensation read emit sleep confirm_attempts now step snapshot (
                        or_first_written read emit sleep confirm_attempts now
                          (written_by step.step_id w.written)))
                  else (unrecoverable, w))
                ours
            ∙ ap (compensate read emit sleep confirm_attempts now w) (
                ap
                  (λ o.
                    compensation read emit sleep confirm_attempts now step snapshot
                      (or_first_written read emit sleep confirm_attempts now o))
                  mine
                ∙ h)
            ∙ ap (after_rollback read emit sleep confirm_attempts now w.written) landed.1,
        record {
          now_shown = shown m;
          is_live = ap (λ r. read r landed.0) (sym says.0) ∙ landed.2;
          same_deleted = says.3;
          same_payload = says.4;
          at = ap some (omega (arith, says.1));
        },
      )

  -- Where it shows anything else, or nothing, a rollback writes nothing.
  rollback_step-yields :
      (step : PlannedStep) (w : World S) (a : ℕ)
      → written_by step.step_id w.written ≡ some (a + 1)
      → ((live : Snapshot) → read step.target w.store ≡ some live → live.applied_seq ≢ some (a + 1))
      → rollback_step read emit sleep confirm_attempts now step w ≡ (unrecoverable, w)
  unfolding rollback_step
  rollback_step-yields step w a mine others = elim (Option-cases step.pre_state) [
    | inl e ↦ rw e
    | inr (snapshot, e) ↦ elim (Option-cases (read step.target w.store)) [
      | inl f ↦ rw (e, mine, f)
      | inr (live, f) ↦
          let theirs = is_exactly-other live.applied_seq (a + 1) (omega arith) (others live f) in
          rw (e, mine, f, theirs)
    ]
  ]

  seq-cases : (o : Option ℕ) (n : ℕ) → (o ≡ some n) ⊎ (o ≢ some n)
  seq-cases none n = inr (λ e. ground (arith, e))
  seq-cases (some a) n = elim (Bool-cases (a == n)) [
    | inl e ↦ inl (ap some ((==_iff a n).0 e))
    | inr e ↦ inr (λ f. ground (arith, some-inj a n f))
  ]

  -- Of a store that shows its target at a sequence, and that nobody else writes meanwhile, a step
  -- whose message is valid is applied, at the next sequence. Later, when the store shows `live`, its
  -- rollback, if the message that it would emit is valid too, ends as restored, and the store shows the snapshot from before the step again, two
  -- sequences on, if `live` is still at the sequence that the step wrote; otherwise it reports the
  -- step as irreversible, and the store is left as it is.
  pub apply_step-rollback_step :
      (i : Ingests read emit sleep confirm_attempts) (step : PlannedStep) (w later : World S)
      (snapshot live : Snapshot) (a : ℕ) (m m' : UpdateMessage)
      → step.pre_state ≡ some snapshot
      → read step.target w.store ≡ some snapshot
      → snapshot.applied_seq ≡ some a
      → plan_message read emit sleep confirm_attempts now step w.store ≡ planned m
      → compensation read emit sleep confirm_attempts now step snapshot (a + 1) ≡ planned m'
      → later.written ≡ (apply_step read emit sleep confirm_attempts now step w).1.written
      → read step.target later.store ≡ some live
      → ((apply_step read emit sleep confirm_attempts now step w).0 ≡ applied step.target)
        × (read step.target (apply_step read emit sleep confirm_attempts now step w).1.store
            ≡ some (shown m))
        × (((live.applied_seq ≡ some (a + 1))
              × ((w' : World S) × (rollback_step read emit sleep confirm_attempts now step later
                    ≡ (restored, w'))
                  × Restores snapshot (a + 2) (read step.target w'.store)))
            ⊎ ((live.applied_seq ≢ some (a + 1))
                × (rollback_step read emit sleep confirm_attempts now step later
                    ≡ (unrecoverable, later))))
  apply_step-rollback_step i step w later snapshot live a m m' pre there at h h' same now_live =
      let landed = apply_step-lands i step w snapshot a m there at h in
      let mine : written_by step.step_id ((step.step_id, a + 1) ∷ w.written) ≡ some (a + 1) =
        rw ((==_iff step.step_id step.step_id).1 refl) in
      let ours = ap (written_by step.step_id) (same ∙ ap (λ r. r.1.written) landed.1) ∙ mine in
      (
        ap (λ r. r.0) landed.1,
        ap (λ r. read step.target r.1.store) landed.1 ∙ landed.2,
        elim (seq-cases live.applied_seq (a + 1)) [
          | inl e ↦
              inl (e, rollback_step-Restores i step later snapshot a live m' pre ours now_live e h')
          | inr e ↦ inr (
            e,
            rollback_step-yields step later a ours (λ other f g. e (
                ap (λ (s : Snapshot). s.applied_seq) (some-inj live other (sym now_live ∙ f)) ∙ g)),
          )
        ],
      )
