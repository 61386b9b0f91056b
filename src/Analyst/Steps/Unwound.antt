-- ===== src/Analyst/Steps/Unwound.antt =====
-- A run of the step machine of src/resgraph/analyst/remediation.py ends, and how.
use resgraph.Prelude.{
  ℕ, zero, suc, ◌<◌, ◌≤◌, ◌≡◌, refl, sym, ap, ap₂, ◌∙◌, Bool, true, false, some, List, [], ◌∷◌,
  ◌++◌, arith, all, map, length, append_assoc, append-nil,
}
use resgraph.Analyst.Steps.{
  StepStatus, started, succeeded, is_terminal_rollback, StepEvent, Events, statuses_at, RolledBack,
  Applied, emit, undo, unwind,
}
use resgraph.Analyst.Steps.Calls.{Undoes, none_left, undo-Undoes}
use resgraph.Analyst.Steps.Guards.{
  is_undone, is_undone-append, emit-some, is_second-rollback, Reports, Speaks, undo-Reports,
}

abbrev pub status_of : StepEvent → StepStatus
status_of e = e.status

abbrev pub index_of : StepEvent → ℕ
index_of e = e.step_index

abbrev pub shape : Events → List (ℕ × StepStatus)
shape es = map (λ e. (index_of e, status_of e)) es

-- `n - 1, …, 0`
abbrev pub down : ℕ → List ℕ
down zero = []
down (suc n) = n ∷ down n

-- What the first `n` steps report, each of them applied.
abbrev pub forward : ℕ → List (ℕ × StepStatus)
forward zero = []
forward (suc n) = forward n ++ ((n, started) ∷ (n, succeeded) ∷ [])

-- The rollback of the steps `n - 1, …, 0`: one report for each, in this order.
pub record Rollback (n : ℕ) (es : Events) : Type 0 where
  pub each : map index_of es ≡ down n
  pub only : all (λ e. is_terminal_rollback (status_of e)) es ≡ true

-- `_emit` lets the report of a step through that has none yet.
emit-Reports :
    (total i : ℕ) (e : StepEvent) (es : Events)
    → Reports i e
    → i < total
    → is_undone i es ≡ false
    → emit total e es ≡ some (es ++ (e ∷ []))
emit-Reports total i e es r lt h =
    emit-some total e es
      (is_second-rollback e.status (statuses_at e.step_index es) r.is_rollback
        ∙ ap (λ k. is_undone k es) r.same_index
        ∙ h)
      (omega (arith, lt, r.same_index)) r.error_given

module _ {Step : Type 0} where
  -- The steps `n - 1, …, 0`, as `executed` holds them.
  abbrev pub Executed : List (ℕ × Step) → Type 0
  Executed [] = Unit
  Executed ((i, step) ∷ earlier) = (i ≡ length earlier) × Executed earlier

abbrev pub NoneUndone : ℕ → Events → Type 0
NoneUndone n es = (j : ℕ) → j < n → is_undone j es ≡ false

module _ {Step W : Type 0} (pre_state_is_known : Step → Bool) (apply : Step → W → Applied × W)
    (rollback : Step → W → RolledBack × W) where
  pub unwind-Rollback :
      Speaks pre_state_is_known apply rollback
      → (total : ℕ) (executed : List (ℕ × Step)) (es : Events) (w : W) → length executed ≤ total
      → Executed executed
      → NoneUndone (length executed) es
      → (tail : Events) × (w' : W) × (unwind pre_state_is_known apply rollback total executed es w
          ≡ some (es ++ tail, w'))
        × Rollback (length executed) tail
        × Undoes pre_state_is_known apply rollback executed w tail w'
  unfolding unwind
  unwind-Rollback speaks total [] es w le ex fresh = (
    [],
    w,
    ap (λ u. some (u, w)) (sym (append-nil es)),
    record { each = refl; only = refl },
    none_left w,
  )
  unwind-Rollback speaks total ((i, step) ∷ earlier) es w le ex fresh =
      let u = undo pre_state_is_known apply rollback i step w in
      let e = u.0 in
      let r = undo-Reports pre_state_is_known apply rollback speaks i step w in
      let emitted =
        emit-Reports total i e es r (omega (arith, le, ex.0)) (fresh i (omega (arith, ex.0))) in
      let rest =
        unwind-Rollback speaks total earlier (es ++ (e ∷ [])) u.1 (omega (arith, le)) ex.1 (λ j lt.
          is_undone-append j es e (ground (arith, lt, r.same_index, ex.0))
          ∙ fresh j (omega (arith, lt))) in
      (
        e ∷ rest.0,
        rest.1,
        rw (emitted, rest.2, append_assoc),
        record {
          each = ap₂ (λ x xs. x ∷ xs) (r.same_index ∙ ex.0) rest.3.each;
          only = rw (r.is_rollback, rest.3.only);
        },
        undo-Undoes pre_state_is_known apply rollback i step earlier w rest.1 rest.0 rest.4,
      )
