-- ===== src/Analyst/Steps/Forward.antt =====
-- The forward events of the step machine of src/resgraph/analyst/remediation.py: the guards let the
-- first and the second event of a step through.
use resgraph.Prelude.{
  ℕ, zero, suc, ◌+◌, ◌<◌, ◌≤◌, ◌≡◌, refl, ap, ap₂, ◌∙◌, true, false, not, some, List, [], ◌∷◌, ◌++◌,
  arith, map, append_assoc, map-append,
}
use resgraph.Analyst.Steps.{
  StepStatus, started, succeeded, failed, rolled_back, rolled_back_failed, irreversible, cancelled,
  is_terminal_forward, is_terminal_rollback, StepEvent, Events, statuses_at, is_second, needs_error,
  emit, event,
}
use resgraph.Analyst.Steps.Guards.{
  is_undone, is_undone-append, statuses_at-other, statuses_at-same, emit-some,
}
use resgraph.Analyst.Steps.Unwound.{status_of, index_of}

abbrev pub shape : Events → List (ℕ × StepStatus)
shape es = map (λ e. (index_of e, status_of e)) es

-- What the first `n` steps report, each of them applied.
abbrev pub forward : ℕ → List (ℕ × StepStatus)
forward zero = []
forward (suc n) = forward n ++ ((n, started) ∷ (n, succeeded) ∷ [])

-- The state of the loop at index `i`.
pub record Before (i : ℕ) (es : Events) : Type 0 where
  pub applied_so_far : shape es ≡ forward i
  pub none_undone : (j : ℕ) → is_undone j es ≡ false
  pub untouched : (j : ℕ) → i ≤ j → statuses_at j es ≡ []

needs_no_error : (s : StepStatus) → is_terminal_rollback s ≡ false → not (needs_error s) ≡ true
needs_no_error started h = refl
needs_no_error succeeded h = refl
needs_no_error failed h = refl
needs_no_error cancelled h = refl
needs_no_error rolled_back h = ground arith
needs_no_error rolled_back_failed h = ground arith
needs_no_error irreversible h = ground arith

is_terminal-forward :
    (s : StepStatus) → is_terminal_forward s ≡ true → is_terminal_rollback s ≡ false
is_terminal-forward succeeded h = refl
is_terminal-forward failed h = refl
is_terminal-forward cancelled h = refl
is_terminal-forward started h = refl
is_terminal-forward rolled_back h = ground arith
is_terminal-forward rolled_back_failed h = ground arith
is_terminal-forward irreversible h = ground arith

is_second-forward :
    (s : StepStatus) → is_terminal_forward s ≡ true → is_second s (started ∷ []) ≡ false
is_second-forward succeeded h = refl
is_second-forward failed h = refl
is_second-forward cancelled h = refl
is_second-forward started h = ground arith
is_second-forward rolled_back h = refl
is_second-forward rolled_back_failed h = refl
is_second-forward irreversible h = refl

-- A forward event, if the guards let it through, is no report of a rollback.
push :
    (total : ℕ) (e : StepEvent) (es : Events)
    → is_second e.status (statuses_at e.step_index es) ≡ false
    → e.step_index < total
    → is_terminal_rollback e.status ≡ false
    → (emit total e es ≡ some (es ++ (e ∷ [])))
      × ((j : ℕ) → is_undone j es ≡ false → is_undone j (es ++ (e ∷ [])) ≡ false)
push total e es guard lt forwards = (
  emit-some total e es guard lt (ground (arith, needs_no_error e.status forwards)),
  λ j h. is_undone-append j es e (ground arith) ∙ h,
)

-- The first event of step `i`.
pub first :
    (total i : ℕ) (s : StepStatus) (es : Events)
    → i < total
    → is_terminal_rollback s ≡ false
    → Before i es
    → (emit total (event i s) es ≡ some (es ++ (event i s ∷ [])))
      × ((j : ℕ) → is_undone j (es ++ (event i s ∷ [])) ≡ false)
      × (statuses_at i (es ++ (event i s ∷ [])) ≡ s ∷ [])
      × (shape (es ++ (event i s ∷ [])) ≡ forward i ++ ((i, s) ∷ []))
first total i s es lt forwards b =
    let untouched = b.untouched i (omega arith) in
    let p = push total (event i s) es (ground arith) lt forwards in
    (
      p.0,
      λ j. p.1 j (b.none_undone j),
      statuses_at-same es (event i s) untouched,
      map-append _ es (event i s ∷ []) ∙ ap (λ l. l ++ ((i, s) ∷ [])) b.applied_so_far,
    )

-- The second event of step `i`, which was started.
pub second :
    (total i : ℕ) (e : StepEvent) (es : Events)
    → i < total
    → e.step_index ≡ i
    → is_terminal_forward e.status ≡ true
    → ((j : ℕ) → is_undone j es ≡ false)
    → statuses_at i es ≡ started ∷ []
    → shape es ≡ forward i ++ ((i, started) ∷ [])
    → (emit total e es ≡ some (es ++ (e ∷ [])))
      × ((j : ℕ) → is_undone j (es ++ (e ∷ [])) ≡ false)
      × (shape (es ++ (e ∷ [])) ≡ forward i ++ ((i, started) ∷ (i, e.status) ∷ []))
second total i e es lt at_i ends none_undone opened shaped =
    let guard =
      ap (is_second e.status) (ap (λ k. statuses_at k es) at_i ∙ opened)
      ∙ is_second-forward e.status ends in
    let p = push total e es guard (omega (arith, lt, at_i)) (is_terminal-forward e.status ends) in
    (
      p.0,
      λ j. p.1 j (none_undone j),
      map-append _ es (e ∷ [])
          ∙ ap₂ (λ l k. l ++ ((k, e.status) ∷ [])) shaped at_i
          ∙ append_assoc (forward i) ((i, started) ∷ []) ((i, e.status) ∷ []),
    )

pub shape-tail :
    (es tail : Events) (front middle : List (ℕ × StepStatus))
    → shape es ≡ front ++ middle
    → shape (es ++ tail) ≡ front ++ (middle ++ shape tail)
shape-tail es tail front middle h =
    map-append _ es tail ∙ ap (λ l. l ++ shape tail) h ∙ append_assoc front middle (shape tail)

-- Two events of step `i` leave the later steps untouched.
pub untouched_after :
    (i j : ℕ) (es : Events) (d e : StepEvent)
    → d.step_index ≡ i
    → e.step_index ≡ i
    → i + 1 ≤ j
    → statuses_at j es ≡ []
    → statuses_at j ((es ++ (d ∷ [])) ++ (e ∷ [])) ≡ []
untouched_after i j es d e at_d at_e le h =
    statuses_at-other j (es ++ (d ∷ [])) e (ground (arith, at_e, le))
      (statuses_at-other j es d (ground (arith, at_d, le)) h)
