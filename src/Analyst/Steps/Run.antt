-- ===== src/Analyst/Steps/Run.antt =====
-- A run of the step machine of src/resgraph/analyst/remediation.py ends, and how.
use resgraph.Prelude.{
  ℕ, suc, ◌+◌, ◌<◌, ◌≡◌, refl, sym, subst, ap, ◌∙◌, String, Bool, true, false, some, List, [], ◌∷◌,
  ◌++◌, append_assoc, append-nil, arith, length, ltb, ltb→lt, Bool-cases, inl, inr, ◌⊎◌,
}
use resgraph.Analyst.Steps.{
  started, succeeded, failed, cancelled, Events, RolledBack, Applied, applied, apply_raised, event,
  event_ref, event_error, StepEvent, unwind, execute_from, execute,
}
use resgraph.Analyst.Steps.Calls.{Undoes, Runs, all_applied, one_applied, one_raised, was_cancelled}
use resgraph.Analyst.Steps.Guards.{is_undone, Speaks}
use resgraph.Analyst.Steps.Unwound.{Rollback, Executed, unwind-Rollback}
use resgraph.Analyst.Steps.Forward.{
  shape, forward, Before, first, second, shape-tail, untouched_after,
}

-- No cancellation was seen in front of the first `k` steps.
abbrev pub NotCancelled : (ℕ → Bool) → ℕ → Type 0
NotCancelled cancelled_at k = (j : ℕ) → j < k → cancelled_at j ≡ false

-- How a run of `total` steps may end: each step applied; or cut at the step `k`, in front of which a
-- cancellation was seen or which failed, the steps in front of it rolled back.
abbrev pub Completed : ℕ → (ℕ → Bool) → Events → Type 0
Completed total cancelled_at es = (shape es ≡ forward total) × NotCancelled cancelled_at total

abbrev pub Stopped : (ℕ → Bool) → ℕ → Events → Events → Type 0
Stopped cancelled_at k tail es =
    ((cancelled_at k ≡ true) × (shape es ≡ forward k ++ ((k, cancelled) ∷ shape tail)))
    ⊎ ((cancelled_at k ≡ false)
        × (shape es ≡ forward k ++ ((k, started) ∷ (k, failed) ∷ shape tail)))

abbrev pub Ended : ℕ → (ℕ → Bool) → Events → Type 0
Ended total cancelled_at es =
    Completed total cancelled_at es
    ⊎ ((k : ℕ) × (tail : Events) × (k < total)
        × NotCancelled cancelled_at k
        × Rollback k tail
        × Stopped cancelled_at k tail es)

still_calm :
    (cancelled_at : ℕ → Bool) (i : ℕ)
    → NotCancelled cancelled_at i
    → cancelled_at i ≡ false
    → NotCancelled cancelled_at (i + 1)
still_calm cancelled_at i calm e j lt = elim (Bool-cases (ltb j i)) [
  | inl h ↦ calm j (ltb→lt j i h)
  | inr h ↦ let same : j ≡ i = ground (arith, lt) in ap cancelled_at same ∙ e
]

append_two :
    (es : Events) (d e : StepEvent) (tail : Events)
    → ((es ++ (d ∷ [])) ++ (e ∷ [])) ++ tail ≡ es ++ (d ∷ e ∷ tail)
append_two es d e tail =
    append_assoc (es ++ (d ∷ [])) (e ∷ []) tail ∙ append_assoc es (d ∷ []) (e ∷ tail)

Applied-cases :
    {W : Type 0} (r : Applied × W)
    → ((ref : String) × (w : W) × (r ≡ (applied ref, w)))
      ⊎ ((error : String) × (w : W) × (r ≡ (apply_raised error, w)))
Applied-cases (applied ref, w) = inl (ref, w, refl)
Applied-cases (apply_raised error, w) = inr (error, w, refl)

module _ {Step W : Type 0} (pre_state_is_known : Step → Bool) (apply : Step → W → Applied × W)
    (rollback : Step → W → RolledBack × W) (speaks : Speaks pre_state_is_known apply rollback) where
  -- The run that is cut at the step `k`, in front of the unwinding.
  cut :
      (total k : ℕ) (cancelled_at : ℕ → Bool) (executed : List (ℕ × Step)) (es front : Events)
      (w : W)
      → length executed ≡ k
      → k < total
      → Executed executed
      → NotCancelled cancelled_at k
      → ((j : ℕ) → is_undone j front ≡ false)
      → ((tail : Events) → Stopped cancelled_at k tail (front ++ tail))
      → (es' : Events) × (w' : W) × (unwind pre_state_is_known apply rollback total executed front w
          ≡ some (es', w'))
        × Ended total cancelled_at es'
        × ((tail : Events) × (es' ≡ front ++ tail)
            × Undoes pre_state_is_known apply rollback executed w tail w')
  cut total k cancelled_at executed es front w len lt ex calm none_undone stopped =
      let u =
        unwind-Rollback pre_state_is_known apply rollback speaks total executed front w
          (omega (arith, len, lt)) ex (λ j _. none_undone j) in
      (
        front ++ u.0,
        u.1,
        u.2,
        inr (k, u.0, lt, calm, subst (λ n. Rollback n u.0) len u.3, stopped u.0),
        (u.0, refl, u.4),
      )

  ends_from :
      (total i : ℕ) (cancelled_at : ℕ → Bool) (steps : List Step) (executed : List (ℕ × Step))
      (es : Events) (w : W)
      → length executed ≡ i
      → i + length steps ≡ total
      → Executed executed
      → NotCancelled cancelled_at i
      → Before i es
      → (es' : Events) × (w' : W) × (execute_from pre_state_is_known apply rollback total
            cancelled_at i steps executed es w
          ≡ some (es', w'))
        × Ended total cancelled_at es'
        × ((new : Events) × (es' ≡ es ++ new)
            × Runs pre_state_is_known apply rollback cancelled_at i steps executed w new w')
  unfolding execute_from
  ends_from total i cancelled_at [] executed es w len sum ex calm b =
      let finished : i ≡ total = omega (arith, sum) in
      (
        es,
        w,
        refl,
        inl (b.applied_so_far ∙ ap forward finished, λ j lt. calm j (omega (arith, finished, lt))),
        ([], sym (append-nil es), all_applied i executed w),
      )
  ends_from total i cancelled_at (step ∷ steps) executed es w len sum ex calm b =
      let lt : i < total = omega (arith, sum) in
      let next : suc i ≡ i + 1 = omega arith in
      elim (Bool-cases (cancelled_at i)) [
        | inl e ↦
            let f = first total i cancelled es lt refl b in
            let c =
              cut total i cancelled_at executed es (es ++ (event i cancelled ∷ [])) w len lt ex calm
                f.1
                (λ tail. inl (
                  e,
                  shape-tail (es ++ (event i cancelled ∷ [])) tail (forward i) ((i, cancelled) ∷ [])
                      f.3,
                )) in
            (
              c.0,
              c.1,
              rw (e, f.0, c.2),
              c.3,
              (
                event i cancelled ∷ c.4.0,
                c.4.1 ∙ append_assoc es (event i cancelled ∷ []) c.4.0,
                was_cancelled i step steps executed w c.1 c.4.0 e c.4.2,
              ),
            )
        | inr e ↦
            let f = first total i started es lt refl b in
            elim (Applied-cases (apply step w)) [
              | inl (ref, w', r) ↦
                  let g =
                    second total i (event_ref i succeeded ref) (es ++ (event i started ∷ [])) lt
                      refl refl f.1 f.2 f.3 in
                  let rest =
                    ends_from total (i + 1) cancelled_at steps ((i, step) ∷ executed)
                      ((es ++ (event i started ∷ [])) ++ (event_ref i succeeded ref ∷ [])) w'
                      (omega (arith, len)) (omega (arith, sum)) (sym len, ex)
                      (still_calm cancelled_at i calm e)
                      (record {
                        applied_so_far = g.2 ∙ ap forward next;
                        none_undone = g.1;
                        untouched = λ j le.
                            untouched_after i j es _ _ refl refl le
                              (b.untouched j (omega (arith, le)));
                      }) in
                  (
                    rest.0,
                    rest.1,
                    rw (e, f.0, r, g.0, rest.2),
                    rest.3,
                    (
                      event i started ∷ event_ref i succeeded ref ∷ rest.4.0,
                      rest.4.1
                          ∙ append_two es (event i started) (event_ref i succeeded ref) rest.4.0,
                      one_applied i step steps executed w w' rest.1 rest.4.0 ref e r rest.4.2,
                    ),
                  )
              | inr (error, w', r) ↦
                  let g =
                    second total i (event_error i failed error) (es ++ (event i started ∷ [])) lt
                      refl refl f.1 f.2 f.3 in
                  let c =
                    cut total i cancelled_at executed es
                      ((es ++ (event i started ∷ [])) ++ (event_error i failed error ∷ [])) w' len
                      lt ex calm g.1
                      (λ tail.
                        inr (
                          e,
                          shape-tail _ tail (forward i) ((i, started) ∷ (i, failed) ∷ []) g.2,
                        )) in
                  (
                    c.0,
                    c.1,
                    rw (e, f.0, r, g.0, c.2),
                    c.3,
                    (
                      event i started ∷ event_error i failed error ∷ c.4.0,
                      c.4.1 ∙ append_two es (event i started) (event_error i failed error) c.4.0,
                      one_raised i step steps executed w w' c.1 c.4.0 error e r c.4.2,
                    ),
                  )
            ]
      ]

  ends_from_start :
      (cancelled_at : ℕ → Bool) (steps : List Step) (w : W)
      → (es : Events) × (w' : W) × (execute_from pre_state_is_known apply rollback
            (length steps)
            cancelled_at
            0
            steps
            []
            []
            w
          ≡ some (es, w'))
        × Ended (length steps) cancelled_at es
        × ((new : Events) × (es ≡ new)
            × Runs pre_state_is_known apply rollback cancelled_at 0 steps [] w new w')
  ends_from_start cancelled_at steps w =
      ends_from (length steps) 0 cancelled_at steps [] [] w (omega arith) (omega arith) tt
        (λ j lt. absurd (omega (arith, lt)))
        (record { applied_so_far = refl; none_undone = λ j. refl; untouched = λ j _. refl })

  -- A run ends, whatever is cancelled, applied or rolled back: no guard of `_emit` stops it. It makes
  -- the calls that `Runs` says, in the worlds that it says: each step is applied in turn, in the world
  -- that the one before it has left, until a cancellation is seen or a step fails; from that world on,
  -- each step that was applied and whose state from before is known is rolled back by one call, the
  -- latest first; and the events tell the outcome of each call, with its reference or error. Either
  -- each step reports that it was started and succeeded and no cancellation was seen; or the run is cut
  -- at a step `k`, in front of which a cancellation was seen or which was started and failed, no step
  -- behind `k` reports anything, and the steps `k - 1, …, 0`, which succeeded, each report the end of
  -- their rollback once, in this order. The condition: a rollback that raises has a text.
  pub execute-Ended :
      (cancelled_at : ℕ → Bool) (steps : List Step) (w : W)
      → (es : Events) × (w' : W) × (execute pre_state_is_known apply rollback cancelled_at steps w
          ≡ some (es, w'))
        × Ended (length steps) cancelled_at es
        × Runs pre_state_is_known apply rollback cancelled_at 0 steps [] w es w'
  unfolding execute
  execute-Ended cancelled_at steps w =
      let r = ends_from_start cancelled_at steps w in
      (
        r.0,
        r.1,
        r.2,
        r.3,
        subst (λ es. Runs pre_state_is_known apply rollback cancelled_at 0 steps [] w es r.1)
            (sym r.4.1) r.4.2,
      )
