-- ===== src/Analyst/Approval/Counted.antt =====
-- The typed count of src/resgraph/analyst/approval.py is the number of steps that are applied.
use resgraph.Prelude.{
  ℕ, zero, suc, ◌+◌, ◌-◌, ◌<◌, ◌≡◌, ◌↔◌, refl, sym, subst, ap, ◌∙◌, Bool, true, false, not, ◌&&◌,
  Option, none, some, List, [], ◌∷◌, ◌++◌, length, filter, filter-append, length-append, In,
  In-filter, In-append_left, In-append_right, In-append_cases, ◌==◌, ==_iff, leb, ltb,
  if◌then◌else◌, arith, Bool-cases, inl, inr, ◌⊎◌,
}
use resgraph.Analyst.Approval.{
  Answer, refuse, skip, digits, other, Decision, range, is_in, add_to, kept, decide, Turn, decided,
  again, skip_step, turn, approve_from, approve_plan,
}

-- The skipped steps: each of them a step of the plan, and none twice.
abbrev pub IsSkipped : ℕ → List ℕ → Type 0
IsSkipped total [] = Unit
IsSkipped total (i ∷ is) = (i < total) × (is_in i is ≡ false) × IsSkipped total is

kept-suc :
    (is : List ℕ) (n : ℕ)
    → length (kept (suc n) is) ≡ length (kept n is) + (if is_in n is then 0 else 1)
kept-suc is n = ground (
  arith,
  filter-append (λ j. not (is_in j is)) (range n) (n ∷ []),
  length-append (kept n is) (filter (λ j. not (is_in j is)) (n ∷ [])),
)

-- One step more that is skipped is one step less that is kept.
kept_cons :
    (i : ℕ) (is : List ℕ) (n : ℕ)
    → is_in i is ≡ false
    → length (kept n (i ∷ is)) + (if ltb i n then 1 else 0) ≡ length (kept n is)
kept_cons i is zero h = ground arith
kept_cons i is (suc n) h = elim (Bool-cases (n == i)) [
  | inl e ↦
      let same : is_in n is ≡ false = ap (λ k. is_in k is) ((==_iff n i).0 e) ∙ h in
      ground (arith, kept_cons i is n h, kept-suc is n, kept-suc (i ∷ is) n)
  | inr e ↦ ground (arith, kept_cons i is n h, kept-suc is n, kept-suc (i ∷ is) n)
]

pub length-kept :
    (total : ℕ) (is : List ℕ) → IsSkipped total is → length (kept total is) + length is ≡ total
length-kept zero [] h = omega arith
length-kept (suc n) [] h = omega (arith, length-kept n [] tt, kept-suc [] n)
length-kept total (i ∷ is) h =
    ground (arith, kept_cons i is total h.1, length-kept total is h.2, h.0)

In-range : (i total : ℕ) → In i (range total) ↔ (i < total)
In-range i zero = (λ h. absurd h, λ h. absurd (omega (arith, h)))
In-range i (suc n) = (
  λ h. elim (In-append_cases i (range n) (n ∷ []) h) [
    | inl k ↦ omega (arith, (In-range i n).0 k)
    | inr (inl e) ↦ omega (arith, e)
    | inr (inr k) ↦ absurd k
  ],
  λ h. elim (Bool-cases (i == n)) [
    | inl e ↦ In-append_right i (range n) (n ∷ []) (inl ((==_iff i n).0 e))
    | inr e ↦ In-append_left i (range n) (n ∷ []) ((In-range i n).1 (ground (arith, h)))
  ],
)

In-kept : (total i : ℕ) (is : List ℕ) → In i (kept total is) ↔ ((i < total) × (is_in i is ≡ false))
In-kept total i is = (
  λ h.
      let k = (In-filter (λ j. not (is_in j is)) i (range total)).0 h in
      ((In-range i total).0 k.0, ground (arith, k.1)),
  λ h. (In-filter (λ j. not (is_in j is)) i (range total)).1 ((In-range i total).1 h.0, rw h.1),
)

-- What a decision says: the skipped steps are steps of the plan, and the applied ones are the others
-- where it approves and none where it refuses.
pub record Decides (total : ℕ) (d : Decision) : Type 0 where
  pub skips_once : IsSkipped total d.skipped
  pub applies :
      (i : ℕ) → In i d.applied ↔ ((d.approved ≡ true) × (i < total) × (is_in i d.skipped ≡ false))

add_to-IsSkipped :
    (total i : ℕ) (is : List ℕ) → i < total → IsSkipped total is → IsSkipped total (add_to i is)
add_to-IsSkipped total i is lt h = elim (Bool-cases (is_in i is)) [
  | inl e ↦ rw e h
  | inr e ↦ rw e (lt, e, h)
]

decide-Decides :
    (total : ℕ) (is : List ℕ) (approved : Bool)
    → IsSkipped total is
    → Decides total (decide total is approved)
decide-Decides total is true h = record {
  skips_once = h;
  applies = λ i. (
    λ k. (refl, ((In-kept total i is).0 k).0, ((In-kept total i is).0 k).1),
    λ k. (In-kept total i is).1 (k.1, k.2),
  );
}
decide-Decides total is false h = record {
  skips_once = h;
  applies = λ i. (λ k. absurd k, λ k. absurd (ground (arith, k.0)));
}

-- What was typed: where the decision approves, the number of the steps that are applied.
abbrev pub IsTyped : Answer → Decision → Type 0
IsTyped a d = ((d.approved ≡ true) × (a ≡ digits (length d.applied))) ⊎ (d.approved ≡ false)

-- What one turn leaves.
abbrev pub TurnHolds : ℕ → Answer → Turn → Type 0
TurnHolds total a (decided d) = Decides total d × IsTyped a d
TurnHolds total a (again is) = IsSkipped total is

refused :
    (total : ℕ) (a : Answer) (is : List ℕ)
    → IsSkipped total is
    → TurnHolds total a (decided (decide total is false))
refused total a is h = (decide-Decides total is false h, inr refl)

skip_step-TurnHolds :
    (total number : ℕ) (is : List ℕ) (a : Answer)
    → IsSkipped total is
    → TurnHolds total a (skip_step total number is)
skip_step-TurnHolds total number is a h = elim (Bool-cases (leb 1 number && leb number total)) [
  | inr e ↦ rw e h
  | inl e ↦
      let lt : number - 1 < total = ground arith in
      let added = add_to-IsSkipped total (number - 1) is lt h in
      elim (Bool-cases (length (add_to (number - 1) is) == total)) [
        | inl f ↦ rw (e, f) (refused total a (add_to (number - 1) is) added)
        | inr f ↦ rw (e, f) added
      ]
]

turn-TurnHolds :
    (total : ℕ) (is : List ℕ) (a : Answer)
    → IsSkipped total is
    → TurnHolds total a (turn total is a)
unfolding turn
turn-TurnHolds total is refuse h = refused total refuse is h
turn-TurnHolds total is (skip none) h = h
turn-TurnHolds total is (skip (some number)) h =
    skip_step-TurnHolds total number is (skip (some number)) h
turn-TurnHolds total is other h = h
turn-TurnHolds total is (digits n) h = elim (Bool-cases (n == (total - length is))) [
  | inl e ↦
      let counted : n ≡ length (kept total is) =
        omega (arith, (==_iff n (total - length is)).0 e, length-kept total is h) in
      rw e (decide-Decides total is true h, inl (refl, ap digits counted))
  | inr e ↦ rw e h
]

Turn-cases : (t : Turn) → ((d : Decision) × (t ≡ decided d)) ⊎ ((is : List ℕ) × (t ≡ again is))
Turn-cases (decided d) = inl (d, refl)
Turn-cases (again is) = inr (is, refl)

abbrev or_default {ℓ} : {A : Type ℓ} → A → Option A → A
or_default x none = x
or_default x (some y) = y

-- How the gate ends: the answers up to the one that decides, and what is decided.
abbrev pub Approved : ℕ → List Answer → Decision → Type 0
Approved total answers d =
    (before : List Answer) × (a : Answer) × (rest : List Answer) × (answers ≡ before ++ (a ∷ rest))
    × Decides total d
    × IsTyped a d

approve_from-Approved :
    (total : ℕ) (is : List ℕ) (answers : List Answer) (d : Decision)
    → IsSkipped total is
    → approve_from total is answers ≡ some d
    → Approved total answers d
unfolding approve_from
approve_from-Approved total is [] d h e = absurd (ground arith)
approve_from-Approved total is (a ∷ answers) d h e = elim (Turn-cases (turn total is a)) [
  | inl (d', t) ↦
      let same : d' ≡ d = ap (or_default d') (rw t at e) in
      let k = subst (TurnHolds total a) t (turn-TurnHolds total is a h) in
      ([], a, answers, refl, subst (Decides total) same k.0, subst (IsTyped a) same k.1)
  | inr (is', t) ↦
      let rest =
        approve_from-Approved total is' answers d
          (subst (TurnHolds total a) t (turn-TurnHolds total is a h)) (rw t at e) in
      (a ∷ rest.0, rest.1, rest.2, ap (λ l. a ∷ l) rest.3, rest.4, rest.5)
]

approve_from-refuse :
    (total : ℕ) (is : List ℕ) (answers : List Answer)
    → In refuse answers
    → (d : Decision) × (approve_from total is answers ≡ some d)
unfolding approve_from turn
approve_from-refuse total is [] h = absurd h
approve_from-refuse total is (a ∷ answers) (inl e) =
    (decide total is false, ap (λ b. approve_from total is (b ∷ answers)) (sym e))
approve_from-refuse total is (a ∷ answers) (inr h) = elim (Turn-cases (turn total is a)) [
  | inl (d, t) ↦ (d, rw t)
  | inr (is', t) ↦ let rest = approve_from-refuse total is' answers h in (rest.0, rw t rest.1)
]

-- Whatever the approver answers, and `no` in the end, there is a decision, at the latest then. It comes
-- of one answer; it skips steps of the plan, each once; it approves, and applies exactly the other
-- steps, and that answer is their number, or it refuses and applies none.
pub approve_plan-Approved :
    (total : ℕ) (answers : List Answer)
    → (d : Decision) × (approve_plan total (answers ++ (refuse ∷ [])) ≡ some d)
      × Approved total (answers ++ (refuse ∷ [])) d
unfolding approve_plan
approve_plan-Approved total answers =
    let r =
      approve_from-refuse total [] (answers ++ (refuse ∷ []))
        (In-append_right refuse answers (refuse ∷ []) (inl refl)) in
    (r.0, r.1, approve_from-Approved total [] (answers ++ (refuse ∷ [])) r.0 tt r.1)
