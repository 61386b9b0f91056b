-- ===== src/Analyst/Approval.antt =====
-- The approval gate of src/resgraph/analyst/approval.py, over the approver's answers: what is read of
-- an answer, its text stripped and in lower case, is what the loop tests of it. The plan's hash, the
-- echoed texts and the two timestamps of the decision other than its expiry are left out.
pub mod Counted
use resgraph.Prelude.{
  ℕ, zero, suc, ◌+◌, ◌-◌, Bool, true, false, not, ◌&&◌, ◌||◌, Option, none, some, List, [], ◌∷◌,
  ◌++◌, length, filter, any, ◌==◌, leb, if◌then◌else◌,
}

-- `no`; `skip` and a tail, with its number where it has digits only; digits; anything else.
pub data Answer : Type 0 where
  refuse : Answer
  skip : (tail : Option ℕ) → Answer
  digits : (n : ℕ) → Answer
  other : Answer

pub record Decision : Type 0 where
  pub approved : Bool
  pub applied : List ℕ
  pub skipped : List ℕ

-- `range(n)`
abbrev pub range : ℕ → List ℕ
range zero = []
range (suc n) = range n ++ (n ∷ [])

abbrev pub is_in : ℕ → List ℕ → Bool
is_in i xs = any (λ j. i == j) xs

-- `skipped.add(i)`
abbrev pub add_to : ℕ → List ℕ → List ℕ
add_to i xs = if is_in i xs then xs else i ∷ xs

-- `tuple(i for i in range(len(plan)) if i not in skipped)`
abbrev pub kept : ℕ → List ℕ → List ℕ
kept total skipped = filter (λ i. not (is_in i skipped)) (range total)

abbrev pub decide : ℕ → List ℕ → Bool → Decision
decide total skipped approved = record {
  approved = approved;
  applied = if approved then kept total skipped else [];
  skipped = skipped;
}

-- What one answer does: a decision, or the steps that are skipped from here on.
pub data Turn : Type 0 where
  decided : (d : Decision) → Turn
  again : (skipped : List ℕ) → Turn

abbrev pub skip_step : ℕ → ℕ → List ℕ → Turn
skip_step total number skipped =
    if not (leb 1 number && leb number total)
    then again skipped
    else let skipped' = add_to (number - 1) skipped in
      if length skipped' == total then decided (decide total skipped' false) else again skipped'

unfoldable pub turn : ℕ → List ℕ → Answer → Turn
turn total skipped refuse = decided (decide total skipped false)
turn total skipped (skip none) = again skipped
turn total skipped (skip (some number)) = skip_step total number skipped
turn total skipped (digits n) =
    if n == (total - length skipped) then decided (decide total skipped true) else again skipped
turn total skipped other = again skipped

abbrev pub go_on : Turn → (List ℕ → Option Decision) → Option Decision
go_on (decided d) next = some d
go_on (again skipped) next = next skipped

-- `approve_plan`, over the answers that are given; `none` where they end without a decision.
unfoldable pub approve_from : ℕ → List ℕ → List Answer → Option Decision
unfolding turn
approve_from total skipped [] = none
approve_from total skipped (a ∷ answers) =
    go_on (turn total skipped a) (λ skipped'. approve_from total skipped' answers)

unfoldable pub approve_plan : ℕ → List Answer → Option Decision
unfolding approve_from
approve_plan total answers = approve_from total [] answers

-- `expires_at`: an approval without a time to live has none.
abbrev pub expires_at : ℕ → Option ℕ → Option ℕ
expires_at decided_at none = none
expires_at decided_at (some ttl) = some (decided_at + ttl)
