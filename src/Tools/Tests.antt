-- ===== src/Tools/Tests.antt =====
-- Witnesses of the pages.
use resgraph.Prelude.{ℕ, ◌≡◌, Bool, some, List, [], ◌∷◌, drop, arith, length, ltb}
use resgraph.Tools.Budgets.Pages.{read_from, read_from-items}

-- A page of three is over the cap.
abbrev over_two : List ℕ → Bool
over_two page = ltb 2 (length page)

abbrev five_items : List ℕ
five_items = 1 ∷ 2 ∷ 3 ∷ 4 ∷ 5 ∷ []

read_from-items_example : read_from over_two 5 6 five_items 0 ≡ some (drop 0 five_items)
read_from-items_example = read_from-items over_two 5 6 five_items 0 (omega arith) (omega arith)
