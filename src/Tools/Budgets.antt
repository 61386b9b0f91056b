-- ===== src/Tools/Budgets.antt =====
-- `paginate` of src/resgraph/tools/budgets.py. `over_cap` is the estimate of a page's tokens against
-- the cap; the hint is the offset that it names.
pub mod Pages
use resgraph.Prelude.{
  ℕ, zero, suc, ◌+◌, ◌-◌, ◌*◌, ◌/◌, max, Bool, true, false, not, ◌&&◌, Option, none, some, List, [],
  ◌∷◌, ◌++◌, length, take, drop, ltb, ◌==◌, if◌then◌else◌,
}

pub record Page (A : Type 0) : Type 0 where
  pub page : List A
  pub truncated : Bool
  pub next_offset : Option ℕ
  pub total : ℕ

module _ {A : Type 0} (over_cap : List A → Bool) where
  abbrev pub is_full : List A → Bool
  is_full [] = false
  is_full (x ∷ xs) = true

  -- `page[: max(1, len(page) * 3 // 4)]`
  abbrev pub cut : List A → List A
  cut page = take (max 1 (length page * 3 / 4)) page

  -- The loop that cuts the page, on fuel: `none` where that runs out.
  unfoldable pub shrink : ℕ → List A → Option (List A)
  shrink zero page = none
  shrink (suc n) page =
      let rest = shrink n (cut page) in
      if is_full page && over_cap page
      then (if length (cut page) == 1 then some (cut page) else rest)
      else some page

  abbrev pub page_at : List A → ℕ → List A → Page A
  page_at items offset page =
      let truncated = ltb (offset + length page) (length items) in
      record {
        page = page;
        truncated = truncated;
        next_offset = if truncated then some (offset + length page) else none;
        total = length items;
      }

  abbrev pub map_page : List A → ℕ → Option (List A) → Option (Page A)
  map_page items offset none = none
  map_page items offset (some page) = some (page_at items offset page)

  -- `paginate`; an offset below zero is zero.
  unfoldable pub paginate : ℕ → List A → ℕ → Option (Page A)
  unfolding shrink
  paginate fuel items offset = map_page items offset (shrink fuel (drop offset items))
