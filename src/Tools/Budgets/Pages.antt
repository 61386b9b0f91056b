-- ===== src/Tools/Budgets/Pages.antt =====
-- The pages of src/resgraph/tools/budgets.py, followed by their hints, are the whole of the items.
use resgraph.Prelude.{
  ℕ, zero, suc, ◌+◌, ◌*◌, ◌/◌, ◌≤◌, ◌<◌, ◌≡◌, refl, sym, ap, ◌∙◌, max, Bool, true, false, ◌&&◌,
  Option, none, some, List, [], ◌∷◌, ◌++◌, length, drop, ltb, ltb→lt, ◌==◌, arith, and_left,
  append_assoc, append-nil, length-append, length-take, length-drop, take-append-drop, Bool-cases,
  inl, inr,
}
use resgraph.Tools.Budgets.{Page, is_full, cut, shrink, paginate}

drop_nil : {A : Type 0} (n : ℕ) → drop {A = A} n [] ≡ []
drop_nil zero = refl
drop_nil (suc n) = refl

drop-drop : {A : Type 0} (a b : ℕ) (xs : List A) → drop (a + b) xs ≡ drop b (drop a xs)
drop-drop zero b xs = ap (λ n. drop n xs) (let e : zero + b ≡ b = omega arith in e)
drop-drop (suc a) b [] = drop_nil (suc a + b) ∙ sym (drop_nil b)
drop-drop (suc a) b (x ∷ xs) =
    ap (λ n. drop n (x ∷ xs)) (let e : suc a + b ≡ suc (a + b) = omega arith in e)
    ∙ drop-drop a b xs

drop-append : {A : Type 0} (xs ys : List A) → drop (length xs) (xs ++ ys) ≡ ys
drop-append [] ys = refl
drop-append (x ∷ xs) ys = drop-append xs ys

empty_of : {A : Type 0} (xs : List A) → length xs ≡ 0 → xs ≡ []
empty_of [] h = refl
empty_of (x ∷ xs) h = absurd (omega (arith, h))

module _ {A : Type 0} (over_cap : List A → Bool) where
  -- A page of what is left: a first part of it, and not empty unless that is.
  pub record IsPage (left page : List A) : Type 0 where
    pub rest : List A
    pub parts : left ≡ page ++ rest
    pub moves : is_full over_cap left ≡ true → is_full over_cap page ≡ true

  full-length : (xs : List A) → 1 ≤ length xs → is_full over_cap xs ≡ true
  full-length [] h = absurd (omega (arith, h))
  full-length (x ∷ xs) h = refl

  length-full : (xs : List A) → is_full over_cap xs ≡ true → 1 ≤ length xs
  length-full [] h = absurd (ground (arith, h))
  length-full (x ∷ xs) h = omega arith

  length-cut :
      (xs : List A)
      → is_full over_cap xs ≡ true
      → (1 ≤ length (cut over_cap xs)) × (length (cut over_cap xs) ≤ length xs)
  length-cut xs full =
      let len = length-take (max 1 (length xs * 3 / 4)) xs in
      let some_left = length-full xs full in (omega (arith, len, some_left), omega (arith, len))

  length-cut_less :
      (xs : List A)
      → is_full over_cap xs ≡ true
      → (length (cut over_cap xs) == 1) ≡ false
      → length (cut over_cap xs) < length xs
  length-cut_less xs full h =
      ground (arith, length-take (max 1 (length xs * 3 / 4)) xs, length-full xs full)

  cut-IsPage : (xs : List A) → is_full over_cap xs ≡ true → IsPage xs (cut over_cap xs)
  cut-IsPage xs full = record {
    rest = drop (max 1 (length xs * 3 / 4)) xs;
    parts = sym (take-append-drop (max 1 (length xs * 3 / 4)) xs);
    moves = λ _. full-length (cut over_cap xs) (length-cut xs full).0;
  }

  IsPage-trans : (xs ys zs : List A) → IsPage xs ys → IsPage ys zs → IsPage xs zs
  IsPage-trans xs ys zs p q = record {
    rest = q.rest ++ p.rest;
    parts = p.parts ∙ ap (λ l. l ++ p.rest) q.parts ∙ append_assoc zs q.rest p.rest;
    moves = λ full. q.moves (p.moves full);
  }

  -- The loop ends, with a page.
  shrink-IsPage :
      (n : ℕ) (xs : List A)
      → length xs < n
      → (page : List A) × (shrink over_cap n xs ≡ some page) × IsPage xs page
  unfolding shrink
  shrink-IsPage zero xs lt = absurd (omega (arith, lt))
  shrink-IsPage (suc n) xs lt = elim (Bool-cases (is_full over_cap xs && over_cap xs)) [
    | inr e ↦ (xs, rw e, record { rest = []; parts = sym (append-nil xs); moves = λ full. full })
    | inl e ↦
        let full = and_left _ _ e in
        elim (Bool-cases (length (cut over_cap xs) == 1)) [
          | inl f ↦ (cut over_cap xs, rw (e, f), cut-IsPage xs full)
          | inr f ↦
              let less = length-cut_less xs full f in
              let rest = shrink-IsPage n (cut over_cap xs) (omega (arith, lt, less)) in
              (
                rest.0,
                rw (e, f) rest.1,
                IsPage-trans xs (cut over_cap xs) rest.0 (cut-IsPage xs full) rest.2,
              )
        ]
  ]

  abbrev pub follow_hint : List A → Option ℕ → (ℕ → Option (List A)) → Option (List A)
  follow_hint page none next = some page
  follow_hint page (some offset) next = elim (next offset) [
    | none ↦ none
    | some later ↦ some (page ++ later)
  ]

  abbrev pub follow : Option (Page A) → (ℕ → Option (List A)) → Option (List A)
  follow none next = none
  follow (some p) next = follow_hint p.page p.next_offset next

  -- What a client reads that follows the hints from `offset` on, in at most `n` calls.
  unfoldable pub read_from : ℕ → ℕ → List A → ℕ → Option (List A)
  unfolding paginate
  read_from zero fuel items offset = none
  read_from (suc n) fuel items offset =
      follow (paginate over_cap fuel items offset) (λ next. read_from n fuel items next)

  -- A client that follows the hints of `paginate` comes to the end, in at most one call for each item
  -- from its offset on (and one call where none is there), and has then read every item from its offset on, once and in order: each call's loop ends, no page
  -- is empty where items are left, and a hint is given exactly where items are left behind the page.
  -- This holds of any estimate of the tokens, even one by which every page is over the cap.
  pub read_from-items :
      (n fuel : ℕ) (items : List A) (offset : ℕ)
      → length items < fuel
      → max 1 (length (drop offset items)) ≤ n
      → read_from n fuel items offset ≡ some (drop offset items)
  unfolding read_from paginate
  read_from-items zero fuel items offset enough lt = absurd (omega (arith, lt))
  read_from-items (suc n) fuel items offset enough lt =
      let left = drop offset items in
      let (page, found, p) =
        shrink-IsPage fuel left (omega (arith, enough, length-drop offset items)) in
      let rest_is : drop (offset + length page) items ≡ p.rest =
        drop-drop offset (length page) items
        ∙ ap (drop (length page)) p.parts
        ∙ drop-append page p.rest in
      let lens = ap length p.parts ∙ length-append page p.rest in
      elim (Bool-cases (ltb (offset + length page) (length items))) [
        | inl e ↦
            let more : 1 ≤ length left = omega (arith, length-drop offset items, ltb→lt _ _ e) in
            let moved = length-full page (p.moves (full-length left more)) in
            let behind : 1 ≤ length (drop (offset + length page) items) =
              omega (arith, length-drop (offset + length page) items, ltb→lt _ _ e) in
            let later =
              read_from-items n fuel items (offset + length page) enough
                (omega (arith, ap length rest_is, lens, moved, lt, behind)) in
            rw (found, e, later) (ap some (ap (λ l. page ++ l) rest_is ∙ sym p.parts))
        | inr e ↦
            let none_left : p.rest ≡ [] =
              empty_of p.rest (ground (arith, lens, length-drop offset items, e)) in
            rw (found, e)
              (ap some (sym (p.parts ∙ ap (λ l. page ++ l) none_left ∙ append-nil page)))
      ]
