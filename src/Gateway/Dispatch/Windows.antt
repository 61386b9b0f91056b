-- ===== src/Gateway/Dispatch/Windows.antt =====
-- Rolling windows of src/resgraph/gateway/dispatch.py: what eviction keeps, and what the
-- nearest-rank percentile says of the values.
use resgraph.Prelude.{
  ℕ, zero, suc, ◌+◌, ◌-◌, ◌≤◌, ◌<◌, ◌≡◌, refl, ◌≢◌, Bool, some, List, [], ◌∷◌, length, filter, All,
  In, ◌↔◌, inl, inr, ◌==◌, ltb→lt, ltb, leb, arith, Bool-cases, ap, max,
}
use resgraph.Gateway.Dispatch.{
  Samples, evict_samples, insert_sorted, sorted, get_elem?, rank_of, nearest_rank,
}

-- The samples stand in the order of their times.
abbrev pub IsTimed : Samples → Type 0
IsTimed [] = Unit
IsTimed ((t, v) ∷ s) = All (λ (x : ℕ × ℕ). t ≤ x.0) s × IsTimed s

le_of_In : (n : ℕ) (x : ℕ × ℕ) (s : Samples) → All (λ (y : ℕ × ℕ). n ≤ y.0) s → In x s → n ≤ x.0
le_of_In n x [] h i = absurd i
le_of_In n x (y ∷ s) h (inl e) = rw e h.0
le_of_In n x (y ∷ s) h (inr i) = le_of_In n x s h.1 i

-- Over samples in the order of their times, eviction keeps exactly those inside the window.
pub In-evict_samples :
    (window now : ℕ) (x : ℕ × ℕ) (s : Samples)
    → IsTimed s
    → In x (evict_samples window now s) ↔ (In x s × (now ≤ x.0 + window))
unfolding evict_samples
In-evict_samples window now x [] h = (λ i. absurd i, λ i. absurd i.0)
In-evict_samples window now x ((t, v) ∷ s) h = elim (Bool-cases (ltb (t + window) now)) [
  | inl old ↦
      let ih = In-evict_samples window now x s h.1 in
      rw old (
        λ i. (inr (ih.0 i).0, (ih.0 i).1),
        λ (i, late). elim i [
          | inl e ↦
              absurd (omega (arith, ltb→lt (t + window) now old, late, ap (λ (y : ℕ × ℕ). y.0) e))
          | inr j ↦ ih.1 (j, late)
        ],
      )
  | inr kept ↦ rw kept (
    λ i. (
      i,
      elim i [
        | inl e ↦ ground (arith, ap (λ (y : ℕ × ℕ). y.0) e)
        | inr j ↦ ground (arith, le_of_In t x s h.0 j)
      ],
    ),
    λ (i, late). i,
  )
]

-- How many of the values pass a test.
abbrev pub count : (ℕ → Bool) → List ℕ → ℕ
count q vs = length (filter q vs)

count-insert_sorted :
    (q : ℕ → Bool) (v : ℕ) (xs : List ℕ) → count q (insert_sorted v xs) ≡ count q (v ∷ xs)
unfolding insert_sorted
count-insert_sorted q v [] = refl
count-insert_sorted q v (x ∷ xs) = ground (arith, count-insert_sorted q v xs)

count-sorted : (q : ℕ → Bool) (vs : List ℕ) → count q (sorted vs) ≡ count q vs
unfolding sorted
count-sorted q [] = refl
count-sorted q (v ∷ vs) = ground (arith, count-insert_sorted q v (sorted vs), count-sorted q vs)

length-insert_sorted : (v : ℕ) (xs : List ℕ) → length (insert_sorted v xs) ≡ suc (length xs)
unfolding insert_sorted
length-insert_sorted v [] = refl
length-insert_sorted v (x ∷ xs) = ground (arith, length-insert_sorted v xs)

length-sorted : (vs : List ℕ) → length (sorted vs) ≡ length vs
unfolding sorted
length-sorted [] = refl
length-sorted (v ∷ vs) = ground (arith, length-insert_sorted v (sorted vs), length-sorted vs)

abbrev IsSorted : List ℕ → Type 0
IsSorted [] = Unit
IsSorted (x ∷ xs) = All (λ y. x ≤ y) xs × IsSorted xs

All-insert_sorted :
    (n v : ℕ) (xs : List ℕ) → n ≤ v → All (λ y. n ≤ y) xs → All (λ y. n ≤ y) (insert_sorted v xs)
unfolding insert_sorted
All-insert_sorted n v [] h k = (h, tt)
All-insert_sorted n v (x ∷ xs) h k = ground (arith, All-insert_sorted n v xs h k.1)

All-le : (n m : ℕ) (xs : List ℕ) → n ≤ m → All (λ y. m ≤ y) xs → All (λ y. n ≤ y) xs
All-le n m [] h k = tt
All-le n m (x ∷ xs) h k = (omega arith, All-le n m xs h k.1)

insert_sorted-IsSorted : (v : ℕ) (xs : List ℕ) → IsSorted xs → IsSorted (insert_sorted v xs)
unfolding insert_sorted
insert_sorted-IsSorted v [] h = (tt, tt)
insert_sorted-IsSorted v (x ∷ xs) h =
    ground (arith, insert_sorted-IsSorted v xs h.1, All-insert_sorted x v xs, All-le v x xs)

sorted-IsSorted : (vs : List ℕ) → IsSorted (sorted vs)
unfolding sorted
sorted-IsSorted [] = tt
sorted-IsSorted (v ∷ vs) = insert_sorted-IsSorted v (sorted vs) (sorted-IsSorted vs)

count_below : (v : ℕ) (xs : List ℕ) → All (λ y. v ≤ y) xs → count (λ x. ltb x v) xs ≡ 0
count_below v [] h = refl
count_below v (x ∷ xs) h = ground (arith, count_below v xs h.1)

All-get : (n : ℕ) (xs : List ℕ) (i v : ℕ) → All (λ y. n ≤ y) xs → get_elem? xs i ≡ some v → n ≤ v
All-get n [] i v h e = cc
All-get n (x ∷ xs) zero v h e = ground arith
All-get n (x ∷ xs) (suc i) v h e = All-get n xs i v h.1 e

-- In a sorted list the value at place `i` has more than `i` values up to it, and at most `i` below.
get-count :
    (xs : List ℕ) (i v : ℕ)
    → IsSorted xs
    → get_elem? xs i ≡ some v
    → (i < count (λ x. leb x v) xs) × (count (λ x. ltb x v) xs ≤ i)
get-count [] i v h e = cc
get-count (x ∷ xs) zero v h e = ground (arith, count_below v xs)
get-count (x ∷ xs) (suc i) v h e = ground (arith, get-count xs i v h.1 e, All-get x xs i v h.0 e)

get-In : (xs : List ℕ) (i v : ℕ) → get_elem? xs i ≡ some v → 0 < count (λ x. x == v) xs
get-In [] i v e = cc
get-In (x ∷ xs) zero v e = ground arith
get-In (x ∷ xs) (suc i) v e = ground (arith, get-In xs i v e)

get_some : (xs : List ℕ) (i : ℕ) → i < length xs → (v : ℕ) × (get_elem? xs i ≡ some v)
get_some [] i h = elim h [ ]
get_some (x ∷ xs) zero h = (x, refl)
get_some (x ∷ xs) (suc i) h = get_some xs i (omega arith)

length_pos : (xs : List ℕ) → xs ≢ [] → 0 < length xs
length_pos [] h = absurd (h refl)
length_pos (x ∷ xs) h = omega arith

-- The percentile of a window with values is one of them: the value at the nearest rank `r` (`ceiling`
-- is the program's `ceil(p / 100 * n)`, in floats), so that at least `r` of the values are up to it and
-- fewer than `r` are below it. The condition on `ceiling`: it is no more than the number of values.
pub nearest_rank_lem :
    (ceiling : ℕ → ℕ → ℕ) (p : ℕ) (vs : List ℕ)
    → ceiling p (length vs) ≤ length vs
    → vs ≢ []
    → (v : ℕ) × (nearest_rank ceiling p vs ≡ some v)
      × (0 < count (λ x. x == v) vs)
      × (max 1 (ceiling p (length vs)) ≤ count (λ x. leb x v) vs)
      × (count (λ x. ltb x v) vs < max 1 (ceiling p (length vs)))
unfolding nearest_rank
nearest_rank_lem ceiling p vs small some_values =
    let n = length vs in
    let some_length : 0 < n = length_pos vs some_values in
    let (v, e) = get_some (sorted vs) (rank_of ceiling p n - 1) (omega (arith, length-sorted vs)) in
    let (up_to, below) = get-count (sorted vs) (rank_of ceiling p n - 1) v (sorted-IsSorted vs) e in
    (
      v,
      e,
      rw (count-sorted (λ x. x == v) vs) at (get-In (sorted vs) (rank_of ceiling p n - 1) v e),
      omega (arith, up_to, count-sorted (λ x. leb x v) vs),
      omega (arith, below, count-sorted (λ x. ltb x v) vs),
    )
