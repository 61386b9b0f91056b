-- ===== src/Ingest/Queue/Claimed.antt =====
-- The references that the calls of src/resgraph/ingest/spool.py hand out are references of the queue.
use resgraph.Prelude.{
  ℕ, zero, suc, ◌≡◌, String, Bool, not, List, [], ◌∷◌, str_eq, take, drop, filter, any, arith, In,
  In-append_cases, map-append, Bool-cases, inl, inr, ◌⊎◌,
}
use resgraph.Ingest.Queue.{
  Row, RefQueue, refs_of, is_claimed, enqueue, insert_row, by_age, claim, ack,
}

module _ {A : Type 0} where
  pub In-take : (a : A) (n : ℕ) (xs : List A) → In a (take n xs) → In a xs
  In-take a zero xs h = absurd h
  In-take a (suc n) [] h = h
  In-take a (suc n) (x ∷ xs) (inl e) = inl e
  In-take a (suc n) (x ∷ xs) (inr h) = inr (In-take a n xs h)

  pub In-drop : (a : A) (n : ℕ) (xs : List A) → In a (drop n xs) → In a xs
  In-drop a zero xs h = h
  In-drop a (suc n) [] h = h
  In-drop a (suc n) (x ∷ xs) h = inr (In-drop a n xs h)

refs_of-take : (i : String) (n : ℕ) (q : RefQueue) → In i (refs_of (take n q)) → In i (refs_of q)
refs_of-take i zero q h = absurd h
refs_of-take i (suc n) [] h = h
refs_of-take i (suc n) (x ∷ xs) (inl e) = inl e
refs_of-take i (suc n) (x ∷ xs) (inr h) = inr (refs_of-take i n xs h)

refs_of-filter :
    (i : String) (p : Row → Bool) (q : RefQueue) → In i (refs_of (filter p q)) → In i (refs_of q)
refs_of-filter i p [] h = h
refs_of-filter i p (x ∷ xs) h = ground (arith, refs_of-filter i p xs)

insert_row-refs_of :
    (i : String) (x : Row) (xs : List Row)
    → In i (refs_of (insert_row x xs))
    → In i (refs_of (x ∷ xs))
unfolding insert_row
insert_row-refs_of i x [] h = h
insert_row-refs_of i x (y ∷ ys) h = ground (arith, insert_row-refs_of i x ys)

by_age-refs_of : (i : String) (xs : List Row) → In i (refs_of (by_age xs)) → In i (refs_of xs)
unfolding by_age
by_age-refs_of i [] h = h
by_age-refs_of i (x ∷ xs) h = elim (insert_row-refs_of i x (by_age xs) h) [
  | inl e ↦ inl e
  | inr k ↦ inr (by_age-refs_of i xs k)
]

pub claim-refs_of :
    (i : String) (limit now : ℕ) (q : RefQueue) → In i (claim limit now q).0 → In i (refs_of q)
unfolding claim
claim-refs_of i limit now q h =
    refs_of-filter i (λ r. not (is_claimed r)) q (by_age-refs_of i _ (refs_of-take i limit _ h))

pub ack-refs_of : (i ref : String) (q : RefQueue) → In i (refs_of (ack ref q)) → In i (refs_of q)
unfolding ack
ack-refs_of i ref q h = refs_of-filter i _ q h

pub enqueue-refs_of :
    (i ref : String) (now : ℕ) (q : RefQueue)
    → In i (refs_of (enqueue ref now q))
    → In i (refs_of q) ⊎ (i ≡ ref)
unfolding enqueue
enqueue-refs_of i ref now q h = elim (Bool-cases (any (str_eq ref) (refs_of q))) [
  | inl known ↦ inl (rw known at h)
  | inr new ↦ elim (In-append_cases i (refs_of q) (ref ∷ []) (rw (new, map-append) at h)) [
    | inl k ↦ inl k
    | inr (inl e) ↦ inr e
    | inr (inr k) ↦ absurd k
  ]
]
