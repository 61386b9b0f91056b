-- ===== src/Ingest/Queue/Delivery.antt =====
-- The queue of src/resgraph/ingest/spool.py delivers at least once.
use resgraph.Prelude.{
  ℕ, zero, suc, ◌≤◌, ◌≡◌, refl, ap, ◌∙◌, subst, String, true, false, not, Option, none, List, [],
  ◌∷◌, ◌++◌, str_eq, eq_iff, leb, length, take, filter, any, arith, In, In-append_left,
  In-append_right, In-filter, map-append, All, Bool-cases, inl, inr,
}
use resgraph.Ingest.Queue.{
  Row, RefQueue, refs_of, is_claimed, enqueue, insert_row, by_age, set_claimed, claim, ack, is_over,
  reclaim, Call, do_enqueue, do_claim, do_ack, do_reclaim, call, calls,
}

-- Marking rows claimed or not leaves the references.
pub refs_of-set_claimed :
    (stamp : Option ℕ) (refs : List String) (q : RefQueue)
    → refs_of (set_claimed stamp refs q) ≡ refs_of q
unfolding set_claimed
refs_of-set_claimed stamp refs [] = refl
refs_of-set_claimed stamp refs (x ∷ xs) = elim (Bool-cases (any (str_eq x.ref) refs)) [
  | inl named ↦ rw named (ap (λ l. x.ref ∷ l) (refs_of-set_claimed stamp refs xs))
  | inr other ↦ rw other (ap (λ l. x.ref ∷ l) (refs_of-set_claimed stamp refs xs))
]

pub refs_of-ack :
    (i ref : String) (q : RefQueue)
    → In i (refs_of q)
    → str_eq i ref ≡ false
    → In i (refs_of (ack ref q))
unfolding ack
refs_of-ack i ref [] h other = absurd h
refs_of-ack i ref (x ∷ xs) (inl e) other = rw (subst (λ y. str_eq y ref ≡ false) e other) (inl e)
refs_of-ack i ref (x ∷ xs) (inr h) other = elim (Bool-cases (str_eq x.ref ref)) [
  | inl named ↦ rw named (refs_of-ack i ref xs h other)
  | inr kept ↦ rw kept (inr (refs_of-ack i ref xs h other))
]

pub refs_of-enqueue :
    (i ref : String) (now : ℕ) (q : RefQueue)
    → In i (refs_of q)
    → In i (refs_of (enqueue ref now q))
unfolding enqueue
refs_of-enqueue i ref now q h = elim (Bool-cases (any (str_eq ref) (refs_of q))) [
  | inl known ↦ rw known h
  | inr new ↦ rw (new, map-append) (In-append_left i (refs_of q) _ h)
]

length-set_claimed :
    (stamp : Option ℕ) (refs : List String) (q : RefQueue)
    → length (set_claimed stamp refs q) ≡ length q
unfolding set_claimed
length-set_claimed stamp refs [] = refl
length-set_claimed stamp refs (x ∷ xs) = ap suc (length-set_claimed stamp refs xs)

In-known : (i : String) (xs : List String) → any (str_eq i) xs ≡ true → In i xs
In-known i [] h = cc
In-known i (x ∷ xs) h = ground (arith, In-known i xs, eq_iff i x)

In-last : (i : String) (xs : List String) → In i (xs ++ (i ∷ []))
In-last i xs = In-append_right i xs (i ∷ []) (inl refl)

pub refs_of-enqueued : (i : String) (t : ℕ) (q : RefQueue) → In i (refs_of (enqueue i t q))
unfolding enqueue
refs_of-enqueued i t q = elim (Bool-cases (any (str_eq i) (refs_of q))) [
  | inl known ↦ rw known (In-known i (refs_of q) known)
  | inr new ↦ rw (new, map-append) (In-last i (refs_of q))
]

-- A call that does not acknowledge the reference.
abbrev pub Spares : String → Call → Type 0
Spares i (do_ack ref) = str_eq i ref ≡ false
Spares i (do_enqueue ref now) = Unit
Spares i (do_claim limit now) = Unit
Spares i (do_reclaim older now) = Unit

refs_of-insert_row :
    (i : String) (x : Row) (xs : List Row)
    → In i (refs_of (x ∷ xs))
    → In i (refs_of (insert_row x xs))
unfolding insert_row
refs_of-insert_row i x [] h = h
refs_of-insert_row i x (y ∷ ys) h = elim (Bool-cases (leb x.enqueued_at y.enqueued_at)) [
  | inl older ↦ rw older h
  | inr younger ↦ rw younger (swapped (refs_of-insert_row i x ys) h)
]
  where
    swapped :
        (In i (refs_of (x ∷ ys)) → In i (refs_of (insert_row x ys)))
        → In i (refs_of (x ∷ y ∷ ys))
        → In i (refs_of (y ∷ insert_row x ys))
    swapped ih (inl e) = inr (ih (inl e))
    swapped ih (inr (inl e)) = inl e
    swapped ih (inr (inr l)) = inr (ih (inr l))

refs_of-by_age : (i : String) (xs : List Row) → In i (refs_of xs) → In i (refs_of (by_age xs))
unfolding by_age
refs_of-by_age i [] h = h
refs_of-by_age i (x ∷ xs) (inl e) = refs_of-insert_row i x (by_age xs) (inl e)
refs_of-by_age i (x ∷ xs) (inr h) = refs_of-insert_row i x (by_age xs) (inr (refs_of-by_age i xs h))

length-insert_row : (x : Row) (xs : List Row) → length (insert_row x xs) ≡ suc (length xs)
unfolding insert_row
length-insert_row x [] = refl
length-insert_row x (y ∷ ys) = let rest = length-insert_row x ys in ground arith

length-by_age : (xs : List Row) → length (by_age xs) ≡ length xs
unfolding by_age
length-by_age [] = refl
length-by_age (x ∷ xs) = length-insert_row x (by_age xs) ∙ ap suc (length-by_age xs)

take-all : {A : Type 0} (n : ℕ) (xs : List A) → length xs ≤ n → take n xs ≡ xs
take-all zero [] h = refl
take-all zero (x ∷ xs) h = absurd (omega (arith, h))
take-all (suc n) [] h = refl
take-all (suc n) (x ∷ xs) h = ap (λ l. x ∷ l) (take-all n xs (omega (arith, h)))

-- A reference in the table stays there, whatever calls follow, until it is acknowledged.
calls-keep :
    (i : String) (xs : List Call) (q : RefQueue)
    → All (Spares i) xs
    → In i (refs_of q)
    → In i (refs_of (calls xs q))
unfolding calls call claim reclaim
calls-keep i [] q spared h = h
calls-keep i (do_enqueue ref now ∷ xs) q spared h =
    calls-keep i xs (enqueue ref now q) spared.1 (refs_of-enqueue i ref now q h)
calls-keep i (do_claim limit now ∷ xs) q spared h =
    calls-keep i xs _ spared.1 (rw (refs_of-set_claimed) h)
calls-keep i (do_ack ref ∷ xs) q spared h =
    calls-keep i xs (ack ref q) spared.1 (refs_of-ack i ref q h spared.0)
calls-keep i (do_reclaim older now ∷ xs) q spared h =
    calls-keep i xs _ spared.1 (rw (refs_of-set_claimed) h)

named_by : (x : Row) (q : List Row) → In x q → any (str_eq x.ref) (refs_of q) ≡ true
named_by x [] h = absurd h
named_by x (y ∷ q) (inl e) =
    let same = (eq_iff x.ref y.ref).1 (ap (λ (r : Row). r.ref) e) in ground arith
named_by x (y ∷ q) (inr h) = let rest = named_by x q h in ground arith

-- Where every claimed row is named, marking the named rows free leaves no row claimed.
free_all :
    (refs : List String) (q : RefQueue)
    → ((x : Row) → In x q → is_claimed x ≡ true → any (str_eq x.ref) refs ≡ true)
    → filter (λ r. not (is_claimed r)) (set_claimed none refs q) ≡ set_claimed none refs q
unfolding set_claimed
free_all refs [] h = refl
free_all refs (x ∷ xs) h =
    let rest = free_all refs xs (λ y i. h y (inr i)) in
    elim (Bool-cases (any (str_eq x.ref) refs)) [
      | inl named ↦ rw named (ap (λ l. record x { claimed_at = none } ∷ l) rest)
      | inr other ↦ elim (Bool-cases (is_claimed x)) [
        | inl claimed ↦ cc (h x (inl refl) claimed)
        | inr free ↦ rw (other, free) (ap (λ l. x ∷ l) rest)
      ]
    ]

-- Every claim in the queue is older than the bound.
abbrev pub Over : ℕ → ℕ → RefQueue → Type 0
Over older now q = (x : Row) → In x q → is_claimed x ≡ true → is_over older now x ≡ true

-- Reclaiming what is over frees every row, and a claim of all then takes every reference.
claim-reclaimed :
    (i : String) (q : RefQueue) (older limit now : ℕ)
    → In i (refs_of q)
    → Over older now q
    → length q ≤ limit
    → In i (claim limit now (reclaim older now q).1).0
unfolding claim reclaim
claim-reclaimed i q older limit now h over room =
    let refs = refs_of (filter (is_over older now) q) in
    let free = set_claimed none refs q in
    let all_free = free_all refs q (λ x j claimed.
      named_by x (filter (is_over older now) q)
        ((In-filter (is_over older now) x q).1 (j, over x j claimed))) in
    let size = length-by_age free ∙ length-set_claimed none refs q in
    rw (all_free, take-all limit (by_age free) (omega (arith, size, room)))
      (refs_of-by_age i free (rw (refs_of-set_claimed) h))

-- A reference that was enqueued and that no call acknowledges is delivered: whatever calls have been
-- made since, once the claims that are left are over, reclaiming them and claiming as much as the
-- queue holds takes the reference.
pub calls-deliver :
    (i : String) (t : ℕ) (xs : List Call) (q : RefQueue) (older limit now : ℕ)
    → All (Spares i) xs
    → Over older now (calls xs (enqueue i t q))
    → length (calls xs (enqueue i t q)) ≤ limit
    → In i (claim limit now (reclaim older now (calls xs (enqueue i t q))).1).0
calls-deliver i t xs q older limit now spared over room =
    claim-reclaimed i (calls xs (enqueue i t q)) older limit now
      (calls-keep i xs (enqueue i t q) spared (refs_of-enqueued i t q)) over room
