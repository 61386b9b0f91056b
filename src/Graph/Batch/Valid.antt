-- ===== src/Graph/Batch/Valid.antt =====
-- What validation gives over lists of messages: known labels, and known edge targets.
use resgraph.Prelude.{
  String, ◌≡◌, refl, ap, Bool, true, some, List, [], ◌∷◌, arith, filter, all, all_cons, all-append,
  All, In, inl, inr, eq_iff,
}
use resgraph.Schema.{
  UpdateMessage, Relationship, model_validate, target_prefix_is_a_known_type, known_label, IsValid,
  label_for-IsValid, relationships-IsValid,
}
use resgraph.Graph.Db.{is_some}
use resgraph.Graph.Batch.{rows_of, edge_rows, offer, pick_best}
use resgraph.Graph.Batch.Best.{find}
use resgraph.Graph.Batch.Rows.{last_for, labelled, dst_known}

-- What holds of all the messages holds of all the winners.
pub all-offer :
    (q : UpdateMessage → Bool) (m : UpdateMessage) (d : List UpdateMessage)
    → q m ≡ true
    → all q d ≡ true
    → all q (offer m d) ≡ true
unfolding offer
all-offer q m [] h k = ground arith
all-offer q m (c ∷ d) h k = ground (arith, all_cons q c d k, all-offer q m d h)

pub all-pick_best :
    (q : UpdateMessage → Bool) (ms d : List UpdateMessage)
    → all q ms ≡ true
    → all q d ≡ true
    → all q (pick_best ms d) ≡ true
unfolding pick_best
all-pick_best q [] d h k = k
all-pick_best q (m ∷ ms) d h k =
    let (this, rest) = all_cons q m ms h in
    all-pick_best q ms (offer m d) rest (all-offer q m d this k)

pub all-filter :
    (q p : UpdateMessage → Bool) (l : List UpdateMessage)
    → all q l ≡ true
    → all q (filter p l) ≡ true
all-filter q p [] h = refl
all-filter q p (m ∷ l) h = ground (arith, all_cons q m l h, all-filter q p l)

pub all-IsValid : (ms : List UpdateMessage) → All IsValid ms → all model_validate ms ≡ true
all-IsValid [] h = refl
all-IsValid (m ∷ ms) h = ground (arith, h.0, all-IsValid ms h.1)

pub labelled-IsValid : (m : UpdateMessage) → model_validate m ≡ true → labelled m ≡ true
labelled-IsValid m h = rw (label_for-IsValid m h)

dst_known-rows_of :
    (src : String) (rels : List Relationship)
    → all target_prefix_is_a_known_type rels ≡ true
    → all dst_known (rows_of src rels) ≡ true
dst_known-rows_of src [] h = refl
dst_known-rows_of src (r ∷ rels) h =
    let (this, rest) = all_cons target_prefix_is_a_known_type r rels h in
    ground (arith, (known_label r this).1, dst_known-rows_of src rels rest)

pub dst_known-edge_rows :
    (l : List UpdateMessage) → all model_validate l ≡ true → all dst_known (edge_rows l) ≡ true
unfolding edge_rows
dst_known-edge_rows [] h = refl
dst_known-edge_rows (m ∷ l) h =
    let (this, rest) = all_cons model_validate m l h in
    ground (
      arith,
      dst_known-edge_rows l rest,
      dst_known-rows_of m.resource_id m.relationships (relationships-IsValid m this),
      all-append dst_known (rows_of m.resource_id m.relationships) (edge_rows l),
    )

-- Each of a list's messages has a last one for its id.
pub last_for-In :
    (m : UpdateMessage) (l : List UpdateMessage)
    → In m l
    → is_some (last_for m.resource_id l) ≡ true
last_for-In m [] h = absurd h
last_for-In m (x ∷ l) (inl e) =
    ground (arith, eq_iff x.resource_id m.resource_id, ap (λ (y : UpdateMessage). y.resource_id) e)
last_for-In m (x ∷ l) (inr h) = ground (arith, last_for-In m l h)

pub all_of_In :
    (q : UpdateMessage → Bool) (l : List UpdateMessage)
    → ((m : UpdateMessage) → In m l → q m ≡ true)
    → all q l ≡ true
all_of_In q [] h = refl
all_of_In q (m ∷ l) h = ground (arith, h m (inl refl), all_of_In q l (λ x i. h x (inr i)))

pub find_id :
    (j : String) (m : UpdateMessage) (l : List UpdateMessage)
    → find j l ≡ some m
    → m.resource_id ≡ j
find_id j m [] h = cc
find_id j m (x ∷ l) h = ground (arith, eq_iff x.resource_id j, find_id j m l)
