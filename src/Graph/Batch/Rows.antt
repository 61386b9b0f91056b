-- ===== src/Graph/Batch/Rows.antt =====
-- Grouping rows by a key and sorting the groups changes neither which message is the last for an id
-- nor which edges are stated.
use resgraph.Prelude.{
  String, ◌≡◌, refl, ◌∙◌, sym, ap, ap₂, fun_ext, Bool, true, false, ◌&&◌, ◌||◌, Option, none, some,
  List, [], ◌∷◌, ◌++◌, arith, filter, any, all, all_cons, any-append, all-append, str_eq, eq_iff,
  if◌then◌else◌, Bool-cases, inl, inr,
}
use resgraph.Schema.{
  ResourceType, all_types, asg, container, db, host, lb, sg, vm, RelType, runs_on, attached_to,
  routes_to, member_of, UpdateMessage, label_for,
}
use resgraph.Graph.Db.{rel_eq, is_some}
use resgraph.Graph.Batch.{EdgeRow, grouped, type_is, has_label, sorted_rels, sorted_rows}
use resgraph.Graph.Batch.Best.{find, IsDict}

abbrev pub or_else : Option UpdateMessage → Option UpdateMessage → Option UpdateMessage
or_else none c = c
or_else (some m) c = some m

-- The last message for an id: the one whose write stands after all of them.
abbrev pub last_for : String → List UpdateMessage → Option UpdateMessage
last_for j [] = none
last_for j (m ∷ l) = or_else (last_for j l) (if str_eq m.resource_id j then some m else none)

pub last_for-IsDict : (j : String) (d : List UpdateMessage) → IsDict d → last_for j d ≡ find j d
last_for-IsDict j [] h = refl
last_for-IsDict j (m ∷ d) h = ground (arith, eq_iff m.resource_id j, last_for-IsDict j d h.1)

last_for-append :
    (j : String) (xs ys : List UpdateMessage)
    → last_for j (xs ++ ys) ≡ or_else (last_for j ys) (last_for j xs)
last_for-append j [] ys = ground arith
last_for-append j (x ∷ xs) ys = ground (arith, last_for-append j xs ys)

abbrev label_is : ResourceType → String → Bool
label_is t j = type_is t (label_for j)

last_for-filter_id :
    (j : String) (q : String → Bool) (l : List UpdateMessage)
    → last_for j (filter (λ m. q m.resource_id) l) ≡ (if q j then last_for j l else none)
last_for-filter_id j q [] = ground arith
last_for-filter_id j q (m ∷ l) = ground (arith, eq_iff m.resource_id j, last_for-filter_id j q l)

or_else-if :
    (a b : Bool) (o : Option UpdateMessage)
    → or_else (if a then o else none) (if b then o else none) ≡ (if b || a then o else none)
or_else-if a b o = ground arith

last_for-grouped :
    (j : String) (ts : List ResourceType) (l : List UpdateMessage)
    → last_for j (grouped has_label ts l)
      ≡ (if any (λ t. label_is t j) ts then last_for j l else none)
unfolding grouped
last_for-grouped j [] l = refl
last_for-grouped j (t ∷ ts) l =
    last_for-append j (filter (has_label t) l) (grouped has_label ts l)
    ∙ ap₂ or_else (last_for-grouped j ts l) (last_for-filter_id j (label_is t) l)
    ∙ or_else-if (any (λ u. label_is u j) ts) (label_is t j) (last_for j l)

-- Every type is in the list of all types.
any-type_is : (u : ResourceType) → any (λ t. type_is t (some u)) all_types ≡ true
any-type_is asg = refl
any-type_is container = refl
any-type_is db = refl
any-type_is host = refl
any-type_is lb = refl
any-type_is sg = refl
any-type_is vm = refl

pub any-type_is-is_some :
    (o : Option ResourceType) → is_some o ≡ true → any (λ t. type_is t o) all_types ≡ true
any-type_is-is_some none h = cc
any-type_is-is_some (some u) h = any-type_is u

abbrev pub labelled : UpdateMessage → Bool
labelled m = is_some (label_for m.resource_id)

last_for-labelled :
    (j : String) (l : List UpdateMessage)
    → all labelled l ≡ true
    → is_some (label_for j) ≡ false
    → last_for j l ≡ none
last_for-labelled j [] h e = refl
last_for-labelled j (m ∷ l) h e =
    let (this, rest) = all_cons labelled m l h in
    ground (arith, this, eq_iff m.resource_id j, last_for-labelled j l rest e)

pub last_for-by_label :
    (j : String) (l : List UpdateMessage)
    → all labelled l ≡ true
    → last_for j (grouped has_label all_types l) ≡ last_for j l
last_for-by_label j l h = elim (Bool-cases (is_some (label_for j))) [
  | inl known ↦ last_for-grouped j all_types l ∙ rw (any-type_is-is_some (label_for j) known)
  | inr unknown ↦ last_for-grouped j all_types l ∙ ground (arith, last_for-labelled j l h unknown)
]

and-or : (a b c : Bool) → (a && c || b && c) ≡ ((a || b) && c)
and-or a b c = ground arith

module _ {K A : Type 0} (has_key : K → A → Bool) where
  any-false : (xs : List A) → any (λ _. false) xs ≡ false
  any-false [] = refl
  any-false (x ∷ xs) = any-false xs

  any-filter :
      (p : A → Bool) (k : K) (xs : List A)
      → any p (filter (has_key k) xs) ≡ any (λ x. has_key k x && p x) xs
  any-filter p k [] = refl
  any-filter p k (x ∷ xs) = ground (arith, any-filter p k xs)

  any-or : (p q : A → Bool) (xs : List A) → (any p xs || any q xs) ≡ any (λ x. p x || q x) xs
  any-or p q [] = refl
  any-or p q (x ∷ xs) = ground (arith, any-or p q xs)

  any-grouped_keys :
      (p : A → Bool) (ks : List K) (xs : List A)
      → any p (grouped has_key ks xs) ≡ any (λ x. any (λ k. has_key k x) ks && p x) xs
  unfolding grouped
  any-grouped_keys p [] xs = sym (any-false xs)
  any-grouped_keys p (k ∷ ks) xs =
      any-append p (filter (has_key k) xs) (grouped has_key ks xs)
      ∙ ap₂ ◌||◌ (any-filter p k xs) (any-grouped_keys p ks xs)
      ∙ any-or (λ x. has_key k x && p x) (λ x. any (λ u. has_key u x) ks && p x) xs
      ∙ ap (λ f. any f xs) (fun_ext λ x. and-or (has_key k x) (any (λ u. has_key u x) ks) (p x))

  any-all : (p q : A → Bool) (xs : List A) → all q xs ≡ true → any (λ x. q x && p x) xs ≡ any p xs
  any-all p q [] h = refl
  any-all p q (x ∷ xs) h = ground (arith, all_cons q x xs h, any-all p q xs)

  -- Where each row has one of the keys, grouping keeps what is there.
  any-grouped :
      (p : A → Bool) (ks : List K) (xs : List A)
      → all (λ x. any (λ k. has_key k x) ks) xs ≡ true
      → any p (grouped has_key ks xs) ≡ any p xs
  any-grouped p ks xs h = any-grouped_keys p ks xs ∙ any-all p (λ x. any (λ k. has_key k x) ks) xs h

  all-filter :
      (q : A → Bool) (k : K) (xs : List A) → all q xs ≡ true → all q (filter (has_key k) xs) ≡ true
  all-filter q k [] h = refl
  all-filter q k (x ∷ xs) h = ground (arith, all_cons q x xs h, all-filter q k xs)

  all-grouped :
      (q : A → Bool) (ks : List K) (xs : List A)
      → all q xs ≡ true
      → all q (grouped has_key ks xs) ≡ true
  unfolding grouped
  all-grouped q [] xs h = refl
  all-grouped q (k ∷ ks) xs h =
      all-append q (filter (has_key k) xs) (grouped has_key ks xs) (all-filter q k xs h)
        (all-grouped q ks xs h)

any-rel_eq : (r : RelType) → any (λ t. rel_eq t r) sorted_rels ≡ true
any-rel_eq runs_on = refl
any-rel_eq attached_to = refl
any-rel_eq routes_to = refl
any-rel_eq member_of = refl

all-true : {A : Type 0} (p : A → Bool) (xs : List A) → ((x : A) → p x ≡ true) → all p xs ≡ true
all-true p [] h = refl
all-true p (x ∷ xs) h = ground (arith, h x, all-true p xs h)

pub all_mono :
    {A : Type 0} (p q : A → Bool) (xs : List A)
    → ((x : A) → p x ≡ true → q x ≡ true)
    → all p xs ≡ true
    → all q xs ≡ true
all_mono p q [] to h = refl
all_mono p q (x ∷ xs) to h =
    let (this, rest) = all_cons p x xs h in ground (arith, to x this, all_mono p q xs to rest)

abbrev pub src_known : EdgeRow → Bool
src_known r = is_some (label_for r.src)

abbrev pub dst_known : EdgeRow → Bool
dst_known r = is_some (label_for r.dst)

-- The sorted rows state the same edges,
pub any-sorted_rows :
    (p : EdgeRow → Bool) (rows : List EdgeRow)
    → all src_known rows ≡ true
    → all dst_known rows ≡ true
    → any p (sorted_rows rows) ≡ any p rows
unfolding sorted_rows
any-sorted_rows p rows hs hd =
    any-grouped (λ t (r : EdgeRow). type_is t (label_for r.src)) p all_types _
      (all_mono src_known _ _ (λ r. any-type_is-is_some (label_for r.src))
        (all-grouped (λ t (r : EdgeRow). rel_eq t r.rel_type) src_known sorted_rels _
          (all-grouped (λ t (r : EdgeRow). type_is t (label_for r.dst)) src_known all_types rows
            hs)))
    ∙ any-grouped (λ t (r : EdgeRow). rel_eq t r.rel_type) p sorted_rels _
        (all-true _ (grouped (λ t (r : EdgeRow). type_is t (label_for r.dst)) all_types rows)
          (λ (r : EdgeRow). any-rel_eq r.rel_type))
    ∙ any-grouped (λ t (r : EdgeRow). type_is t (label_for r.dst)) p all_types rows
        (all_mono dst_known _ rows (λ r. any-type_is-is_some (label_for r.dst)) hd)

-- and each of them has what all the rows have.
pub all-sorted_rows :
    (q : EdgeRow → Bool) (rows : List EdgeRow) → all q rows ≡ true → all q (sorted_rows rows) ≡ true
unfolding sorted_rows
all-sorted_rows q rows h =
    all-grouped (λ t (r : EdgeRow). type_is t (label_for r.src)) q all_types _
      (all-grouped (λ t (r : EdgeRow). rel_eq t r.rel_type) q sorted_rels _
        (all-grouped (λ t (r : EdgeRow). type_is t (label_for r.dst)) q all_types rows h))
