-- ===== src/Graph/Batch/Best.antt =====
-- The dict `best` of src/resgraph/graph/ingest.py as a view: for each resource, the message that
-- applying the batch one by one from nothing would show.
use resgraph.Prelude.{
  String, ◌≡◌, refl, sym, ap, ◌∙◌, fun_ext, Bool, Option, none, some, List, [], ◌∷◌, arith, ◌≤◌,
  length, filter, str_eq, eq_iff, ◌+◌, if◌then◌else◌,
}
use resgraph.Schema.{UpdateMessage}
use resgraph.Graph.View.{View, is_newer, admit}
use resgraph.Graph.Converge.{admit_all}
use resgraph.Graph.Batch.{offer, pick_best}

abbrev pub find : String → List UpdateMessage → Option UpdateMessage
find j [] = none
find j (m ∷ d) = if str_eq m.resource_id j then some m else find j d

-- No two entries have one key.
abbrev pub IsDict : List UpdateMessage → Type 0
IsDict [] = Unit
IsDict (m ∷ d) = (find m.resource_id d ≡ none) × IsDict d

find-offer :
    (j : String) (m : UpdateMessage) (d : List UpdateMessage)
    → find j (offer m d) ≡ admit m (λ i. find i d) j
unfolding offer
find-offer j m [] = ground (arith, eq_iff m.resource_id j)
find-offer j m (c ∷ d) = ground (
  arith,
  eq_iff m.resource_id j,
  eq_iff c.resource_id j,
  eq_iff c.resource_id m.resource_id,
  find-offer j m d,
)

offer-IsDict : (m : UpdateMessage) (d : List UpdateMessage) → IsDict d → IsDict (offer m d)
unfolding offer
offer-IsDict m [] h = (refl, tt)
offer-IsDict m (c ∷ d) h = ground (
  arith,
  eq_iff c.resource_id m.resource_id,
  eq_iff m.resource_id c.resource_id,
  offer-IsDict m d h.1,
  find-offer c.resource_id m d,
)

pub pick_best-IsDict : (ms d : List UpdateMessage) → IsDict d → IsDict (pick_best ms d)
unfolding pick_best
pick_best-IsDict [] d h = h
pick_best-IsDict (m ∷ ms) d h = pick_best-IsDict ms (offer m d) (offer-IsDict m d h)

find-pick_best :
    (j : String) (ms d : List UpdateMessage)
    → find j (pick_best ms d) ≡ admit_all ms (λ i. find i d) j
unfolding pick_best admit_all
find-pick_best j [] d = refl
find-pick_best j (m ∷ ms) d =
    find-pick_best j ms (offer m d) ∙ ap (λ v. admit_all ms v j) (fun_ext λ i. find-offer i m d)

length-offer : (m : UpdateMessage) (d : List UpdateMessage) → length (offer m d) ≤ length d + 1
unfolding offer
length-offer m [] = omega arith
length-offer m (c ∷ d) = ground (arith, length-offer m d)

pub length-pick_best : (ms d : List UpdateMessage) → length (pick_best ms d) ≤ length ms + length d
unfolding pick_best
length-pick_best [] d = omega arith
length-pick_best (m ∷ ms) d = omega (arith, length-pick_best ms (offer m d), length-offer m d)

-- The newer of a batch's message and the one shown before.
abbrev pub combine : Option UpdateMessage → Option UpdateMessage → Option UpdateMessage
combine none c = c
combine (some m) c = if is_newer m c then some m else c

admit-combine :
    (j : String) (m : UpdateMessage) (w v : View)
    → admit m (λ i. combine (w i) (v i)) j ≡ combine (admit m w j) (v j)
admit-combine j m w v = ground (arith, eq_iff m.resource_id j)

admit_all-combine :
    (j : String) (ms : List UpdateMessage) (w v : View)
    → admit_all ms (λ i. combine (w i) (v i)) j ≡ combine (admit_all ms w j) (v j)
unfolding admit_all
admit_all-combine j [] w v = refl
admit_all-combine j (m ∷ ms) w v =
    ap (λ u. admit_all ms u j) (fun_ext λ i. admit-combine i m w v)
    ∙ admit_all-combine j ms (admit m w) v

-- A batch's winners, held against what was shown, are the view after the whole batch.
pub admit_all-pick_best :
    (j : String) (ms : List UpdateMessage) (v : View)
    → admit_all ms v j ≡ combine (find j (pick_best ms [])) (v j)
admit_all-pick_best j ms v =
    admit_all-combine j ms (λ _. none) v ∙ ap (λ o. combine o (v j)) (sym (find-pick_best j ms []))

abbrev pub keep : (UpdateMessage → Bool) → Option UpdateMessage → Option UpdateMessage
keep p none = none
keep p (some m) = if p m then some m else none

pub find-filter :
    (j : String) (p : UpdateMessage → Bool) (d : List UpdateMessage)
    → IsDict d
    → find j (filter p d) ≡ keep p (find j d)
find-filter j p [] h = refl
find-filter j p (m ∷ d) h = ground (arith, eq_iff m.resource_id j, find-filter j p d h.1)

pub filter-IsDict :
    (p : UpdateMessage → Bool) (d : List UpdateMessage) → IsDict d → IsDict (filter p d)
filter-IsDict p [] h = tt
filter-IsDict p (m ∷ d) h = ground (arith, find-filter m.resource_id p d h.1, filter-IsDict p d h.1)
