-- ===== src/Analyst/Executor/Hot.antt =====
-- The ingest path under src/resgraph/analyst/executor.py, as the view of the hot store has it
-- (src/resgraph/graph/ingest.py): the newest message of a resource is what the store shows.
use resgraph.Prelude.{
  ℕ, ◌<◌, ◌≡◌, refl, ap, String, true, Option, none, some, List, [], ◌∷◌, arith, eq_iff,
}
use resgraph.Schema.{UpdateMessage}
use resgraph.Graph.View.{View, admit, is_newer}
use resgraph.Analyst.Executor.{Snapshot}
use resgraph.Analyst.Executor.Confirm.{shown, is_above, Ingests}

abbrev pub shown_of : Option UpdateMessage → Option Snapshot
shown_of none = none
shown_of (some m) = some (shown m)

abbrev pub read_view : String → View → Option Snapshot
read_view j v = shown_of (v j)

abbrev pub ingest_view : List UpdateMessage → View → View
ingest_view [] v = v
ingest_view (m ∷ ms) v = ingest_view ms (admit m v)

above-newer :
    (m : UpdateMessage) (o : Option UpdateMessage)
    → is_above m (shown_of o) ≡ true
    → is_newer m o ≡ true
above-newer m none h = refl
above-newer m (some n) h = ground arith

admit-shown :
    (m : UpdateMessage) (v : View)
    → is_newer m (v m.resource_id) ≡ true
    → admit m v m.resource_id ≡ some m
admit-shown m v h = rw ((eq_iff m.resource_id m.resource_id).1 refl, h)

-- A view takes each newer message at once.
pub view-Ingests : (attempts : ℕ) → 0 < attempts → Ingests read_view ingest_view (λ v. v) attempts
view-Ingests attempts pos = record {
  lag = λ m v. 0;
  in_time = λ m v h. pos;
  not_yet = λ m v j lt. absurd (omega (arith, lt));
  lands = λ m v valid h. ap shown_of (admit-shown m v (above-newer m (v m.resource_id) h));
}
