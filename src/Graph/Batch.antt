-- ===== src/Graph/Batch.antt =====
-- `apply_batch` of src/resgraph/graph/ingest.py: one transaction for many messages. Each statement
-- over `UNWIND $rows` runs once for each row, in order; the rows come grouped by label.
pub mod Best
pub mod Rows
pub mod Writes
pub mod Valid
pub mod Written
pub mod Refines
use resgraph.Prelude.{
  ℕ, String, ◌+◌, ◌-◌, Bool, true, false, not, ◌&&◌, Option, none, some, List, [], ◌∷◌, ◌++◌,
  length, filter, all, str_eq, ltb, if◌then◌else◌,
}
use resgraph.Schema.{
  delete, upsert, ResourceType, all_types, type_name, RelType, runs_on, attached_to, routes_to,
  member_of, UpdateMessage, Relationship, label_for,
}
use resgraph.Graph.Db.{GraphDb, rel_eq, is_some}
use resgraph.Graph.Apply.{watermark_of, is_stale, upsert_node, tombstone_node}

-- `best`, a dict from resource id to message, in insertion order.
unfoldable pub offer : UpdateMessage → List UpdateMessage → List UpdateMessage
offer m [] = m ∷ []
offer m (cur ∷ best) =
    if str_eq cur.resource_id m.resource_id
    then (if ltb cur.sequence m.sequence then m else cur) ∷ best
    else cur ∷ offer m best

unfoldable pub pick_best : List UpdateMessage → List UpdateMessage → List UpdateMessage
unfolding offer
pick_best [] best = best
pick_best (m ∷ ms) best = pick_best ms (offer m best)

-- A row of the edge statement.
pub record EdgeRow : Type 0 where
  pub src : String
  pub rel_type : RelType
  pub dst : String

-- `for key, rows in sorted(groups.items())`, flattened: the rows of each key in turn, each group in
-- the order of insertion. A key with no row runs no statement.
module _ {K A : Type 0} (has_key : K → A → Bool) where
  unfoldable pub grouped : List K → List A → List A
  grouped [] xs = []
  grouped (k ∷ ks) xs = filter (has_key k) xs ++ grouped ks xs

abbrev pub type_is : ResourceType → Option ResourceType → Bool
type_is t none = false
type_is t (some u) = str_eq (type_name t) (type_name u)

abbrev pub has_label : ResourceType → UpdateMessage → Bool
has_label t m = type_is t (label_for m.resource_id)

abbrev pub is_upsert : UpdateMessage → Bool
is_upsert m = elim m.op [ upsert ↦ true | delete ↦ false ]

abbrev pub rows_of : String → List Relationship → List EdgeRow
rows_of src [] = []
rows_of src (r ∷ rs) =
    record { src = src; rel_type = r.rel_type; dst = r.target_id } ∷ rows_of src rs

-- The edges that the upserts state.
unfoldable pub edge_rows : List UpdateMessage → List EdgeRow
edge_rows [] = []
edge_rows (m ∷ ms) =
    let rest = edge_rows ms in
    if is_upsert m then rows_of m.resource_id m.relationships ++ rest else rest

-- The edge types in the order of their upper-case names.
abbrev pub sorted_rels : List RelType
sorted_rels = attached_to ∷ member_of ∷ routes_to ∷ runs_on ∷ []

-- Sorted by (source label, type, target label): three stable groupings, the last key first.
unfoldable pub sorted_rows : List EdgeRow → List EdgeRow
unfolding grouped
sorted_rows rows =
    grouped (λ t r. type_is t (label_for r.src)) all_types
      (grouped (λ t r. rel_eq t r.rel_type) sorted_rels
        (grouped (λ t r. type_is t (label_for r.dst)) all_types rows))

module _ (db : GraphDb) where
  open db use {Graph, node, write_node, clear_edges, merge_edge}

  unfoldable pub write_upserts : List UpdateMessage → Graph → Graph
  write_upserts [] g = g
  write_upserts (m ∷ ms) g = write_upserts ms (write_node m.resource_id (upsert_node m) g)

  unfoldable pub write_tombstones : List UpdateMessage → Graph → Graph
  write_tombstones [] g = g
  write_tombstones (m ∷ ms) g = write_tombstones ms (write_node m.resource_id (tombstone_node m) g)

  unfoldable pub clear_all : List UpdateMessage → Graph → Graph
  clear_all [] g = g
  clear_all (m ∷ ms) g = clear_all ms (clear_edges m.resource_id g)

  unfoldable pub merge_rows : List EdgeRow → Graph → Graph
  merge_rows [] g = g
  merge_rows (r ∷ rs) g = merge_rows rs (merge_edge r.src r.rel_type r.dst g)

  -- `m.sequence > current.get(m.resource_id, -1)`
  abbrev pub is_fresh : Graph → UpdateMessage → Bool
  is_fresh g m = not (is_stale m (watermark_of (node g m.resource_id)))

  -- The writes of the transaction, for the messages that passed the watermark.
  unfoldable pub write_batch : List UpdateMessage → Graph → Graph
  write_batch apply g =
      let ups = grouped has_label all_types (filter is_upsert apply) in
      let downs = grouped has_label all_types (filter (λ m. not (is_upsert m)) apply) in
      merge_rows (sorted_rows (edge_rows apply)) (
        clear_all (grouped has_label all_types apply)
          (write_tombstones downs (write_upserts ups g)))

  -- Every label that the transaction derives is known: of each resource, and of each edge's target.
  abbrev pub labels_known : List UpdateMessage → List UpdateMessage → Bool
  labels_known best apply =
      all (λ m. is_some (label_for m.resource_id)) best
      && all (λ (r : EdgeRow). is_some (label_for r.dst)) (edge_rows apply)

  -- `_apply_batch_tx`: how many were applied and skipped; `none` is a raise, and a rollback.
  unfoldable pub apply_batch_tx : List UpdateMessage → Graph → Option (Graph × (ℕ × ℕ))
  apply_batch_tx msgs g =
      let best = pick_best msgs [] in
      let apply = filter (is_fresh g) best in
      let skipped = length msgs - length best + (length best - length apply) in
      if labels_known best apply then some (write_batch apply g, (length apply, skipped)) else none

  unfoldable pub apply_batch : List UpdateMessage → Graph → Option (Graph × (ℕ × ℕ))
  apply_batch [] g = some (g, (0, 0))
  apply_batch (m ∷ ms) g = apply_batch_tx (m ∷ ms) g
