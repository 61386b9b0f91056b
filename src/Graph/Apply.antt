-- ===== src/Graph/Apply.antt =====
-- `apply_message` of src/resgraph/graph/ingest.py and what it calls. A transaction that raises is
-- rolled back: its result is `none`. The phantom counter, a metric, is not modelled.
use resgraph.Prelude.{
  ℕ, String, Bool, true, false, Option, none, some, List, [], ◌∷◌, leb, if◌then◌else◌,
}
use resgraph.Schema.{Op, delete, upsert, UpdateMessage, Relationship, label_for}
use resgraph.Graph.Db.{Node, GraphDb}

-- The watermark: `n.applied_seq`, and -1 for a node that has none or is not there.
abbrev pub watermark_of : Option Node → Option ℕ
watermark_of none = none
watermark_of (some n) = n.applied_seq

-- `msg.sequence <= current`
abbrev pub is_stale : UpdateMessage → Option ℕ → Bool
is_stale m none = false
is_stale m (some current) = leb m.sequence current

abbrev pub upsert_node : UpdateMessage → Node
upsert_node m = record {
  applied_seq = some m.sequence;
  deleted = false;
  deleted_seq = none;
  phantom = false;
  attrs = m.attrs;
}

abbrev pub tombstone_node : UpdateMessage → Node
tombstone_node m = record {
  applied_seq = some m.sequence;
  deleted = true;
  deleted_seq = some m.sequence;
  phantom = false;
  attrs = [];
}

module _ (db : GraphDb) where
  open db use {Graph, node, write_node, clear_edges, merge_edge}

  -- The loop over `msg.relationships`; a target whose label cannot be derived raises.
  unfoldable pub create_edges : String → List Relationship → Graph → Option Graph
  create_edges sid [] g = some g
  create_edges sid (rel ∷ rels) g = elim (label_for rel.target_id) [
    | none ↦ none
    | some _ ↦ create_edges sid rels (merge_edge sid rel.rel_type rel.target_id g)
  ]

  unfoldable pub write_upsert : UpdateMessage → Graph → Option Graph
  write_upsert m g =
      create_edges m.resource_id m.relationships
        (clear_edges m.resource_id (write_node m.resource_id (upsert_node m) g))

  unfoldable pub write_tombstone : UpdateMessage → Graph → Graph
  write_tombstone m g = clear_edges m.resource_id (write_node m.resource_id (tombstone_node m) g)

  abbrev pub returning : Bool → Option Graph → Option (Graph × Bool)
  returning b none = none
  returning b (some g) = some (g, b)

  abbrev pub write : Op → UpdateMessage → Graph → Option Graph
  write upsert m g = write_upsert m g
  write delete m g = some (write_tombstone m g)

  -- `_apply`: the watermark check and the write, in one transaction.
  unfoldable pub apply_tx : UpdateMessage → Graph → Option (Graph × Bool)
  apply_tx m g =
      if is_stale m (watermark_of (node g m.resource_id))
      then some (g, false)
      else returning true (write m.op m g)

  unfoldable pub apply_message : UpdateMessage → Graph → Option (Graph × Bool)
  apply_message m g = elim (label_for m.resource_id) [ none ↦ none | some _ ↦ apply_tx m g ]
