-- ===== src/Graph/Batch/Writes.antt =====
-- What each statement of the batched transaction leaves, over any rows.
use resgraph.Prelude.{
  String, ◌≡◌, refl, ◌∙◌, Bool, true, false, ◌&&◌, ◌||◌, Option, none, some, List, [], ◌∷◌, arith,
  filter, any, all, all_cons, any-append, all-append, str_eq, eq_iff, if◌then◌else◌,
}
use resgraph.Schema.{RelType, UpdateMessage, Relationship}
use resgraph.Graph.Db.{Node, GraphDb, rel_eq, is_some}
use resgraph.Graph.Apply.{upsert_node, tombstone_node}
use resgraph.Graph.View.{applied, mentions, states_edge, applied-merge_edge, there-merge_edge}
use resgraph.Graph.Batch.{
  EdgeRow, rows_of, edge_rows, is_upsert, write_upserts, write_tombstones, clear_all, merge_rows,
}
use resgraph.Graph.Batch.Best.{find, IsDict}
use resgraph.Graph.Batch.Rows.{last_for}

abbrev pub node_or : (UpdateMessage → Node) → Option UpdateMessage → Option Node → Option Node
node_or f none n = n
node_or f (some m) n = some (f m)

abbrev pub row_is : String → RelType → String → EdgeRow → Bool
row_is j t d r = str_eq r.src j && rel_eq r.rel_type t && str_eq r.dst d

module _ (db : GraphDb) where
  open db use {
    Graph, node, edge, write_node, clear_edges, merge_edge, node-write_node, edge-write_node,
    node-clear_edges, edge-clear_edges, edge-merge_edge,
  }

  pub node-write_upserts :
      (l : List UpdateMessage) (g : Graph) (j : String)
      → node (write_upserts db l g) j ≡ node_or upsert_node (last_for j l) (node g j)
  unfolding write_upserts
  node-write_upserts [] g j = refl
  node-write_upserts (m ∷ l) g j = ground (
    arith,
    node-write_upserts l (write_node m.resource_id (upsert_node m) g) j,
    node-write_node m.resource_id (upsert_node m) g j,
  )

  pub node-write_tombstones :
      (l : List UpdateMessage) (g : Graph) (j : String)
      → node (write_tombstones db l g) j ≡ node_or tombstone_node (last_for j l) (node g j)
  unfolding write_tombstones
  node-write_tombstones [] g j = refl
  node-write_tombstones (m ∷ l) g j = ground (
    arith,
    node-write_tombstones l (write_node m.resource_id (tombstone_node m) g) j,
    node-write_node m.resource_id (tombstone_node m) g j,
  )

  pub edge-write_upserts :
      (l : List UpdateMessage) (g : Graph) (j : String) (t : RelType) (d : String)
      → edge (write_upserts db l g) j t d ≡ edge g j t d
  unfolding write_upserts
  edge-write_upserts [] g j t d = refl
  edge-write_upserts (m ∷ l) g j t d =
      edge-write_upserts l _ j t d ∙ edge-write_node m.resource_id (upsert_node m) g j t d

  pub edge-write_tombstones :
      (l : List UpdateMessage) (g : Graph) (j : String) (t : RelType) (d : String)
      → edge (write_tombstones db l g) j t d ≡ edge g j t d
  unfolding write_tombstones
  edge-write_tombstones [] g j t d = refl
  edge-write_tombstones (m ∷ l) g j t d =
      edge-write_tombstones l _ j t d ∙ edge-write_node m.resource_id (tombstone_node m) g j t d

  pub node-clear_all :
      (l : List UpdateMessage) (g : Graph) (j : String) → node (clear_all db l g) j ≡ node g j
  unfolding clear_all
  node-clear_all [] g j = refl
  node-clear_all (m ∷ l) g j = node-clear_all l _ j ∙ node-clear_edges m.resource_id g j

  pub edge-clear_all :
      (l : List UpdateMessage) (g : Graph) (j : String) (t : RelType) (d : String)
      → edge (clear_all db l g) j t d ≡ (if is_some (last_for j l) then false else edge g j t d)
  unfolding clear_all
  edge-clear_all [] g j t d = refl
  edge-clear_all (m ∷ l) g j t d = ground (
    arith,
    edge-clear_all l (clear_edges m.resource_id g) j t d,
    edge-clear_edges m.resource_id g j t d,
  )

  abbrev pub there : Graph → EdgeRow → Bool
  there g r = is_some (node g r.src)

  all-there :
      (r : EdgeRow) (rs : List EdgeRow) (g : Graph)
      → all (there g) rs ≡ true
      → all (there (merge_edge r.src r.rel_type r.dst g)) rs ≡ true
  all-there r [] g h = refl
  all-there r (x ∷ rs) g h =
      let (this, rest) = all_cons (there g) x rs h in
      ground (arith, there-merge_edge db r.src r.rel_type r.dst g x.src this, all-there r rs g rest)

  pub applied-merge_rows :
      (rs : List EdgeRow) (g : Graph) (j : String)
      → applied (node (merge_rows db rs g) j) ≡ applied (node g j)
  unfolding merge_rows
  applied-merge_rows [] g j = refl
  applied-merge_rows (r ∷ rs) g j =
      applied-merge_rows rs _ j ∙ applied-merge_edge db r.src r.rel_type r.dst g j

  pub edge-merge_rows :
      (rs : List EdgeRow) (g : Graph) (j : String) (t : RelType) (d : String)
      → all (there g) rs ≡ true
      → edge (merge_rows db rs g) j t d ≡ (any (row_is j t d) rs || edge g j t d)
  unfolding merge_rows
  edge-merge_rows [] g j t d h = refl
  edge-merge_rows (r ∷ rs) g j t d h =
      let (this, rest) = all_cons (there g) r rs h in
      edge-merge_rows rs (merge_edge r.src r.rel_type r.dst g) j t d (all-there r rs g rest)
      ∙ ground (arith, this, edge-merge_edge r.src r.rel_type r.dst g j t d)

any-rows_of :
    (src j : String) (t : RelType) (d : String) (rels : List Relationship)
    → any (row_is j t d) (rows_of src rels) ≡ (str_eq src j && mentions t d rels)
any-rows_of src j t d [] = ground arith
any-rows_of src j t d (r ∷ rels) = ground (arith, any-rows_of src j t d rels)

-- The rows of a dict state what its entry for the id states.
pub any-edge_rows :
    (j : String) (t : RelType) (d : String) (l : List UpdateMessage)
    → IsDict l
    → any (row_is j t d) (edge_rows l) ≡ states_edge (find j l) t d
unfolding edge_rows
any-edge_rows j t d [] h = refl
any-edge_rows j t d (m ∷ l) h = ground (
  arith,
  h.0,
  eq_iff m.resource_id j,
  any-edge_rows j t d l h.1,
  any-rows_of m.resource_id j t d m.relationships,
  any-append (row_is j t d) (rows_of m.resource_id m.relationships) (edge_rows l),
)

all-rows_of :
    (c : String → Bool) (src : String) (rels : List Relationship)
    → c src ≡ true
    → all (λ (r : EdgeRow). c r.src) (rows_of src rels) ≡ true
all-rows_of c src [] h = refl
all-rows_of c src (r ∷ rels) h = ground (arith, all-rows_of c src rels h)

-- What holds of the id of each upsert holds of the source of each row.
pub all-edge_rows :
    (c : String → Bool) (l : List UpdateMessage)
    → all (λ m. c m.resource_id) (filter is_upsert l) ≡ true
    → all (λ (r : EdgeRow). c r.src) (edge_rows l) ≡ true
unfolding edge_rows
all-edge_rows c [] h = refl
all-edge_rows c (m ∷ l) h = ground (
  arith,
  all-edge_rows c l,
  all-rows_of c m.resource_id m.relationships,
  all-append (λ (r : EdgeRow). c r.src) (rows_of m.resource_id m.relationships) (edge_rows l),
)
