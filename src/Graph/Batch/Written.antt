-- ===== src/Graph/Batch/Written.antt =====
-- What the writes of the batched transaction leave of each node and each edge.
use resgraph.Prelude.{
  String, ◌≡◌, refl, ◌∙◌, ap, ap₂, Bool, true, false, not, Option, none, some, List, arith, filter,
  all, if◌then◌else◌,
}
use resgraph.Schema.{all_types, RelType, UpdateMessage, label_for, model_validate}
use resgraph.Graph.Db.{Node, GraphDb, is_some}
use resgraph.Graph.Apply.{upsert_node, tombstone_node}
use resgraph.Graph.View.{node_of, states_edge, applied}
use resgraph.Graph.Batch.{
  grouped, has_label, edge_rows, sorted_rows, is_upsert, write_upserts, write_tombstones, clear_all,
  write_batch,
}
use resgraph.Graph.Batch.Best.{find, IsDict, keep, find-filter, filter-IsDict}
use resgraph.Graph.Batch.Rows.{
  last_for, last_for-IsDict, last_for-by_label, labelled, src_known, any-sorted_rows,
  all-sorted_rows, all_mono,
}
use resgraph.Graph.Batch.Writes.{
  node_or, node-write_upserts, node-write_tombstones, edge-write_upserts, edge-write_tombstones,
  node-clear_all, edge-clear_all, there, applied-merge_rows, edge-merge_rows, row_is, any-edge_rows,
  all-edge_rows,
}
use resgraph.Graph.Batch.Valid.{
  all-filter, labelled-IsValid, dst_known-edge_rows, last_for-In, all_of_In,
}

abbrev pub applied_or : Option UpdateMessage → Option Node → Option Node
applied_or none n = n
applied_or (some m) n = node_of (some m)

-- What the two node statements leave, by the operation.
applied_cases :
    (o : Option UpdateMessage) (n : Option Node)
    → applied (
        node_or tombstone_node
          (keep (λ m. not (is_upsert m)) o)
          (node_or upsert_node (keep is_upsert o) n))
      ≡ applied_or o (applied n)
applied_cases none n = refl
applied_cases (some m) n = ground arith

module _ (db : GraphDb) (apply : List UpdateMessage) (g : db.Graph) (dict : IsDict apply)
    (valid : all model_validate apply ≡ true) where
  open db use {Graph, node, edge}

  abbrev ups : List UpdateMessage
  ups = grouped has_label all_types (filter is_upsert apply)

  abbrev downs : List UpdateMessage
  downs = grouped has_label all_types (filter (λ m. not (is_upsert m)) apply)

  abbrev written : Graph
  written =
      clear_all db (grouped has_label all_types apply)
        (write_tombstones db downs (write_upserts db ups g))

  last_for-part :
      (j : String) (p : UpdateMessage → Bool)
      → last_for j (grouped has_label all_types (filter p apply)) ≡ keep p (find j apply)
  last_for-part j p =
      last_for-by_label j (filter p apply) (
        all_mono model_validate labelled (filter p apply) labelled-IsValid
          (all-filter model_validate p apply valid))
      ∙ last_for-IsDict j (filter p apply) (filter-IsDict p apply dict)
      ∙ find-filter j p apply dict

  last_for-apply : (j : String) → last_for j (grouped has_label all_types apply) ≡ find j apply
  last_for-apply j =
      last_for-by_label j apply (all_mono model_validate labelled apply labelled-IsValid valid)
      ∙ last_for-IsDict j apply dict

  node-written :
      (j : String)
      → node written j
        ≡ node_or tombstone_node
            (keep (λ m. not (is_upsert m)) (find j apply))
            (node_or upsert_node (keep is_upsert (find j apply)) (node g j))
  node-written j =
      node-clear_all db (grouped has_label all_types apply)
        (write_tombstones db downs (write_upserts db ups g)) j
      ∙ node-write_tombstones db downs (write_upserts db ups g) j
      ∙ ap₂ (node_or tombstone_node) (last_for-part j (λ m. not (is_upsert m))) (
          node-write_upserts db ups g j
          ∙ ap (λ o. node_or upsert_node o (node g j)) (last_for-part j is_upsert))

  edge-written :
      (j : String) (t : RelType) (d : String)
      → edge written j t d ≡ (if is_some (find j apply) then false else edge g j t d)
  edge-written j t d =
      edge-clear_all db (grouped has_label all_types apply)
        (write_tombstones db downs (write_upserts db ups g)) j t d
      ∙ ap₂ (λ o e. if is_some o then false else e) (last_for-apply j)
          (edge-write_tombstones db downs (write_upserts db ups g) j t d
            ∙ edge-write_upserts db ups g j t d)

  all-there-written : all (there db written) (edge_rows apply) ≡ true
  all-there-written =
      all-edge_rows (λ i. is_some (node written i)) apply
        (all_of_In (λ m. is_some (node written m.resource_id)) (filter is_upsert apply)
          λ m i. ground (
            arith,
            last_for-In m (filter is_upsert apply) i,
            last_for-IsDict m.resource_id (filter is_upsert apply)
                (filter-IsDict is_upsert apply dict),
            find-filter m.resource_id is_upsert apply dict,
            node-written m.resource_id,
          ))

  src_known_rows : all src_known (edge_rows apply) ≡ true
  src_known_rows =
      all-edge_rows (λ i. is_some (label_for i)) apply
        (all_mono model_validate labelled (filter is_upsert apply) labelled-IsValid
          (all-filter model_validate is_upsert apply valid))

  -- After the transaction each applied message's resource shows it; all others are as before.
  pub applied-write_batch :
      (j : String)
      → applied (node (write_batch db apply g) j) ≡ applied_or (find j apply) (applied (node g j))
  unfolding write_batch
  applied-write_batch j =
      applied-merge_rows db (sorted_rows (edge_rows apply)) written j
      ∙ ap applied (node-written j)
      ∙ applied_cases (find j apply) (node g j)

  pub edge-write_batch :
      (j : String) (t : RelType) (d : String)
      → edge (write_batch db apply g) j t d
        ≡ (if is_some (find j apply) then states_edge (find j apply) t d else edge g j t d)
  unfolding write_batch
  edge-write_batch j t d = ground (
    arith,
    edge-merge_rows db (sorted_rows (edge_rows apply)) written j t d
        (all-sorted_rows (there db written) (edge_rows apply) all-there-written),
    any-sorted_rows (row_is j t d) (edge_rows apply) src_known_rows
        (dst_known-edge_rows apply valid),
    any-edge_rows j t d apply dict,
    edge-written j t d,
  )
