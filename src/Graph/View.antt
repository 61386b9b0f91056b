-- ===== src/Graph/View.antt =====
-- What the hot store promises: for each resource it shows the statement of one message. A view says
-- which, and `Shows` relates it to the database. Phantom nodes, which only mark the far end of an
-- edge, are no part of a view.
use resgraph.Prelude.{
  ℕ, String, ◌≡◌, refl, Bool, true, false, not, ◌&&◌, ◌||◌, Option, none, some, List, [], ◌∷◌,
  arith, str_eq, eq_iff, all, ltb, ◌∙◌, all_cons, if◌then◌else◌, Bool-cases, inl, inr,
}
use resgraph.Schema.{
  Op, delete, upsert, RelType, UpdateMessage, Relationship, target_prefix_is_a_known_type,
  known_label, IsValid, label_for-IsValid, relationships-IsValid,
}
use resgraph.Graph.Db.{Node, GraphDb, is_some, rel_eq}
use resgraph.Graph.Apply.{
  watermark_of, is_stale, upsert_node, tombstone_node, create_edges, write_upsert, write_tombstone,
  write, apply_tx, apply_message,
}

abbrev pub View : Type 0
View = String → Option UpdateMessage

-- The message's sequence is above the one that is shown.
abbrev pub is_newer : UpdateMessage → Option UpdateMessage → Bool
is_newer m none = true
is_newer m (some shown) = ltb shown.sequence m.sequence

abbrev pub admit : UpdateMessage → View → View
admit m v j = if str_eq m.resource_id j && is_newer m (v j) then some m else v j

abbrev pub node_by_op : Op → UpdateMessage → Node
node_by_op upsert m = upsert_node m
node_by_op delete m = tombstone_node m

abbrev pub node_of : Option UpdateMessage → Option Node
node_of none = none
node_of (some m) = some (node_by_op m.op m)

abbrev pub mentions : RelType → String → List Relationship → Bool
mentions t d [] = false
mentions t d (r ∷ rs) = rel_eq r.rel_type t && str_eq r.target_id d || mentions t d rs

abbrev pub edges_by_op : Op → UpdateMessage → RelType → String → Bool
edges_by_op upsert m t d = mentions t d m.relationships
edges_by_op delete m t d = false

abbrev pub states_edge : Option UpdateMessage → RelType → String → Bool
states_edge none t d = false
states_edge (some m) t d = edges_by_op m.op m t d

abbrev if_applied : Option ℕ → Node → Option Node
if_applied none n = none
if_applied (some _) n = some n

-- A node that some message was applied to; a phantom counts as absent.
abbrev pub applied : Option Node → Option Node
applied none = none
applied (some n) = if_applied n.applied_seq n

module _ (db : GraphDb) where
  open db use {
    Graph, node, edge, write_node, clear_edges, merge_edge, node-write_node, edge-write_node,
    node-clear_edges, edge-clear_edges, node-merge_edge, edge-merge_edge,
  }

  -- The database shows the view: the same managed state and attributes, and the same edges.
  pub record Shows (v : View) (g : Graph) : Type 0 where
    pub nodes : (j : String) → applied (node g j) ≡ node_of (v j)
    pub edges : (j : String) (t : RelType) (d : String) → edge g j t d ≡ states_edge (v j) t d

  pub applied-merge_edge :
      (s : String) (r : RelType) (e : String) (g : Graph) (j : String)
      → applied (node (merge_edge s r e g) j) ≡ applied (node g j)
  applied-merge_edge s r e g j = ground (arith, node-merge_edge s r e g j)

  pub there-merge_edge :
      (s : String) (r : RelType) (e : String) (g : Graph) (j : String)
      → is_some (node g j) ≡ true
      → is_some (node (merge_edge s r e g) j) ≡ true
  there-merge_edge s r e g j h = ground (arith, node-merge_edge s r e g j)

  -- What `create_edges` leaves: every stated edge, every older edge, and the same applied nodes.
  pub record Created (sid : String) (rels : List Relationship) (g g' : Graph) : Type 0 where
    pub nodes : (j : String) → applied (node g' j) ≡ applied (node g j)
    pub edges :
        (j : String) (t : RelType) (d : String)
        → edge g' j t d ≡ (str_eq sid j && mentions t d rels || edge g j t d)

  pub create_edges-Created :
      (sid : String) (rels : List Relationship) (g : Graph)
      → all target_prefix_is_a_known_type rels ≡ true
      → is_some (node g sid) ≡ true
      → (g' : Graph) × (create_edges db sid rels g ≡ some g') × Created sid rels g g'
  unfolding create_edges
  create_edges-Created sid [] g ok there =
      (g, refl, record { nodes = λ j. refl; edges = λ j t d. ground arith })
  create_edges-Created sid (r ∷ rels) g ok there =
      let (this, others) = all_cons target_prefix_is_a_known_type r rels ok in
      let (_, known) = known_label r this in
      let (g', done, c) =
        create_edges-Created sid rels (merge_edge sid r.rel_type r.target_id g) others
          (there-merge_edge sid r.rel_type r.target_id g sid there) in
      (
        g',
        rw (known, create_edges) done,
        record {
          nodes = λ j. c.nodes j ∙ applied-merge_edge sid r.rel_type r.target_id g j;
          edges = λ j t d.
              ground (arith, c.edges j t d, edge-merge_edge sid r.rel_type r.target_id g j t d);
        },
      )

  write_upsert-Shows :
      (m : UpdateMessage) (v : View) (g : Graph)
      → IsValid m
      → Shows v g
      → m.op ≡ upsert
      → is_newer m (v m.resource_id) ≡ true
      → (g' : Graph) × (write_upsert db m g ≡ some g') × Shows (admit m v) g'
  unfolding write_upsert
  write_upsert-Shows m v g ok s is_upsert newer =
      let i = m.resource_id in
      let g1 = write_node i (upsert_node m) g in
      let g2 = clear_edges i g1 in
      let (g', done, c) = create_edges-Created i m.relationships g2 (relationships-IsValid m ok) (
        ground
          (arith, node-clear_edges i g1 i, node-write_node i (upsert_node m) g i, eq_iff i i)) in
      (
        g',
        done,
        record {
          nodes = λ j. ground (
            arith,
            c.nodes j,
            node-clear_edges i g1 j,
            node-write_node i (upsert_node m) g j,
            eq_iff i j,
            s.nodes j,
          );
          edges = λ j t d. ground (
            arith,
            c.edges j t d,
            edge-clear_edges i g1 j t d,
            edge-write_node i (upsert_node m) g j t d,
            eq_iff i j,
            s.edges j t d,
          );
        },
      )

  write_tombstone-Shows :
      (m : UpdateMessage) (v : View) (g : Graph)
      → Shows v g
      → m.op ≡ delete
      → is_newer m (v m.resource_id) ≡ true
      → Shows (admit m v) (write_tombstone db m g)
  unfolding write_tombstone
  write_tombstone-Shows m v g s is_delete newer = record {
    nodes = λ j. ground (
      arith,
      node-clear_edges m.resource_id (write_node m.resource_id (tombstone_node m) g) j,
      node-write_node m.resource_id (tombstone_node m) g j,
      eq_iff m.resource_id j,
      s.nodes j,
    );
    edges = λ j t d. ground (
      arith,
      edge-clear_edges m.resource_id (write_node m.resource_id (tombstone_node m) g) j t d,
      edge-write_node m.resource_id (tombstone_node m) g j t d,
      eq_iff m.resource_id j,
      s.edges j t d,
    );
  }

  -- The watermark in the database is the one of the view, so both give one verdict.
  pub is_stale-Shows :
      (m : UpdateMessage) (v : View) (g : Graph) (j : String)
      → Shows v g
      → is_stale m (watermark_of (node g j)) ≡ not (is_newer m (v j))
  is_stale-Shows m v g j s = ground (arith, s.nodes j)

  admit_stale :
      (m : UpdateMessage) (v : View) (g : Graph)
      → Shows v g
      → is_newer m (v m.resource_id) ≡ false
      → Shows (admit m v) g
  admit_stale m v g s stale = record {
    nodes = λ j. ground (arith, s.nodes j, eq_iff m.resource_id j);
    edges = λ j t d. ground (arith, s.edges j t d, eq_iff m.resource_id j);
  }

  by_op-Shows :
      (o : Op) (m : UpdateMessage) (v : View) (g : Graph)
      → m.op ≡ o
      → IsValid m
      → Shows v g
      → is_newer m (v m.resource_id) ≡ true
      → (g' : Graph) × (write db o m g ≡ some g') × Shows (admit m v) g'
  by_op-Shows upsert m v g e ok s newer = write_upsert-Shows m v g ok s e newer
  by_op-Shows delete m v g e ok s newer =
      (write_tombstone db m g, refl, write_tombstone-Shows m v g s e newer)

  apply_tx-Shows :
      (m : UpdateMessage) (v : View) (g : Graph)
      → IsValid m
      → Shows v g
      → (g' : Graph) × (apply_tx db m g ≡ some (g', is_newer m (v m.resource_id)))
        × Shows (admit m v) g'
  unfolding apply_tx
  apply_tx-Shows m v g ok s = elim (Bool-cases (is_newer m (v m.resource_id))) [
    | inl newer ↦
        let (g', done, shows) = by_op-Shows m.op m v g refl ok s newer in
        (g', rw (is_stale-Shows m v g m.resource_id s, newer, done), shows)
    | inr stale ↦ (g, rw (is_stale-Shows m v g m.resource_id s, stale), admit_stale m v g s stale)
  ]

  -- On a database that shows a view, a validated message is applied exactly when it is newer than
  -- what the view shows of its resource, and the database then shows the view that admits it.
  pub apply_message-Shows :
      (m : UpdateMessage) (v : View) (g : Graph)
      → IsValid m
      → Shows v g
      → (g' : Graph) × (apply_message db m g ≡ some (g', is_newer m (v m.resource_id)))
        × Shows (admit m v) g'
  unfolding apply_message
  apply_message-Shows m v g ok s =
      rw (label_for-IsValid m ok, apply_message) (apply_tx-Shows m v g ok s)
