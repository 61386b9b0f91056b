-- ===== src/Graph/Db.antt =====
-- The graph database that src/resgraph/graph/ingest.py writes to (Memgraph, over Bolt): a service,
-- so a parameter. Each operation is one statement of that file, and its laws are what Cypher says of
-- `MATCH`, `MERGE`, `SET` and `DELETE`. A label is a function of the id, so nodes are named by id.
use resgraph.Prelude.{
  ℕ, String, ◌≡◌, refl, Bool, true, false, ◌&&◌, ◌||◌, Option, none, some, [], str_eq,
  if◌then◌else◌,
}
use resgraph.Schema.{Attrs, RelType, runs_on, attached_to, routes_to, member_of}

-- A node's properties: the ones that the store manages, and the user's attributes.
pub record Node : Type 0 where
  pub applied_seq : Option ℕ
  pub deleted : Bool
  pub deleted_seq : Option ℕ
  pub phantom : Bool
  pub attrs : Attrs

-- `MERGE (t {id}) ON CREATE SET t.phantom = true`
abbrev pub phantom_node : Node
phantom_node = record {
  applied_seq = none;
  deleted = false;
  deleted_seq = none;
  phantom = true;
  attrs = [];
}

abbrev pub is_some {ℓ} : {A : Type ℓ} → Option A → Bool
is_some none = false
is_some (some _) = true

abbrev pub is_none {ℓ} : {A : Type ℓ} → Option A → Bool
is_none none = true
is_none (some _) = false

abbrev pub rel_eq : RelType → RelType → Bool
rel_eq runs_on runs_on = true
rel_eq attached_to attached_to = true
rel_eq routes_to routes_to = true
rel_eq member_of member_of = true
rel_eq _ _ = false

pub record GraphDb : Type 1 where
  pub Graph : Type 0
  -- `MATCH (n {id: j}) RETURN properties(n)`
  pub node : Graph → String → Option Node
  -- is there an edge of this type from the first id to the second
  pub edge : Graph → String → RelType → String → Bool
  pub empty : Graph
  -- `MERGE (n {id: i}) SET n = props`
  pub write_node : String → Node → Graph → Graph
  -- `MATCH ({id: i})-[r]->() WHERE type(r) IN deps DELETE r`
  pub clear_edges : String → Graph → Graph
  -- `MATCH (s {id}) MERGE (t {id}) ON CREATE SET t.phantom = true MERGE (s)-[:type]->(t)`
  pub merge_edge : String → RelType → String → Graph → Graph
  pub node-empty : (j : String) → node empty j ≡ none
  pub edge-empty : (j : String) (t : RelType) (d : String) → edge empty j t d ≡ false
  pub node-write_node :
      (i : String) (n : Node) (g : Graph) (j : String)
      → node (write_node i n g) j ≡ (if str_eq i j then some n else node g j)
  pub edge-write_node :
      (i : String) (n : Node) (g : Graph) (j : String) (t : RelType) (d : String)
      → edge (write_node i n g) j t d ≡ edge g j t d
  pub node-clear_edges : (i : String) (g : Graph) (j : String) → node (clear_edges i g) j ≡ node g j
  pub edge-clear_edges :
      (i : String) (g : Graph) (j : String) (t : RelType) (d : String)
      → edge (clear_edges i g) j t d ≡ (if str_eq i j then false else edge g j t d)
  pub node-merge_edge :
      (s : String) (r : RelType) (e : String) (g : Graph) (j : String)
      → node (merge_edge s r e g) j ≡ (
          if is_some (node g s) && str_eq e j && is_none (node g j)
          then some phantom_node
          else node g j)
  pub edge-merge_edge :
      (s : String) (r : RelType) (e : String) (g : Graph) (j : String) (t : RelType) (d : String)
      → edge (merge_edge s r e g) j t d
        ≡ (is_some (node g s) && str_eq s j && rel_eq r t && str_eq e d || edge g j t d)

-- A database held as two functions: it meets the laws.
pub record Tables : Type 0 where
  pub nodes : String → Option Node
  pub edges : String → RelType → String → Bool

abbrev pub tables : GraphDb
tables = record {
  Graph = Tables;
  node = λ g j. g.nodes j;
  edge = λ g j t d. g.edges j t d;
  empty = record { nodes = λ _. none; edges = λ _ _ _. false };
  write_node = λ i n g. record g { nodes = λ j. if str_eq i j then some n else g.nodes j };
  clear_edges = λ i g. record g { edges = λ j t d. if str_eq i j then false else g.edges j t d };
  merge_edge = λ s r e g. record {
    nodes = λ j.
        if is_some (g.nodes s) && str_eq e j && is_none (g.nodes j)
        then some phantom_node
        else g.nodes j;
    edges = λ j t d. is_some (g.nodes s) && str_eq s j && rel_eq r t && str_eq e d || g.edges j t d;
  };
  node-empty = λ _. refl;
  edge-empty = λ _ _ _. refl;
  node-write_node = λ _ _ _ _. refl;
  edge-write_node = λ _ _ _ _ _ _. refl;
  node-clear_edges = λ _ _ _. refl;
  edge-clear_edges = λ _ _ _ _ _. refl;
  node-merge_edge = λ _ _ _ _ _. refl;
  edge-merge_edge = λ _ _ _ _ _ _ _. refl;
}
