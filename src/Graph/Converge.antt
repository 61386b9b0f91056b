-- ===== src/Graph/Converge.antt =====
-- Order and replay: what `apply_message` leaves depends on the set of messages alone.
use resgraph.Prelude.{
  String, ◌≡◌, refl, sym, ◌∙◌, ap, Bool, true, false, ◌≤◌, ◌&&◌, if◌then◌else◌, and_left, and_right,
  ltb→lt, Option, none, some, List, [], ◌∷◌, arith, str_eq, eq_iff, ◌⊎◌, ◌↔◌, inl, inr, In, All,
}
use native.Mathlib.Nat.{le_refl}
use resgraph.Schema.{RelType, UpdateMessage, IsValid}
use resgraph.Graph.Db.{GraphDb}
use resgraph.Graph.Apply.{apply_message}
use resgraph.Graph.View.{
  View, is_newer, admit, applied, node_of, states_edge, Shows, apply_message-Shows,
}

-- What a view shows of a resource when the messages of `S` have been applied: nothing if none of
-- them is about it, and else one that is and that has the highest sequence.
abbrev pub Latest : String → (UpdateMessage → Type 0) → Option UpdateMessage → Type 0
Latest j S none = (x : UpdateMessage) → S x → ¬ (x.resource_id ≡ j)
Latest j S (some m) =
    S m
    × (m.resource_id ≡ j)
    × ((x : UpdateMessage) → S x → x.resource_id ≡ j → x.sequence ≤ m.sequence)

-- One writer assigns each resource's sequences: no two messages about it share one.
abbrev pub SingleWriter : (UpdateMessage → Type 0) → Type 0
SingleWriter S =
    (x y : UpdateMessage)
    → S x
    → S y
    → x.resource_id ≡ y.resource_id
    → x.sequence ≡ y.sequence
    → x ≡ y

unfoldable pub admit_all : List UpdateMessage → View → View
admit_all [] v = v
admit_all (m ∷ ms) v = admit_all ms (admit m v)

abbrev And : (UpdateMessage → Type 0) → List UpdateMessage → UpdateMessage → Type 0
And S ms x = S x ⊎ In x ms

Latest-same :
    (j : String) (S T : UpdateMessage → Type 0) (o : Option UpdateMessage)
    → ((x : UpdateMessage) → S x → T x)
    → ((x : UpdateMessage) → T x → S x)
    → Latest j S o
    → Latest j T o
Latest-same j S T none to from l = λ x t. l x (from x t)
Latest-same j S T (some m) to from l = (to m l.0, l.1, λ x t e. l.2 x (from x t) e)

Latest-if :
    (j : String) (S : UpdateMessage → Type 0) (m : UpdateMessage) (o : Option UpdateMessage)
    (b : Bool)
    → (str_eq m.resource_id j && is_newer m o) ≡ b
    → Latest j S o
    → Latest j (λ x. S x ⊎ (x ≡ m)) (if b then some m else o)
Latest-if j S m none true e l = (
  inr refl,
  (eq_iff m.resource_id j).0 (and_left _ _ e),
  λ x h about. elim h [ inl sx ↦ absurd (l x sx about) | inr same ↦ rw same (le_refl _) ],
)
Latest-if j S m (some c) true e l = (
  inr refl,
  (eq_iff m.resource_id j).0 (and_left _ _ e),
  λ x h about. elim h [
    | inl sx ↦ omega (arith, l.2 x sx about, ltb→lt c.sequence m.sequence (and_right _ _ e))
    | inr same ↦ rw same (le_refl _)
  ],
)
Latest-if j S m none false e l = λ x h about. elim h [
  | inl sx ↦ l x sx about
  | inr same ↦
      ground (arith, eq_iff m.resource_id j, ap (λ (y : UpdateMessage). y.resource_id) same)
]
Latest-if j S m (some c) false e l = (
  inl l.0,
  l.1,
  λ x h about. elim h [
    | inl sx ↦ l.2 x sx about
    | inr same ↦ ground (
      arith,
      eq_iff m.resource_id j,
      ap (λ (y : UpdateMessage). y.resource_id) same,
      ap (λ (y : UpdateMessage). y.sequence) same,
    )
  ],
)

pub Latest-admit_all :
    (j : String) (S : UpdateMessage → Type 0) (ms : List UpdateMessage) (v : View)
    → Latest j S (v j)
    → Latest j (And S ms) (admit_all ms v j)
unfolding admit_all
Latest-admit_all j S [] v l =
    Latest-same j S (And S []) (v j) (λ x s. inl s) (λ x h. elim h [ inl s ↦ s | inr n ↦ absurd n ])
      l
Latest-admit_all j S (m ∷ ms) v l =
    Latest-same j (And (λ x. S x ⊎ (x ≡ m)) ms) (And S (m ∷ ms)) (admit_all ms (admit m v) j)
      (λ x h. ground arith) (λ x h. ground arith)
      (Latest-admit_all j (λ x. S x ⊎ (x ≡ m)) ms (admit m v) (Latest-if j S m (v j) _ refl l))

-- With one writer, the same messages leave one value to show.
pub Latest-unique :
    (j : String) (S T : UpdateMessage → Type 0) (o p : Option UpdateMessage)
    → SingleWriter S
    → ((x : UpdateMessage) → S x ↔ T x)
    → Latest j S o
    → Latest j T p
    → o ≡ p
Latest-unique j S T none none one same l k = refl
Latest-unique j S T none (some n) one same l k = absurd (l n ((same n).1 k.0) k.1)
Latest-unique j S T (some m) none one same l k = absurd (k m ((same m).0 l.0) l.1)
Latest-unique j S T (some m) (some n) one same l k = ap some (
    one m n l.0 ((same n).1 k.0) (l.1 ∙ sym k.1)
      (omega (arith, l.2 n ((same n).1 k.0) k.1, k.2 m ((same m).0 l.0) l.1)))

unfoldable pub empty_view : View
empty_view _ = none

Latest-of :
    (j : String) (ms : List UpdateMessage) → Latest j (λ m. In m ms) (admit_all ms empty_view j)
unfolding empty_view
Latest-of j ms =
    Latest-same j (And (λ _. ⊥) ms) (λ m. In m ms) (admit_all ms empty_view j)
      (λ x h. elim h [ inl n ↦ absurd n | inr i ↦ i ]) (λ x i. inr i)
      (Latest-admit_all j (λ _. ⊥) ms empty_view (λ x n. absurd n))

module _ (db : GraphDb) where
  open db use {Graph, node, edge, empty, node-empty, edge-empty}

  -- `apply_message` on each message in turn.
  unfoldable pub apply_each : List UpdateMessage → Graph → Option Graph
  apply_each [] g = some g
  apply_each (m ∷ ms) g = elim (apply_message db m g) [
    | none ↦ none
    | some (g', _) ↦ apply_each ms g'
  ]

  pub empty-Shows : Shows db empty_view empty
  unfolding empty_view
  empty-Shows = record { nodes = λ j. rw node-empty; edges = λ j t d. edge-empty j t d }

  pub apply_each-Shows :
      (ms : List UpdateMessage) (v : View) (g : Graph)
      → All IsValid ms
      → Shows db v g
      → (g' : Graph) × (apply_each ms g ≡ some g') × Shows db (admit_all ms v) g'
  unfolding apply_each admit_all
  apply_each-Shows [] v g ok s = (g, refl, s)
  apply_each-Shows (m ∷ ms) v g ok s =
      let (g1, done, s1) = apply_message-Shows db m v g ok.0 s in
      let (g2, rest, s2) = apply_each-Shows ms (admit m v) g1 ok.1 s1 in
      (g2, rw (done, apply_each) rest, s2)

  -- Two databases that agree on every applied node and on every edge.
  pub record SameState (g h : Graph) : Type 0 where
    pub nodes : (j : String) → applied (node g j) ≡ applied (node h j)
    pub edges : (j : String) (t : RelType) (d : String) → edge g j t d ≡ edge h j t d

  pub Shows-same :
      (v w : View) (g h : Graph)
      → Shows db v g
      → Shows db w h
      → ((j : String) → v j ≡ w j)
      → SameState g h
  Shows-same v w g h s t same = record {
    nodes = λ j. s.nodes j ∙ ap node_of (same j) ∙ sym (t.nodes j);
    edges = λ j r d. s.edges j r d ∙ ap (λ o. states_edge o r d) (same j) ∙ sym (t.edges j r d);
  }

  -- From an empty database, two sequences of deliveries of the same validated messages, in any order
  -- and with any repeats, both succeed, and leave the same applied nodes and the same edges, where
  -- no two different messages on a resource have one sequence.
  pub apply_each_converges :
      (xs ys : List UpdateMessage)
      → All IsValid xs
      → All IsValid ys
      → ((m : UpdateMessage) → In m xs ↔ In m ys)
      → SingleWriter (λ m. In m xs)
      → (g : Graph) × (h : Graph) × (apply_each xs empty ≡ some g)
        × (apply_each ys empty ≡ some h)
        × SameState g h
  apply_each_converges xs ys okx oky same one =
      let (g, dx, sx) = apply_each-Shows xs empty_view empty okx empty-Shows in
      let (h, dy, sy) = apply_each-Shows ys empty_view empty oky empty-Shows in
      (
        g,
        h,
        dx,
        dy,
        Shows-same _ _ g h sx sy
            λ j. Latest-unique j _ _ _ _ one same (Latest-of j xs) (Latest-of j ys),
      )
