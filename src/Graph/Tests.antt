-- ===== src/Graph/Tests.antt =====
-- The write path on concrete messages, over the database of two tables.
use resgraph.Prelude.{
  ℕ, ◌+◌, ◌≡◌, refl, sym, ap, ◌∙◌, false, none, some, List, [], ◌∷◌, ◌↔◌, inl, inr, arith, length,
  In,
}
use resgraph.Schema.{
  delete, upsert, vm, runs_on, UpdateMessage, IsValid, model_validate, id_prefix_matches_type,
  target_prefix_is_a_known_type, label_for, delete_carries_no_payload, attrs_avoid_reserved_keys,
}
use resgraph.Graph.Db.{Tables, tables}
use resgraph.Graph.Apply.{apply_message}
use resgraph.Graph.View.{is_newer, admit, Shows, apply_message-Shows}
use resgraph.Graph.Converge.{
  SingleWriter, admit_all, empty_view, empty-Shows, apply_each, SameState, apply_each_converges,
}
use resgraph.Graph.Batch.{apply_batch}
use resgraph.Graph.Batch.Refines.{apply_batch-Shows, apply_batch-apply_each}

abbrev no_graph : Tables
no_graph = record { nodes = λ _. none; edges = λ _ _ _. false }

abbrev started : UpdateMessage
started = record {
  event_time = 1;
  sequence = 1;
  op = upsert;
  resource_type = vm;
  resource_id = "vm-1";
  attrs = [];
  relationships = (record { rel_type = runs_on; target_id = "host-7" }) ∷ [];
}

abbrev stopped : UpdateMessage
stopped = record {
  event_time = 2;
  sequence = 2;
  op = delete;
  resource_type = vm;
  resource_id = "vm-1";
  attrs = [];
  relationships = [];
}

started-IsValid : IsValid started
unfolding model_validate id_prefix_matches_type target_prefix_is_a_known_type label_for
    delete_carries_no_payload attrs_avoid_reserved_keys
started-IsValid = refl

stopped-IsValid : IsValid stopped
unfolding model_validate id_prefix_matches_type target_prefix_is_a_known_type label_for
    delete_carries_no_payload attrs_avoid_reserved_keys
stopped-IsValid = refl

abbrev in_order : List UpdateMessage
in_order = started ∷ stopped ∷ []

-- Out of order, and with a message delivered twice.
abbrev redelivered : List UpdateMessage
redelivered = stopped ∷ started ∷ stopped ∷ []

same_messages : (m : UpdateMessage) → In m in_order ↔ In m redelivered
same_messages m = ground arith

by_sequence :
    (x y : UpdateMessage) → In x in_order → In y in_order → x.sequence ≡ y.sequence → x ≡ y
by_sequence x y (inl e) (inl f) s = e ∙ sym f
by_sequence x y (inl e) (inr (inl f)) s =
    let first = ap (λ (m : UpdateMessage). m.sequence) e in
    let second = ap (λ (m : UpdateMessage). m.sequence) f in
    absurd (omega (arith, first, second, s))
by_sequence x y (inr (inl e)) (inl f) s =
    let first = ap (λ (m : UpdateMessage). m.sequence) e in
    let second = ap (λ (m : UpdateMessage). m.sequence) f in
    absurd (omega (arith, first, second, s))
by_sequence x y (inr (inl e)) (inr (inl f)) s = e ∙ sym f
by_sequence x y (inr (inr n)) hy s = absurd n
by_sequence x y hx (inr (inr n)) s = absurd n

one_writer : SingleWriter (λ m. In m in_order)
one_writer x y hx hy same_id same_seq = by_sequence x y hx hy same_seq

apply_message-Shows_example :
    (g' : Tables) × (apply_message tables started no_graph
      ≡ some (g', is_newer started (empty_view "vm-1")))
    × Shows tables (admit started empty_view) g'
apply_message-Shows_example =
    apply_message-Shows tables started empty_view no_graph started-IsValid (empty-Shows tables)

apply_batch-Shows_example :
    (g' : Tables) × (applied_count : ℕ) × (skipped : ℕ) × (apply_batch tables redelivered no_graph
      ≡ some (g', (applied_count, skipped)))
    × (applied_count + skipped ≡ length redelivered)
    × Shows tables (admit_all redelivered empty_view) g'
apply_batch-Shows_example =
    apply_batch-Shows tables redelivered empty_view no_graph
      (stopped-IsValid, (started-IsValid, (stopped-IsValid, tt))) (empty-Shows tables)

apply_batch-apply_each_example :
    (g' : Tables) × (h : Tables) × (applied_count : ℕ) × (skipped : ℕ) × (apply_batch tables
        redelivered no_graph
      ≡ some (g', (applied_count, skipped)))
    × (apply_each tables redelivered no_graph ≡ some h)
    × (applied_count + skipped ≡ length redelivered)
    × SameState tables g' h
apply_batch-apply_each_example =
    apply_batch-apply_each tables redelivered empty_view no_graph
      (stopped-IsValid, (started-IsValid, (stopped-IsValid, tt))) (empty-Shows tables)

apply_each_converges_example :
    (g : Tables) × (h : Tables) × (apply_each tables in_order no_graph ≡ some g)
    × (apply_each tables redelivered no_graph ≡ some h)
    × SameState tables g h
apply_each_converges_example =
    apply_each_converges tables in_order redelivered (started-IsValid, (stopped-IsValid, tt))
      (stopped-IsValid, (started-IsValid, (stopped-IsValid, tt))) same_messages one_writer
