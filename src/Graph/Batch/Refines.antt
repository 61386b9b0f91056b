-- ===== src/Graph/Batch/Refines.antt =====
-- `apply_batch` against `apply_message`: the batched transaction shows what one message at a time
-- would.
use resgraph.Prelude.{
  ℕ, String, ◌+◌, ◌-◌, ◌≡◌, refl, sym, ◌∙◌, ap, Bool, true, some, List, [], ◌∷◌, arith, length,
  filter, all, All, inl, inr, Option-cases, ◌≤◌,
}
use resgraph.Schema.{UpdateMessage, model_validate, IsValid}
use resgraph.Graph.Db.{GraphDb}
use resgraph.Graph.View.{View, Shows, is_stale-Shows}
use resgraph.Graph.Converge.{admit_all, apply_each, apply_each-Shows, SameState, Shows-same}
use resgraph.Graph.Batch.{
  pick_best, is_fresh, write_batch, labels_known, apply_batch_tx, apply_batch,
}
use resgraph.Graph.Batch.Best.{
  find, IsDict, pick_best-IsDict, length-pick_best, combine, admit_all-pick_best, keep, find-filter,
  filter-IsDict,
}
use resgraph.Graph.Batch.Rows.{labelled, all_mono, or_else}
use resgraph.Graph.Batch.Valid.{
  all-pick_best, all-filter, all-IsValid, labelled-IsValid, dst_known-edge_rows, find_id,
}
use resgraph.Graph.Batch.Written.{applied-write_batch, edge-write_batch}

length-filter : (p : UpdateMessage → Bool) (l : List UpdateMessage) → length (filter p l) ≤ length l
length-filter p [] = omega arith
length-filter p (m ∷ l) = ground (arith, length-filter p l)

module _ (db : GraphDb) where
  open db use {Graph, node, edge}

  -- The watermark in the database and the one in the view let the same messages pass.
  fresh_shown :
      (v : View) (g : Graph) (j : String) (best : List UpdateMessage)
      → Shows db v g
      → combine (find j best) (v j) ≡ or_else (keep (is_fresh db g) (find j best)) (v j)
  fresh_shown v g j best s = elim (Option-cases (find j best)) [
    | inl absent ↦ rw absent
    | inr (m, e) ↦
        rw e (ground (arith, is_stale-Shows db m v g m.resource_id s, find_id j m best e))
  ]

  module _ (ms : List UpdateMessage) (v : View) (g : Graph) (ok : All IsValid ms)
      (s : Shows db v g) where
    abbrev winners : List UpdateMessage
    winners = pick_best ms []

    abbrev passed : List UpdateMessage
    passed = filter (is_fresh db g) winners

    winners_valid : all model_validate winners ≡ true
    winners_valid = all-pick_best model_validate ms [] (all-IsValid ms ok) refl

    passed_valid : all model_validate passed ≡ true
    passed_valid = all-filter model_validate (is_fresh db g) winners winners_valid

    passed-IsDict : IsDict passed
    passed-IsDict = filter-IsDict (is_fresh db g) winners (pick_best-IsDict ms [] tt)

    shown : (j : String) → admit_all ms v j ≡ or_else (find j passed) (v j)
    shown j =
        admit_all-pick_best j ms v
        ∙ fresh_shown v g j winners s
        ∙ ap (λ o. or_else o (v j))
            (sym (find-filter j (is_fresh db g) winners (pick_best-IsDict ms [] tt)))

    write_batch-Shows : Shows db (admit_all ms v) (write_batch db passed g)
    write_batch-Shows = record {
      nodes = λ j.
          ground (
            arith,
            applied-write_batch db passed g passed-IsDict passed_valid j,
            shown j,
            s.nodes j,
          );
      edges = λ j t d. ground (
        arith,
        edge-write_batch db passed g passed-IsDict passed_valid j t d,
        shown j,
        s.edges j t d,
      );
    }

    labels_known_lem : labels_known db winners passed ≡ true
    labels_known_lem = ground (
      arith,
      all_mono model_validate labelled winners labelled-IsValid winners_valid,
      dst_known-edge_rows passed passed_valid,
    )

    apply_batch_tx-Shows :
        (apply_batch_tx db ms g
          ≡ some (write_batch db passed g, (length passed, length ms - length passed)))
        × (length passed ≤ length ms)
    unfolding apply_batch_tx
    apply_batch_tx-Shows =
        let fewer = length-filter (is_fresh db g) winners in
        let least = length-pick_best ms [] in
        let within : length passed ≤ length ms = omega (arith, fewer, least) in
        (ground (arith, labels_known_lem, fewer, least), within)

  -- On a database that shows a view, a batch of validated messages does not raise, counts every
  -- message as applied or skipped, and leaves the database showing the view that admits them in turn.
  pub apply_batch-Shows :
      (ms : List UpdateMessage) (v : View) (g : Graph)
      → All IsValid ms
      → Shows db v g
      → (g' : Graph) × (applied_count : ℕ) × (skipped : ℕ) × (apply_batch db ms g
          ≡ some (g', (applied_count, skipped)))
        × (applied_count + skipped ≡ length ms)
        × Shows db (admit_all ms v) g'
  unfolding apply_batch admit_all
  apply_batch-Shows [] v g ok s = (g, 0, 0, refl, refl, s)
  apply_batch-Shows (m ∷ ms) v g ok s =
      let (done, within) = apply_batch_tx-Shows (m ∷ ms) v g ok s in
      let l = passed (m ∷ ms) v g ok s in
      (
        write_batch db l g,
        length l,
        length (m ∷ ms) - length l,
        done,
        omega (arith, within),
        write_batch-Shows (m ∷ ms) v g ok s,
      )

  -- On a database that shows a view, `apply_batch` on validated messages and `apply_message` on each
  -- in turn both succeed, and agree on every applied node and every edge; the batch's counts add up
  -- to its length.
  pub apply_batch-apply_each :
      (ms : List UpdateMessage) (v : View) (g : Graph)
      → All IsValid ms
      → Shows db v g
      → (g' : Graph) × (h : Graph) × (applied_count : ℕ) × (skipped : ℕ) × (apply_batch db ms g
          ≡ some (g', (applied_count, skipped)))
        × (apply_each db ms g ≡ some h)
        × (applied_count + skipped ≡ length ms)
        × SameState db g' h
  apply_batch-apply_each ms v g ok s =
      let (g', a, k, batch, counts, sb) = apply_batch-Shows ms v g ok s in
      let (h, each, se) = apply_each-Shows db ms v g ok s in
      (
        g',
        h,
        a,
        k,
        batch,
        each,
        counts,
        Shows-same db (admit_all ms v) (admit_all ms v) g' h sb se (λ j. refl),
      )
