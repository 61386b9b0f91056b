-- ===== src/Ingest/Pipeline/Written.antt =====
-- What the idempotent writes of src/resgraph/ingest/sink.py leave in the table.
use resgraph.Prelude.{
  lookup, ◌≡◌, refl, sym, ap, subst, ◌∙◌, String, false, none, some, List, [], ◌∷◌, ◌++◌, str_eq,
  eq_iff, arith, In, All, Bool-cases, Option-cases, inl, inr, ◌⊎◌, if◌then◌else◌,
}
use resgraph.Ingest.Pipeline.{insert_new, Sink, insert_all}

module _ {A : Type 0} where
  lookup-append :
      (k : String) (a : A) (rows more : List (String × A))
      → lookup k rows ≡ some a
      → lookup k (rows ++ more) ≡ some a
  lookup-append k a [] more h = absurd (ground arith)
  lookup-append k a ((j, b) ∷ rows) more h = ground (arith, lookup-append k a rows more)

  lookup-last :
      (k j : String) (a : A) (rows : List (String × A))
      → lookup k rows ≡ none
      → lookup k (rows ++ ((j, a) ∷ [])) ≡ (if str_eq k j then some a else none)
  lookup-last k j a [] h = refl
  lookup-last k j a ((i, b) ∷ rows) h = ground (arith, lookup-last k j a rows)

  -- A key that is there keeps its value.
  pub insert_new-keeps :
      (k j : String) (a b : A) (rows : List (String × A))
      → lookup k rows ≡ some b
      → lookup k (insert_new j a rows) ≡ some b
  unfolding insert_new
  insert_new-keeps k j a b rows h = ground (arith, lookup-append k b rows ((j, a) ∷ []) h)

  -- A key that is new gets the value.
  pub insert_new-new :
      (k j : String) (a : A) (rows : List (String × A))
      → lookup k rows ≡ none
      → lookup k (insert_new j a rows) ≡ (if str_eq k j then some a else none)
  unfolding insert_new
  insert_new-new k j a rows h = elim (Option-cases (lookup j rows)) [
    | inl e ↦ rw e (lookup-last k j a rows h)
    | inr (b, e) ↦ elim (Bool-cases (str_eq k j)) [
      | inl f ↦ ground (arith, ap (λ x. lookup x rows) ((eq_iff k j).0 f))
      | inr f ↦ rw (e, f, h)
    ]
  ]

-- `recorded` says what each event key was recorded as: redelivered events carry the same row.
module _ {Event Row : Type 0} (event_key : Event → String) (enrich : Event → Row)
    (digest : List Event → String) (sorted : List String → List String)
    (recorded : String → Row) where
  abbrev pub Recorded : Event → Type 0
  Recorded e = enrich e ≡ recorded (event_key e)

  abbrev pub Has : String → Sink Row → Type 0
  Has k sink = lookup k sink ≡ some (recorded k)

  -- Every row of the table is as it was recorded.
  abbrev pub IsSound : Sink Row → Type 0
  IsSound sink = (k : String) → (lookup k sink ≡ none) ⊎ Has k sink

  abbrev pub IsKeyOf : String → List Event → Type 0
  IsKeyOf k es = (e : Event) × In e es × (event_key e ≡ k)

  insert_new-cases :
      (e : Event) (sink : Sink Row) (k : String)
      → Recorded e
      → IsSound sink
      → (Has k (insert_new (event_key e) (enrich e) sink) × (Has k sink ⊎ (event_key e ≡ k)))
        ⊎ ((lookup k (insert_new (event_key e) (enrich e) sink) ≡ none)
            × (str_eq k (event_key e) ≡ false))
  insert_new-cases e sink k recorded_e sound = elim (sound k) [
    | inr h ↦ inl (insert_new-keeps k (event_key e) (enrich e) (recorded k) sink h, inl h)
    | inl h ↦
        let new = insert_new-new k (event_key e) (enrich e) sink h in
        elim (Bool-cases (str_eq k (event_key e))) [
          | inr f ↦ inr (new ∙ rw f, f)
          | inl f ↦
              let same = sym ((eq_iff k (event_key e)).0 f) in
              inl (new ∙ rw f (ap some (recorded_e ∙ ap recorded same)), inr same)
        ]
  ]

  insert_new-IsSound :
      (e : Event) (sink : Sink Row)
      → Recorded e
      → IsSound sink
      → IsSound (insert_new (event_key e) (enrich e) sink)
  insert_new-IsSound e sink recorded_e sound k = elim (insert_new-cases e sink k recorded_e sound) [
    | inl h ↦ inr h.0
    | inr h ↦ inl h.0
  ]

  insert_new-Has :
      (e : Event) (sink : Sink Row)
      → Recorded e
      → IsSound sink
      → Has (event_key e) (insert_new (event_key e) (enrich e) sink)
  insert_new-Has e sink recorded_e sound =
      elim (insert_new-cases e sink (event_key e) recorded_e sound) [
        | inl h ↦ h.0
        | inr h ↦ ground (arith, (eq_iff (event_key e) (event_key e)).1 refl, h.1)
      ]

  pub insert_all-IsSound :
      (es : List Event) (sink : Sink Row)
      → All Recorded es
      → IsSound sink
      → IsSound (insert_all event_key enrich digest sorted es sink)
  unfolding insert_all
  insert_all-IsSound [] sink h sound = sound
  insert_all-IsSound (e ∷ es) sink h sound =
      insert_all-IsSound es _ h.1 (insert_new-IsSound e sink h.0 sound)

  pub insert_all-keeps :
      (k : String) (es : List Event) (sink : Sink Row)
      → Has k sink
      → Has k (insert_all event_key enrich digest sorted es sink)
  unfolding insert_all
  insert_all-keeps k [] sink h = h
  insert_all-keeps k (e ∷ es) sink h =
      insert_all-keeps k es _ (insert_new-keeps k (event_key e) (enrich e) (recorded k) sink h)

  -- After a write, each of its events is in the table.
  pub insert_all-Has :
      (k : String) (es : List Event) (sink : Sink Row)
      → All Recorded es
      → IsSound sink
      → IsKeyOf k es
      → Has k (insert_all event_key enrich digest sorted es sink)
  unfolding insert_all
  insert_all-Has k [] sink h sound i = absurd i.1
  insert_all-Has k (d ∷ es) sink h sound (e, inl same, at) = insert_all-keeps k es _ (
      subst (λ j. Has j (insert_new (event_key d) (enrich d) sink)) (ap event_key (sym same) ∙ at)
        (insert_new-Has d sink h.0 sound))
  insert_all-Has k (d ∷ es) sink h sound (e, inr i, at) =
      insert_all-Has k es _ h.1 (insert_new-IsSound d sink h.0 sound) (e, i, at)

  -- And what is in the table was there before, or is an event of the write.
  pub insert_all-from :
      (k : String) (es : List Event) (sink : Sink Row)
      → All Recorded es
      → IsSound sink
      → Has k (insert_all event_key enrich digest sorted es sink)
      → Has k sink ⊎ IsKeyOf k es
  unfolding insert_all
  insert_all-from k [] sink h sound there = inl there
  insert_all-from k (e ∷ es) sink h sound there =
      elim (insert_all-from k es _ h.1 (insert_new-IsSound e sink h.0 sound) there) [
        | inr i ↦ inr (i.0, inr i.1, i.2)
        | inl i ↦ elim (insert_new-cases e sink k h.0 sound) [
          | inl (_, inl j) ↦ inl j
          | inl (_, inr j) ↦ inr (e, inl refl, j)
          | inr j ↦ ground (arith, i, j.0)
        ]
      ]
