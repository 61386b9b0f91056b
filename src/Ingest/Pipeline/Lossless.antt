-- ===== src/Ingest/Pipeline/Lossless.antt =====
-- The invariant of the spool, the queue and the sink of src/resgraph/ingest: where each batch is.
use resgraph.Prelude.{
  lookup, ◌≡◌, sym, ap, subst, String, some, List, str_eq, eq_iff, In, All, Bool-cases, inl, inr,
  ◌⊎◌,
}
use resgraph.Ingest.Queue.{refs_of, ack}
use resgraph.Ingest.Queue.Delivery.{refs_of-ack}
use resgraph.Ingest.Queue.Claimed.{ack-refs_of}
use resgraph.Ingest.Pipeline.{
  Raw, whole, torn, Spool, Sink, System, insert_all, sink_write, flush_batch, flush,
}
use resgraph.Ingest.Pipeline.Written.{
  Recorded, Has, IsSound, IsKeyOf, insert_all-IsSound, insert_all-keeps, insert_all-Has,
  insert_all-from,
}

abbrev events_of : {Event : Type 0} → List Event → Raw Event → List Event
events_of b (whole c) = c
events_of b torn = b

pub whole-inj : {Event : Type 0} (b c : List Event) → whole b ≡ whole c → b ≡ c
whole-inj b c h = ap (events_of b) h

module _ {Event Row : Type 0} (event_key : Event → String) (enrich : Event → Row)
    (digest : List Event → String) (sorted : List String → List String)
    (recorded : String → Row) where
  abbrev pub IsRecorded : List Event → Type 0
  IsRecorded batch = All (Recorded event_key enrich digest sorted recorded) batch

  abbrev pub Holds : String → Sink Row → Type 0
  Holds k sink = Has event_key enrich digest sorted recorded k sink

  abbrev pub KeyOf : String → List Event → Type 0
  KeyOf k batch = IsKeyOf event_key enrich digest sorted recorded k batch

  abbrev pub Spooled : String → Spool Event → Type 0
  Spooled i files = (batch : List Event) × (lookup i files ≡ some (whole batch))

  -- A file is a batch, each of whose events is as recorded.
  abbrev pub Intact : Raw Event → Type 0
  Intact raw = (batch : List Event) × (raw ≡ whole batch) × IsRecorded batch

  -- What holds of the system between any two actions: the queue refers to files of the spool, and
  -- each row of the sink is as recorded, of an event of the spool.
  pub record Lossless (sys : System Event Row) : Type 0 where
    pub queued_spooled : (i : String) → In i (refs_of sys.queue) → Spooled i sys.spool
    pub batches : (i : String) (raw : Raw Event) → lookup i sys.spool ≡ some raw → Intact raw
    pub sound : IsSound event_key enrich digest sorted recorded sys.sink
    pub sunk_spooled :
        (k : String)
        → Holds k sys.sink
        → (i : String) × (batch : List Event) × (lookup i sys.spool ≡ some (whole batch))
          × KeyOf k batch

  pub lookup-IsRecorded :
      (sys : System Event Row)
      → Lossless sys
      → (i : String) (batch : List Event) → lookup i sys.spool ≡ some (whole batch)
      → IsRecorded batch
  lookup-IsRecorded sys h i batch e =
      let (other, same, good) = h.batches i (whole batch) e in
      subst IsRecorded (sym (whole-inj batch other same)) good

  -- The batch `i` is in the spool, and each of its events in the sink.
  abbrev pub Sunk : String → System Event Row → Type 0
  Sunk i sys =
      (batch : List Event) × (lookup i sys.spool ≡ some (whole batch))
      × ((k : String) → KeyOf k batch → Holds k sys.sink)

  -- It waits in the queue, or it is in the sink.
  abbrev pub Safe : String → System Event Row → Type 0
  Safe i sys = In i (refs_of sys.queue) ⊎ Sunk i sys

  -- From one state to a later one.
  pub record Keeps (sys sys' : System Event Row) : Type 0 where
    pub spool_kept :
        (i : String) (raw : Raw Event)
        → lookup i sys.spool ≡ some raw
        → lookup i sys'.spool ≡ some raw
    pub safe_kept : (i : String) → Safe i sys → Safe i sys'

  pub Keeps-trans : (a b c : System Event Row) → Keeps a b → Keeps b c → Keeps a c
  Keeps-trans a b c h k = record {
    spool_kept = λ i raw e. k.spool_kept i raw (h.spool_kept i raw e);
    safe_kept = λ i s. k.safe_kept i (h.safe_kept i s);
  }

  unfoldable pub flushed : List Event → System Event Row → System Event Row
  unfolding sink_write
  flushed events sys = record sys {
    sink = insert_all event_key enrich digest sorted events sys.sink;
  }

  -- What `flush` does of a batch in the spool.
  pub flush-Lossless :
      (i : String) (batch : List Event) (sys : System Event Row)
      → Lossless sys
      → lookup i sys.spool ≡ some (whole batch)
      → (flush event_key enrich digest sorted i sys ≡ some (flushed batch sys))
        × Lossless (flushed batch sys)
        × Keeps sys (flushed batch sys)
        × Sunk i (flushed batch sys)
  unfolding flush flushed flush_batch sink_write
  flush-Lossless i batch sys h e =
      let recorded_all = lookup-IsRecorded sys h i batch e in
      let keeps =
        λ (k : String). insert_all-keeps event_key enrich digest sorted recorded k batch sys.sink in
      (
        ap (λ o. flush_batch event_key enrich digest sorted o sys) e,
        record {
          queued_spooled = h.queued_spooled;
          batches = h.batches;
          sound =
              insert_all-IsSound event_key enrich digest sorted recorded batch sys.sink recorded_all
                h.sound;
          sunk_spooled = λ k there.
              elim (insert_all-from event_key enrich digest sorted recorded k batch sys.sink
                recorded_all h.sound there) [
                  | inl old ↦ h.sunk_spooled k old
                  | inr new ↦ (i, batch, e, new)
                ];
        },
        record {
          spool_kept = λ j b f. f;
          safe_kept = λ j s. elim s [
            | inl q ↦ inl q
            | inr (b, f, all_in) ↦ inr (b, f, λ k key. keeps k (all_in k key))
          ];
        },
        (
          batch,
          e,
          λ k key.
              insert_all-Has event_key enrich digest sorted recorded k batch sys.sink recorded_all
                h.sound key,
        ),
      )

  -- And an acknowledgement, of a batch in the sink.
  pub ack-Lossless :
      (i : String) (sys : System Event Row)
      → Lossless sys
      → Sunk i sys
      → Lossless (record sys { queue = ack i sys.queue })
        × Keeps sys (record sys { queue = ack i sys.queue })
  ack-Lossless i sys h sunk = (
    record {
      queued_spooled = λ j q. h.queued_spooled j (ack-refs_of j i sys.queue q);
      batches = h.batches;
      sound = h.sound;
      sunk_spooled = h.sunk_spooled;
    },
    record {
      spool_kept = λ j b f. f;
      safe_kept = λ j s. elim s [
        | inr there ↦ inr there
        | inl q ↦ elim (Bool-cases (str_eq j i)) [
          | inl same ↦ inr (subst (λ l. Sunk l sys) (sym ((eq_iff j i).0 same)) sunk)
          | inr other ↦ inl (refs_of-ack j i sys.queue q other)
        ]
      ];
    },
  )
