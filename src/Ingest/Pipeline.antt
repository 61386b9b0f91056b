-- ===== src/Ingest/Pipeline.antt =====
-- src/resgraph/ingest/sink.py, worker.py and the spool of spool.py: raw batches, each under the digest
-- of its text; the queue of their references; and the sink, a table with a row per event key. `enrich`
-- makes the row of an event, whose key is `event_key`; `digest` is the hash; `sorted` is Python's.
pub mod Written
pub mod Lossless
pub mod Drain
pub mod Actions
pub mod Replay
pub mod Named
use resgraph.Prelude.{
  lookup, keys_of, ℕ, zero, suc, ◌+◌, ◌-◌, String, Bool, true, false, not, Option, none, some, List,
  [], ◌∷◌, ◌++◌, map, str_eq, length, take, drop, any, if◌then◌else◌,
}
use resgraph.Ingest.Queue.{RefQueue, enqueue, claim, ack, reclaim}

-- What a file of the spool reads as: a batch, or a text that is no batch, whose last line is cut.
pub data Raw (Event : Type 0) : Type 0 where
  whole : (batch : List Event) → Raw Event
  torn : Raw Event

-- How `write_text` ends: it is done, or the producer dies in it, with `kept` whole lines in the file,
-- and with a part of the next line or not.
pub data Writing : Type 0 where
  done : Writing
  cut_at : (kept : ℕ) (in_line : Bool) → Writing

-- The files of the spool, by reference.
abbrev pub Spool : Type 0 → Type 0
Spool Event = List (String × Raw Event)

abbrev pub Sink : Type 0 → Type 0
Sink Row = List (String × Row)

module _ {A : Type 0} where
  abbrev pub is_some : Option A → Bool
  is_some none = false
  is_some (some a) = true

  -- `INSERT … ON CONFLICT DO NOTHING`, and a file that is written only where there is none.
  unfoldable pub insert_new : String → A → List (String × A) → List (String × A)
  insert_new k a rows = if is_some (lookup k rows) then rows else rows ++ ((k, a) ∷ [])

  -- `Spool.refs`, in the order in which the files were made.
  abbrev pub refs_of_files : List (String × A) → List String
  refs_of_files files = map (λ (f : String × A). f.0) files

-- The system that producers and workers share.
pub record System (Event Row : Type 0) : Type 0 where
  pub spool : Spool Event
  pub queue : RefQueue
  pub sink : Sink Row

-- What may happen: a producer spools and enqueues a batch; a producer dies between the two; a producer
-- dies while it writes the file of a batch; a worker
-- drains, and dies after `handled` of the references that it claimed, perhaps in front of the next
-- acknowledgement; the claims of dead workers are taken back.
pub data Action (Event : Type 0) : Type 0 where
  produce : (batch : List Event) (now : ℕ) → Action Event
  spool_only : (batch : List Event) → Action Event
  spool_cut : (batch : List Event) (kept : ℕ) (in_line : Bool) → Action Event
  work : (limit now handled : ℕ) (flushes_next : Bool) → Action Event
  take_back : (older now : ℕ) → Action Event

module _ {Event Row : Type 0} (event_key : Event → String) (enrich : Event → Row)
    (digest : List Event → String) (sorted : List String → List String) where
  -- What `write_text` leaves in a new file; it writes a line for each event.
  abbrev pub body_left : Writing → List Event → Raw Event
  body_left done batch = whole batch
  body_left (cut_at kept true) batch = torn
  body_left (cut_at kept false) batch = whole (take kept batch)

  -- `Spool.write`: the reference, and the files.
  unfoldable pub spool_write : Writing → List Event → Spool Event → String × Spool Event
  unfolding insert_new
  spool_write writing batch files =
      (digest batch, insert_new (digest batch) (body_left writing batch) files)

  -- `Sink.write`
  unfoldable pub insert_all : List Event → Sink Row → Sink Row
  unfolding insert_new
  insert_all [] sink = sink
  insert_all (e ∷ es) sink = insert_all es (insert_new (event_key e) (enrich e) sink)

  unfoldable pub sink_write : List Event → Sink Row → ℕ × Sink Row
  unfolding insert_all
  sink_write events sink = let after = insert_all events sink in (length after - length sink, after)

  abbrev pub flush_batch : Option (Raw Event) → System Event Row → Option (System Event Row)
  unfolding sink_write
  flush_batch none sys = none
  flush_batch (some torn) sys = none
  flush_batch (some (whole events)) sys =
      some (record sys { sink = (sink_write events sys.sink).1 })

  -- Read raw, enrich and write; `none` is the `FileNotFoundError` of a missing batch, or the
  -- `JSONDecodeError` of a torn one.
  unfoldable pub flush : String → System Event Row → Option (System Event Row)
  unfolding flush_batch
  flush ref sys = flush_batch (lookup ref sys.spool) sys

  abbrev pub acked : String → Option (System Event Row) → Option (System Event Row)
  unfolding ack
  acked ref none = none
  acked ref (some sys) = some (record sys { queue = ack ref sys.queue })

  abbrev pub then_on :
      Option (System Event Row)
      → (System Event Row → Option (System Event Row))
      → Option (System Event Row)
  then_on none next = none
  then_on (some sys) next = next sys

  -- The loop of `drain`.
  unfoldable pub drain_refs : List String → System Event Row → Option (System Event Row)
  unfolding flush acked
  drain_refs [] sys = some sys
  drain_refs (ref ∷ refs) sys = then_on (acked ref (flush ref sys)) (λ sys'. drain_refs refs sys')

  abbrev pub flush_next : Bool → List String → System Event Row → Option (System Event Row)
  unfolding flush
  flush_next true (ref ∷ refs) sys = flush ref sys
  flush_next _ _ sys = some sys

  -- `drain`, by a worker that handles `handled` of the references that it claims.
  unfoldable pub drain :
      (limit now handled : ℕ) → Bool → System Event Row → Option (System Event Row)
  unfolding claim drain_refs flush_next
  drain limit now handled flushes_next sys =
      let (refs, queue) = claim limit now sys.queue in
      then_on (drain_refs (take handled refs) (record sys { queue = queue }))
        (λ sys'. flush_next flushes_next (drop handled refs) sys')

  unfoldable pub act : Action Event → System Event Row → Option (System Event Row)
  unfolding spool_write drain enqueue reclaim
  act (produce batch now) sys =
      let (ref, files) = spool_write done batch sys.spool in
      some (record sys { spool = files; queue = enqueue ref now sys.queue })
  act (spool_only batch) sys = some (record sys { spool = (spool_write done batch sys.spool).1 })
  act (spool_cut batch kept in_line) sys =
      some (record sys { spool = (spool_write (cut_at kept in_line) batch sys.spool).1 })
  act (work limit now handled flushes_next) sys = drain limit now handled flushes_next sys
  act (take_back older now) sys = some (record sys { queue = (reclaim older now sys.queue).1 })

  unfoldable pub act_all : List (Action Event) → System Event Row → Option (System Event Row)
  unfolding act
  act_all [] sys = some sys
  act_all (a ∷ later) sys = then_on (act a sys) (λ sys'. act_all later sys')

  abbrev pub with_batch : Option (Raw Event) → (List Event → Option (Sink Row)) → Option (Sink Row)
  with_batch none next = none
  with_batch (some torn) next = none
  with_batch (some (whole events)) next = next events

  -- `replay_from_raw`: the sink, made anew.
  unfoldable pub replay_refs : List String → Spool Event → Sink Row → Option (Sink Row)
  unfolding sink_write
  replay_refs [] files sink = some sink
  replay_refs (ref ∷ refs) files sink =
      with_batch (lookup ref files) (λ events. replay_refs refs files (sink_write events sink).1)

  unfoldable pub replay_from_raw : Spool Event → Option (Sink Row)
  unfolding replay_refs
  replay_from_raw files = replay_refs (sorted (refs_of_files files)) files []
