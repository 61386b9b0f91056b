-- ===== src/Ingest/Pipeline/Replay.antt =====
-- The loss proof of src/resgraph/ingest/worker.py: what the workers sank is what raw alone gives.
use resgraph.Prelude.{
  In-keys, lookup, In-append_cases, ◌≡◌, ◌↔◌, refl, sym, ap, subst, ◌∙◌, String, some, List, [],
  ◌∷◌, arith, In, All, some-inj, inl, inr, ◌⊎◌,
}
use resgraph.Ingest.Queue.{refs_of}
use resgraph.Ingest.Pipeline.{
  whole, refs_of_files, Spool, Sink, System, Action, insert_all, sink_write, act_all, replay_refs,
  replay_from_raw,
}
use resgraph.Ingest.Pipeline.Written.{
  IsSound, insert_all-IsSound, insert_all-keeps, insert_all-Has, insert_all-from,
}
use resgraph.Ingest.Pipeline.Lossless.{
  whole-inj, lookup-IsRecorded, IsRecorded, Holds, KeyOf, Spooled, Safe, Keeps-trans,
}
use resgraph.Ingest.Pipeline.Drain.{Sound, Later-refl, Goes}
use resgraph.Ingest.Pipeline.Actions.{IsGood, produced, act-Goes}

same_file : {Event : Type 0} (b c : List Event) → some (whole b) ≡ some (whole c) → b ≡ c
same_file b c h = whole-inj b c (some-inj (whole b) (whole c) h)

abbrev pub empty_system : {Event Row : Type 0} → System Event Row
empty_system = record { spool = []; queue = []; sink = [] }

module _ {Event Row : Type 0} (event_key : Event → String) (enrich : Event → Row)
    (digest : List Event → String) (sorted : List String → List String)
    (recorded : String → Row) where
  pub act_all-Goes :
      (actions : List (Action Event)) (sys : System Event Row)
      → All (IsGood event_key enrich digest sorted recorded) actions
      → Sound event_key enrich digest sorted recorded sys
      → (g : Goes event_key enrich digest sorted recorded
          (act_all event_key enrich digest sorted actions sys)
          sys)
        × ((i : String)
            → In i (produced event_key enrich digest sorted recorded actions)
            → Safe event_key enrich digest sorted recorded i g.0)
  unfolding act_all
  act_all-Goes [] sys good h = (
    (sys, refl, h, Later-refl event_key enrich digest sorted recorded sys),
    λ i i_in. absurd i_in,
  )
  act_all-Goes (a ∷ later) sys good h =
      let first = act-Goes event_key enrich digest sorted recorded a sys good.0 h in
      let rest = act_all-Goes later first.0.0 good.1 first.0.2 in
      let mid = first.0.0 in
      (
        (
          rest.0.0,
          rw first.0.1 rest.0.1,
          rest.0.2,
          Keeps-trans event_key enrich digest sorted recorded sys mid rest.0.0 first.0.3 rest.0.3,
        ),
        λ i i_in. elim (In-append_cases i _ _ i_in) [
          | inl now ↦ rest.0.3.safe_kept i (first.1 i now)
          | inr soon ↦ rest.1 i soon
        ],
      )

  pub empty-Sound : Sound event_key enrich digest sorted recorded empty_system
  empty-Sound = record {
    queued_spooled = λ i h. absurd h;
    batches = λ i b e. absurd (ground (arith, e));
    sound = λ k. inl refl;
    sunk_spooled = λ k h. absurd (ground (arith, h));
  }

  -- Two tables of recorded rows with the same keys.
  agrees :
      (k : String) (a b : Sink Row)
      → IsSound event_key enrich digest sorted recorded a
      → IsSound event_key enrich digest sorted recorded b
      → (Holds event_key enrich digest sorted recorded k a
          → Holds event_key enrich digest sorted recorded k b)
      → (Holds event_key enrich digest sorted recorded k b
          → Holds event_key enrich digest sorted recorded k a)
      → lookup k a ≡ lookup k b
  agrees k a b sound_a sound_b to from = elim (sound_a k) [
    | inr h ↦ h ∙ sym (to h)
    | inl h ↦ elim (sound_b k) [ inl g ↦ h ∙ sym g | inr g ↦ from g ∙ sym g ]
  ]

  -- A sink that a replay of the files `files` has filled from the references `refs`.
  record Replayed (refs : List String) (files : Spool Event) (sink after : Sink Row) : Type 0 where
    sound : IsSound event_key enrich digest sorted recorded after
    keeps :
        (k : String)
        → Holds event_key enrich digest sorted recorded k sink
        → Holds event_key enrich digest sorted recorded k after
    gains :
        (k i : String) (batch : List Event)
        → In i refs
        → lookup i files ≡ some (whole batch)
        → KeyOf event_key enrich digest sorted recorded k batch
        → Holds event_key enrich digest sorted recorded k after
    only :
        (k : String)
        → Holds event_key enrich digest sorted recorded k after
        → Holds event_key enrich digest sorted recorded k sink
          ⊎ ((i : String) × (batch : List Event) × (lookup i files ≡ some (whole batch))
              × KeyOf event_key enrich digest sorted recorded k batch)

  replay_refs-Replayed :
      (refs : List String) (files : Spool Event) (sink : Sink Row)
      → ((i : String) (batch : List Event)
          → lookup i files ≡ some (whole batch)
          → IsRecorded event_key enrich digest sorted recorded batch)
      → ((i : String) → In i refs → Spooled event_key enrich digest sorted recorded i files)
      → IsSound event_key enrich digest sorted recorded sink
      → (after : Sink Row) × (replay_refs event_key enrich digest sorted refs files sink
          ≡ some after)
        × Replayed refs files sink after
  unfolding replay_refs sink_write
  replay_refs-Replayed [] files sink good there sound = (
    sink,
    refl,
    record {
      sound = sound;
      keeps = λ k h. h;
      gains = λ k i batch i_in. absurd i_in;
      only = λ k h. inl h;
    },
  )
  replay_refs-Replayed (ref ∷ refs) files sink good there sound =
      let (events, e) = there ref (inl refl) in
      let recorded_all = good ref events e in
      let mid = insert_all event_key enrich digest sorted events sink in
      let rest =
        replay_refs-Replayed refs files mid good (λ i i_in. there i (inr i_in))
          (insert_all-IsSound event_key enrich digest sorted recorded events sink recorded_all
            sound) in
      (
        rest.0,
        rw e rest.1,
        record {
          sound = rest.2.sound;
          keeps = λ k h.
              rest.2.keeps k
                (insert_all-keeps event_key enrich digest sorted recorded k events sink h);
          gains = λ k i batch i_in f key. elim i_in [
            | inr later ↦ rest.2.gains k i batch later f key
            | inl same ↦
                let same_batch =
                  same_file batch events (sym f ∙ ap (λ j. lookup j files) same ∙ e) in
                rest.2.keeps k (
                  insert_all-Has event_key enrich digest sorted recorded k events sink recorded_all
                    sound (subst (KeyOf event_key enrich digest sorted recorded k) same_batch key))
          ];
          only = λ k h. elim (rest.2.only k h) [
            | inr from ↦ inr from
            | inl old ↦
                elim (insert_all-from event_key enrich digest sorted recorded k events sink
                  recorded_all sound old) [
                    | inl before ↦ inl before
                    | inr key ↦ inr (ref, events, e, key)
                  ]
          ];
        },
      )

  -- The loss proof. Once the queue is empty, and every batch of the spool was enqueued, a replay of raw
  -- alone makes a sink that answers for every event key as the sink of the workers does, in which order
  -- and how often they have written the batches. The conditions: no producer dies while it writes
  -- a file; batches carry what `recorded` says of their event keys; and `sorted` keeps the members of a
  -- list.
  pub replay_from_raw-agrees :
      (actions : List (Action Event)) (sys : System Event Row)
      → ((i : String) (refs : List String) → In i (sorted refs) ↔ In i refs)
      → All (IsGood event_key enrich digest sorted recorded) actions
      → act_all event_key enrich digest sorted actions empty_system ≡ some sys
      → refs_of sys.queue ≡ []
      → ((i : String)
          → In i (refs_of_files sys.spool)
          → In i (produced event_key enrich digest sorted recorded actions))
      → (sink : Sink Row) × (replay_from_raw event_key enrich digest sorted sys.spool ≡ some sink)
        × ((k : String) → lookup k sink ≡ lookup k sys.sink)
  unfolding replay_from_raw
  replay_from_raw-agrees actions sys sorts good ran drained queued =
      let g = act_all-Goes actions empty_system good empty-Sound in
      let same = some-inj g.0.0 sys (sym g.0.1 ∙ ran) in
      let h : Sound event_key enrich digest sorted recorded sys =
        subst (Sound event_key enrich digest sorted recorded) same g.0.2 in
      let r =
        replay_refs-Replayed (sorted (refs_of_files sys.spool)) sys.spool []
          (lookup-IsRecorded event_key enrich digest sorted recorded sys h)
          (λ i i_in.
            let (raw, e) = (In-keys i sys.spool).0 ((sorts i (refs_of_files sys.spool)).0 i_in) in
            let (batch, same, _) = h.batches i raw e in (batch, e ∙ ap some same))
          (λ k. inl refl) in
      let sunk : (i : String)
          → In i (refs_of_files sys.spool)
          → Safe event_key enrich digest sorted recorded i sys =
        λ i i_in.
          subst (Safe event_key enrich digest sorted recorded i) same (g.1 i (queued i i_in)) in
      (
        r.0,
        r.1,
        λ k.
            agrees k r.0 sys.sink r.2.sound h.sound
              (λ there. elim (r.2.only k there) [
                | inl none_yet ↦ absurd (ground (arith, none_yet))
                | inr (i, batch, e, key) ↦
                    elim (sunk i ((In-keys i sys.spool).1 (whole batch, e))) [
                      | inl waits ↦ absurd (subst (In i) drained waits)
                      | inr (other, f, all_in) ↦ all_in k (
                          subst (KeyOf event_key enrich digest sorted recorded k)
                            (same_file batch other (sym e ∙ f)) key)
                    ]
              ])
              (λ there.
                let (i, batch, e, key) = h.sunk_spooled k there in
                r.2.gains k i batch
                  ((sorts i (refs_of_files sys.spool)).1 ((In-keys i sys.spool).1 (whole batch, e)))
                  e key),
      )
