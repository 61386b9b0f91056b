-- ===== src/Ingest/Pipeline/Actions.antt =====
-- What each action of a producer or a worker in src/resgraph/ingest does to the batches.
use resgraph.Prelude.{
  ap, lookup, ℕ, ◌≡◌, refl, sym, subst, ◌∙◌, String, some, List, [], ◌∷◌, ◌++◌, str_eq, eq_iff,
  arith, In, some-inj, Bool-cases, Option-cases, inl, inr,
}
use resgraph.Ingest.Queue.{refs_of, enqueue, reclaim}
use resgraph.Ingest.Queue.Delivery.{refs_of-set_claimed, refs_of-enqueue, refs_of-enqueued}
use resgraph.Ingest.Queue.Claimed.{enqueue-refs_of}
use resgraph.Ingest.Pipeline.{
  Raw, whole, spool_cut, insert_new, System, Action, produce, spool_only, work, take_back,
  spool_write, act,
}
use resgraph.Ingest.Pipeline.Written.{insert_new-keeps, insert_new-new}
use resgraph.Ingest.Pipeline.Lossless.{IsRecorded, Spooled, Safe, Keeps-trans}
use resgraph.Ingest.Pipeline.Drain.{Sound, Later, Goes, drain-Goes, requeue}

module _ {Event Row : Type 0} (event_key : Event → String) (enrich : Event → Row)
    (digest : List Event → String) (sorted : List String → List String)
    (recorded : String → Row) where
  -- A batch that is spooled: the files from before are kept.
  spooling :
      (batch : List Event) (sys : System Event Row)
      → IsRecorded event_key enrich digest sorted recorded batch
      → Sound event_key enrich digest sorted recorded sys
      → Sound event_key enrich digest sorted recorded
          (record sys { spool = insert_new (digest batch) (whole batch) sys.spool })
        × Later event_key enrich digest sorted recorded sys
            (record sys { spool = insert_new (digest batch) (whole batch) sys.spool })
        × Spooled event_key enrich digest sorted recorded
            (digest batch)
            (insert_new (digest batch) (whole batch) sys.spool)
  spooling batch sys good h =
      let kept = λ (i : String) (b : Raw Event) (e : lookup i sys.spool ≡ some b).
        insert_new-keeps i (digest batch) (whole batch) b sys.spool e in
      (
        record {
          queued_spooled =
              λ i there. let (b, e) = h.queued_spooled i there in (b, kept i (whole b) e);
          batches = λ i b e. elim (Option-cases (lookup i sys.spool)) [
            | inr (c, f) ↦ h.batches i b (f ∙ sym (kept i c f) ∙ e)
            | inl f ↦
                let new = insert_new-new i (digest batch) (whole batch) sys.spool f in
                elim (Bool-cases (str_eq i (digest batch))) [
                  | inl g ↦
                      let same = some-inj (whole batch) b (sym (rw g at new) ∙ e) in
                      (batch, sym same, good)
                  | inr g ↦ ground (arith, (rw g at new), e)
                ]
          ];
          sound = h.sound;
          sunk_spooled = λ k there.
              let (i, b, e, key) = h.sunk_spooled k there in (i, b, kept i (whole b) e, key);
        },
        record {
          spool_kept = kept;
          safe_kept = λ i s. elim s [
            | inl there ↦ inl there
            | inr (b, e, all_in) ↦ inr (b, kept i (whole b) e, all_in)
          ];
        },
        elim (Option-cases (lookup (digest batch) sys.spool)) [
          | inr (c, f) ↦
              let (b, same, _) = h.batches (digest batch) c f in
              (b, kept (digest batch) c f ∙ ap some same)
          | inl f ↦ (
            batch,
            insert_new-new (digest batch) (digest batch) (whole batch) sys.spool f
                ∙ rw ((eq_iff (digest batch) (digest batch)).1 refl),
          )
        ],
      )

  -- What holds of each batch that an action spools; and no producer dies while it writes a file.
  abbrev pub Spools : (List Event → Type 0) → Action Event → Type 0
  Spools P (produce batch now) = P batch
  Spools P (spool_only batch) = P batch
  Spools P (spool_cut batch kept in_line) = ⊥
  Spools P (work limit now handled flushes) = Unit
  Spools P (take_back older now) = Unit

  -- What an action may be: the batches that it spools are as recorded.
  abbrev pub IsGood : Action Event → Type 0
  IsGood a = Spools (IsRecorded event_key enrich digest sorted recorded) a

  -- The references of the batches that were spooled and enqueued.
  abbrev pub refs_by : Action Event → List String
  refs_by (produce batch now) = digest batch ∷ []
  refs_by (spool_only batch) = []
  refs_by (spool_cut batch kept in_line) = []
  refs_by (work limit now handled flushes) = []
  refs_by (take_back older now) = []

  abbrev pub produced : List (Action Event) → List String
  produced [] = []
  produced (a ∷ later) = refs_by a ++ produced later

  enqueueing :
      (ref : String) (now : ℕ) (sys : System Event Row)
      → Spooled event_key enrich digest sorted recorded ref sys.spool
      → Sound event_key enrich digest sorted recorded sys
      → Sound event_key enrich digest sorted recorded
          (record sys { queue = enqueue ref now sys.queue })
        × Later event_key enrich digest sorted recorded sys
            (record sys { queue = enqueue ref now sys.queue })
  enqueueing ref now sys there h = (
    record {
      queued_spooled = λ i q. elim (enqueue-refs_of i ref now sys.queue q) [
        | inl old ↦ h.queued_spooled i old
        | inr same ↦
            subst (λ j. Spooled event_key enrich digest sorted recorded j sys.spool) (sym same)
              there
      ];
      batches = h.batches;
      sound = h.sound;
      sunk_spooled = h.sunk_spooled;
    },
    record {
      spool_kept = λ i b e. e;
      safe_kept = λ i s. elim s [
        | inl q ↦ inl (refs_of-enqueue i ref now sys.queue q)
        | inr sunk ↦ inr sunk
      ];
    },
  )

  pub act-Goes :
      (a : Action Event) (sys : System Event Row)
      → IsGood a
      → Sound event_key enrich digest sorted recorded sys
      → (g : Goes event_key enrich digest sorted recorded
          (act event_key enrich digest sorted a sys)
          sys)
        × ((i : String) → In i (refs_by a) → Safe event_key enrich digest sorted recorded i g.0)
  unfolding act spool_write reclaim
  act-Goes (produce batch now) sys good h =
      let s = spooling batch sys good h in
      let mid : System Event Row = record sys {
        spool = insert_new (digest batch) (whole batch) sys.spool;
      } in
      let e = enqueueing (digest batch) now mid s.2 s.0 in
      let after : System Event Row = record mid { queue = enqueue (digest batch) now sys.queue } in
      (
        (
          after,
          refl,
          e.0,
          Keeps-trans event_key enrich digest sorted recorded sys mid after s.1 e.1,
        ),
        λ i i_in. elim i_in [
          | inl same ↦ inl (
              subst (λ j. In j (refs_of (enqueue (digest batch) now sys.queue))) (sym same)
                (refs_of-enqueued (digest batch) now sys.queue))
          | inr none_left ↦ absurd none_left
        ],
      )
  act-Goes (spool_only batch) sys good h =
      let s = spooling batch sys good h in
      (
        (record sys { spool = insert_new (digest batch) (whole batch) sys.spool }, refl, s.0, s.1),
        λ i i_in. absurd i_in,
      )
  act-Goes (spool_cut batch kept in_line) sys good h = absurd good
  act-Goes (work limit now handled flushes) sys good h = (
    drain-Goes event_key enrich digest sorted recorded limit now handled flushes sys h,
    λ i i_in. absurd i_in,
  )
  act-Goes (take_back older now) sys good h =
      let q =
        requeue event_key enrich digest sorted recorded (reclaim older now sys.queue).1 sys
          (refs_of-set_claimed _ _ sys.queue) h in
      (
        (record sys { queue = (reclaim older now sys.queue).1 }, refl, q.0, q.1),
        λ i i_in. absurd i_in,
      )
