-- ===== src/Ingest/Pipeline/Drain.antt =====
-- What a worker of src/resgraph/ingest/worker.py does to the batches, wherever it dies.
use resgraph.Prelude.{
  ℕ, ◌≡◌, refl, sym, subst, String, Bool, true, false, Option, some, List, [], ◌∷◌, In, take, drop,
  inl, inr,
}
use resgraph.Ingest.Queue.{RefQueue, refs_of, claim, ack}
use resgraph.Ingest.Queue.Delivery.{refs_of-set_claimed}
use resgraph.Ingest.Queue.Claimed.{In-take, In-drop, claim-refs_of}
use resgraph.Ingest.Pipeline.{whole, System, acked, drain_refs, flush_next, drain}
use resgraph.Ingest.Pipeline.Lossless.{
  Spooled, Lossless, Keeps, Keeps-trans, flushed, flush-Lossless, ack-Lossless,
}

module _ {Event Row : Type 0} (event_key : Event → String) (enrich : Event → Row)
    (digest : List Event → String) (sorted : List String → List String)
    (recorded : String → Row) where
  abbrev pub Sound : System Event Row → Type 0
  Sound sys = Lossless event_key enrich digest sorted recorded sys

  abbrev pub Later : System Event Row → System Event Row → Type 0
  Later sys sys' = Keeps event_key enrich digest sorted recorded sys sys'

  -- A call that returns a sound system, later than `sys`.
  abbrev pub Goes : Option (System Event Row) → System Event Row → Type 0
  Goes r sys = (sys' : System Event Row) × (r ≡ some sys') × Sound sys' × Later sys sys'

  pub Later-refl : (sys : System Event Row) → Later sys sys
  Later-refl sys = record { spool_kept = λ i b e. e; safe_kept = λ i s. s }

  drain_refs-Goes :
      (refs : List String) (sys : System Event Row)
      → Sound sys
      → ((i : String) → In i refs → Spooled event_key enrich digest sorted recorded i sys.spool)
      → Goes (drain_refs event_key enrich digest sorted refs sys) sys
  unfolding drain_refs acked flushed
  drain_refs-Goes [] sys h there = (sys, refl, h, Later-refl sys)
  drain_refs-Goes (ref ∷ refs) sys h there =
      let (batch, e) = there ref (inl refl) in
      let f = flush-Lossless event_key enrich digest sorted recorded ref batch sys h e in
      let mid : System Event Row = flushed event_key enrich digest sorted recorded batch sys in
      let a = ack-Lossless event_key enrich digest sorted recorded ref mid f.1 f.3 in
      let next : System Event Row = record mid { queue = ack ref mid.queue } in
      let rest = drain_refs-Goes refs next a.0 (λ i i_in. there i (inr i_in)) in
      (
        rest.0,
        rw f.0 rest.1,
        rest.2,
        Keeps-trans event_key enrich digest sorted recorded sys next rest.0
            (Keeps-trans event_key enrich digest sorted recorded sys mid next f.2 a.1) rest.3,
      )

  flush_next-Goes :
      (flushes : Bool) (refs : List String) (sys : System Event Row)
      → Sound sys
      → ((i : String) → In i refs → Spooled event_key enrich digest sorted recorded i sys.spool)
      → Goes (flush_next event_key enrich digest sorted flushes refs sys) sys
  unfolding flush_next flushed
  flush_next-Goes true [] sys h there = (sys, refl, h, Later-refl sys)
  flush_next-Goes false [] sys h there = (sys, refl, h, Later-refl sys)
  flush_next-Goes false (ref ∷ refs) sys h there = (sys, refl, h, Later-refl sys)
  flush_next-Goes true (ref ∷ refs) sys h there =
      let (batch, e) = there ref (inl refl) in
      let f = flush-Lossless event_key enrich digest sorted recorded ref batch sys h e in
      (flushed event_key enrich digest sorted recorded batch sys, f.0, f.1, f.2)

  -- Claims and their return change no reference of the queue.
  pub requeue :
      (q : RefQueue) (sys : System Event Row)
      → refs_of q ≡ refs_of sys.queue
      → Sound sys
      → Sound (record sys { queue = q }) × Later sys (record sys { queue = q })
  requeue q sys same h = (
    record {
      queued_spooled = λ i there. h.queued_spooled i (subst (In i) same there);
      batches = h.batches;
      sound = h.sound;
      sunk_spooled = h.sunk_spooled;
    },
    record {
      spool_kept = λ i b e. e;
      safe_kept =
          λ i s. elim s [ inl there ↦ inl (subst (In i) (sym same) there) | inr sunk ↦ inr sunk ];
    },
  )

  pub drain-Goes :
      (limit now handled : ℕ) (flushes : Bool) (sys : System Event Row)
      → Sound sys
      → Goes (drain event_key enrich digest sorted limit now handled flushes sys) sys
  unfolding drain claim
  drain-Goes limit now handled flushes sys h =
      let c = claim limit now sys.queue in
      let claimed : System Event Row = record sys { queue = c.1 } in
      let q = requeue c.1 sys (refs_of-set_claimed _ _ sys.queue) h in
      let there = λ (i : String) (i_in : In i c.0).
        h.queued_spooled i (claim-refs_of i limit now sys.queue i_in) in
      let d =
        drain_refs-Goes (take handled c.0) claimed q.0
          (λ i i_in. there i (In-take i handled c.0 i_in)) in
      let still : (i : String)
          → In i (drop handled c.0)
          → Spooled event_key enrich digest sorted recorded i d.0.spool =
        λ i i_in.
          let (batch, e) = there i (In-drop i handled c.0 i_in) in
          (batch, d.3.spool_kept i (whole batch) e) in
      let f = flush_next-Goes flushes (drop handled c.0) d.0 d.2 still in
      (
        f.0,
        rw d.1 f.1,
        f.2,
        Keeps-trans event_key enrich digest sorted recorded sys claimed f.0 q.1
            (Keeps-trans event_key enrich digest sorted recorded claimed d.0 f.0 d.3 f.3),
      )
