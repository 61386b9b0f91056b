-- ===== src/Ingest/Pipeline/Named.antt =====
-- The spool of src/resgraph/ingest/spool.py and the digests of its batches.
use resgraph.Prelude.{
  lookup, ℕ, ◌≡◌, refl, sym, ap, subst, ◌∙◌, String, Bool, true, false, Option, none, some, List,
  [], ◌∷◌, ◌++◌, str_eq, eq_iff, take, drop, arith, In, All, some-inj, Bool-cases, Option-cases,
  inl, inr, ◌⊎◌,
}
use resgraph.Ingest.Queue.{refs_of, claim, reclaim, ack}
use resgraph.Ingest.Pipeline.{
  Raw, whole, torn, insert_new, Spool, System, Action, produce, spool_only, spool_cut, work,
  take_back, spool_write, flush_batch, flush, acked, drain_refs, flush_next, drain, act, act_all,
}
use resgraph.Ingest.Pipeline.Written.{insert_new-keeps, insert_new-new}
use resgraph.Ingest.Pipeline.Lossless.{whole-inj, IsRecorded}
use resgraph.Ingest.Pipeline.Actions.{Spools, IsGood, produced}
use resgraph.Ingest.Pipeline.Replay.{empty_system, act_all-Goes, empty-Sound}

all_of : {A : Type 0} (P : A → Type 0) (x : A) (xs : List A) → All P xs → In x xs → P x
all_of P x [] h i = absurd i
all_of P x (y ∷ xs) h (inl e) = subst P (sym e) h.0
all_of P x (y ∷ xs) h (inr i) = all_of P x xs h.1 i

-- The batches that were spooled and enqueued.
abbrev batches_by : {Event : Type 0} → Action Event → List (List Event)
batches_by (produce batch now) = batch ∷ []
batches_by _ = []

abbrev pub produced_batches : {Event : Type 0} → List (Action Event) → List (List Event)
produced_batches [] = []
produced_batches (a ∷ later) = batches_by a ++ produced_batches later

-- `raw_of` says which batch each digest stands for.
module _ {Event Row : Type 0} (event_key : Event → String) (enrich : Event → Row)
    (digest : List Event → String) (sorted : List String → List String) (recorded : String → Row)
    (raw_of : String → List Event) where
  abbrev Named : Spool Event → Type 0
  Named files = (i : String) (b : List Event) → lookup i files ≡ some (whole b) → raw_of i ≡ b

  -- A batch is the one that its digest stands for: no other batch that is spooled has its digest.
  abbrev pub IsNamed : List Event → Type 0
  IsNamed batch = raw_of (digest batch) ≡ batch

  flush_batch-spool :
      (r : Option (Raw Event)) (sys sys' : System Event Row)
      → flush_batch event_key enrich digest sorted r sys ≡ some sys'
      → sys'.spool ≡ sys.spool
  unfolding flush_batch
  flush_batch-spool none sys sys' h = absurd (ground (arith, h))
  flush_batch-spool (some torn) sys sys' h = absurd (ground (arith, h))
  flush_batch-spool (some (whole events)) sys sys' h =
      ap (λ (s : System Event Row). s.spool) (sym (some-inj _ sys' h))

  flush-spool :
      (ref : String) (sys sys' : System Event Row)
      → flush event_key enrich digest sorted ref sys ≡ some sys'
      → sys'.spool ≡ sys.spool
  unfolding flush
  flush-spool ref sys sys' h = flush_batch-spool (lookup ref sys.spool) sys sys' h

  drain_refs-spool :
      (refs : List String) (sys sys' : System Event Row)
      → drain_refs event_key enrich digest sorted refs sys ≡ some sys'
      → sys'.spool ≡ sys.spool
  unfolding drain_refs acked
  drain_refs-spool [] sys sys' h =
      ap (λ (s : System Event Row). s.spool) (sym (some-inj sys sys' h))
  drain_refs-spool (ref ∷ refs) sys sys' h =
      elim (Option-cases (flush event_key enrich digest sorted ref sys)) [
        | inl e ↦ absurd (ground (arith, (rw e at h)))
        | inr (mid, e) ↦
            drain_refs-spool refs (record mid { queue = ack ref mid.queue }) sys' (rw e at h)
            ∙ flush-spool ref sys mid e
      ]

  flush_next-spool :
      (flushes : Bool) (refs : List String) (sys sys' : System Event Row)
      → flush_next event_key enrich digest sorted flushes refs sys ≡ some sys'
      → sys'.spool ≡ sys.spool
  unfolding flush_next
  flush_next-spool true (ref ∷ refs) sys sys' h = flush-spool ref sys sys' h
  flush_next-spool true [] sys sys' h =
      ap (λ (s : System Event Row). s.spool) (sym (some-inj sys sys' h))
  flush_next-spool false [] sys sys' h =
      ap (λ (s : System Event Row). s.spool) (sym (some-inj sys sys' h))
  flush_next-spool false (ref ∷ refs) sys sys' h =
      ap (λ (s : System Event Row). s.spool) (sym (some-inj sys sys' h))

  drain-spool :
      (limit now handled : ℕ) (flushes : Bool) (sys sys' : System Event Row)
      → drain event_key enrich digest sorted limit now handled flushes sys ≡ some sys'
      → sys'.spool ≡ sys.spool
  unfolding drain claim
  drain-spool limit now handled flushes sys sys' h =
      let c = claim limit now sys.queue in
      let claimed : System Event Row = record sys { queue = c.1 } in
      elim (Option-cases (drain_refs event_key enrich digest sorted (take handled c.0) claimed)) [
        | inl e ↦ absurd (ground (arith, (rw e at h)))
        | inr (mid, e) ↦
            flush_next-spool flushes (drop handled c.0) mid sys' (rw e at h)
            ∙ drain_refs-spool (take handled c.0) claimed mid e
      ]

  insert_new-Named :
      (batch : List Event) (files : Spool Event)
      → IsNamed batch
      → Named files
      → Named (insert_new (digest batch) (whole batch) files)
  insert_new-Named batch files named h i b e = elim (Option-cases (lookup i files)) [
    | inr (raw, f) ↦
        h i b (f ∙ sym (insert_new-keeps i (digest batch) (whole batch) raw files f) ∙ e)
    | inl f ↦
        let new = insert_new-new i (digest batch) (whole batch) files f in
        elim (Bool-cases (str_eq i (digest batch))) [
          | inl g ↦
              ap raw_of ((eq_iff i (digest batch)).0 g)
              ∙ named
              ∙ whole-inj batch b (some-inj (whole batch) (whole b) (sym (rw g at new) ∙ e))
          | inr g ↦ absurd (ground (arith, (rw g at new), e))
        ]
  ]

  act-Named :
      (a : Action Event) (sys sys' : System Event Row)
      → Spools event_key enrich digest sorted recorded IsNamed a
      → act event_key enrich digest sorted a sys ≡ some sys'
      → Named sys.spool
      → Named sys'.spool
  unfolding act spool_write reclaim
  act-Named (produce batch now) sys sys' named e h =
      subst (λ (s : System Event Row). Named s.spool) (some-inj _ sys' e)
        (insert_new-Named batch sys.spool named h)
  act-Named (spool_only batch) sys sys' named e h =
      subst (λ (s : System Event Row). Named s.spool) (some-inj _ sys' e)
        (insert_new-Named batch sys.spool named h)
  act-Named (spool_cut batch kept in_line) sys sys' named e h = absurd named
  act-Named (work limit now handled flushes) sys sys' named e h =
      subst Named (sym (drain-spool limit now handled flushes sys sys' e)) h
  act-Named (take_back older now) sys sys' named e h =
      subst (λ (s : System Event Row). Named s.spool) (some-inj _ sys' e) h

  act_all-Named :
      (actions : List (Action Event)) (sys sys' : System Event Row)
      → All (Spools event_key enrich digest sorted recorded IsNamed) actions
      → act_all event_key enrich digest sorted actions sys ≡ some sys'
      → Named sys.spool
      → Named sys'.spool
  unfolding act_all
  act_all-Named [] sys sys' named e h =
      subst (λ (s : System Event Row). Named s.spool) (some-inj sys sys' e) h
  act_all-Named (a ∷ later) sys sys' named e h =
      elim (Option-cases (act event_key enrich digest sorted a sys)) [
        | inl f ↦ absurd (ground (arith, (rw f at e)))
        | inr (mid, f) ↦
            act_all-Named later mid sys' named.1 (rw f at e) (act-Named a sys mid named.0 f h)
      ]

  produced-In :
      (actions : List (Action Event)) (batch : List Event)
      → In batch (produced_batches actions)
      → In (digest batch) (produced event_key enrich digest sorted recorded actions)
  produced-In [] batch i = absurd i
  produced-In (produce other now ∷ later) batch (inl e) = inl (ap digest e)
  produced-In (produce other now ∷ later) batch (inr i) = inr (produced-In later batch i)
  produced-In (spool_only other ∷ later) batch i = produced-In later batch i
  produced-In (spool_cut other kept in_line ∷ later) batch i = produced-In later batch i
  produced-In (work limit now handled flushes ∷ later) batch i = produced-In later batch i
  produced-In (take_back older now ∷ later) batch i = produced-In later batch i

  Spools-In :
      (P : List Event → Type 0) (actions : List (Action Event)) (batch : List Event)
      → All (Spools event_key enrich digest sorted recorded P) actions
      → In batch (produced_batches actions)
      → P batch
  Spools-In P [] batch h i = absurd i
  Spools-In P (produce other now ∷ later) batch h (inl e) = subst P (sym e) h.0
  Spools-In P (produce other now ∷ later) batch h (inr i) = Spools-In P later batch h.1 i
  Spools-In P (spool_only other ∷ later) batch h i = Spools-In P later batch h.1 i
  Spools-In P (spool_cut other kept in_line ∷ later) batch h i = Spools-In P later batch h.1 i
  Spools-In P (work limit now handled flushes ∷ later) batch h i = Spools-In P later batch h.1 i
  Spools-In P (take_back older now ∷ later) batch h i = Spools-In P later batch h.1 i

  -- Whatever producers and workers do, and wherever else they die, no action fails: a worker never misses
  -- a batch in the spool. And each batch that was spooled and enqueued, at any time, is in the spool as
  -- it was given, and still waits in the queue, or has the row of each of its events in the sink. The
  -- conditions: no producer dies while it writes a file, which may leave a part of the batch for good;
  -- the batches that are spooled carry what `recorded` says of their event keys; and no two of them
  -- that differ have the same digest.
  pub act_all-Safe :
      (actions : List (Action Event)) (batch : List Event)
      → All (IsGood event_key enrich digest sorted recorded) actions
      → All (Spools event_key enrich digest sorted recorded IsNamed) actions
      → In batch (produced_batches actions)
      → (sys : System Event Row) × (act_all event_key enrich digest sorted actions empty_system
          ≡ some sys)
        × (lookup (digest batch) sys.spool ≡ some (whole batch))
        × (In (digest batch) (refs_of sys.queue)
            ⊎ ((e : Event) → In e batch → lookup (event_key e) sys.sink ≡ some (enrich e)))
  act_all-Safe actions batch good named i =
      let g =
        act_all-Goes event_key enrich digest sorted recorded actions empty_system good
          (empty-Sound event_key enrich digest sorted recorded) in
      let sys = g.0.0 in
      let names =
        act_all-Named actions empty_system sys named g.0.1 (λ j b e. absurd (ground (arith, e))) in
      let is_batch = λ (b : List Event) (e : lookup (digest batch) sys.spool ≡ some (whole b)).
        sym (names (digest batch) b e) ∙ Spools-In IsNamed actions batch named i in
      elim (g.1 (digest batch) (produced-In actions batch i)) [
        | inl waits ↦
            let (b, e) = g.0.2.queued_spooled (digest batch) waits in
            (sys, g.0.1, e ∙ ap (λ c. some (whole c)) (is_batch b e), inl waits)
        | inr (b, e, all_in) ↦ (
          sys,
          g.0.1,
          e ∙ ap (λ c. some (whole c)) (is_batch b e),
          inr (λ event there.
              all_in (event_key event) (event, subst (In event) (sym (is_batch b e)) there, refl)
              ∙ ap some (
                  sym (
                    all_of _ event batch
                      (Spools-In (IsRecorded event_key enrich digest sorted recorded) actions batch
                        good i)
                      there))),
        )
      ]
