-- ===== src/Consumer/Balance.antt =====
-- Whole batches and whole runs of src/resgraph/consumer.py: the counters account for every entry
-- that was read, and every such entry is acknowledged once.
use resgraph.Prelude.{
  ℕ, suc, ◌+◌, ◌≤◌, ◌<◌, ◌≡◌, refl, ap, subst, ◌∙◌, String, Bool, true, false, not, Option, none,
  some, List, [], ◌∷◌, ◌++◌, length, filter, map, ltb, ◌==◌, ◌&&◌, if◌then◌else◌, arith, Bool-cases,
  inl, inr, All,
}
use resgraph.Schema.{UpdateMessage}
use resgraph.Consumer.{
  Entry, Pair, Outcome, State, Config, dead_letter, deliveries_or, over_delivered, quarantine,
  ids_of, parse_entries, apply_batch, Answer, count_of, reached, run,
}
use resgraph.Consumer.Promise.{Behaves, Settled, poisoned}
use resgraph.Consumer.Settle.{apply_entries-Settled}

-- How often an id is in a list.
abbrev pub count : ℕ → List ℕ → ℕ
count i [] = 0
count i (x ∷ xs) = (if x == i then 1 else 0) + count i xs

count-append : (i : ℕ) (xs ys : List ℕ) → count i (xs ++ ys) ≡ count i xs + count i ys
count-append i [] ys = omega arith
count-append i (x ∷ xs) ys = omega (arith, count-append i xs ys)

abbrev pub entry_ids : List Entry → List ℕ
entry_ids es = map (λ (e : Entry). e.entry_id) es

-- Parsing sorts the entries into two heaps and loses none.
parse_entries-count :
    (parse : String → Option UpdateMessage) (i : ℕ) (es : List Entry)
    → let (pairs, invalid) = parse_entries parse es in
      (count i (ids_of pairs) + count i invalid ≡ count i (entry_ids es))
      × (length pairs + length invalid ≡ length es)
unfolding parse_entries
parse_entries-count parse i [] = (refl, refl)
parse_entries-count parse i (e ∷ es) = ground (arith, parse_entries-count parse i es)

-- Every read entry is counted once more: as applied, skipped, invalid or dead-lettered.
abbrev pub IsBalanced : {S : Type 0} → State S → Type 0
IsBalanced c = c.read ≡ c.applied + c.skipped + c.invalid + c.dead_lettered

-- The state once the poison entries of a batch are acknowledged.
abbrev received : {S : Type 0} → List Entry → List ℕ → State S → State S
received entries invalid c = record c {
  read = c.read + length entries;
  invalid = c.invalid + length invalid;
  acked = c.acked ++ invalid;
}

-- What quarantine has done: the pairs that it has not kept are acknowledged and dead-lettered.
record Sorted {S : Type 0} (ps kept : List Pair) (c c' : State S) : Type 0 where
  acks : (i : ℕ) → count i c'.acked + count i (ids_of kept) ≡ count i c.acked + count i (ids_of ps)
  dead : c'.dead_lettered + length kept ≡ c.dead_lettered + length ps
  same_store : c'.store ≡ c.store
  same_read : c'.read ≡ c.read
  same_applied : c'.applied ≡ c.applied
  same_skipped : c'.skipped ≡ c.skipped
  same_invalid : c'.invalid ≡ c.invalid

module _ {S : Type 0} (times_delivered delivered : ℕ → Option ℕ) where
  quarantine-Sorted :
      (cap : ℕ) (ps : List Pair) (c : State S)
      → let (kept, c') = quarantine times_delivered delivered cap ps c in Sorted ps kept c c'
  unfolding quarantine dead_letter
  quarantine-Sorted cap [] c = record {
    acks = λ i. refl;
    dead = refl;
    same_store = refl;
    same_read = refl;
    same_applied = refl;
    same_skipped = refl;
    same_invalid = refl;
  }
  quarantine-Sorted cap (p ∷ ps) c =
      let n = deliveries_or 1 (delivered p.entry_id) in
      elim (Bool-cases (ltb cap n)) [
        | inl over ↦
            let t =
              quarantine-Sorted cap ps
                (dead_letter times_delivered p.entry_id p.raw (over_delivered n cap) c) in
            rw over (record {
              acks = λ i. omega (arith, t.acks i, count-append i c.acked (p.entry_id ∷ []));
              dead = omega (arith, t.dead);
              same_store = t.same_store;
              same_read = t.same_read;
              same_applied = t.same_applied;
              same_skipped = t.same_skipped;
              same_invalid = t.same_invalid;
            })
        | inr under ↦
            let t = quarantine-Sorted cap ps c in
            rw under (record {
              acks = λ i. omega (arith, t.acks i);
              dead = omega (arith, t.dead);
              same_store = t.same_store;
              same_read = t.same_read;
              same_applied = t.same_applied;
              same_skipped = t.same_skipped;
              same_invalid = t.same_invalid;
            })
      ]

-- What a batch has done to the state.
pub record Consumed {S : Type 0} (outage : S → ℕ) (entries : List Entry) (c c' : State S)
    : Type 0 where
  pub acks : (i : ℕ) → count i c'.acked ≡ count i c.acked + count i (entry_ids entries)
  pub reads : c'.read ≡ c.read + length entries
  pub counted :
      c'.applied + c'.skipped + c'.invalid + c'.dead_lettered
      ≡ c.applied + c.skipped + c.invalid + c.dead_lettered + length entries
  pub less_outage : outage c'.store ≤ outage c.store

split_length :
    (p : Pair → Bool) (ps : List Pair)
    → length (filter p ps) + length (filter (λ x. not (p x)) ps) ≡ length ps
split_length p [] = refl
split_length p (x ∷ ps) = ground (arith, split_length p ps)

unquarantined : {S : Type 0} (ps : List Pair) (c : State S) → Sorted ps ps c c
unquarantined ps c = record {
  acks = λ i. refl;
  dead = refl;
  same_store = refl;
  same_read = refl;
  same_applied = refl;
  same_skipped = refl;
  same_invalid = refl;
}

module _ {S : Type 0} {apply_fn : List UpdateMessage → S → Outcome × S}
    {poison : UpdateMessage → Bool} {log : S → List UpdateMessage} {outage : S → ℕ}
    (b : Behaves apply_fn poison log outage) (times_delivered : ℕ → Option ℕ)
    (parse : String → Option UpdateMessage) where
  consumed :
      (entries : List Entry) (pairs kept : List Pair) (invalid : List ℕ) (c c2 c3 : State S)
      → ((i : ℕ) → count i (ids_of pairs) + count i invalid ≡ count i (entry_ids entries))
      → length pairs + length invalid ≡ length entries
      → Sorted pairs kept (received entries invalid c) c2
      → Settled poison log outage kept c2 c3
      → Consumed outage entries c c3
  consumed entries pairs kept invalid c c2 c3 heaps lengths q s = record {
    acks = λ i. omega (
      arith,
      ap (count i) s.all_acked,
      count-append i c2.acked (ids_of kept),
      q.acks i,
      count-append i c.acked invalid,
      heaps i,
    );
    reads = s.same_read ∙ q.same_read;
    counted = omega (
      arith,
      lengths,
      s.same_read,
      s.same_invalid,
      s.counted,
      s.dead,
      q.same_read,
      q.same_invalid,
      q.same_applied,
      q.same_skipped,
      q.dead,
      split_length (poisoned poison) kept,
    );
    less_outage = omega (arith, s.less_outage, ap outage q.same_store);
  }

  -- With more patience than the outage and the retries take, and an apply function that behaves, a
  -- batch is consumed: it does not raise or hang, each of its entries is acknowledged once more, and
  -- the counters account for each of them.
  pub apply_batch-Consumed :
      (cfg : Config) (patience : ℕ) (delivered : ℕ → Option ℕ) (entries : List Entry)
      (pending : Bool) (c : State S)
      → outage c.store + (cfg.max_retries + 1) < patience
      → (c' : State S) × (apply_batch times_delivered apply_fn parse cfg patience delivered entries
            pending c
          ≡ some c')
        × Consumed outage entries c c'
  unfolding apply_batch
  apply_batch-Consumed cfg patience delivered entries false c patient =
      let (pairs, invalid) = parse_entries parse entries in
      let c1 = received entries invalid c in
      let (c', ran, s) =
        apply_entries-Settled b times_delivered patience (suc (length pairs)) pairs cfg.max_retries
          c1 (omega arith) patient in
      (
        c',
        ran,
        consumed entries pairs pairs invalid c c1 c' (λ i. (parse_entries-count parse i entries).0)
            (parse_entries-count parse 0 entries).1 (unquarantined pairs c1) s,
      )
  apply_batch-Consumed cfg patience delivered entries true c patient =
      let (pairs, invalid) = parse_entries parse entries in
      let c1 = received entries invalid c in
      let (kept, c2) = quarantine times_delivered delivered cfg.max_deliveries pairs c1 in
      let q = quarantine-Sorted times_delivered delivered cfg.max_deliveries pairs c1 in
      let (c', ran, s) =
        apply_entries-Settled b times_delivered patience (suc (length kept)) kept cfg.max_retries c2
          (omega arith) (omega (arith, patient, ap outage q.same_store)) in
      (
        c',
        ran,
        consumed entries pairs kept invalid c c2 c' (λ i. (parse_entries-count parse i entries).0)
            (parse_entries-count parse 0 entries).1 q s,
      )

  -- No more than `max_messages` entries have been read.
  abbrev pub WithinMost : Option ℕ → ℕ → Type 0
  WithinMost none n = Unit
  WithinMost (some most) n = n ≤ most

  -- Redis gives no more entries than it was asked for.
  abbrev pub IsFair : Answer → Type 0
  IsFair a = (n : ℕ) → length (a.entries n) ≤ n

  module _ (cfg : Config) (patience : ℕ) (max_messages : Option ℕ) (exit_on_idle : Bool) where
    abbrev Runs : List Answer → Bool → State S → Type 0
    Runs answers fresh c =
        (c' : State S) × (run times_delivered apply_fn parse cfg patience max_messages exit_on_idle
            answers fresh c
          ≡ some c')
        × IsBalanced c'
        × WithinMost max_messages c'.read

    within_count :
        (most : Option ℕ) (already n : ℕ)
        → reached most already ≡ false
        → n ≤ count_of cfg most already
        → WithinMost most (already + n)
    within_count none already n more h = tt
    within_count (some most) already n more h = ground arith

    run_answer :
        (a : Answer) (more : List Answer) (fresh : Bool) (c : State S) (es : List Entry)
        → a.entries (count_of cfg max_messages c.read) ≡ es
        → reached max_messages c.read ≡ false
        → outage c.store + (cfg.max_retries + 1) < patience
        → IsBalanced c
        → WithinMost max_messages c.read
        → IsFair a
        → ((f : Bool) (c1 : State S)
            → outage c1.store ≤ outage c.store
            → IsBalanced c1
            → WithinMost max_messages c1.read
            → Runs more f c1)
        → Runs (a ∷ more) fresh c
    unfolding run
    run_answer a more fresh c [] e on patient h w fair ih =
        let (c', ran, h', w') = ih true c (omega arith) h w in
        elim (Bool-cases (fresh && exit_on_idle)) [
          | inl idle ↦ (c, rw (on, e, idle, run), h, w)
          | inr busy ↦ (c', rw (on, e, busy, run) ran, h', w')
        ]
    run_answer a more fresh c (x ∷ es) e on patient h w fair ih =
        let (c1, ran1, k) =
          apply_batch-Consumed cfg patience a.delivered (x ∷ es) (not fresh) c patient in
        let given : length (x ∷ es) ≤ count_of cfg max_messages c.read =
          subst (λ (l : List Entry). length l ≤ count_of cfg max_messages c.read) e
            (fair (count_of cfg max_messages c.read)) in
        let (c', ran, h', w') =
          ih fresh c1 k.less_outage (omega (arith, h, k.counted, k.reads))
            (rw k.reads (within_count max_messages c.read (length (x ∷ es)) on given)) in
        (c', rw (on, e, ran1, run) ran, h', w')

    -- With more patience than the outage and the retries take, and an apply function that behaves, a
    -- run over answers of no more entries than were asked for comes to an end. If its counters
    -- started in balance, and it had read no more than `max_messages` entries, both hold at its end.
    pub run-IsBalanced :
        (answers : List Answer) (fresh : Bool) (c : State S)
        → outage c.store + (cfg.max_retries + 1) < patience
        → IsBalanced c
        → WithinMost max_messages c.read
        → All IsFair answers
        → Runs answers fresh c
    unfolding run
    run-IsBalanced [] fresh c patient h w fair = (c, refl, h, w)
    run-IsBalanced (a ∷ more) fresh c patient h w fair =
        elim (Bool-cases (reached max_messages c.read)) [
          | inl stop ↦ (c, rw (stop, run), h, w)
          | inr on ↦
              run_answer a more fresh c _ refl on patient h w fair.0
                (λ f c1 less h1 w1. run-IsBalanced more f c1 (omega (arith, less)) h1 w1 fair.1)
        ]
