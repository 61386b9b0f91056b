-- ===== src/Consumer.antt =====
-- src/resgraph/consumer.py: the stream consumer. The apply function, the parser and Redis are not
-- this file's: `apply_fn` and `parse` are parameters, `times_delivered` is what Redis reports of an
-- entry's deliveries, and what the consumer tells Redis (acknowledgements, dead letters) is recorded
-- in order. Metrics, logs and sleeping are left out.
pub mod Promise
pub mod Settle
pub mod Balance
mod Tests
use resgraph.Prelude.{
  ℕ, zero, suc, ◌+◌, ◌-◌, ◌/◌, String, Bool, true, false, not, ◌&&◌, Option, none, some, List, [],
  ◌∷◌, ◌++◌, length, take, drop, map, ltb, leb, min, ◌==◌, if◌then◌else◌,
}
use resgraph.Schema.{UpdateMessage}

-- A stream entry: its id, and its `data` field if it has one.
pub record Entry : Type 0 where
  pub entry_id : ℕ
  pub payload : Option String

-- (stream id, raw payload, parsed message)
pub record Pair : Type 0 where
  pub entry_id : ℕ
  pub raw : String
  pub msg : UpdateMessage

-- The text of an error: an exception's, or "delivered {n} times (cap {cap})".
pub data Reason : Type 0 where
  exception : String → Reason
  over_delivered : (n cap : ℕ) → Reason

pub record DeadLetter : Type 0 where
  pub payload : String
  pub error : Reason
  pub source_id : ℕ
  pub deliveries : ℕ

-- How a call of the apply function ends: a result, a retryable exception, or another exception.
pub data Outcome : Type 0 where
  returned : (applied skipped : ℕ) → Outcome
  retryable : Outcome
  failed : (error : String) → Outcome

-- The consumer's counters, the store behind the apply function, and what Redis has been told.
pub record State (S : Type 0) : Type 0 where
  pub store : S
  pub read : ℕ
  pub applied : ℕ
  pub skipped : ℕ
  pub invalid : ℕ
  pub dead_lettered : ℕ
  pub acked : List ℕ
  pub dlq : List DeadLetter

pub record Config : Type 0 where
  pub batch : ℕ
  pub max_deliveries : ℕ
  pub max_retries : ℕ

-- `str(error)[:n]`
clip : ℕ → String → String
clip zero s = String.[]
clip (suc n) String.[] = String.[]
clip (suc n) (String.◌∷◌ c s) = String.◌∷◌ c (clip n s)

-- `str(error)[:500]`; the text of the other reason is shorter than that.
abbrev clip_reason : Reason → Reason
clip_reason (exception e) = exception (clip 500 e)
clip_reason (over_delivered n cap) = over_delivered n cap

-- A dict lookup with a default.
abbrev pub deliveries_or : ℕ → Option ℕ → ℕ
deliveries_or d none = d
deliveries_or d (some n) = n

-- The `while True` loop of `_apply_entries` ends by a result or by giving up; `waiting` is fuel that
-- ran out.
pub data Tried (S : Type 0) : Type 0 where
  waiting : Tried S
  done : (applied skipped : ℕ) → S → Tried S
  gave_up : (error : String) → S → Tried S

module _ {S : Type 0} (times_delivered : ℕ → Option ℕ) where
  -- `_dead_letter`
  unfoldable pub dead_letter : ℕ → String → Reason → State S → State S
  unfolding clip
  dead_letter entry_id raw error c =
      let letter : DeadLetter = record {
        payload = raw;
        error = clip_reason error;
        source_id = entry_id;
        deliveries = deliveries_or 0 (times_delivered entry_id);
      } in
      record c {
        dead_lettered = c.dead_lettered + 1;
        acked = c.acked ++ entry_id ∷ [];
        dlq = c.dlq ++ letter ∷ [];
      }

  -- `_quarantine_over_delivered`: what is kept, and the state after the others have been
  -- dead-lettered. `delivered` is what Redis reports of the batch's pending entries.
  unfoldable pub quarantine : (ℕ → Option ℕ) → ℕ → List Pair → State S → List Pair × State S
  unfolding dead_letter
  quarantine delivered cap [] c = ([], c)
  quarantine delivered cap (p ∷ ps) c =
      let n = deliveries_or 1 (delivered p.entry_id) in
      let over = ltb cap n in
      let c' = if over then dead_letter p.entry_id p.raw (over_delivered n cap) c else c in
      let (kept, c'') = quarantine delivered cap ps c' in (if over then kept else p ∷ kept, c'')

module _ {S : Type 0} (apply_fn : List UpdateMessage → S → Outcome × S) where
  -- The retry loop: outages are waited out, other failures are counted against `retries`.
  unfoldable pub try_apply : ℕ → List UpdateMessage → ℕ → ℕ → S → Tried S
  try_apply zero msgs attempt retries s = waiting
  try_apply (suc fuel) msgs attempt retries s =
      let (outcome, s') = apply_fn msgs s in
      elim outcome [
        | returned a k ↦ done a k s'
        | retryable ↦ try_apply fuel msgs attempt retries s'
        | failed e ↦
            let again = try_apply fuel msgs (attempt + 1) retries s' in
            if ltb retries (attempt + 1) then gave_up e s' else again
      ]

abbrev pub then_do :
    {S : Type 0} → Option (State S) → (State S → Option (State S)) → Option (State S)
then_do none f = none
then_do (some c) f = f c

abbrev pub msgs_of : List Pair → List UpdateMessage
msgs_of ps = map (λ (p : Pair). p.msg) ps

abbrev pub ids_of : List Pair → List ℕ
ids_of ps = map (λ (p : Pair). p.entry_id) ps

abbrev pub sort_entry : Entry → Option Pair → List Pair × List ℕ → List Pair × List ℕ
sort_entry e none (pairs, invalid) = (pairs, e.entry_id ∷ invalid)
sort_entry e (some p) (pairs, invalid) = (p ∷ pairs, invalid)

-- The parsed pairs of a batch, in order, and the ids of the entries that do not parse.
module _ (parse : String → Option UpdateMessage) where
  abbrev pub parse_entry : Entry → Option Pair
  parse_entry e = elim e.payload [
    | none ↦ none
    | some raw ↦ elim (parse raw) [
      | none ↦ none
      | some m ↦ some (record { entry_id = e.entry_id; raw = raw; msg = m })
    ]
  ]

  unfoldable pub parse_entries : List Entry → List Pair × List ℕ
  parse_entries [] = ([], [])
  parse_entries (e ∷ es) = sort_entry e (parse_entry e) (parse_entries es)

-- One answer of `xreadgroup`: the entries for a read of at most the given count, and what Redis
-- reports of their deliveries.
pub record Answer : Type 0 where
  pub entries : ℕ → List Entry
  pub delivered : ℕ → Option ℕ

abbrev pub count_of : Config → Option ℕ → ℕ → ℕ
count_of cfg none already = cfg.batch
count_of cfg (some most) already = min cfg.batch (most - already)

abbrev pub reached : Option ℕ → ℕ → Bool
reached none already = false
reached (some most) already = leb most already

module _ {S : Type 0} (times_delivered : ℕ → Option ℕ)
    (apply_fn : List UpdateMessage → S → Outcome × S) where
  -- `_apply_entries`: `patience` is the fuel of each retry loop, `depth` that of the halving.
  unfoldable pub apply_entries : (patience depth : ℕ) → List Pair → ℕ → State S → Option (State S)
  apply_entries patience zero ps retries c = none
  apply_entries patience (suc depth) [] retries c = some c
  apply_entries patience (suc depth) (p ∷ ps) retries c =
      elim (try_apply apply_fn patience (msgs_of (p ∷ ps)) 0 retries c.store) [
        | waiting ↦ none
        | done a k s ↦ some (record c {
          store = s;
          applied = c.applied + a;
          skipped = c.skipped + k;
          acked = c.acked ++ ids_of (p ∷ ps);
        })
        | gave_up e s ↦
            let c' : State S = record c { store = s } in
            let mid = length (p ∷ ps) / 2 in
            let halves =
              then_do (apply_entries patience depth (take mid (p ∷ ps)) 0 c')
                (apply_entries patience depth (drop mid (p ∷ ps)) 0) in
            if length (p ∷ ps) == 1
            then some (dead_letter times_delivered p.entry_id p.raw (exception e) c')
            else halves
      ]

  module _ (parse : String → Option UpdateMessage) where
    -- `_apply_batch`
    unfoldable pub apply_batch :
        Config → (patience : ℕ) → (ℕ → Option ℕ) → List Entry → Bool → State S → Option (State S)
    apply_batch cfg patience delivered entries pending c =
        let (pairs, invalid) = parse_entries parse entries in
        let c1 : State S = record c {
          read = c.read + length entries;
          invalid = c.invalid + length invalid;
          acked = c.acked ++ invalid;
        } in
        let (kept, c2) =
          if pending
          then quarantine times_delivered delivered cfg.max_deliveries pairs c1
          else (pairs, c1) in
        apply_entries patience (suc (length kept)) kept cfg.max_retries c2

    -- `run`, over the answers that Redis gives in turn; when they are used up, the consumer is
    -- interrupted. `fresh` is `cursor == ">"`.
    unfoldable pub run :
        Config → ℕ → Option ℕ → Bool → List Answer → Bool → State S → Option (State S)
    run cfg patience max_messages exit_on_idle [] fresh c = some c
    run cfg patience max_messages exit_on_idle (a ∷ more) fresh c =
        elim (reached max_messages c.read) [
          | true ↦ some c
          | false ↦ elim (a.entries (count_of cfg max_messages c.read)) [
            | [] ↦
                let go_on = run cfg patience max_messages exit_on_idle more true c in
                if fresh && exit_on_idle then some c else go_on
            | e ∷ es ↦
                then_do (apply_batch cfg patience a.delivered (e ∷ es) (not fresh) c)
                  (run cfg patience max_messages exit_on_idle more fresh)
          ]
        ]
