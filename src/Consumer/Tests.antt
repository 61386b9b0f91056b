-- ===== src/Consumer/Tests.antt =====
-- The consumer over a concrete store: it takes every message but a delete, after an outage.
use resgraph.Prelude.{
  ℕ, zero, suc, ◌+◌, ◌≤◌, ◌<◌, ◌≡◌, refl, String, Bool, true, false, Option, none, some, List, [],
  ◌∷◌, ◌++◌, length, arith, any,
}
use resgraph.Schema.{Op, delete, upsert, vm, UpdateMessage}
use resgraph.Consumer.{
  Entry, Pair, Outcome, returned, retryable, failed, State, Config, Answer, apply_entries,
  apply_batch, run,
}
use resgraph.Consumer.Promise.{Behaves, Settled}
use resgraph.Consumer.Settle.{apply_entries-Settled}
use resgraph.Consumer.Balance.{IsBalanced, Consumed, apply_batch-Consumed, run-IsBalanced}

-- What is applied, and how many more calls the outage lasts.
abbrev Store : Type 0
Store = List UpdateMessage × ℕ

abbrev applied_log : Store → List UpdateMessage
applied_log s = s.0

abbrev outage_of : Store → ℕ
outage_of s = s.1

abbrev is_delete : Op → Bool
is_delete delete = true
is_delete upsert = false

abbrev refuses : UpdateMessage → Bool
refuses m = is_delete m.op

abbrev take_batch : Bool → List UpdateMessage → List UpdateMessage → Outcome × Store
take_batch true ms l = (failed "refused", (l, 0))
take_batch false ms l = (returned (length ms) 0, (l ++ ms, 0))

abbrev call_store : List UpdateMessage → Store → Outcome × Store
call_store ms (l, suc n) = (retryable, (l, n))
call_store ms (l, zero) = take_batch (any refuses ms) ms l

taken :
    (b : Bool) (ms l : List UpdateMessage) (s' : Store) (a k : ℕ)
    → take_batch b ms l ≡ (returned a k, s')
    → (b ≡ false) × (s'.0 ≡ l ++ ms) × (a + k ≡ length ms) × (s'.1 ≤ 0)
taken true ms l s' a k e = grind arith
taken false ms l s' a k e = grind arith

refused :
    (b : Bool) (ms l : List UpdateMessage) (s' : Store) (x : String)
    → take_batch b ms l ≡ (failed x, s')
    → (b ≡ true) × (s'.0 ≡ l) × (s'.1 ≤ 0)
refused true ms l s' x e = grind arith
refused false ms l s' x e = grind arith

call_store-Behaves : Behaves call_store refuses applied_log outage_of
call_store-Behaves = record { on_return = returns; on_outage = waits; on_failure = fails }
  where
    returns :
        (ms : List UpdateMessage) (s s' : Store) (a k : ℕ)
        → call_store ms s ≡ (returned a k, s')
        → (any refuses ms ≡ false)
          × (applied_log s' ≡ applied_log s ++ ms)
          × (a + k ≡ length ms)
          × (outage_of s' ≤ outage_of s)
    returns ms (l, suc n) s' a k e = grind arith
    returns ms (l, zero) s' a k e = grind (arith, taken (any refuses ms) ms l s' a k e)

    waits :
        (ms : List UpdateMessage) (s s' : Store)
        → call_store ms s ≡ (retryable, s')
        → (applied_log s' ≡ applied_log s) × (outage_of s' < outage_of s)
    waits ms (l, suc n) s' e = grind arith
    waits ms (l, zero) s' e = grind arith

    fails :
        (ms : List UpdateMessage) (s s' : Store) (x : String)
        → call_store ms s ≡ (failed x, s')
        → (any refuses ms ≡ true) × (applied_log s' ≡ applied_log s) × (outage_of s' ≤ outage_of s)
    fails ms (l, suc n) s' x e = grind arith
    fails ms (l, zero) s' x e = refused (any refuses ms) ms l s' x e

abbrev started : UpdateMessage
started = record {
  event_time = 1;
  sequence = 1;
  op = upsert;
  resource_type = vm;
  resource_id = "vm-1";
  attrs = [];
  relationships = [];
}

abbrev stopped : UpdateMessage
stopped = record {
  event_time = 2;
  sequence = 2;
  op = delete;
  resource_type = vm;
  resource_id = "vm-1";
  attrs = [];
  relationships = [];
}

abbrev two_pairs : List Pair
two_pairs =
    (record { entry_id = 10; raw = "start"; msg = started })
    ∷ (record { entry_id = 11; raw = "stop"; msg = stopped })
    ∷ []

abbrev idle : State Store
idle = record {
  store = ([], 2);
  read = 0;
  applied = 0;
  skipped = 0;
  invalid = 0;
  dead_lettered = 0;
  acked = [];
  dlq = [];
}

abbrev once_each : ℕ → Option ℕ
once_each i = some 1

abbrev read_message : String → Option UpdateMessage
read_message String.[] = none
read_message (String.◌∷◌ c s) = some started

abbrev limits : Config
limits = record { batch = 2; max_deliveries = 5; max_retries = 1 }

abbrev two_entries : List Entry
two_entries =
    (record { entry_id = 10; payload = some "start" })
    ∷ (record { entry_id = 11; payload = none })
    ∷ []

abbrev one_entry : ℕ → List Entry
one_entry zero = []
one_entry (suc n) = (record { entry_id = 10; payload = some "start" }) ∷ []

one_entry-length : (n : ℕ) → length (one_entry n) ≤ n
one_entry-length zero = omega arith
one_entry-length (suc n) = omega arith

abbrev one_answer : List Answer
one_answer = (record { entries = one_entry; delivered = once_each }) ∷ []

apply_entries-Settled_example :
    (c' : State Store) × (apply_entries once_each call_store 9 3 two_pairs 1 idle ≡ some c')
    × Settled refuses applied_log outage_of two_pairs idle c'
apply_entries-Settled_example =
    apply_entries-Settled call_store-Behaves once_each 9 3 two_pairs 1 idle (omega arith)
      (omega arith)

apply_batch-Consumed_example :
    (c' : State Store) × (apply_batch once_each call_store read_message limits 9 once_each
        two_entries true idle
      ≡ some c')
    × Consumed outage_of two_entries idle c'
apply_batch-Consumed_example =
    apply_batch-Consumed call_store-Behaves once_each read_message limits 9 once_each two_entries
      true idle (omega arith)

run-IsBalanced_example :
    (c' : State Store) × (run once_each call_store read_message limits 9
        (some 5)
        true
        one_answer
        false
        idle
      ≡ some c')
    × IsBalanced c'
    × (c'.read ≤ 5)
run-IsBalanced_example =
    run-IsBalanced call_store-Behaves once_each read_message limits 9 (some 5) true one_answer false
      idle (omega arith) refl (omega arith) (one_entry-length, tt)
