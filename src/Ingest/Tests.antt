-- ===== src/Ingest/Tests.antt =====
-- A reference survives the crash of the worker that claimed it.
use resgraph.Prelude.{
  ◌⊎◌, if◌then◌else◌, str_eq, lookup, String, All, true, false, ◌≤◌, ◌≡◌, refl, some, List, [], ◌∷◌,
  In, arith, length, inl, inr,
}
use resgraph.Ingest.Queue.{
  RefQueue, refs_of, enqueue, claim, reclaim, Call, do_enqueue, do_claim, do_ack, calls,
}
use resgraph.Ingest.Pipeline.{
  whole, Action, produce, work, take_back, System, Sink, act_all, replay_from_raw,
}
use resgraph.Ingest.Pipeline.Actions.{IsGood, Spools}
use resgraph.Ingest.Pipeline.Named.{IsNamed, act_all-Safe}
use resgraph.Ingest.Pipeline.Replay.{empty_system, replay_from_raw-agrees}
use resgraph.Ingest.Queue.Delivery.{Over, calls-deliver}

-- A worker claims both batches at 10, acknowledges one, and crashes.
abbrev crash : List Call
crash = do_enqueue "b2" 6 ∷ do_claim 16 10 ∷ do_ack "b2" ∷ []

abbrev leftover : RefQueue
leftover = (record { ref = "b1"; enqueued_at = 5; claimed_at = some 10 }) ∷ []

calls-crash : calls crash (enqueue "b1" 5 []) ≡ leftover
unfolding calls enqueue
calls-crash = refl

leftover-Over : Over 60 100 (calls crash (enqueue "b1" 5 []))
unfolding calls enqueue
leftover-Over x (inl e) claimed = rw e (ground arith)
leftover-Over x (inr n) claimed = absurd n

leftover-length : length (calls crash (enqueue "b1" 5 [])) ≤ 16
unfolding calls enqueue
leftover-length = omega arith

calls-deliver_example :
    In "b1" (claim 16 100 (reclaim 60 100 (calls crash (enqueue "b1" 5 []))).1).0
calls-deliver_example =
    calls-deliver "b1" 5 crash [] 60 16 100 (tt, (tt, (refl, tt))) leftover-Over leftover-length

-- An event is its own key and row, and a batch goes by its first event. A worker dies in front of the
-- acknowledgement, the claim is taken back, and the batch is delivered again.
abbrev itself : String → String
itself e = e

abbrev first_of : List String → String
first_of [] = "none"
first_of (e ∷ es) = e

abbrev in_order : List String → List String
in_order refs = refs

abbrev redelivered : List (Action String)
redelivered =
    produce ("a" ∷ "b" ∷ []) 1
    ∷ work 16 2 0 true
    ∷ produce ("c" ∷ []) 3
    ∷ take_back 60 100
    ∷ work 16 101 16 false
    ∷ []

redelivered-IsGood : All (IsGood itself itself first_of in_order itself) redelivered
redelivered-IsGood = ((refl, (refl, tt)), (tt, ((refl, tt), (tt, (tt, tt)))))

abbrev settled : System String String
settled = record {
  spool = ("a", whole ("a" ∷ "b" ∷ [])) ∷ ("c", whole ("c" ∷ [])) ∷ [];
  queue = [];
  sink = ("a", "a") ∷ ("b", "b") ∷ ("c", "c") ∷ [];
}

runs_redelivered : act_all itself itself first_of in_order redelivered empty_system ≡ some settled
unfolding act_all
runs_redelivered = refl

-- The batch that each digest stands for.
abbrev batch_of : String → List String
batch_of i = if str_eq i "a" then "a" ∷ "b" ∷ [] else "c" ∷ []

redelivered-IsNamed :
    All
      (Spools itself itself first_of in_order itself
        (IsNamed itself itself first_of in_order itself batch_of))
      redelivered
redelivered-IsNamed = (refl, (tt, (refl, (tt, (tt, tt)))))

abbrev last_batch : List String
last_batch = "c" ∷ []

act_all-Safe_example :
    (sys : System String String) × (act_all itself itself first_of in_order redelivered empty_system
      ≡ some sys)
    × (lookup (first_of last_batch) sys.spool ≡ some (whole last_batch))
    × (In (first_of last_batch) (refs_of sys.queue)
        ⊎ ((e : String) → In e last_batch → lookup (itself e) sys.sink ≡ some (itself e)))
act_all-Safe_example =
    act_all-Safe itself itself first_of in_order itself batch_of redelivered last_batch
      redelivered-IsGood redelivered-IsNamed (inr (inl refl))

replay_from_raw-agrees_example :
    (sink : Sink String) × (replay_from_raw itself itself first_of in_order settled.spool
      ≡ some sink)
    × ((k : String) → lookup k sink ≡ lookup k settled.sink)
replay_from_raw-agrees_example =
    replay_from_raw-agrees itself itself first_of in_order itself redelivered settled
      (λ i refs. (λ h. h, λ h. h)) redelivered-IsGood runs_redelivered refl (λ i h. h)
