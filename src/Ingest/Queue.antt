-- ===== src/Ingest/Queue.antt =====
-- `RefQueue` of src/resgraph/ingest/spool.py: the queue of references to raw batches. The SQLite
-- table is a list of its rows in the order of insertion, which is also the order of rows enqueued at
-- the same time.
pub mod Delivery
pub mod Claimed
use resgraph.Prelude.{
  ℕ, ◌+◌, String, Bool, true, false, not, Option, none, some, List, [], ◌∷◌, ◌++◌, map, str_eq, leb,
  length, take, filter, any, if◌then◌else◌,
}

pub record Row : Type 0 where
  pub ref : String
  pub enqueued_at : ℕ
  pub claimed_at : Option ℕ

abbrev pub RefQueue : Type 0
RefQueue = List Row

abbrev pub refs_of : RefQueue → List String
refs_of q = map (λ (r : Row). r.ref) q

abbrev pub is_claimed : Row → Bool
is_claimed r = elim r.claimed_at [ none ↦ false | some t ↦ true ]

-- `ON CONFLICT(ref) DO NOTHING`
unfoldable pub enqueue : String → ℕ → RefQueue → RefQueue
enqueue ref now q =
    if any (str_eq ref) (refs_of q)
    then q
    else q ++ ((record { ref = ref; enqueued_at = now; claimed_at = none }) ∷ [])

unfoldable pub insert_row : Row → List Row → List Row
insert_row r [] = r ∷ []
insert_row r (x ∷ xs) = if leb r.enqueued_at x.enqueued_at then r ∷ x ∷ xs else x ∷ insert_row r xs

-- `ORDER BY enqueued_at`
unfoldable pub by_age : List Row → List Row
unfolding insert_row
by_age [] = []
by_age (x ∷ xs) = insert_row x (by_age xs)

-- `UPDATE refs SET claimed_at = ? WHERE ref = ?`, for each of the references.
unfoldable pub set_claimed : Option ℕ → List String → RefQueue → RefQueue
set_claimed stamp refs [] = []
set_claimed stamp refs (x ∷ xs) =
    let rest = set_claimed stamp refs xs in
    (if any (str_eq x.ref) refs then record x { claimed_at = stamp } else x) ∷ rest

-- The references that a claim takes, oldest first, and the queue that it leaves.
unfoldable pub claim : ℕ → ℕ → RefQueue → List String × RefQueue
unfolding by_age set_claimed
claim limit now q =
    let refs = refs_of (take limit (by_age (filter (λ r. not (is_claimed r)) q))) in
    (refs, set_claimed (some now) refs q)

-- `DELETE FROM refs WHERE ref = ?`
unfoldable pub ack : String → RefQueue → RefQueue
ack ref q = filter (λ (r : Row). not (str_eq r.ref ref)) q

-- `claimed_at <= now - older_than`
abbrev pub is_over : ℕ → ℕ → Row → Bool
is_over older now r = elim r.claimed_at [ none ↦ false | some t ↦ leb (t + older) now ]

unfoldable pub reclaim : ℕ → ℕ → RefQueue → List String × RefQueue
unfolding set_claimed
reclaim older now q =
    let refs = refs_of (filter (is_over older now) q) in (refs, set_claimed none refs q)

unfoldable pub pending : RefQueue → ℕ
pending q = length (filter (λ r. not (is_claimed r)) q)

unfoldable pub inflight : RefQueue → ℕ
inflight q = length (filter is_claimed q)

pub data Call : Type 0 where
  do_enqueue : String → ℕ → Call
  do_claim : ℕ → ℕ → Call
  do_ack : String → Call
  do_reclaim : ℕ → ℕ → Call

unfoldable pub call : Call → RefQueue → RefQueue
unfolding enqueue claim ack reclaim
call (do_enqueue ref now) q = enqueue ref now q
call (do_claim limit now) q = (claim limit now q).1
call (do_ack ref) q = ack ref q
call (do_reclaim older now) q = (reclaim older now q).1

-- The calls of producers and workers on one queue, in the order in which they commit.
unfoldable pub calls : List Call → RefQueue → RefQueue
unfolding call
calls [] q = q
calls (x ∷ xs) q = calls xs (call x q)
