-- ===== src/Analyst/Audit.antt =====
-- The hash chain of src/resgraph/analyst/audit.py, over the rows of one run in the order of `seq`.
-- `chain_hash` is SHA-256 of the JSON text of its arguments, the run's id among them.
pub mod Evident
mod Tests
use resgraph.Prelude.{
  ℕ, ◌+◌, String, Bool, true, false, Option, none, some, List, [], ◌∷◌, ◌++◌, str_eq, if◌then◌else◌,
}

-- What a row says, its hash and its number apart.
pub record Content : Type 0 where
  pub kind : String
  pub payload : String
  pub latency_ms : Option ℕ
  pub tokens : Option ℕ
  pub ts : String

pub record EventRow : Type 0 where
  pub seq : ℕ
  pub content : Content
  pub row_hash : String

-- The hash of the last row, `prev` where there is none.
abbrev pub last_hash : String → List EventRow → String
last_hash prev [] = prev
last_hash prev (r ∷ rows) = last_hash r.row_hash rows

-- `COALESCE(MAX(seq), -1) + 1`, of rows in the order of `seq`.
abbrev pub next_seq : ℕ → List EventRow → ℕ
next_seq n [] = n
next_seq n (r ∷ rows) = next_seq (r.seq + 1) rows

module _ (chain_hash : String → ℕ → Content → String) where
  -- `_append`
  unfoldable pub append : Content → List EventRow → List EventRow
  append c rows =
      let seq = next_seq 0 rows in
      rows
      ++ ((record { seq = seq; content = c; row_hash = chain_hash (last_hash "" rows) seq c }) ∷ [])

  -- The rows that a run has written.
  unfoldable pub append_all : List Content → List EventRow → List EventRow
  unfolding append
  append_all [] rows = rows
  append_all (c ∷ cs) rows = append_all cs (append c rows)

  -- The loop of `verify_chain`.
  unfoldable pub verify_from : String → List EventRow → Option ℕ
  verify_from prev [] = none
  verify_from prev (r ∷ rows) =
      let rest = verify_from r.row_hash rows in
      if str_eq (chain_hash prev r.seq r.content) r.row_hash then rest else some r.seq

  unfoldable pub verify_chain : List EventRow → Option ℕ
  unfolding verify_from
  verify_chain rows = verify_from "" rows
