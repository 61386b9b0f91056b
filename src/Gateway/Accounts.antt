-- ===== src/Gateway/Accounts.antt =====
-- src/resgraph/gateway/accounts.py, with the checks of src/resgraph/gateway/server.py that read it:
-- prepaid wallets, and the usage surface. A wallet's dollars are floats; the costs of the ledger's rows
-- are in units of 10⁻⁸ dollars, to which they are rounded.
pub mod Totals
pub mod Keyed
use resgraph.Prelude.{
  ℕ, zero, suc, ◌+◌, String, Bool, true, false, not, ◌&&◌, ◌||◌, Option, none, some, List, [], ◌∷◌,
  ◌++◌, str_eq, filter, if◌then◌else◌,
}
use resgraph.Floats.{Floats}
use Prim.Native.String.{compare}
use Prim.Native.Nat.{lt, eq, gt}

-- The wallet's file: what each account has spent.
abbrev pub Spent : Type 0 → Type 0
Spent Money = List (String × Money)

unfoldable pub spent_of : (F : Floats) → String → Spent F.Float → F.Float
spent_of F a [] = F.nought
spent_of F a ((b, n) ∷ rest) = if str_eq b a then n else spent_of F a rest

pub record BalanceState (Money : Type 0) : Type 0 where
  pub granted : Money
  pub spent : Money

-- `Wallet.state`
unfoldable pub state : (F : Floats) → String → F.Float → Spent F.Float → BalanceState F.Float
unfolding spent_of
state F a granted s = record { granted = granted; spent = spent_of F a s }

-- `remaining_usd <= 0`
abbrev pub is_exhausted : (F : Floats) → BalanceState F.Float → Bool
is_exhausted F b = F.le (F.sub b.granted b.spent) F.nought

unfoldable pub set_spent : {Money : Type 0} → String → Money → Spent Money → Spent Money
set_spent a n [] = (a, n) ∷ []
set_spent a n ((b, m) ∷ rest) = if str_eq b a then (b, n) ∷ rest else (b, m) ∷ set_spent a n rest

-- `Wallet.charge`
unfoldable pub charge : (F : Floats) → String → F.Float → Spent F.Float → Spent F.Float
unfolding spent_of set_spent
charge F a cost s = if F.le cost F.nought then s else set_spent a (F.add (spent_of F a s) cost) s

unfoldable pub charge_each : (F : Floats) → List (String × F.Float) → Spent F.Float → Spent F.Float
unfolding charge
charge_each F [] s = s
charge_each F ((a, n) ∷ rest) s = charge_each F rest (charge F a n s)

-- The accounts file's grants.
abbrev pub Grants : Type 0 → Type 0
Grants Money = List (String × Money)

unfoldable pub grant_of : {Money : Type 0} → String → Grants Money → Option Money
grant_of a [] = none
grant_of a ((b, n) ∷ rest) = if str_eq b a then some n else grant_of a rest

abbrev payment_due : (F : Floats) → String → Spent F.Float → Option F.Float → Bool
unfolding state
payment_due F a s none = false
payment_due F a s (some granted) = is_exhausted F (state F a granted s)

-- `_check_balance`: is the request refused with a 402?
unfoldable pub check_balance : (F : Floats) → Grants F.Float → Spent F.Float → Option String → Bool
unfolding grant_of state
check_balance F grants s none = false
check_balance F grants s (some a) = payment_due F a s (grant_of a grants)

-- A row of the usage ledger. Its `model`, which a bucket takes from its first row, and `cached` are in
-- no sum, and left out.
pub record Row : Type 0 where
  pub day : String
  pub account : String
  pub endpoint : String
  pub input_tokens : ℕ
  pub output_tokens : ℕ
  pub cost : ℕ

pub record Bucket : Type 0 where
  pub day : String
  pub account : String
  pub endpoint : String
  pub requests : ℕ
  pub input_tokens : ℕ
  pub output_tokens : ℕ
  pub cost : ℕ

-- Is this the bucket of the key `(day, account, endpoint)`?
abbrev pub has_key : String → String → String → Bucket → Bool
has_key d a e b = str_eq b.day d && str_eq b.account a && str_eq b.endpoint e

abbrev pub new_bucket : Row → Bucket
new_bucket r = record {
  day = r.day;
  account = r.account;
  endpoint = r.endpoint;
  requests = 1;
  input_tokens = r.input_tokens;
  output_tokens = r.output_tokens;
  cost = r.cost;
}

abbrev pub add_to : Row → Bucket → Bucket
add_to r b = record b {
  requests = b.requests + 1;
  input_tokens = b.input_tokens + r.input_tokens;
  output_tokens = b.output_tokens + r.output_tokens;
  cost = b.cost + r.cost;
}

-- The loop's body: `setdefault`, and the additions.
unfoldable pub add_row : Row → List Bucket → List Bucket
add_row r [] = new_bucket r ∷ []
add_row r (b ∷ bs) =
    let rest = add_row r bs in
    if has_key r.day r.account r.endpoint b then add_to r b ∷ bs else b ∷ rest

unfoldable pub add_rows : List Row → List Bucket → List Bucket
unfolding add_row
add_rows [] bs = bs
add_rows (r ∷ rs) bs = add_rows rs (add_row r bs)

abbrev pub of_account : Option String → Row → Bool
of_account none r = true
of_account (some a) r = str_eq r.account a

-- Is the first bucket's `(day, account)` at least the second's?
abbrev pub at_least : Bucket → Bucket → Bool
at_least b c = elim (compare b.day c.day) as (λ _. Bool) [
  | lt ↦ false
  | gt ↦ true
  | eq ↦ elim (compare b.account c.account) as (λ _. Bool) [ lt ↦ false | eq ↦ true | gt ↦ true ]
]

unfoldable pub insert_bucket : Bucket → List Bucket → List Bucket
insert_bucket b [] = b ∷ []
insert_bucket b (c ∷ cs) = if at_least b c then b ∷ c ∷ cs else c ∷ insert_bucket b cs

-- `sorted(..., reverse=True)`, which keeps the order of equals.
unfoldable pub newest_first : List Bucket → List Bucket
unfolding insert_bucket
newest_first [] = []
newest_first (b ∷ bs) = insert_bucket b (newest_first bs)

-- `UsageLedger.aggregate`, over the rows of the file.
unfoldable pub aggregate : Option String → List Row → List Bucket
unfolding add_rows newest_first
aggregate account rows = newest_first (add_rows (filter (of_account account) rows) [])

-- The accounts with the keys that the environment holds for them.
abbrev pub Keys : Type 0
Keys = List (String × Option String)

-- `expected and hmac.compare_digest(expected, presented)`
abbrev pub opens : Option String → String → Bool
opens none presented = false
opens (some String.[]) presented = false
opens (some (String.◌∷◌ c k)) presented = str_eq (String.◌∷◌ c k) presented

unfoldable pub resolve_account : Keys → String → Option String
resolve_account [] presented = none
resolve_account ((name, expected) ∷ rest) presented =
    if opens expected presented then some name else resolve_account rest presented

-- `_identify`: the account, a 401 or a 400.
pub data Identity : Type 0 where
  identified : Option String → Identity
  unknown_key : Identity
  contradicts : Identity

abbrev pub agree : Option String → String → Identity
agree none account = identified (some account)
agree (some c) account = if str_eq c account then identified (some account) else contradicts

abbrev pub by_account : Option String → Option String → Identity
by_account caller none = unknown_key
by_account caller (some account) = agree caller account

unfoldable pub identify : Keys → Option String → Option String → Identity
unfolding resolve_account
identify keys caller none = identified caller
identify keys caller (some presented) = by_account caller (resolve_account keys presented)

-- `mgmt_authorized`, on the management key that the environment holds.
unfoldable pub mgmt_authorized : Option String → Option String → Bool
mgmt_authorized none presented = true
mgmt_authorized (some String.[]) presented = true
mgmt_authorized (some (String.◌∷◌ c k)) none = false
mgmt_authorized (some (String.◌∷◌ c k)) (some p) = str_eq (String.◌∷◌ c k) p
