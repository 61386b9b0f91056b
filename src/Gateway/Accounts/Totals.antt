-- ===== src/Gateway/Accounts/Totals.antt =====
-- The wallet and the usage surface of src/resgraph/gateway/accounts.py add up.
use resgraph.Prelude.{
  ℕ, ◌+◌, ◌≡◌, refl, ap, ◌∙◌, String, true, not, ◌&&◌, Option, some, List, [], ◌∷◌, str_eq, eq_iff,
  filter, arith, if◌then◌else◌, Bool-cases, inl, inr, and_left, and_right,
}
use resgraph.Floats.{Floats}
use resgraph.Gateway.Accounts.{
  Spent, spent_of, set_spent, charge, charge_each, state, Row, Bucket, has_key, new_bucket, add_to,
  add_row, add_rows, of_account, at_least, insert_bucket, newest_first, aggregate, Grants, grant_of,
  check_balance,
}

-- What the charges make of what an account has spent: each of its own that is above zero is added, in
-- the program's addition.
abbrev pub charged_to : (F : Floats) → String → F.Float → List (String × F.Float) → F.Float
charged_to F a t [] = t
charged_to F a t ((b, n) ∷ rest) =
    charged_to F a (if str_eq b a && not (F.le n F.nought) then F.add t n else t) rest

module _ (F : Floats) (a : String) where
  spent_of-set_spent :
      (b : String) (n : F.Float) (s : Spent F.Float)
      → spent_of F a (set_spent b n s) ≡ (if str_eq b a then n else spent_of F a s)
  unfolding spent_of set_spent
  spent_of-set_spent b n [] = ground arith
  spent_of-set_spent b n ((c, m) ∷ rest) =
      let ih = spent_of-set_spent b n rest in ground (arith, eq_iff c b, eq_iff c a, eq_iff b a)

  spent_of-charge :
      (b : String) (n : F.Float) (s : Spent F.Float)
      → spent_of F a (charge F b n s)
        ≡ (if str_eq b a && not (F.le n F.nought) then F.add (spent_of F a s) n else spent_of F a s)
  unfolding charge
  spent_of-charge b n s = elim (Bool-cases (F.le n F.nought)) [
    | inl free ↦ rw free (ground arith)
    | inr paid ↦
        let set = spent_of-set_spent b (F.add (spent_of F b s) n) s in
        elim (Bool-cases (str_eq b a)) [
          | inl same ↦
              rw (paid, same)
                (rw same at set ∙ ap (λ c. F.add (spent_of F c s) n) ((eq_iff b a).0 same))
          | inr other ↦ rw (paid, other) (rw other at set)
        ]
  ]

  spent_of-charge_each :
      (xs : List (String × F.Float)) (s : Spent F.Float)
      → spent_of F a (charge_each F xs s) ≡ charged_to F a (spent_of F a s) xs
  unfolding charge_each
  spent_of-charge_each [] s = refl
  spent_of-charge_each ((b, n) ∷ rest) s =
      spent_of-charge_each rest (charge F b n s)
      ∙ ap (λ t. charged_to F a t rest) (spent_of-charge b n s)

  -- What an account has spent after any charges is what it had spent and the charges to it that are
  -- above zero, and nobody else's; a metered account is refused exactly when its grant less that is not
  -- above zero. Sum and difference are the program's, in floats and in the order of the charges.
  pub check_balance-charge_each :
      (granted : F.Float) (grants : Grants F.Float) (xs : List (String × F.Float))
      (s : Spent F.Float)
      → grant_of a grants ≡ some granted
      → (spent_of F a (charge_each F xs s) ≡ charged_to F a (spent_of F a s) xs)
        × (check_balance F grants (charge_each F xs s) (some a)
            ≡ F.le (F.sub granted (charged_to F a (spent_of F a s) xs)) F.nought)
  unfolding check_balance state
  check_balance-charge_each granted grants xs s e =
      let spent = spent_of-charge_each xs s in (spent, rw (e, spent) refl)

-- The sum of a column over the buckets of a key, and over the rows of one.
abbrev pub sum_buckets : (Bucket → ℕ) → (d a e : String) → List Bucket → ℕ
sum_buckets f d a e [] = 0
sum_buckets f d a e (b ∷ bs) = (if has_key d a e b then f b else 0) + sum_buckets f d a e bs

abbrev pub sum_rows : (Row → ℕ) → (d a e : String) → List Row → ℕ
sum_rows g d a e [] = 0
sum_rows g d a e (r ∷ rs) =
    (if str_eq r.day d && str_eq r.account a && str_eq r.endpoint e then g r else 0)
    + sum_rows g d a e rs

key_same :
    (d a e : String) (r : Row) (b : Bucket)
    → has_key r.day r.account r.endpoint b ≡ true
    → (str_eq r.day d && str_eq r.account a && str_eq r.endpoint e) ≡ has_key d a e b
key_same d a e r b h =
    let named = and_left _ _ h in
    let day = (eq_iff b.day r.day).0 (and_left _ _ named) in
    let account = (eq_iff b.account r.account).0 (and_right _ _ named) in
    let endpoint = (eq_iff b.endpoint r.endpoint).0 (and_right _ _ h) in
    rw (day, account, endpoint) refl

module _ (f : Bucket → ℕ) (d a e : String) where
  sum-insert_bucket :
      (b : Bucket) (bs : List Bucket)
      → sum_buckets f d a e (insert_bucket b bs) ≡ sum_buckets f d a e (b ∷ bs)
  unfolding insert_bucket
  sum-insert_bucket b [] = refl
  sum-insert_bucket b (c ∷ cs) = elim (Bool-cases (at_least b c)) [
    | inl before ↦ rw before refl
    | inr after ↦ let ih = sum-insert_bucket b cs in rw after (omega (arith, ih))
  ]

  sum-newest_first :
      (bs : List Bucket) → sum_buckets f d a e (newest_first bs) ≡ sum_buckets f d a e bs
  unfolding newest_first
  sum-newest_first [] = refl
  sum-newest_first (b ∷ bs) =
      let ih = sum-newest_first bs in sum-insert_bucket b (newest_first bs) ∙ omega (arith, ih)

  module _ (g : Row → ℕ) (new : (r : Row) → f (new_bucket r) ≡ g r)
      (more : (r : Row) (b : Bucket) → f (add_to r b) ≡ f b + g r) where
    sum-add_row :
        (r : Row) (bs : List Bucket)
        → sum_buckets f d a e (add_row r bs) ≡ sum_rows g d a e (r ∷ []) + sum_buckets f d a e bs
    unfolding add_row
    sum-add_row r [] = rw (new r) (omega arith)
    sum-add_row r (b ∷ bs) = elim (Bool-cases (has_key r.day r.account r.endpoint b)) [
      | inl same ↦
          let key = key_same d a e r b same in
          rw (same, key, more r b)
            (elim (Bool-cases (has_key d a e b)) [
              | inl here ↦ rw here (omega arith)
              | inr there ↦ rw there (omega arith)
            ])
      | inr other ↦ let ih = sum-add_row r bs in rw other (omega (arith, ih))
    ]

    sum-add_rows :
        (rs : List Row) (bs : List Bucket)
        → sum_buckets f d a e (add_rows rs bs) ≡ sum_rows g d a e rs + sum_buckets f d a e bs
    unfolding add_rows
    sum-add_rows [] bs = omega arith
    sum-add_rows (r ∷ rs) bs =
        let rest = sum-add_rows rs (add_row r bs) in
        let one = sum-add_row r bs in omega (arith, rest, one)

    sum-aggregate :
        (account : Option String) (rows : List Row)
        → sum_buckets f d a e (aggregate account rows)
          ≡ sum_rows g d a e (filter (of_account account) rows)
    unfolding aggregate
    sum-aggregate account rows =
        let kept = filter (of_account account) rows in
        let sorted_sum = sum-newest_first (add_rows kept []) in
        let total = sum-add_rows kept [] in omega (arith, sorted_sum, total)

-- For every key, the buckets of the usage surface hold the number of the ledger's rows with that key,
-- and the sums of their tokens and costs, over the rows of the account that is asked for.
pub aggregate-sums :
    (account : Option String) (rows : List Row) (d a e : String)
    → let kept = filter (of_account account) rows in
      let shown = aggregate account rows in
      (sum_buckets (λ b. b.requests) d a e shown ≡ sum_rows (λ r. 1) d a e kept)
      × (sum_buckets (λ b. b.input_tokens) d a e shown ≡ sum_rows (λ r. r.input_tokens) d a e kept)
      × (sum_buckets (λ b. b.output_tokens) d a e shown
          ≡ sum_rows (λ r. r.output_tokens) d a e kept)
      × (sum_buckets (λ b. b.cost) d a e shown ≡ sum_rows (λ r. r.cost) d a e kept)
aggregate-sums account rows d a e = (
  sum-aggregate (λ b. b.requests) d a e (λ r. 1) (λ r. refl) (λ r b. refl) account rows,
  sum-aggregate (λ b. b.input_tokens) d a e (λ r. r.input_tokens) (λ r. refl) (λ r b. refl) account
      rows,
  sum-aggregate (λ b. b.output_tokens) d a e (λ r. r.output_tokens) (λ r. refl) (λ r b. refl)
      account rows,
  sum-aggregate (λ b. b.cost) d a e (λ r. r.cost) (λ r. refl) (λ r b. refl) account rows,
)
