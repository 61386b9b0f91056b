-- ===== src/Gateway/Dispatch/Choose.antt =====
-- `choose` of src/resgraph/gateway/dispatch.py returns a least eligible backend.
use resgraph.Prelude.{
  ℕ, ◌≡◌, refl, subst, Bool, true, false, none, some, List, [], ◌∷◌, ◌↔◌, inl, inr, In, In-filter,
  filter, if◌then◌else◌, arith, Bool-cases,
}
use resgraph.Gateway.Dispatch.{
  Backend, SortKey, sort_key, key_lt, min_by_key, first_least, is_eligible, choose,
}

-- `k` is not before `j`.
abbrev pub AtLeast : SortKey → SortKey → Type 0
AtLeast k j = key_lt k j ≡ false

AtLeast-refl : (k : SortKey) → AtLeast k k
unfolding key_lt
AtLeast-refl k = ground arith

AtLeast-trans : (i j k : SortKey) → AtLeast i j → AtLeast j k → AtLeast i k
unfolding key_lt
AtLeast-trans i j k h l = ground arith

AtLeast-of_lt : (j k : SortKey) → key_lt j k ≡ true → AtLeast k j
unfolding key_lt
AtLeast-of_lt j k h = ground arith

-- The result is no later than the running best, nor than any backend that is still to come.
min_by_key-le :
    (key : Backend → SortKey) (best : Backend) (bs : List Backend)
    → AtLeast (key best) (key (min_by_key key best bs))
unfolding min_by_key
min_by_key-le key best [] = AtLeast-refl (key best)
min_by_key-le key best (b ∷ bs) = elim (Bool-cases (key_lt (key b) (key best))) [
  | inl better ↦ rw better (
      AtLeast-trans (key best) (key b) _ (AtLeast-of_lt (key b) (key best) better)
        (min_by_key-le key b bs))
  | inr worse ↦ rw worse (min_by_key-le key best bs)
]

min_by_key-least :
    (key : Backend → SortKey) (best : Backend) (bs : List Backend) (x : Backend)
    → In x bs
    → AtLeast (key x) (key (min_by_key key best bs))
unfolding min_by_key
min_by_key-least key best [] x h = absurd h
min_by_key-least key best (b ∷ bs) x (inr h) =
    min_by_key-least key (if key_lt (key b) (key best) then b else best) bs x h
min_by_key-least key best (b ∷ bs) x (inl e) = elim (Bool-cases (key_lt (key b) (key best))) [
  | inl better ↦ rw (e, better) (min_by_key-le key b bs)
  | inr worse ↦ rw (e, worse) (AtLeast-trans (key b) (key best) _ worse (min_by_key-le key best bs))
]

In-picked :
    (t : Bool) (m b best : Backend) (bs : List Backend)
    → In m ((if t then b else best) ∷ bs)
    → In m (best ∷ b ∷ bs)
In-picked true m b best bs h = inr h
In-picked false m b best bs (inl e) = inl e
In-picked false m b best bs (inr h) = inr (inr h)

min_by_key-In :
    (key : Backend → SortKey) (best : Backend) (bs : List Backend)
    → In (min_by_key key best bs) (best ∷ bs)
unfolding min_by_key
min_by_key-In key best [] = inl refl
min_by_key-In key best (b ∷ bs) =
    In-picked (key_lt (key b) (key best)) _ b best bs
      (min_by_key-In key (if key_lt (key b) (key best) then b else best) bs)

first_least-some :
    (key : Backend → SortKey) (bs : List Backend) (b : Backend)
    → first_least key bs ≡ some b
    → In b bs × ((x : Backend) → In x bs → AtLeast (key x) (key b))
first_least-some key [] b e = cc
first_least-some key (c ∷ cs) b e =
    let found : min_by_key key c cs ≡ b = cc in
    subst (λ m. In m (c ∷ cs) × ((x : Backend) → In x (c ∷ cs) → AtLeast (key x) (key m))) found
      (
        min_by_key-In key c cs,
        λ x h. elim h [
          | inl same ↦ rw same (min_by_key-le key c cs)
          | inr h' ↦ min_by_key-least key c cs x h'
        ],
      )

first_least-none :
    (key : Backend → SortKey) (bs : List Backend) → first_least key bs ≡ none → bs ≡ []
first_least-none key [] e = refl
first_least-none key (b ∷ bs) e = cc

filter-none :
    (bs : List Backend)
    → ((x : Backend) → In x bs → is_eligible x ≡ false)
    → filter is_eligible bs ≡ []
filter-none [] h = refl
filter-none (b ∷ bs) h = ground (arith, h b (inl refl), filter-none bs (λ x i. h x (inr i)))

-- The backend that is chosen is one of those given and not down, and no other that is not down
-- sorts strictly before it.
pub choose-some :
    (now : ℕ) (bs : List Backend) (b : Backend)
    → choose now bs ≡ some b
    → In b bs
      × (is_eligible b ≡ true)
      × ((x : Backend) → In x bs → is_eligible x ≡ true → AtLeast (sort_key now x) (sort_key now b))
unfolding choose
choose-some now bs b e =
    let (i, least) = first_least-some (sort_key now) (filter is_eligible bs) b e in
    let (given, up) = (In-filter is_eligible b bs).0 i in
    (given, up, λ x h eligible. least x ((In-filter is_eligible x bs).1 (h, eligible)))

-- Nothing is chosen exactly when every backend is down.
pub choose-none :
    (now : ℕ) (bs : List Backend)
    → (choose now bs ≡ none) ↔ ((x : Backend) → In x bs → is_eligible x ≡ false)
unfolding choose
choose-none now bs = (
  λ e x h. elim (Bool-cases (is_eligible x)) [
    | inl up ↦ absurd (
        subst (λ l. In x l) (first_least-none (sort_key now) (filter is_eligible bs) e)
          ((In-filter is_eligible x bs).1 (h, up)))
    | inr dead ↦ dead
  ],
  λ h. rw (filter-none bs h),
)
