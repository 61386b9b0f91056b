-- ===== src/Gateway/Quality/Frontier.antt =====
-- `eligible` and `frontier` of src/resgraph/gateway/quality.py keep what they promise.
use resgraph.Prelude.{
  ℕ, ◌+◌, ◌-◌, ◌≤◌, ◌<◌, ◌≡◌, refl, sym, ◌∙◌, subst, String, Bool, true, false, not, ◌&&◌, Option,
  none, some, List, [], ◌∷◌, map, ◌↔◌, inl, inr, str_eq, eq_iff, leb, leb→le, arith, In, In-filter,
  filter, any, All, Bool-cases, and_right,
}
use resgraph.Gateway.Quality.{
  Score, Scores, get_score, scored, fabricated, fabricating, is_in, eligible, Verdict, not_compared,
  worse, better, equal, lower, compared, verdicts, wins, dominates, beats, undominated, frontier,
}

is_in-In : (a : String) (names : List String) → (is_in a names ≡ true) ↔ In a names
unfolding is_in
is_in-In a [] = (λ h. cc, λ h. absurd h)
is_in-In a (b ∷ names) = (
  λ h. ground (arith, (is_in-In a names).0, eq_iff a b),
  λ h. ground (arith, (is_in-In a names).1, eq_iff a b),
)

-- A score clears the floor when its pass^k reaches it and its run fabricated nothing.
abbrev pub Clears : ℕ → Option Score → Type 0
Clears min_passk none = ⊥
Clears min_passk (some s) = (min_passk ≤ s.passk) × (s.fabrication_count ≡ 0)

eligible_test :
    (floor : ℕ) (o : Option Score) (disqualified : Bool)
    → (disqualified ≡ true → scored fabricated o ≡ true)
    → (scored fabricated o ≡ true → disqualified ≡ true)
    → ((scored (λ s. leb floor s.passk) o && not disqualified) ≡ true) ↔ Clears floor o
eligible_test floor none d h l = ground arith
eligible_test floor (some s) d h l = ground arith

-- A candidate is eligible exactly when it was measured, its pass^k reaches the floor, and its run
-- fabricated nothing; nothing but a candidate is.
pub eligible-In :
    (scores : Scores) (candidates : List String) (min_passk : ℕ) (a : String)
    → In a (eligible scores candidates min_passk)
      ↔ (In a candidates × Clears min_passk (get_score a scores))
unfolding eligible fabricating
eligible-In scores candidates floor a =
    let F = fabricating scores candidates in
    let kept =
      In-filter (λ x. scored (λ s. leb floor s.passk) (get_score x scores) && not (is_in x F)) a
        candidates in
    let named = In-filter (λ x. scored fabricated (get_score x scores)) a candidates in
    let known = is_in-In a F in
    (
      λ h. (
        (kept.0 h).0,
        (eligible_test floor (get_score a scores) (is_in a F) (λ e. (named.0 (known.0 e)).1)
              (λ e. known.1 (named.1 ((kept.0 h).0, e)))).0
            (kept.0 h).1,
      ),
      λ (h, c). kept.1 (
        h,
        (eligible_test floor (get_score a scores) (is_in a F) (λ e. (named.0 (known.0 e)).1)
              (λ e. known.1 (named.1 (h, e)))).1
            c,
      ),
    )

-- What a verdict says of the two weights of its axis: less is better.
abbrev Fits : Verdict × ℕ × ℕ → Type 0
Fits (worse, x, y) = Unit
Fits (better, x, y) = x < y
Fits (equal, x, y) = x ≡ y
Fits (not_compared, x, y) = x ≡ y

abbrev lefts : List (Verdict × ℕ × ℕ) → ℕ
lefts [] = 0
lefts ((v, x, y) ∷ rest) = x + lefts rest

abbrev rights : List (Verdict × ℕ × ℕ) → ℕ
rights [] = 0
rights ((v, x, y) ∷ rest) = y + rights rest

abbrev verdict : Verdict × ℕ × ℕ → Verdict
verdict (v, x, y) = v

wins-lt :
    (flag : Bool) (axes : List (Verdict × ℕ × ℕ))
    → All Fits axes
    → wins flag (map verdict axes) ≡ true
    → (lefts axes ≤ rights axes) × ((flag ≡ false) → lefts axes < rights axes)
unfolding wins
wins-lt flag [] h e = ground arith
wins-lt flag ((worse, x, y) ∷ rest) h e = cc
wins-lt flag ((better, x, y) ∷ rest) h e = let below = wins-lt true rest h.1 e in ground arith
wins-lt flag ((equal, x, y) ∷ rest) h e = let below = wins-lt flag rest h.1 e in ground arith
wins-lt flag ((not_compared, x, y) ∷ rest) h e = let below = wins-lt flag rest h.1 e in ground arith

abbrev amount : Option ℕ → ℕ
amount none = 0
amount (some x) = x

abbrev recorded : Option ℕ → Bool
recorded none = false
recorded (some x) = true

-- Two scores record the same axes.
abbrev pub SameAxes : Score → Score → Type 0
SameAxes a b =
    (recorded a.cost_per_passed ≡ recorded b.cost_per_passed)
    × (recorded a.latency_p50 ≡ recorded b.latency_p50)
    × (recorded a.latency_p95 ≡ recorded b.latency_p95)

-- What an arm loses on all axes together.
abbrev weight : Score → ℕ
weight s =
    (1000000 - s.passk)
    + (amount s.cost_per_passed + (amount s.latency_p50 + (amount s.latency_p95 + 0)))

lower-Fits : (x y : ℕ) → Fits (lower x y, x, y)
unfolding lower
lower-Fits x y = ground arith

lower_passk-Fits :
    (p q : ℕ) → p ≤ 1000000 → q ≤ 1000000 → Fits (lower q p, 1000000 - p, 1000000 - q)
unfolding lower
lower_passk-Fits p q hp hq = ground arith

compared-Fits : (x y : Option ℕ) → recorded x ≡ recorded y → Fits (compared x y, amount x, amount y)
unfolding compared
compared-Fits (some x) (some y) e = lower-Fits x y
compared-Fits (some x) none e = cc
compared-Fits none (some y) e = cc
compared-Fits none none e = refl

abbrev scored_axes : Score → Score → List (Verdict × ℕ × ℕ)
scored_axes a b =
    (lower b.passk a.passk, 1000000 - a.passk, 1000000 - b.passk)
    ∷ (
      compared a.cost_per_passed b.cost_per_passed,
      amount a.cost_per_passed,
      amount b.cost_per_passed,
    )
    ∷ (compared a.latency_p50 b.latency_p50, amount a.latency_p50, amount b.latency_p50)
    ∷ (compared a.latency_p95 b.latency_p95, amount a.latency_p95, amount b.latency_p95)
    ∷ []

-- Where both record the same axes, an arm that dominates another weighs less.
pub dominates-weight :
    (a b : Score)
    → SameAxes a b
    → a.passk ≤ 1000000
    → b.passk ≤ 1000000
    → dominates a b ≡ true
    → weight a < weight b
unfolding dominates verdicts
dominates-weight a b (cost, p50, p95) ha hb e =
    (wins-lt false (scored_axes a b)
        (
          lower_passk-Fits a.passk b.passk ha hb,
          (
            compared-Fits a.cost_per_passed b.cost_per_passed cost,
            (
              compared-Fits a.latency_p50 b.latency_p50 p50,
              (compared-Fits a.latency_p95 b.latency_p95 p95, tt),
            ),
          ),
        )
        e).1
      refl

module _ (m : String → ℕ) where
  bound_cons :
      (n : ℕ) (x : String) (xs : List String)
      → n ≤ m x
      → ((c : String) → In c xs → n ≤ m c)
      → (c : String) → In c (x ∷ xs)
      → n ≤ m c
  bound_cons n x xs hx h c (inl e) = rw e hx
  bound_cons n x xs hx h c (inr i) = h c i

  -- Of a list that is not empty, a member of the least measure.
  least :
      (x : String) (xs : List String)
      → (b : String) × In b (x ∷ xs) × ((c : String) → In c (x ∷ xs) → m b ≤ m c)
  least x [] = (x, inl refl, λ c h. ground arith)
  least x (y ∷ ys) =
      let (b, h, small) = least y ys in
      elim (Bool-cases (leb (m x) (m b))) [
        | inl e ↦
            let le = leb→le (m x) (m b) e in
            (
              x,
              inl refl,
              bound_cons (m x) x (y ∷ ys) (omega arith)
                  (λ c l. let below = small c l in omega (arith, le, below)),
            )
        | inr e ↦ (b, inr h, bound_cons (m b) x (y ∷ ys) (ground arith) small)
      ]

  least_of :
      (a : String) (xs : List String)
      → In a xs
      → (b : String) × In b xs × ((c : String) → In c xs → m b ≤ m c)
  least_of a [] h = absurd h
  least_of a (x ∷ xs) h = least x xs

weight_of : Option Score → ℕ
weight_of none = 0
weight_of (some s) = weight s

-- A measured arm with a pass^k of at most one, that records the axes of `s`.
abbrev pub Comparable : Score → Option Score → Type 0
Comparable s none = Unit
Comparable s (some t) = SameAxes t s × (t.passk ≤ 1000000)

any-In :
    (p : String → Bool) (xs : List String) → any p xs ≡ true → (o : String) × In o xs × (p o ≡ true)
any-In p [] h = cc
any-In p (x ∷ xs) h = elim (Bool-cases (p x)) [
  | inl e ↦ (x, inl refl, e)
  | inr e ↦ let (o, i, f) = any-In p xs (ground arith) in (o, inr i, f)
]

scored-some :
    (test : Score → Bool) (o : Option Score)
    → scored test o ≡ true
    → (t : Score) × (o ≡ some t) × (test t ≡ true)
scored-some test none h = cc
scored-some test (some t) h = (t, refl, h)

Comparable-both : (s a b : Score) → Comparable s (some a) → Comparable s (some b) → SameAxes a b
Comparable-both s a b ((c, p, q), _) ((c', p', q'), _) = (c ∙ sym c', p ∙ sym p', q ∙ sym q')

-- No arm dominates one of the least weight.
least-undominated :
    (scores : Scores) (known : List String) (s t : Score) (b : String)
    → get_score b scores ≡ some t
    → ((c : String) → In c known → Comparable s (get_score c scores))
    → In b known
    → ((c : String) → In c known → weight_of (get_score b scores) ≤ weight_of (get_score c scores))
    → undominated scores known b ≡ true
unfolding weight_of beats get_score undominated
least-undominated scores known s t b e same h small =
    rw e (elim (Bool-cases (any (λ o. not (str_eq o b) && beats scores t o) known)) [
      | inr none_beats ↦ rw none_beats refl
      | inl beaten ↦
          let (o, i, f) = any-In (λ o. not (str_eq o b) && beats scores t o) known beaten in
          let (u, g, d) =
            scored-some (λ u. dominates u t) (get_score o scores)
              (and_right (not (str_eq o b)) (beats scores t o) f) in
          let cu = subst (Comparable s) g (same o i) in
          let ct = subst (Comparable s) e (same b h) in
          let below = dominates-weight u t (Comparable-both s u t cu ct) cu.1 ct.1 d in
          let above =
            subst (λ x. weight_of x ≤ weight_of (some u)) e
              (subst (λ x. weight_of (get_score b scores) ≤ weight_of x) g (small o i)) in
          absurd (omega (arith, below, above))
    ])

-- Where the measured candidates record the same axes, with no pass^k over one, the frontier of
-- candidates that hold a measured one is not empty.
pub frontier-nonempty :
    (scores : Scores) (candidates : List String) (a : String) (s : Score)
    → In a candidates
    → get_score a scores ≡ some s
    → ((c : String) → In c candidates → Comparable s (get_score c scores))
    → (b : String) × In b (frontier scores candidates)
unfolding frontier weight_of
frontier-nonempty scores candidates a s h e same =
    let in_known =
      λ (c : String). In-filter (λ x. scored (λ t. true) (get_score x scores)) c candidates in
    let known = filter (λ x. scored (λ t. true) (get_score x scores)) candidates in
    let a_known : In a known = (in_known a).1 (h, rw e refl) in
    let (b, i, small) = least_of (λ c. weight_of (get_score c scores)) a known a_known in
    let (t, g, _) = scored-some (λ t. true) (get_score b scores) ((in_known b).0 i).1 in
    (
      b,
      (In-filter (undominated scores known) b known).1
          (i, least-undominated scores known s t b g (λ c l. same c ((in_known c).0 l).0) i small),
    )
