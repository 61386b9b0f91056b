-- ===== src/Analyst/Audit/Evident.antt =====
-- The trail of src/resgraph/analyst/audit.py is tamper-evident.
use resgraph.Prelude.{
  ℕ, ◌≡◌, ◌≢◌, ◌↔◌, refl, sym, ap, ap₂, subst, ◌∙◌, String, none, List, [], ◌∷◌, ◌++◌, str_eq,
  eq_iff, arith, Bool-cases, inl, inr,
}
use resgraph.Analyst.Audit.{
  Content, EventRow, last_hash, append, append_all, verify_from, verify_chain,
}

last_hash-snoc :
    (prev : String) (xs : List EventRow) (r : EventRow)
    → last_hash prev (xs ++ (r ∷ [])) ≡ r.row_hash
last_hash-snoc prev [] r = refl
last_hash-snoc prev (x ∷ xs) r = last_hash-snoc x.row_hash xs r

-- The rows, the latest first.
abbrev of_latest : List EventRow → List EventRow
of_latest [] = []
of_latest (r ∷ older) = of_latest older ++ (r ∷ [])

abbrev latest : List EventRow → List EventRow
latest [] = []
latest (r ∷ rows) = latest rows ++ (r ∷ [])

of_latest-snoc : (ys : List EventRow) (r : EventRow) → of_latest (ys ++ (r ∷ [])) ≡ r ∷ of_latest ys
of_latest-snoc [] r = refl
of_latest-snoc (y ∷ ys) r = ap (λ l. l ++ (y ∷ [])) (of_latest-snoc ys r)

of_latest-latest : (rows : List EventRow) → of_latest (latest rows) ≡ rows
of_latest-latest [] = refl
of_latest-latest (r ∷ rows) =
    of_latest-snoc (latest rows) r ∙ ap (λ l. r ∷ l) (of_latest-latest rows)

module _ (chain_hash : String → ℕ → Content → String) where
  -- A row whose hash is that of its content and of the row before it.
  abbrev Fits : String → EventRow → Type 0
  Fits prev r = chain_hash prev r.seq r.content ≡ r.row_hash

  verify_from-append :
      (prev : String) (xs ys : List EventRow)
      → (verify_from chain_hash prev (xs ++ ys) ≡ none) ↔ (
          (verify_from chain_hash prev xs ≡ none)
          × (verify_from chain_hash (last_hash prev xs) ys ≡ none))
  unfolding verify_from
  verify_from-append prev [] ys = (λ h. (refl, h), λ h. h.1)
  verify_from-append prev (x ∷ xs) ys =
      let ih = verify_from-append x.row_hash xs ys in
      elim (Bool-cases (str_eq (chain_hash prev x.seq x.content) x.row_hash)) [
        | inl e ↦ (
          λ h. let k = ih.0 (rw e at h) in (rw e k.0, k.1),
          λ h. rw e (ih.1 ((rw e at h.0), h.1)),
        )
        | inr e ↦
            (λ h. absurd (ground (arith, (rw e at h))), λ h. absurd (ground (arith, (rw e at h.0))))
      ]

  verify_from-one :
      (prev : String) (r : EventRow) → (verify_from chain_hash prev (r ∷ []) ≡ none) ↔ Fits prev r
  unfolding verify_from
  verify_from-one prev r = elim (Bool-cases (str_eq (chain_hash prev r.seq r.content) r.row_hash)) [
    | inl e ↦ (λ h. (eq_iff _ _).0 e, λ h. rw e)
    | inr e ↦ (
      λ h. absurd (ground (arith, (rw e at h))),
      λ h. absurd (ground (arith, e, (eq_iff (chain_hash prev r.seq r.content) r.row_hash).1 h)),
    )
  ]

  append-verifies :
      (c : Content) (rows : List EventRow)
      → verify_chain chain_hash rows ≡ none
      → verify_chain chain_hash (append chain_hash c rows) ≡ none
  unfolding verify_chain append
  append-verifies c rows h =
      (verify_from-append "" rows _).1 (h, (verify_from-one (last_hash "" rows) _).1 refl)

  append_all-verifies :
      (cs : List Content) (rows : List EventRow)
      → verify_chain chain_hash rows ≡ none
      → verify_chain chain_hash (append_all chain_hash cs rows) ≡ none
  unfolding append_all
  append_all-verifies [] rows h = h
  append_all-verifies (c ∷ cs) rows h =
      append_all-verifies cs (append chain_hash c rows) (append-verifies c rows h)

  empty-verifies : verify_chain chain_hash [] ≡ none
  unfolding verify_chain verify_from
  empty-verifies = refl

  -- A hash without collisions, and with no empty digest.
  pub record IsSecure : Type 0 where
    pub injective :
        (p q : String) (m n : ℕ) (c d : Content)
        → chain_hash p m c ≡ chain_hash q n d
        → (p ≡ q) × (m ≡ n) × (c ≡ d)
    pub nonempty : (p : String) (m : ℕ) (c : Content) → chain_hash p m c ≢ ""

  -- Two verified trails with the same head are the same, the latest row first.
  same_by_head :
      IsSecure
      → (xs ys : List EventRow) → verify_chain chain_hash (of_latest xs) ≡ none
      → verify_chain chain_hash (of_latest ys) ≡ none
      → last_hash "" (of_latest xs) ≡ last_hash "" (of_latest ys)
      → of_latest xs ≡ of_latest ys
  unfolding verify_chain
  same_by_head secure [] [] hx hy e = refl
  same_by_head secure [] (y ∷ ys) hx hy e =
      let fits =
        (verify_from-one (last_hash "" (of_latest ys)) y).0
          ((verify_from-append "" (of_latest ys) (y ∷ [])).0 hy).1 in
      absurd (
        secure.nonempty _ y.seq y.content (fits ∙ sym (last_hash-snoc "" (of_latest ys) y) ∙ sym e))
  same_by_head secure (x ∷ xs) [] hx hy e =
      let fits =
        (verify_from-one (last_hash "" (of_latest xs)) x).0
          ((verify_from-append "" (of_latest xs) (x ∷ [])).0 hx).1 in
      absurd
        (secure.nonempty _ x.seq x.content (fits ∙ sym (last_hash-snoc "" (of_latest xs) x) ∙ e))
  same_by_head secure (x ∷ xs) (y ∷ ys) hx hy e =
      let vx = (verify_from-append "" (of_latest xs) (x ∷ [])).0 hx in
      let vy = (verify_from-append "" (of_latest ys) (y ∷ [])).0 hy in
      let fx = (verify_from-one (last_hash "" (of_latest xs)) x).0 vx.1 in
      let fy = (verify_from-one (last_hash "" (of_latest ys)) y).0 vy.1 in
      let hashes : x.row_hash ≡ y.row_hash =
        sym (last_hash-snoc "" (of_latest xs) x) ∙ e ∙ last_hash-snoc "" (of_latest ys) y in
      let k = secure.injective _ _ x.seq y.seq x.content y.content (fx ∙ hashes ∙ sym fy) in
      let rest = same_by_head secure xs ys vx.0 vy.0 k.0 in
      ap₂ (λ l r. l ++ (r ∷ [])) rest (same_row x y k.1 k.2 hashes)
    where
      same_row :
          (r s : EventRow) → r.seq ≡ s.seq → r.content ≡ s.content → r.row_hash ≡ s.row_hash → r ≡ s
      same_row r s a b c = λ i. record { seq = a i; content = b i; row_hash = c i }

  -- The two trails in the order of their numbers.
  same_head :
      IsSecure
      → (xs ys : List EventRow) → verify_chain chain_hash xs ≡ none
      → verify_chain chain_hash ys ≡ none
      → last_hash "" xs ≡ last_hash "" ys
      → xs ≡ ys
  same_head secure xs ys hx hy e =
      sym (of_latest-latest xs)
      ∙ same_by_head secure (latest xs) (latest ys)
          (subst (λ l. verify_chain chain_hash l ≡ none) (sym (of_latest-latest xs)) hx)
          (subst (λ l. verify_chain chain_hash l ≡ none) (sym (of_latest-latest ys)) hy)
          (ap (last_hash "") (of_latest-latest xs)
            ∙ e
            ∙ sym (ap (last_hash "") (of_latest-latest ys)))
      ∙ of_latest-latest ys

  -- In a trail that verifies, the part in front of a row does, and the row fits it.
  before_row :
      (rows tail : List EventRow) (r : EventRow)
      → verify_chain chain_hash (rows ++ (r ∷ tail)) ≡ none
      → (verify_chain chain_hash rows ≡ none) × Fits (last_hash "" rows) r
  unfolding verify_chain
  before_row rows tail r h =
      let v = (verify_from-append "" rows (r ∷ tail)).0 h in
      (
        v.0,
        (verify_from-one (last_hash "" rows) r).0
            ((verify_from-append (last_hash "" rows) (r ∷ []) tail).0 v.1).0,
      )

  -- The trail is tamper-evident. A trail that was only appended to verifies. And of two trails that
  -- verify and that agree on a row and on all behind it, the rows in front of it are the same: an edit,
  -- an insertion or a deletion before the tail breaks the chain. The condition: the hash has no
  -- collisions and no empty digest.
  pub verify_chain-evident :
      IsSecure
      → (cs : List Content) (forged tail : List EventRow) (honest : List EventRow) (r : EventRow)
      → append_all chain_hash cs [] ≡ honest ++ (r ∷ tail)
      → verify_chain chain_hash (forged ++ (r ∷ tail)) ≡ none
      → (verify_chain chain_hash (honest ++ (r ∷ tail)) ≡ none) × (forged ≡ honest)
  verify_chain-evident secure cs forged tail honest r written passes =
      let verified =
        subst (λ l. verify_chain chain_hash l ≡ none) written
          (append_all-verifies cs [] empty-verifies) in
      let h = before_row honest tail r verified in
      let f = before_row forged tail r passes in
      let k = secure.injective _ _ r.seq r.seq r.content r.content (f.1 ∙ sym h.1) in
      (verified, same_head secure forged honest f.0 h.0 k.0)
