-- ===== src/Analyst/Executor/Confirm.antt =====
-- The messages of src/resgraph/analyst/executor.py, and how long it waits for one to be applied.
use resgraph.Prelude.{
  ℕ, zero, suc, ◌<◌, ◌≡◌, refl, sym, ap, ◌∙◌, String, Bool, true, false, Option, none, some, List,
  [], ◌∷◌, arith, leb, Option-cases, inl, inr,
}
use resgraph.Schema.{Op, delete, upsert, Attrs, Relationship, UpdateMessage, label_for, IsValid}
use resgraph.Analyst.Executor.{
  Snapshot, Planned, raised, planned, checked, message_as, message, or_absent, reaches, confirms,
  await_confirm, emit_and_confirm, next_sequence,
}

-- What a message says that was made of these parts.
pub record Says (target : String) (sequence : ℕ) (op : Op) (attrs : Attrs)
    (rels : List Relationship) (m : UpdateMessage) : Type 0 where
  pub resource : m.resource_id ≡ target
  pub sequence_is : m.sequence ≡ sequence
  pub op_is : m.op ≡ op
  pub attrs_are : m.attrs ≡ attrs
  pub rels_are : m.relationships ≡ rels
  pub valid : IsValid m

planned-inj : (m m' : UpdateMessage) → planned m ≡ planned m' → m ≡ m'
planned-inj m m' h = ap (λ p. or_given p) h
  where
    or_given : Planned → UpdateMessage
    or_given (raised f) = m
    or_given (planned n) = n

checked-planned : (n m : UpdateMessage) → checked n ≡ planned m → (n ≡ m) × IsValid m
checked-planned n m h = ground arith

pub message-Says :
    (now : ℕ) (target : String) (sequence : ℕ) (op : Op) (attrs : Attrs) (rels : List Relationship)
    (m : UpdateMessage)
    → message now target sequence op attrs rels ≡ planned m
    → Says target sequence op attrs rels m
unfolding message
message-Says now target sequence op attrs rels m h = elim (Option-cases (label_for target)) [
  | inl e ↦ absurd (ground arith)
  | inr (t, e) ↦
      let c =
        checked-planned _ m
          (sym (ap (λ o. message_as o now target sequence op attrs rels) e) ∙ h) in
      record {
        resource = sym (ap (λ (n : UpdateMessage). n.resource_id) c.0);
        sequence_is = sym (ap (λ (n : UpdateMessage). n.sequence) c.0);
        op_is = sym (ap (λ (n : UpdateMessage). n.op) c.0);
        attrs_are = sym (ap (λ (n : UpdateMessage). n.attrs) c.0);
        rels_are = sym (ap (λ (n : UpdateMessage). n.relationships) c.0);
        valid = c.1;
      }
]

-- What the store shows of a message that it has applied.
abbrev pub is_delete : Op → Bool
is_delete delete = true
is_delete upsert = false

abbrev pub shown : UpdateMessage → Snapshot
shown m = record {
  applied_seq = some m.sequence;
  deleted = is_delete m.op;
  attrs = m.attrs;
  rels = m.relationships;
}

-- Is the message above what the store shows?
abbrev pub is_above : UpdateMessage → Option Snapshot → Bool
is_above m none = true
is_above m (some live) = leb (next_sequence live.applied_seq) m.sequence

module _ {S : Type 0} where
  abbrev pub sleeps : (S → S) → ℕ → S → S
  sleeps sleep zero s = s
  sleeps sleep (suc k) s = sleeps sleep k (sleep s)

-- The ingest path, with no other writer of the resource: a message that is above what the store
-- shows lands, and within the time that the code waits.
pub record Ingests {S : Type 0} (read : String → S → Option Snapshot)
    (emit : List UpdateMessage → S → S) (sleep : S → S) (confirm_attempts : ℕ) : Type 0 where
  pub lag : UpdateMessage → S → ℕ
  pub in_time :
      (m : UpdateMessage) (s : S)
      → is_above m (read m.resource_id s) ≡ true
      → lag m s < confirm_attempts
  pub not_yet :
      (m : UpdateMessage) (s : S) (j : ℕ)
      → j < lag m s
      → read m.resource_id (sleeps sleep j (emit (m ∷ []) s)) ≡ read m.resource_id s
  pub lands :
      (m : UpdateMessage) (s : S)
      → IsValid m
      → is_above m (read m.resource_id s) ≡ true
      → read m.resource_id (sleeps sleep (lag m s) (emit (m ∷ []) s)) ≡ some (shown m)

above-reaches :
    (applied : Option ℕ) (sequence : ℕ)
    → leb (next_sequence applied) sequence ≡ true
    → reaches (or_absent applied) sequence ≡ false
above-reaches none sequence h = refl
above-reaches (some zero) sequence h = refl
above-reaches (some (suc a)) sequence h = ground arith

reaches-itself : (sequence : ℕ) → 0 < sequence → reaches (or_absent (some sequence)) sequence ≡ true
reaches-itself zero pos = absurd (omega (arith, pos))
reaches-itself (suc a) pos = ground arith

above-confirms :
    (m : UpdateMessage) (live : Option Snapshot)
    → is_above m live ≡ true
    → confirms live m.sequence ≡ false
above-confirms m none h = refl
above-confirms m (some live) h = above-reaches live.applied_seq m.sequence h

shown-confirms : (m : UpdateMessage) → 0 < m.sequence → confirms (some (shown m)) m.sequence ≡ true
shown-confirms m pos = reaches-itself m.sequence pos

zero-confirms :
    (m : UpdateMessage) (live : Option Snapshot)
    → m.sequence ≡ 0
    → live ≡ some (shown m)
    → confirms live m.sequence ≡ false
zero-confirms m live e h =
    ap (λ r. confirms r m.sequence) h ∙ ap (λ n. reaches (or_absent (some n)) n) e

module _ {S : Type 0} (read : String → S → Option Snapshot) (emit : List UpdateMessage → S → S)
    (sleep : S → S) (confirm_attempts now : ℕ) where
  -- The wait ends at the first reading that confirms.
  await_confirm-first :
      (n k : ℕ) (m : UpdateMessage) (s : S)
      → k < n
      → ((j : ℕ) → j < k → confirms (read m.resource_id (sleeps sleep j s)) m.sequence ≡ false)
      → confirms (read m.resource_id (sleeps sleep k s)) m.sequence ≡ true
      → await_confirm read emit sleep confirm_attempts now n m s ≡ (true, sleeps sleep k s)
  unfolding await_confirm
  await_confirm-first zero k m s lt early now_ = absurd (omega (arith, lt))
  await_confirm-first (suc n) zero m s lt early now_ = rw now_
  await_confirm-first (suc zero) (suc k) m s lt early now_ = absurd (omega (arith, lt))
  await_confirm-first (suc (suc n)) (suc k) m s lt early now_ = rw (
    early 0 (omega arith),
    await_confirm-first (suc n) k m (sleep s) (omega (arith, lt))
        (λ j le. early (suc j) (omega (arith, le))) now_,
  )

  -- A message above what is shown is confirmed once it is shown itself, unless its sequence is zero.
  pub emit_and_confirm-lands :
      (i : Ingests read emit sleep confirm_attempts) (m : UpdateMessage) (s : S)
      → IsValid m
      → is_above m (read m.resource_id s) ≡ true
      → 0 < m.sequence
      → (s' : S) × (emit_and_confirm read emit sleep confirm_attempts now m s ≡ (true, s'))
        × (read m.resource_id s' ≡ some (shown m))
  unfolding emit_and_confirm
  emit_and_confirm-lands i m s valid above pos =
      let k = i.lag m s in
      let landed = i.lands m s valid above in
      (
        sleeps sleep k (emit (m ∷ []) s),
        await_confirm-first confirm_attempts k m (emit (m ∷ []) s) (i.in_time m s above)
            (λ j lt.
              ap (λ r. confirms r m.sequence) (i.not_yet m s j lt) ∙ above-confirms m _ above)
            (ap (λ r. confirms r m.sequence) landed ∙ shown-confirms m pos),
        landed,
      )

  -- A message of sequence zero is never confirmed, if the store shows nothing above it.
  pub await_confirm-zero :
      (n : ℕ) (m : UpdateMessage) (s : S)
      → m.sequence ≡ 0
      → ((j : ℕ) → read m.resource_id (sleeps sleep j s) ≡ some (shown m))
      → (await_confirm read emit sleep confirm_attempts now n m s).0 ≡ false
  unfolding await_confirm
  await_confirm-zero zero m s zero_ is_shown = refl
  await_confirm-zero (suc zero) m s zero_ is_shown =
      rw (zero-confirms m (read m.resource_id s) zero_ (is_shown 0))
  await_confirm-zero (suc (suc n)) m s zero_ is_shown = rw (
    zero-confirms m (read m.resource_id s) zero_ (is_shown 0),
    await_confirm-zero (suc n) m (sleep s) zero_ (λ j. is_shown (suc j)),
  )
