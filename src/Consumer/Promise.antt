-- ===== src/Consumer/Promise.antt =====
-- What the apply function of src/resgraph/consumer.py promises, and what settling entries means.
use resgraph.Prelude.{
  ℕ, ◌+◌, ◌≤◌, ◌<◌, ◌≡◌, refl, sym, ap, ◌∙◌, String, Bool, true, false, not, List, [], ◌∷◌, ◌++◌,
  append_assoc, length, any, filter, map, arith, length-append, filter-append, map-append, ◌⊎◌, inl,
  inr,
}
use resgraph.Schema.{UpdateMessage}
use resgraph.Consumer.{
  Pair, DeadLetter, Outcome, returned, retryable, failed, State, Tried, waiting, done, gave_up,
  msgs_of, ids_of,
}

-- A store that applies a batch whole or not at all, in one transaction: `log` is what it has
-- applied, in order. A batch fails only if it holds a message that the store cannot take, and an
-- outage, which `outage` bounds, comes to an end.
pub record Behaves {S : Type 0} (apply_fn : List UpdateMessage → S → Outcome × S)
    (poison : UpdateMessage → Bool) (log : S → List UpdateMessage) (outage : S → ℕ) : Type 0 where
  pub on_return :
      (ms : List UpdateMessage) (s s' : S) (a k : ℕ)
      → apply_fn ms s ≡ (returned a k, s')
      → (any poison ms ≡ false)
        × (log s' ≡ log s ++ ms)
        × (a + k ≡ length ms)
        × (outage s' ≤ outage s)
  pub on_outage :
      (ms : List UpdateMessage) (s s' : S)
      → apply_fn ms s ≡ (retryable, s')
      → (log s' ≡ log s) × (outage s' < outage s)
  pub on_failure :
      (ms : List UpdateMessage) (s s' : S) (e : String)
      → apply_fn ms s ≡ (failed e, s')
      → (any poison ms ≡ true) × (log s' ≡ log s) × (outage s' ≤ outage s)

pub Outcome-cases :
    (o : Outcome)
    → ((a : ℕ) × (k : ℕ) × (o ≡ returned a k)) ⊎ ((o ≡ retryable) ⊎ ((e : String) × (o ≡ failed e)))
Outcome-cases (returned a k) = inl (a, k, refl)
Outcome-cases retryable = inr (inl refl)
Outcome-cases (failed e) = inr (inr (e, refl))

-- How a retry loop that started at `s` may end.
abbrev pub Ends :
    {S : Type 0}
    → (UpdateMessage → Bool)
    → (S → List UpdateMessage)
    → (S → ℕ)
    → List UpdateMessage
    → S
    → Tried S
    → Type 0
Ends poison log outage ms s waiting = ⊥
Ends poison log outage ms s (done a k s') =
    (any poison ms ≡ false) × (log s' ≡ log s ++ ms) × (a + k ≡ length ms) × (outage s' ≤ outage s)
Ends poison log outage ms s (gave_up e s') =
    (any poison ms ≡ true) × (log s' ≡ log s) × (outage s' ≤ outage s)

abbrev pub poisoned : (UpdateMessage → Bool) → Pair → Bool
poisoned poison p = poison p.msg

abbrev pub healthy : (UpdateMessage → Bool) → Pair → Bool
healthy poison p = not (poison p.msg)

abbrev pub sources : List DeadLetter → List ℕ
sources ls = map (λ (l : DeadLetter). l.source_id) ls

-- What settling the pairs `ps` has done between two states: each entry is acknowledged, in order;
-- the store has applied the healthy messages, in order; exactly the poisoned entries are in the
-- dead-letter stream; and the counters say so.
pub record Settled {S : Type 0} (poison : UpdateMessage → Bool) (log : S → List UpdateMessage)
    (outage : S → ℕ) (ps : List Pair) (c c' : State S) : Type 0 where
  pub all_acked : c'.acked ≡ c.acked ++ ids_of ps
  pub logged : log c'.store ≡ log c.store ++ msgs_of (filter (healthy poison) ps)
  pub letters : sources c'.dlq ≡ sources c.dlq ++ ids_of (filter (poisoned poison) ps)
  pub counted :
      c'.applied + c'.skipped ≡ c.applied + c.skipped + length (filter (healthy poison) ps)
  pub dead : c'.dead_lettered ≡ c.dead_lettered + length (filter (poisoned poison) ps)
  pub less_outage : outage c'.store ≤ outage c.store
  pub same_read : c'.read ≡ c.read
  pub same_invalid : c'.invalid ≡ c.invalid

pub extend :
    {B : Type 0} {l' l'' : List B} (l x y z : List B)
    → l' ≡ l ++ x
    → l'' ≡ l' ++ y
    → z ≡ x ++ y
    → l'' ≡ l ++ z
extend l x y z e f g = f ∙ ap (λ u. u ++ y) e ∙ append_assoc l x y ∙ ap (λ u. l ++ u) (sym g)

pub mapped :
    {B : Type 0} (f : Pair → B) (p : Pair → Bool) (xs ys : List Pair)
    → map f (filter p (xs ++ ys)) ≡ map f (filter p xs) ++ map f (filter p ys)
mapped f p xs ys = rw (filter-append, map-append)

module _ {S : Type 0} {poison : UpdateMessage → Bool} {log : S → List UpdateMessage}
    {outage : S → ℕ} where
  pub Settled-append :
      (xs ys : List Pair) (c c' c'' : State S)
      → Settled poison log outage xs c c'
      → Settled poison log outage ys c' c''
      → Settled poison log outage (xs ++ ys) c c''
  Settled-append xs ys c c' c'' s t = record {
    all_acked =
        extend c.acked (ids_of xs) (ids_of ys) (ids_of (xs ++ ys)) s.all_acked t.all_acked
          (rw map-append);
    logged =
        extend (log c.store) _ _ _ s.logged t.logged
          (mapped (λ (p : Pair). p.msg) (healthy poison) xs ys);
    letters =
        extend (sources c.dlq) _ _ _ s.letters t.letters
          (mapped (λ (p : Pair). p.entry_id) (poisoned poison) xs ys);
    counted = omega (
      arith,
      s.counted,
      t.counted,
      ap length (filter-append (healthy poison) xs ys),
      length-append (filter (healthy poison) xs) (filter (healthy poison) ys),
    );
    dead = omega (
      arith,
      s.dead,
      t.dead,
      ap length (filter-append (poisoned poison) xs ys),
      length-append (filter (poisoned poison) xs) (filter (poisoned poison) ys),
    );
    less_outage = omega (arith, s.less_outage, t.less_outage);
    same_read = t.same_read ∙ s.same_read;
    same_invalid = t.same_invalid ∙ s.same_invalid;
  }

pub filter-none :
    (poison : UpdateMessage → Bool) (ps : List Pair)
    → any poison (msgs_of ps) ≡ false
    → (filter (healthy poison) ps ≡ ps) × (filter (poisoned poison) ps ≡ [])
filter-none poison [] h = (refl, refl)
filter-none poison (p ∷ ps) h = ground (arith, filter-none poison ps)
