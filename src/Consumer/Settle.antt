-- ===== src/Consumer/Settle.antt =====
-- What the apply function promises, and what the consumer makes of it: every entry is settled once.
use resgraph.Prelude.{
  ℕ, zero, suc, ◌+◌, ◌-◌, ◌/◌, ◌≤◌, ◌<◌, ◌≡◌, refl, sym, ap, subst, ◌∙◌, String, Bool, true, false,
  Option, some, List, [], ◌∷◌, ◌++◌, append-nil, length, take, drop, filter, ltb, ◌==◌, arith,
  take-append-drop, length-take, length-drop, map-append, length-map, Bool-cases, inl, inr,
}
use resgraph.Schema.{UpdateMessage}
use resgraph.Consumer.{
  Pair, exception, Outcome, State, Tried, waiting, done, gave_up, dead_letter, try_apply, msgs_of,
  ids_of, apply_entries,
}
use resgraph.Consumer.Promise.{
  Behaves, Outcome-cases, Ends, healthy, sources, Settled, Settled-append, filter-none,
}

module _ {S : Type 0} {apply_fn : List UpdateMessage → S → Outcome × S}
    {poison : UpdateMessage → Bool} {log : S → List UpdateMessage} {outage : S → ℕ}
    (b : Behaves apply_fn poison log outage) (times_delivered : ℕ → Option ℕ) where
  open b use {on_return, on_outage, on_failure}

  Ends-from :
      (ms : List UpdateMessage) (s s' : S) (t : Tried S)
      → log s' ≡ log s
      → outage s' ≤ outage s
      → Ends poison log outage ms s' t
      → Ends poison log outage ms s t
  Ends-from ms s s' waiting same less h = h
  Ends-from ms s s' (done a k s'') same less h =
      (h.0, h.1 ∙ ap (λ l. l ++ ms) same, h.2, omega (arith, h.3))
  Ends-from ms s s' (gave_up e s'') same less h = (h.0, h.1 ∙ same, omega (arith, h.2))

  -- With fuel for the outage and for the retries the loop ends, as the store's answer says.
  try_apply-Ends :
      (fuel : ℕ) (ms : List UpdateMessage) (attempt retries : ℕ) (s : S)
      → outage s + (retries + 1 - attempt) < fuel
      → Ends poison log outage ms s (try_apply apply_fn fuel ms attempt retries s)
  unfolding try_apply
  try_apply-Ends zero ms attempt retries s enough = absurd (omega arith)
  try_apply-Ends (suc fuel) ms attempt retries s enough =
      let s' = (apply_fn ms s).1 in
      elim (Outcome-cases (apply_fn ms s).0) [
        | inl (a, k, e) ↦ rw (e, try_apply) (on_return ms s s' a k (λ i. (e i, s')))
        | inr (inl e) ↦
            let (same, less) = on_outage ms s s' (λ i. (e i, s')) in
            rw (e, try_apply)
              (Ends-from ms s s' _ same (omega (arith, less))
                (try_apply-Ends fuel ms attempt retries s' (omega (arith, less))))
        | inr (inr (x, e)) ↦
            let (bad, same, less) = on_failure ms s s' x (λ i. (e i, s')) in
            rw (e, try_apply)
              (elim (Bool-cases (ltb retries (attempt + 1))) [
                | inl stop ↦ rw stop (bad, same, less)
                | inr on ↦ rw on (
                    Ends-from ms s s' _ same less
                      (try_apply-Ends fuel ms (attempt + 1) retries s' (ground arith)))
              ])
      ]

  done-Settled :
      (ps : List Pair) (a k : ℕ) (s : S) (c : State S)
      → Ends poison log outage (msgs_of ps) c.store (done a k s)
      → Settled poison log outage ps c (record c {
        store = s;
        applied = c.applied + a;
        skipped = c.skipped + k;
        acked = c.acked ++ ids_of ps;
      })
  done-Settled ps a k s c (clean, logged, counts, less) =
      let (all_kept, none_left) = filter-none poison ps clean in
      record {
        all_acked = refl;
        logged = rw (all_kept, logged);
        letters = rw none_left (sym (append-nil (sources c.dlq)));
        counted = rw all_kept (omega (arith, counts, length-map (λ (p : Pair). p.msg) ps));
        dead = rw none_left (omega arith);
        less_outage = less;
        same_read = refl;
        same_invalid = refl;
      }

  letter-Settled :
      (p : Pair) (e : String) (s : S) (c : State S)
      → Ends poison log outage (p.msg ∷ []) c.store (gave_up e s)
      → Settled poison log outage
          (p ∷ [])
          c
          (dead_letter times_delivered p.entry_id p.raw (exception e) (record c { store = s }))
  unfolding dead_letter
  letter-Settled p e s c (bad, same, less) =
      let is_poison : poison p.msg ≡ true = ground (arith, bad) in
      record {
        all_acked = refl;
        logged = rw is_poison (same ∙ sym (append-nil (log c.store)));
        letters = rw (is_poison, map-append);
        counted = rw is_poison (omega arith);
        dead = rw is_poison (omega arith);
        less_outage = less;
        same_read = refl;
        same_invalid = refl;
      }

  -- A failed call has only replaced the store, by one with the same log.
  Settled-from :
      (ps : List Pair) (s : S) (c c' : State S)
      → log s ≡ log c.store
      → outage s ≤ outage c.store
      → Settled poison log outage ps (record c { store = s }) c'
      → Settled poison log outage ps c c'
  Settled-from ps s c c' same less t = record {
    all_acked = t.all_acked;
    logged = t.logged ∙ ap (λ l. l ++ msgs_of (filter (healthy poison) ps)) same;
    letters = t.letters;
    counted = t.counted;
    dead = t.dead;
    less_outage = omega (arith, t.less_outage, less);
    same_read = t.same_read;
    same_invalid = t.same_invalid;
  }

  -- A call of `apply_entries` that settles its pairs.
  abbrev Settles : ℕ → ℕ → List Pair → ℕ → State S → Type 0
  Settles patience depth ps retries c =
      (c' : State S) × (apply_entries times_delivered apply_fn patience depth ps retries c
        ≡ some c')
      × Settled poison log outage ps c c'

  settle_tried :
      (patience depth : ℕ) (p : Pair) (ps : List Pair) (retries : ℕ) (c : State S) (t : Tried S)
      → try_apply apply_fn patience (msgs_of (p ∷ ps)) 0 retries c.store ≡ t
      → Ends poison log outage (msgs_of (p ∷ ps)) c.store t
      → length (p ∷ ps) < suc depth
      → ((qs : List Pair) (c1 : State S)
          → length qs < depth
          → outage c1.store ≤ outage c.store
          → Settles patience depth qs 0 c1)
      → Settles patience (suc depth) (p ∷ ps) retries c
  unfolding apply_entries
  settle_tried patience depth p ps retries c waiting e ends deep ih = absurd ends
  settle_tried patience depth p ps retries c (done a k s) e ends deep ih =
      (_, rw (e, apply_entries), done-Settled (p ∷ ps) a k s c ends)
  settle_tried patience depth p [] retries c (gave_up x s) e ends deep ih =
      (_, rw (e, apply_entries), letter-Settled p x s c ends)
  settle_tried patience depth p (q ∷ qs) retries c (gave_up x s) e (bad, same, less) deep ih =
      let ps : List Pair = p ∷ q ∷ qs in
      let mid = length ps / 2 in
      let c0 : State S = record c { store = s } in
      let (c1, first, s1) = ih (take mid ps) c0 (omega (arith, length-take mid ps)) less in
      let (c2, second, s2) =
        ih (drop mid ps) c1 (omega (arith, length-drop mid ps))
          (omega (arith, s1.less_outage, less)) in
      let many : (length ps == 1) ≡ false = ground arith in
      (
        c2,
        rw (e, many, first, apply_entries) second,
        subst (λ l. Settled poison log outage l c c2) (take-append-drop mid ps)
            (Settled-append (take mid ps) (drop mid ps) c c1 c2
              (Settled-from (take mid ps) s c c1 same less s1) s2),
      )

  -- With more patience than the outage and the retries take, a depth above the number of pairs, and
  -- an apply function that behaves, `_apply_entries` comes to an end and settles every pair: each is
  -- acknowledged, the healthy messages are applied in order, and exactly the poisoned ones are
  -- dead-lettered.
  pub apply_entries-Settled :
      (patience depth : ℕ) (ps : List Pair) (retries : ℕ) (c : State S)
      → length ps < depth
      → outage c.store + (retries + 1) < patience
      → (c' : State S) × (apply_entries times_delivered apply_fn patience depth ps retries c
          ≡ some c')
        × Settled poison log outage ps c c'
  unfolding apply_entries dead_letter
  apply_entries-Settled patience zero ps retries c deep patient = elim deep [ ]
  apply_entries-Settled patience (suc depth) [] retries c deep patient = (
    c,
    refl,
    record {
      all_acked = sym (append-nil c.acked);
      logged = sym (append-nil (log c.store));
      letters = sym (append-nil (sources c.dlq));
      counted = omega arith;
      dead = omega arith;
      less_outage = omega arith;
      same_read = refl;
      same_invalid = refl;
    },
  )
  apply_entries-Settled patience (suc depth) (p ∷ ps) retries c deep patient =
      settle_tried patience depth p ps retries c
        (try_apply apply_fn patience (msgs_of (p ∷ ps)) 0 retries c.store) refl
        (try_apply-Ends patience (msgs_of (p ∷ ps)) 0 retries c.store (omega arith)) (omega arith)
        (λ qs c1 short less.
          apply_entries-Settled patience depth qs 0 c1 short (omega (arith, less)))
