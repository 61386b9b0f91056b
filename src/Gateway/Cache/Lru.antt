-- ===== src/Gateway/Cache/Lru.antt =====
-- What the response cache of src/resgraph/gateway/cache.py keeps, and what it answers.
use resgraph.Prelude.{
  ℕ, zero, suc, ◌+◌, ◌-◌, ◌≤◌, ◌<◌, ◌≡◌, refl, String, none, some, [], ◌∷◌, ◌++◌, eq_iff, leb,
  length, drop, length-drop, length-append, arith, if◌then◌else◌, Bool-cases, inl, inr,
}
use resgraph.Gateway.Cache.{
  Cached, Entries, ResponseCache, lookup, remove, move_to_end, answer, get, evict, put,
}

lookup-remove : (k : String) (es : Entries) → lookup k (remove k es) ≡ none
unfolding lookup remove
lookup-remove k [] = refl
lookup-remove k ((j, e) ∷ es) = let h = lookup-remove k es in ground arith

lookup_last :
    (k : String) (e : Cached) (es : Entries)
    → lookup k es ≡ none
    → (n : ℕ) → n ≤ length es
    → lookup k (drop n (es ++ ((k, e) ∷ []))) ≡ some e
unfolding lookup
lookup_last k e [] h zero le = ground (arith, eq_iff k k)
lookup_last k e [] h (suc n) le = ground arith
lookup_last k e ((j, x) ∷ es) h zero le =
    let rest = lookup_last k e es (ground arith) zero (ground arith) in ground arith
lookup_last k e ((j, x) ∷ es) h (suc n) le = lookup_last k e es (ground arith) n (ground arith)

answer-fresh :
    (later : ℕ) (k : String) (c : ResponseCache) (e : Cached)
    → (answer later k c (some e)).0 ≡ (if leb e.expires_at later then none else some e.value)
unfolding answer
answer-fresh later k c e = elim (Bool-cases (leb e.expires_at later)) [
  | inl over ↦ rw over refl
  | inr fresh ↦ rw fresh refl
]

evict-length : (max_entries : ℕ) (es : Entries) → length (evict max_entries es) ≤ max_entries
unfolding evict
evict-length m es = let dropped = length-drop (length es - m) es in omega (arith, dropped)

-- In a cache with room for an entry, a `get` after a `put` of its key answers what was put until the
-- time to live is over, and nothing from then on, whatever was cached before; and the `put` leaves at
-- most `max_entries` entries.
pub get-put :
    (c : ResponseCache) (k value : String) (tokens now later : ℕ)
    → 0 < c.max_entries
    → ((get later k (put now k value tokens c)).0
        ≡ (if leb (now + c.ttl) later then none else some value))
      × (length ((put now k value tokens c).entries) ≤ c.max_entries)
unfolding get put move_to_end evict
get-put c k value tokens now later room =
    let e : Cached = record { expires_at = now + c.ttl; value = value; tokens = tokens } in
    let others = remove k c.entries in
    let one_more = length-append others ((k, e) ∷ []) in
    let kept =
      lookup_last k e others (lookup-remove k c.entries)
        (length (others ++ ((k, e) ∷ [])) - c.max_entries) (omega (arith, one_more, room)) in
    (
      rw kept (answer-fresh later k (put now k value tokens c) e),
      evict-length c.max_entries (others ++ ((k, e) ∷ [])),
    )
