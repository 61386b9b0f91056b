-- ===== src/Gateway/Cache.antt =====
-- src/resgraph/gateway/cache.py: the response cache, least recently used first. A key is the hash
-- that `cache_key` takes of a whole request; times are milliseconds of the injected clock.
pub mod Lru
use resgraph.Prelude.{
  ℕ, suc, ◌+◌, ◌-◌, String, Bool, true, false, Option, none, some, List, [], ◌∷◌, ◌++◌, str_eq, leb,
  length, drop, if◌then◌else◌,
}

pub record Cached : Type 0 where
  pub expires_at : ℕ
  pub value : String
  pub tokens : ℕ

abbrev pub Entries : Type 0
Entries = List (String × Cached)

pub record ResponseCache : Type 0 where
  pub ttl : ℕ
  pub max_entries : ℕ
  pub hits : ℕ
  pub misses : ℕ
  pub tokens_saved : ℕ
  pub entries : Entries

-- `_entries.get(key)`
unfoldable pub lookup : String → Entries → Option Cached
lookup k [] = none
lookup k ((j, e) ∷ rest) = if str_eq j k then some e else lookup k rest

-- `del _entries[key]`
unfoldable pub remove : String → Entries → Entries
remove k [] = []
remove k ((j, e) ∷ rest) =
    let others = remove k rest in if str_eq j k then others else (j, e) ∷ others

-- `_entries[key] = entry`, and `move_to_end`.
unfoldable pub move_to_end : String → Cached → Entries → Entries
unfolding remove
move_to_end k e es = remove k es ++ ((k, e) ∷ [])

abbrev missed : ResponseCache → Entries → ResponseCache
missed c es = record {
  ttl = c.ttl;
  max_entries = c.max_entries;
  hits = c.hits;
  misses = suc c.misses;
  tokens_saved = c.tokens_saved;
  entries = es;
}

abbrev found : String → Cached → ResponseCache → ResponseCache
unfolding move_to_end
found k e c = record {
  ttl = c.ttl;
  max_entries = c.max_entries;
  hits = suc c.hits;
  misses = c.misses;
  tokens_saved = c.tokens_saved + e.tokens;
  entries = move_to_end k e c.entries;
}

unfoldable pub answer : ℕ → String → ResponseCache → Option Cached → Option String × ResponseCache
unfolding remove move_to_end
answer now k c none = (none, missed c c.entries)
answer now k c (some e) =
    if leb e.expires_at now
    then (none, missed c (remove k c.entries))
    else (some e.value, found k e c)

-- `ResponseCache.get`
unfoldable pub get : ℕ → String → ResponseCache → Option String × ResponseCache
unfolding lookup answer
get now k c = answer now k c (lookup k c.entries)

-- The loop that pops the oldest entries until no more than `max_entries` are left.
unfoldable pub evict : ℕ → Entries → Entries
evict max_entries es = drop (length es - max_entries) es

-- `ResponseCache.put`
unfoldable pub put : ℕ → String → String → ℕ → ResponseCache → ResponseCache
unfolding move_to_end evict
put now k value tokens c = record {
  ttl = c.ttl;
  max_entries = c.max_entries;
  hits = c.hits;
  misses = c.misses;
  tokens_saved = c.tokens_saved;
  entries = evict c.max_entries (
      move_to_end k (record { expires_at = now + c.ttl; value = value; tokens = tokens })
        c.entries);
}
