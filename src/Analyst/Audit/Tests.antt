-- ===== src/Analyst/Audit/Tests.antt =====
-- Witnesses of the audit chain, with a hash that writes its arguments down.
use Prim.Native.Char.{Char, code}
use resgraph.Prelude.{
  ◌==◌, ap₂, ℕ, zero, suc, ◌≡◌, ◌≢◌, refl, ap, String, Bool, true, false, Option, none, some, [],
  ◌∷◌, ◌++◌, arith,
}
use resgraph.Analyst.Audit.{Content, EventRow, append_all, verify_chain}
use resgraph.Analyst.Audit.Evident.{IsSecure, verify_chain-evident}

-- A text, each character behind an `a`, up to a `b`.
abbrev put_text : String → String → String
put_text String.[] rest = String.◌∷◌ "b" rest
put_text (String.◌∷◌ c s) rest = String.◌∷◌ "a" (String.◌∷◌ c (put_text s rest))

abbrev put_nat : ℕ → String → String
put_nat zero rest = String.◌∷◌ "b" rest
put_nat (suc n) rest = String.◌∷◌ "a" (put_nat n rest)

abbrev put_option : Option ℕ → String → String
put_option none rest = String.◌∷◌ "b" rest
put_option (some n) rest = String.◌∷◌ "a" (put_nat n rest)

abbrev put_content : Content → String → String
put_content c rest =
    put_text c.kind
      (put_text c.payload (put_option c.latency_ms (put_option c.tokens (put_text c.ts rest))))

abbrev written_down : String → ℕ → Content → String
written_down prev seq c = put_text prev (put_nat seq (put_content c ""))

abbrev tail_of : String → String
tail_of String.[] = String.[]
tail_of (String.◌∷◌ c s) = s

abbrev head_of : Char → String → Char
head_of d String.[] = d
head_of d (String.◌∷◌ c s) = c

abbrev starts_a : String → Bool
starts_a String.[] = false
starts_a (String.◌∷◌ c s) = code c == b'a'

abbrev is_some_text : String → Bool
is_some_text String.[] = false
is_some_text (String.◌∷◌ c s) = true

put_text-inj : (s t u v : String) → put_text s u ≡ put_text t v → (s ≡ t) × (u ≡ v)
put_text-inj String.[] String.[] u v e = (refl, ap tail_of e)
put_text-inj String.[] (String.◌∷◌ d t) u v e = absurd (ground (arith, ap starts_a e))
put_text-inj (String.◌∷◌ c s) String.[] u v e = absurd (ground (arith, ap starts_a e))
put_text-inj (String.◌∷◌ c s) (String.◌∷◌ d t) u v e =
    let k = put_text-inj s t u v (ap (λ x. tail_of (tail_of x)) e) in
    (ap₂ (λ x y. String.◌∷◌ x y) (ap (λ x. head_of c (tail_of x)) e) k.0, k.1)

put_nat-inj : (m n : ℕ) (u v : String) → put_nat m u ≡ put_nat n v → (m ≡ n) × (u ≡ v)
put_nat-inj zero zero u v e = (refl, ap tail_of e)
put_nat-inj zero (suc n) u v e = absurd (ground (arith, ap starts_a e))
put_nat-inj (suc m) zero u v e = absurd (ground (arith, ap starts_a e))
put_nat-inj (suc m) (suc n) u v e = let k = put_nat-inj m n u v (ap tail_of e) in (ap suc k.0, k.1)

put_option-inj :
    (m n : Option ℕ) (u v : String) → put_option m u ≡ put_option n v → (m ≡ n) × (u ≡ v)
put_option-inj none none u v e = (refl, ap tail_of e)
put_option-inj none (some n) u v e = absurd (ground (arith, ap starts_a e))
put_option-inj (some m) none u v e = absurd (ground (arith, ap starts_a e))
put_option-inj (some m) (some n) u v e =
    let k = put_nat-inj m n u v (ap tail_of e) in (ap some k.0, k.1)

put_content-inj : (c d : Content) (u v : String) → put_content c u ≡ put_content d v → c ≡ d
put_content-inj c d u v e =
    let k1 = put_text-inj c.kind d.kind _ _ e in
    let k2 = put_text-inj c.payload d.payload _ _ k1.1 in
    let k3 = put_option-inj c.latency_ms d.latency_ms _ _ k2.1 in
    let k4 = put_option-inj c.tokens d.tokens _ _ k3.1 in
    let k5 = put_text-inj c.ts d.ts _ _ k4.1 in
    λ i. record {
      kind = k1.0 i;
      payload = k2.0 i;
      latency_ms = k3.0 i;
      tokens = k4.0 i;
      ts = k5.0 i;
    }

empty_starts : (p : String) (m : ℕ) (c : Content) → written_down p m c ≢ ""
empty_starts String.[] m c e = ground (arith, ap is_some_text e)
empty_starts (String.◌∷◌ x p) m c e = ground (arith, ap is_some_text e)

written_down-IsSecure : IsSecure written_down
written_down-IsSecure = record {
  injective = λ p q m n c d e.
      let k = put_text-inj p q _ _ e in
      let j = put_nat-inj m n _ _ k.1 in (k.0, j.0, put_content-inj c d "" "" j.1);
  nonempty = empty_starts;
}

abbrev said : String → Content
said payload = record {
  kind = "step";
  payload = payload;
  latency_ms = none;
  tokens = some 3;
  ts = "2026";
}

abbrev row_after : String → ℕ → String → EventRow
row_after prev seq payload = record {
  seq = seq;
  content = said payload;
  row_hash = written_down prev seq (said payload);
}

abbrev first_row : EventRow
first_row = row_after "" 0 "read"

abbrev second_row : EventRow
second_row = row_after first_row.row_hash 1 "write"

two_rows :
    append_all written_down (said "read" ∷ said "write" ∷ []) []
    ≡ (first_row ∷ []) ++ (second_row ∷ [])
unfolding append_all
two_rows = refl

passes_two : verify_chain written_down ((first_row ∷ []) ++ (second_row ∷ [])) ≡ none
unfolding verify_chain
passes_two = refl

verify_chain-evident_example :
    (verify_chain written_down ((first_row ∷ []) ++ (second_row ∷ [])) ≡ none)
    × ((first_row ∷ []) ≡ (first_row ∷ []))
verify_chain-evident_example =
    verify_chain-evident written_down written_down-IsSecure (said "read" ∷ said "write" ∷ [])
      (first_row ∷ []) [] (first_row ∷ []) second_row two_rows passes_two
