-- ===== src/Floats/Tests.antt =====
-- An arithmetic that floats may stand for: whole numbers of the thousandth, which products and quotients round down.
use resgraph.Prelude.{ℕ, ◌+◌, ◌-◌, ◌*◌, ◌/◌, leb, ltb}
use resgraph.Floats.{Floats}

abbrev pub per_mille : Floats
per_mille = record {
  Float = ℕ;
  nought = 0;
  add = λ a b. a + b;
  sub = λ a b. a - b;
  mul = λ a b. a * b / 1000;
  div = λ a b. 1000 * a / b;
  of_int = λ n. 1000 * n;
  le = leb;
  lt = ltb;
}
