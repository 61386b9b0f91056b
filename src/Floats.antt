-- ===== src/Floats.antt =====
-- The floats of the program. Their arithmetic is Python's, which rounds, and a parameter of what is
-- modelled over them: nothing is assumed of it.

pub mod Tests
use resgraph.Prelude.{ℕ, Bool}

pub record Floats : Type 1 where
  pub Float : Type 0
  -- `0.0`
  pub nought : Float
  pub add : Float → Float → Float
  pub sub : Float → Float → Float
  pub mul : Float → Float → Float
  pub div : Float → Float → Float
  -- An integer's float.
  pub of_int : ℕ → Float
  -- `<=` and `<`
  pub le : Float → Float → Bool
  pub lt : Float → Float → Bool
