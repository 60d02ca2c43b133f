-- ===== src/Trading/Doubles.antt =====
-- What the code uses of `double`: the conversion of integers, arithmetic and comparison.
pub mod Whole
use zquant_system.Prelude.{Bool}
use zquant_system.Prelude.Int.{ℤ}

pub record Doubles (Double : Type 0) : Type 0 where
  pub of_int : ℤ → Double
  pub half : Double
  pub add : Double → Double → Double
  pub sub : Double → Double → Double
  pub mul : Double → Double → Double
  pub div : Double → Double → Double
  -- `a < b`.
  pub less : Double → Double → Bool
  -- `a >= b`.
  pub at_least : Double → Double → Bool
