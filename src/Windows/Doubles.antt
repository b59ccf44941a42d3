-- ===== src/Windows/Doubles.antt =====
-- Python's and Spark's doubles, which no source file of the repository implements.
use s3ntinel.Prelude.{Bool}
use s3ntinel.Prelude.Int.{ℤ}

-- The operations on doubles that the modelled code uses.
pub record Doubles : Type 1 where
  pub Double : Type 0
  pub of_int : ℤ → Double
  pub add : Double → Double → Double
  pub mul : Double → Double → Double
  pub div : Double → Double → Double
  -- `a <= b`
  pub leb : Double → Double → Bool
  -- `a < b`
  pub ltb : Double → Double → Bool
  pub ceil : Double → ℤ
