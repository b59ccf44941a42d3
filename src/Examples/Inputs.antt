-- ===== src/Examples/Inputs.antt =====
-- A concrete stand-in for doubles: fixed point with six decimals.
use s3ntinel.Prelude.{ℕ, ◌*◌, ◌/◌, ◌+◌, leb, ltb}
use s3ntinel.Prelude.Int.{pos, pos_part}
use s3ntinel.Windows.Doubles.{Doubles}

abbrev pub fixed_point : Doubles
fixed_point = record {
  Double = ℕ;
  of_int = λ n. pos_part n * 1000000;
  add = λ a b. a + b;
  mul = λ a b. a * b / 1000000;
  div = λ a b. a * 1000000 / b;
  leb = leb;
  ltb = ltb;
  ceil = λ a. pos ((a + 999999) / 1000000);
}
