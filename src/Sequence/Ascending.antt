-- ===== src/Sequence/Ascending.antt =====
-- The segment ids of a plan, libs/spark_sequence/plan.py, along the rows of one key.
use s3ntinel.Prelude.{
  ℕ, zero, suc, ◌+◌, ◌-◌, ◌/◌, ◌≤◌, ◌<◌, Bool, true, false, Option, none, some, List, [], ◌∷◌,
  arith,
}
use native.Mathlib.Nat.{le-div_iff_mul-le, div-mul-le_self}
use s3ntinel.Sequence.Plan.{
  Row, SegmentedRow, SequenceOrderingPolicy, SequenceSegmentPolicy, segment_id, span_segment_id,
  number_rows, assign_rows, is_timed, normalized_max_rows_per_segment,
}

-- Spark sorts nulls first.
abbrev pub NotBefore : Option ℕ → Option ℕ → Type 0
NotBefore none b = Unit
NotBefore (some a) none = ⊥
NotBefore (some a) (some b) = a ≤ b

abbrev pub Later : Bool → Option ℕ → Option ℕ → Type 0
Later false a b = Unit
Later true a b = NotBefore a b

abbrev pub AscendsFrom : {A : Type 0} → Bool → Option ℕ → List (Row A) → Type 0
AscendsFrom timed at [] = Unit
AscendsFrom timed at (row ∷ rows) =
    Later timed at row.timestamp × AscendsFrom timed row.timestamp rows

-- The rows are in the order of their timestamps, if the plan reads timestamps.
abbrev pub Ascends : {A : Type 0} → Bool → List (Row A) → Type 0
Ascends timed rows = AscendsFrom timed none rows

pub div_mono : (a b k : ℕ) → 0 < k → a ≤ b → a / k ≤ b / k
div_mono a b k pos h = (le-div_iff_mul-le pos).1 (omega (arith, div-mul-le_self a k))

segment_id_mono :
    (m span : ℕ) (timed : Bool) (start : Option ℕ) (n : ℕ) (a b : Option ℕ)
    → 0 < m
    → Later timed a b
    → segment_id m span timed start n a ≤ segment_id m span timed start (n + 1) b
unfolding segment_id span_segment_id
segment_id_mono m zero timed start n a b pos h = ground (arith, div_mono (n - 1) (n + 1 - 1) m pos)
segment_id_mono m (suc span) false start n a b pos h =
    ground (arith, div_mono (n - 1) (n + 1 - 1) m pos)
segment_id_mono m (suc span) true none n a b pos h =
    ground (arith, div_mono (n - 1) (n + 1 - 1) m pos)
segment_id_mono m (suc span) true (some s) n none none pos h =
    ground (arith, div_mono (n - 1) (n + 1 - 1) m pos)
segment_id_mono m (suc span) true (some s) n none (some b) pos h =
    ground (arith, div_mono (n - 1) (n + 1 - 1) m pos)
segment_id_mono m (suc span) true (some s) n (some a) none pos h = absurd h
segment_id_mono m (suc span) true (some s) n (some a) (some b) pos h =
    ground (arith, div_mono (n - 1) (n + 1 - 1) m pos, div_mono (a - s) (b - s) (suc span))

module _ {A : Type 0} where
  -- Each id is at least the one before it.
  abbrev pub IdsFrom : ℕ → List (SegmentedRow A) → Type 0
  IdsFrom lo [] = Unit
  IdsFrom lo (row ∷ rows) = (lo ≤ row.flight_segment_id) × IdsFrom row.flight_segment_id rows

  pub IdsFrom-weaken :
      (lo hi : ℕ) (rows : List (SegmentedRow A)) → lo ≤ hi → IdsFrom hi rows → IdsFrom lo rows
  IdsFrom-weaken lo hi [] h ids = tt
  IdsFrom-weaken lo hi (row ∷ rows) h ids = (omega arith, ids.1)

  number_rows-IdsFrom :
      (m span : ℕ) (timed : Bool) (start : Option ℕ) (rows : List (Row A)) (n : ℕ) (at : Option ℕ)
      (seen : List ℕ)
      → 0 < m
      → AscendsFrom timed at rows
      → IdsFrom
          (segment_id m span timed start n at)
          (number_rows m span timed start (n + 1) seen rows)
  unfolding number_rows
  number_rows-IdsFrom m span timed start [] n at seen pos h = tt
  number_rows-IdsFrom m span timed start (row ∷ rows) n at seen pos h = (
    segment_id_mono m span timed start n at row.timestamp pos h.0,
    number_rows-IdsFrom m span timed start rows (n + 1) row.timestamp _ pos h.1,
  )

  pub assign_rows-IdsFrom :
      (ordering : SequenceOrderingPolicy) (policy : SequenceSegmentPolicy) (rows : List (Row A))
      → Ascends (is_timed ordering) rows
      → IdsFrom 0 (assign_rows ordering policy rows)
  unfolding assign_rows normalized_max_rows_per_segment
  assign_rows-IdsFrom ordering policy rows h = IdsFrom-weaken 0 _ _ (omega arith) (
      number_rows-IdsFrom (normalized_max_rows_per_segment policy) _ (is_timed ordering) _ rows 0
        none [] (ground arith) h)
