-- ===== src/Examples/Truth.antt =====
-- Rows of a rising number: libs/simulation/event_truth.py.
use s3ntinel.Prelude.{ℕ, ◌-◌, ◌≡◌, refl, none, some, [], ◌∷◌, List, String, map}
use s3ntinel.Simulation.EventTruth.{
  Slopes, TruthRow, clean_value, diffs_from, threshold_of, label_continuous_rows,
  label_discrete_rows,
}
use s3ntinel.Simulation.EventTruth.Trends.{label_trends, label_continuous_rows-label_trends}
use s3ntinel.Simulation.EventTruth.{flat}
use s3ntinel.Examples.Coupled.{counts}
use s3ntinel.Examples.Steps.{numbers}

-- Differences of natural numbers, with a threshold of two.
abbrev steps : Slopes counts
steps = record {
  sub = λ a b. a - b;
  abs = λ a. a;
  quantile = λ diffs. 2;
  half = 1;
  least_threshold = 1;
}

abbrev row_of : ℕ → TruthRow counts numbers steps
row_of n = record { parameter_value_clean = some n; parameter_value = none; event_type_label = "" }

abbrev climb : List (TruthRow counts numbers steps)
climb = row_of 4 ∷ row_of 7 ∷ row_of 9 ∷ row_of 10 ∷ []

abbrev labels : List (TruthRow counts numbers steps) → List String
labels rows = map (λ (row : TruthRow counts numbers steps). row.event_type_label) rows

climbs :
    labels (label_continuous_rows counts numbers steps (row_of 1 ∷ climb))
    ≡ "" ∷ "" ∷ "slope_pos" ∷ "" ∷ "" ∷ []
unfolding label_continuous_rows
climbs = refl

-- Every number is written the same, but zero, which is no value.
drops :
    labels (label_discrete_rows counts numbers steps (row_of 1 ∷ row_of 0 ∷ row_of 2 ∷ []))
    ≡ "" ∷ "dropped" ∷ "state_enter" ∷ []
unfolding label_discrete_rows
drops = refl

climb_diffs :
    diffs_from counts numbers steps (clean_value counts numbers steps (row_of 1)) climb
    ≡ 3 ∷ 3 ∷ 2 ∷ 1 ∷ []
unfolding diffs_from
climb_diffs = refl

label_continuous_rows-label_trends_example :
    label_continuous_rows counts numbers steps (row_of 1 ∷ climb)
    ≡ row_of 1
      ∷ label_trends counts numbers steps
          (threshold_of counts numbers steps (3 ∷ 3 ∷ 2 ∷ 1 ∷ []))
          flat
          flat
          (clean_value counts numbers steps (row_of 1))
          climb
label_continuous_rows-label_trends_example =
    label_continuous_rows-label_trends counts numbers steps (row_of 1) climb 3 (3 ∷ 2 ∷ 1 ∷ [])
      climb_diffs
