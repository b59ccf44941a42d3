-- ===== src/Simulation/EventTruth.antt =====
-- libs/simulation/event_truth.py: the event labels of the rows of one parameter, in the order of
-- time. A row's label is a text already, as annotate_event_type_labels leaves it first.
pub mod Trends
use s3ntinel.Prelude.{
  ℕ, ◌+◌, ◌==◌, Bool, true, false, not, ◌&&◌, Option, none, some, List, [], ◌∷◌, map, String,
  str_eq, if◌then◌else◌,
}
use s3ntinel.Prelude.Int.{pos}
use s3ntinel.Simulation.Coupling.{Signals}
use s3ntinel.Simulation.Coupling.Config.{Objects, holds, to_double, text_or_empty}
use s3ntinel.Simulation.Module.{at_least}

-- What the labels of numbers ask of doubles: the difference, the absolute value, the 0.75 quantile
-- of pandas, 0.5 and 1e-6.
pub record Slopes (signals : Signals) : Type 0 where
  pub sub : signals.Double → signals.Double → signals.Double
  pub abs : signals.Double → signals.Double
  pub quantile : List signals.Double → signals.Double
  pub half : signals.Double
  pub least_threshold : signals.Double

-- The signs 0, 1 and -1.
pub data Sign : Type 0 where
  flat rising falling : Sign

abbrev pub sign_eq : Sign → Sign → Bool
sign_eq flat flat = true
sign_eq flat rising = false
sign_eq flat falling = false
sign_eq rising flat = false
sign_eq rising rising = true
sign_eq rising falling = false
sign_eq falling flat = false
sign_eq falling rising = false
sign_eq falling falling = true

abbrev pub slope_label : Sign → String
slope_label flat = "slope_neg"
slope_label rising = "slope_pos"
slope_label falling = "slope_neg"

module _ (signals : Signals) (objects : Objects signals) (slopes : Slopes signals) where
  open signals use {Value, Double}

  pub record TruthRow : Type 0 where
    pub parameter_value_clean : Option Value
    pub parameter_value : Option Value
    pub event_type_label : String

  pub record RunState : Type 0 where
    pub sign : Sign
    pub length : ℕ
    pub peak_abs_delta : Double

  abbrev zero_delta : Double
  zero_delta = signals.of_int (pos 0)

  abbrev pub blank_run : RunState
  blank_run = record { sign = flat; length = 0; peak_abs_delta = zero_delta }

  abbrev pub clean_value : TruthRow → Option Double
  clean_value row = to_double signals objects row.parameter_value_clean

  abbrev diff_of : Option Double → Option Double → List Double → List Double
  diff_of none current rest = rest
  diff_of (some previous) none rest = rest
  diff_of (some previous) (some current) rest = slopes.abs (slopes.sub current previous) ∷ rest

  -- The differences of the rows after a value.
  unfoldable pub diffs_from : Option Double → List TruthRow → List Double
  diffs_from previous [] = []
  diffs_from previous (row ∷ rows) =
      diff_of previous (clean_value row) (diffs_from (clean_value row) rows)

  abbrev pub threshold_of : List Double → Double
  threshold_of diffs =
      at_least signals objects (some slopes.least_threshold)
        (signals.mul (slopes.quantile diffs) slopes.half)

  -- A run that a sign goes on with or starts anew, and the label that it earns.
  unfoldable pub extended : RunState → Sign → Double → RunState × Option String
  extended state sign abs_delta =
      if sign_eq sign state.sign
      then (
        record {
          sign = state.sign;
          length = state.length + 1;
          peak_abs_delta = at_least signals objects (some abs_delta) state.peak_abs_delta;
        },
        if state.length + 1 == 2 then some (slope_label sign) else none,
      )
      else (record { sign = sign; length = 1; peak_abs_delta = abs_delta }, none)

  abbrev pub sign_of : Double → Sign
  sign_of delta = if objects.ltb zero_delta delta then rising else falling

  unfoldable pub run_step :
      Double → RunState → Option Double → Option Double → RunState × Option String
  unfolding extended
  run_step threshold state none current = (blank_run, none)
  run_step threshold state (some previous) none = (blank_run, none)
  run_step threshold state (some previous) (some current) =
      let delta = slopes.sub current previous in
      if objects.ltb (slopes.abs delta) threshold
      then (blank_run, none)
      else extended state (sign_of delta) (slopes.abs delta)

  abbrev pub relabelled : Option String → TruthRow → TruthRow
  relabelled none row = row
  relabelled (some label) row = record row { event_type_label = label }

  unfoldable pub label_runs : Double → RunState → Option Double → List TruthRow → List TruthRow
  unfolding run_step
  label_runs threshold state previous [] = []
  label_runs threshold state previous (row ∷ rows) =
      let stepped = run_step threshold state previous (clean_value row) in
      relabelled stepped.1 row ∷ label_runs threshold stepped.0 (clean_value row) rows

  abbrev none_or_labelled : List Double → TruthRow → List TruthRow → List TruthRow
  none_or_labelled [] first rows = first ∷ rows
  none_or_labelled (diff ∷ diffs) first rows =
      first ∷ label_runs (threshold_of (diff ∷ diffs)) blank_run (clean_value first) rows

  unfoldable pub label_continuous_rows : List TruthRow → List TruthRow
  unfolding diffs_from label_runs
  label_continuous_rows [] = []
  label_continuous_rows (first ∷ rows) =
      none_or_labelled (diffs_from (clean_value first) rows) first rows

  infixr 3 ◌or◌
  abbrev ◌or◌ : Option Value → Option Value → Option Value
  a or b = if holds signals objects a then a else b

  -- `str(clean or value or "")`
  abbrev pub discrete_value : TruthRow → String
  discrete_value row =
      text_or_empty signals objects (row.parameter_value_clean or row.parameter_value)

  unfoldable pub discrete_label : String → String → Option String
  discrete_label previous current =
      let was = not (str_eq previous "") in
      let is = not (str_eq current "") in
      if was && is && not (str_eq current previous)
      then some "transition"
      else if not was && is
      then some "state_enter"
      else if was && not is
      then some "dropped"
      else none

  unfoldable pub label_changes : String → List TruthRow → List TruthRow
  unfolding discrete_label
  label_changes previous [] = []
  label_changes previous (row ∷ rows) =
      relabelled (discrete_label previous (discrete_value row)) row
      ∷ label_changes (discrete_value row) rows

  unfoldable pub label_discrete_rows : List TruthRow → List TruthRow
  unfolding label_changes
  label_discrete_rows [] = []
  label_discrete_rows (first ∷ rows) = first ∷ label_changes (discrete_value first) rows
