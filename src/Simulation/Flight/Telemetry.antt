-- ===== src/Simulation/Flight/Telemetry.antt =====
-- libs/simulation/flight/runtime.py: the telemetry and phase rows of a tick. Their date_utc, the
-- date of the timestamp, is left out.
use s3ntinel.Prelude.{
  ℕ, ◌%◌, ◌==◌, ◌||◌, Bool, true, Option, none, some, List, [], ◌∷◌, ◌++◌, String, if◌then◌else◌,
  coalesce, ltb,
}
use s3ntinel.Prelude.Int.{ℤ, pos, pos_part}
use s3ntinel.Prelude.Dict.{Dict, lookup}
use s3ntinel.Simulation.Coupling.{Signals}
use s3ntinel.Simulation.Coupling.Apply.{Lags}
use s3ntinel.Simulation.Coupling.Config.{Objects, get, holds, ◌>>=◌}
use s3ntinel.Simulation.Module.{BehaviorSample}
use s3ntinel.Simulation.Flight.Step.{ContextValues, FlightTick}

-- What the interpreter does for a rate: `a == b`, `a <= b`, a division, which raises on zero,
-- `int(round(x))`, which raises on an infinity, and the double 1e-9.
pub record Rates (signals : Signals) : Type 0 where
  pub same : signals.Value → signals.Value → Bool
  pub leb : signals.Double → signals.Double → Bool
  pub div : signals.Double → signals.Double → Option signals.Double
  pub round_int : signals.Double → Option ℤ
  pub nano : signals.Double

-- `max(steps, 1)`
abbrev pub at_least_one : ℤ → ℕ
at_least_one steps = if ltb 1 (pos_part steps) then pos_part steps else 1

abbrev every : ℕ → Option ℤ → Option Bool
every step_index none = none
every step_index (some steps) = some (step_index % at_least_one steps == 0)

module _ (signals : Signals) (objects : Objects signals) (rates : Rates signals) where
  open signals use {Value, Double}

  -- `rate_hz in ("", 0, 0.0)`
  unfoldable pub is_unset : Value → Bool
  is_unset value =
      rates.same value (objects.of_text "")
      || rates.same value (objects.of_integer (pos 0))
      || rates.same value (signals.of_double (signals.of_int (pos 0)))

  -- `int(round(1.0 / (rate * max(dt_seconds, 1e-9))))`
  unfoldable pub rounded_steps : Double → Double → Option ℤ
  rounded_steps rate dt_seconds =
      let dt = if objects.ltb dt_seconds rates.nano then rates.nano else dt_seconds in
      rates.div (signals.of_int (pos 1)) (signals.mul rate dt) >>= rates.round_int

  -- None where the number of steps raises.
  unfoldable pub should_emit_sample : ℕ → Double → Option Value → Option Bool
  unfolding is_unset rounded_steps
  should_emit_sample step_index dt_seconds none = some true
  should_emit_sample step_index dt_seconds (some value) =
      if is_unset value then some true else elim (signals.to_double value) [
        | none ↦ some true
        | some rate ↦
            if rates.leb rate (signals.of_int (pos 0))
            then some true
            else every step_index (rounded_steps rate dt_seconds)
      ]

module _ (signals : Signals) (objects : Objects signals) (lags : Lags signals)
    (values : ContextValues signals) (rates : Rates signals) where
  open signals use {Value, Double}

  abbrev Tick : Type 0
  Tick = FlightTick signals objects lags values

  pub record TelemetryRow : Type 0 where
    pub tail_id : String
    pub flight_id : String
    pub step_index : ℕ
    pub timestamp_utc : ℕ
    pub system_id : Option Value
    pub subsystem_id : Option Value
    pub module_id : String
    pub parameter_name : String
    pub sensor : String
    pub unit : Option Value
    pub rate_hz : Option Value
    pub behavior_family_label : Option Value
    pub parameter_datatype_label : Option Value
    pub parameter_value_clean : Option Value
    pub parameter_value : Option String
    pub phase_label : Option String
    pub target_source : Option Value
    pub misbehavior_active : Bool
    pub misbehavior_applied : Bool
    pub misbehavior_family_label : Option Value
    pub misbehavior_detail_label : Option Value
    pub misbehavior_window_id : Option Value
    pub event_type_label : Option Value
    pub event_misbehavior_label : Option Value
    pub anomaly_type_label : Option Value
    pub anomaly_score_label : Option Value
    pub coupling_id_label : Option Value
    pub fault_active : Bool
    pub fault_applied : Bool
    pub fault_family_label : Option Value
    pub fault_type : Option Value
    pub fault_window_id : Option Value

  pub record FlightPhaseRow : Type 0 where
    pub tail_id : String
    pub flight_id : String
    pub step_index : ℕ
    pub timestamp_utc : ℕ
    pub phase_label : Option String

  abbrev text_of : Option Value → Option String
  text_of none = none
  text_of (some value) = some (objects.str_of value)

  unfoldable pub telemetry_row : Tick → String → BehaviorSample signals objects → TelemetryRow
  unfolding lookup
  telemetry_row tick module_id sample =
      let metadata = sample.metadata in
      let found : String → Option Value = λ key. get signals objects key metadata in
      let label : String → Option Value =
        λ key. coalesce (lookup key metadata) (some (objects.of_text "")) in
      let flag : String → Bool = λ key. holds signals objects (found key) in
      record {
        tail_id = tick.tail_id;
        flight_id = tick.flight_id;
        step_index = tick.step_index;
        timestamp_utc = tick.timestamp_utc;
        system_id = found "system_id";
        subsystem_id = found "subsystem_id";
        module_id = module_id;
        parameter_name = sample.parameter_name;
        sensor = sample.parameter_name;
        unit = found "unit";
        rate_hz = found "rate_hz";
        behavior_family_label = found "behavior_family_label";
        parameter_datatype_label = found "parameter_datatype_label";
        parameter_value_clean = sample.parameter_value_clean;
        parameter_value = text_of sample.parameter_value;
        phase_label = tick.phase_label;
        target_source = found "target_source";
        misbehavior_active = flag "misbehavior_active";
        misbehavior_applied = flag "misbehavior_applied";
        misbehavior_family_label = label "misbehavior_family_label";
        misbehavior_detail_label = label "misbehavior_detail_label";
        misbehavior_window_id = label "misbehavior_window_id";
        event_type_label = label "event_type_label";
        event_misbehavior_label = label "event_misbehavior_label";
        anomaly_type_label = label "anomaly_type_label";
        anomaly_score_label = found "anomaly_score_label";
        coupling_id_label = label "coupling_id_label";
        fault_active = flag "fault_active";
        fault_applied = flag "fault_applied";
        fault_family_label = label "fault_family_label";
        fault_type = label "fault_type";
        fault_window_id = label "fault_window_id";
      }

  unfoldable pub module_rows :
      Tick → String → List (BehaviorSample signals objects) → Option (List TelemetryRow)
  unfolding lookup should_emit_sample telemetry_row
  module_rows tick module_id [] = some []
  module_rows tick module_id (sample ∷ samples) =
      let rate = get signals objects "rate_hz" sample.metadata in
      should_emit_sample signals objects rates tick.step_index tick.dt_seconds rate >>= λ emits.
      module_rows tick module_id samples >>= λ rows.
      some (if emits then telemetry_row tick module_id sample ∷ rows else rows)

  unfoldable pub rows_of :
      Tick → Dict (List (BehaviorSample signals objects)) → Option (List TelemetryRow)
  unfolding module_rows
  rows_of tick [] = some []
  rows_of tick (entry ∷ entries) = module_rows tick entry.0 entry.1 >>= λ first.
      rows_of tick entries >>= λ rest. some (first ++ rest)

  unfoldable pub telemetry_rows : Tick → Option (List TelemetryRow)
  unfolding rows_of
  telemetry_rows tick = rows_of tick tick.samples_by_module_id

  abbrev pub phase_row : Tick → FlightPhaseRow
  phase_row tick = record {
    tail_id = tick.tail_id;
    flight_id = tick.flight_id;
    step_index = tick.step_index;
    timestamp_utc = tick.timestamp_utc;
    phase_label = tick.phase_label;
  }
