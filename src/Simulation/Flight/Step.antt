-- ===== src/Simulation/Flight/Step.antt =====
-- libs/simulation/flight/runtime.py: Flight.step and Flight.iter_ticks. None stands for a raise.
use s3ntinel.Prelude.{
  ℕ, zero, suc, ◌+◌, Bool, true, Option, none, some, List, [], ◌∷◌, String, if◌then◌else◌,
}
use s3ntinel.Prelude.Int.{pos}
use s3ntinel.Prelude.Dict.{Dict, mapped}
use s3ntinel.Windows.Doubles.{Doubles}
use s3ntinel.Simulation.Misbehavior.{MisbehaviorWindowSpec}
use s3ntinel.Simulation.Misbehavior.Program.{MisbehaviorStepContext, step_context_for_step}
use s3ntinel.Simulation.Phase.{PhaseProgram, Result, ok, err, label_for_step, envelope_for_step}
use s3ntinel.Simulation.Coupling.{Signals}
use s3ntinel.Simulation.Coupling.Apply.{Lags, CouplingExecution}
use s3ntinel.Simulation.Coupling.Config.{Objects, Context, ◌>>=◌}
use s3ntinel.Simulation.Module.{BehaviorSample}
use s3ntinel.Simulation.Module.Step.{StepContext}
use s3ntinel.Simulation.Aircraft.{Aircraft, Flown, step_aircraft}
use s3ntinel.Simulation.Flight.{
  InputProgramSpec, PhaseEnvelopeSpec, step_inputs_for_step, apply_to_aircraft,
  apply_to_step_inputs,
}

-- The values of a misbehavior's contexts, and the objects that they are.
pub record ContextValues (signals : Signals) : Type 1 where
  pub doubles : Doubles
  pub printed : s3ntinel.Simulation.Misbehavior.Value doubles → String
  pub as_object : s3ntinel.Simulation.Misbehavior.Value doubles → Option signals.Value

-- The result of a call that may raise.
abbrev pub returned {ℓ} : {A : Type ℓ} → Result A → Option A
returned (ok a) = some a
returned (err e) = none

module _ (signals : Signals) (objects : Objects signals) (lags : Lags signals)
    (values : ContextValues signals) where
  open signals use {Value, Double}

  abbrev pub Misbehaviors : Type 0
  Misbehaviors = MisbehaviorStepContext values.doubles values.printed

  pub record Flight : Type 0 where
    pub aircraft : Aircraft signals objects lags
    pub tail_id : String
    pub flight_id : String
    pub start_timestamp_utc : ℕ
    pub initial_values_by_module : Dict (Context signals objects)
    pub input_program : InputProgramSpec signals objects lags
    pub phase_program : PhaseProgram (PhaseEnvelopeSpec signals objects lags)
    pub misbehavior_windows : List (MisbehaviorWindowSpec values.doubles)
    pub step_index : ℕ
    pub current_timestamp_utc : Option ℕ
    pub current_phase_label : Option String
    pub initial_state_applied : Bool

  pub record FlightTick : Type 0 where
    pub tail_id : String
    pub flight_id : String
    pub step_index : ℕ
    pub timestamp_utc : ℕ
    pub dt_seconds : Double
    pub phase_label : Option String
    pub samples_by_module_id : Dict (List (BehaviorSample signals objects))
    pub step_misbehavior_context : Misbehaviors
    pub coupling_executions : List (CouplingExecution signals)

  -- `apply_faults` and `collect_coupling_audit`
  pub record StepOptions : Type 0 where
    pub dt_seconds : Double
    pub apply_faults : Bool
    pub collect_coupling_audit : Bool

  abbrev pub as_context :
      Dict (s3ntinel.Simulation.Misbehavior.Value values.doubles) → Context signals objects
  as_context context = mapped values.as_object context

  abbrev no_misbehaviors : Misbehaviors
  no_misbehaviors = record { parameter_context_by_module = []; coupling_context_by_id = [] }

  abbrev pub misbehaviors_at : StepOptions → Flight → Misbehaviors
  misbehaviors_at options flight =
      if options.apply_faults
      then step_context_for_step values.doubles values.printed flight.misbehavior_windows
          (pos flight.step_index)
      else no_misbehaviors

  abbrev pub timestamp_at : StepOptions → Flight → ℕ
  timestamp_at options flight =
      lags.after flight.start_timestamp_utc
        (signals.mul (signals.of_int (pos flight.step_index)) options.dt_seconds)

  -- What the aircraft's step is given.
  unfoldable pub context_at :
      StepOptions
      → Flight
      → Option String
      → Dict (Dict (s3ntinel.Simulation.Module.BehaviorStepInput signals objects))
      → StepContext signals objects lags
  unfolding mapped step_context_for_step
  context_at options flight label step_inputs =
      let misbehaviors = misbehaviors_at options flight in
      record {
        timestamp_utc = some (timestamp_at options flight);
        current_phase_label = label;
        apply_faults = options.apply_faults;
        coupling_context_by_id = mapped as_context misbehaviors.coupling_context_by_id;
        fault_context_by_module =
            mapped (mapped as_context) misbehaviors.parameter_context_by_module;
        initial_state_by_module =
            if flight.initial_state_applied then [] else flight.initial_values_by_module;
        step_inputs_by_module = step_inputs;
      }

  abbrev pub with_modules :
      Aircraft signals objects lags
      → Dict (s3ntinel.Simulation.Module.Module signals objects)
      → Aircraft signals objects lags
  with_modules aircraft modules = record aircraft { modules_by_id = modules }

  abbrev pub advanced : StepOptions → Flight → Option String → Flown signals objects lags → Flight
  advanced options flight label flown = record flight {
    aircraft = with_modules flight.aircraft flown.modules;
    step_index = flight.step_index + 1;
    current_timestamp_utc = some (timestamp_at options flight);
    current_phase_label = label;
    initial_state_applied = true;
  }

  abbrev pub tick_of :
      StepOptions → Flight → Option String → Flown signals objects lags → FlightTick
  tick_of options flight label flown = record {
    tail_id = flight.tail_id;
    flight_id = flight.flight_id;
    step_index = flight.step_index;
    timestamp_utc = timestamp_at options flight;
    dt_seconds = options.dt_seconds;
    phase_label = label;
    samples_by_module_id = flown.samples_by_module_id;
    step_misbehavior_context = misbehaviors_at options flight;
    coupling_executions = if options.collect_coupling_audit then flown.executions else [];
  }

  unfoldable pub step_flight : StepOptions → Flight → Option (Flight × FlightTick)
  unfolding label_for_step envelope_for_step apply_to_aircraft step_inputs_for_step
      apply_to_step_inputs context_at step_aircraft
  step_flight options flight =
      let index = pos flight.step_index in
      returned (label_for_step flight.phase_program index) >>= λ label.
      returned (envelope_for_step flight.phase_program index) >>= λ envelope.
      apply_to_aircraft signals objects lags envelope flight.aircraft.modules_by_id >>= λ modules.
      apply_to_step_inputs signals objects lags options.dt_seconds envelope modules
        (step_inputs_for_step signals objects lags flight.input_program index options.dt_seconds)
      >>= λ step_inputs.
          step_aircraft signals objects lags (context_at options flight label step_inputs)
            (with_modules flight.aircraft modules)
          >>= λ flown.
              some (advanced options flight label flown, tick_of options flight label flown)

  -- The ticks of `n` steps, all drawn.
  unfoldable pub iter_ticks : StepOptions → ℕ → Flight → Option (Flight × List FlightTick)
  unfolding step_flight
  iter_ticks options zero flight = some (flight, [])
  iter_ticks options (suc n) flight = step_flight options flight >>= λ stepped.
      iter_ticks options n stepped.0 >>= λ rest. some (rest.0, stepped.1 ∷ rest.1)
