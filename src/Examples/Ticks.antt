-- ===== src/Examples/Ticks.antt =====
-- A flight of the aircraft of Examples.Steps: its ticks and its telemetry, libs/simulation/flight.
use s3ntinel.Prelude.{
  ℕ, ◌+◌, ◌*◌, ◌/◌, ◌==◌, leb, ltb, not, if◌then◌else◌, refl, true, false, none, some, [], ◌∷◌,
}
use s3ntinel.Prelude.Int.{pos, pos_part}
use s3ntinel.Simulation.Phase.{PhaseProgram}
use s3ntinel.Simulation.Coupling.{Signals}
use s3ntinel.Simulation.Coupling.Config.{Objects}
use s3ntinel.Simulation.Flight.{InputProgramSpec, PhaseEnvelopeSpec}
use s3ntinel.Simulation.Flight.Step.{ContextValues, Flight, StepOptions}
use s3ntinel.Simulation.Flight.Telemetry.{Rates}
use s3ntinel.Simulation.Flight.Emits.{EmitsOnce, should_emit_sample-EmitsOnce}
use s3ntinel.Examples.Inputs.{fixed_point}
use s3ntinel.Examples.Coupled.{counts, seconds}
use s3ntinel.Examples.Steps.{numbers, plane}

abbrev ones : ContextValues counts
ones = record { doubles = fixed_point; printed = λ v. ""; as_object = λ v. some 1 }

abbrev climb : PhaseEnvelopeSpec counts numbers seconds
climb = record {
  phase_label = "takeoff_climb";
  step_input_context_by_module = ("ecs", ("pressure", ("thrust", some 4) ∷ []) ∷ []) ∷ [];
  mode_state_by_module = ("engine", ("power", some "high") ∷ []) ∷ [];
  latent_state_by_module = ("engine", ("heat", 3) ∷ []) ∷ [];
}

abbrev climbing : PhaseProgram (PhaseEnvelopeSpec counts numbers seconds)
climbing = record {
  explicit_labels_by_step = some "takeoff_climb" ∷ [];
  schedule = none;
  envelopes_by_label = ("takeoff_climb", climb) ∷ [];
}

abbrev no_inputs : InputProgramSpec counts numbers seconds
no_inputs = record { steps = []; hold_last_step = true }

abbrev departure : Flight counts numbers seconds ones
departure = record {
  aircraft = plane;
  tail_id = "tail";
  flight_id = "flight";
  start_timestamp_utc = 0;
  initial_values_by_module = [];
  input_program = no_inputs;
  phase_program = climbing;
  misbehavior_windows = [];
  step_index = 0;
  current_timestamp_utc = none;
  current_phase_label = none;
  initial_state_applied = false;
}

abbrev each_second : StepOptions counts numbers seconds ones
each_second = record { dt_seconds = 1; apply_faults = true; collect_coupling_audit = true }

-- Values and doubles as fixed point with nine decimals.
abbrev decimals : Signals
decimals = record {
  Value = ℕ;
  Double = ℕ;
  to_double = λ v. some v;
  truthy = λ v. not (v == 0);
  nonzero = λ x. not (x == 0);
  of_double = λ x. x;
  of_int = λ n. pos_part n * 1000000000;
  mul = λ a b. a * b / 1000000000;
}

abbrev decimal_objects : Objects decimals
decimal_objects = record {
  to_int = λ v. some (pos (v / 1000000000));
  str_of = λ v. "";
  of_text = λ t. 1;
  of_flag = λ b. if b then 1000000000 else 0;
  of_integer = λ n. pos_part n * 1000000000;
  add = λ a b. a + b;
  ltb = ltb;
}

abbrev divides : Rates decimals
divides = record {
  same = λ a b. a == b;
  leb = leb;
  div = λ a b. if b == 0 then none else some (a * 1000000000 / b);
  round_int = λ x. some (pos ((x + 500000000) / 1000000000));
  nano = 1;
}

-- A rate of 0.3 Hz at steps of one second: a sample every 3.33 steps, rounded to three.
should_emit_sample-EmitsOnce_example :
    EmitsOnce decimals decimal_objects divides 5 3 1000000000 300000000
should_emit_sample-EmitsOnce_example =
    should_emit_sample-EmitsOnce decimals decimal_objects divides 5 1000000000 300000000 300000000
      3333333333 (pos 3) refl refl refl refl refl refl refl
