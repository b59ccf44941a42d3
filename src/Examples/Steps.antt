-- ===== src/Examples/Steps.antt =====
-- An engine that bleeds air to an air conditioning pack: one step of an aircraft of
-- libs/simulation, and its coupling under a misbehavior.
use mathlib.Core.Option.{some-injective}
use s3ntinel.Prelude.{
  any, subst, str_eq, Bool-cases, arith, ℕ, ◌+◌, ltb, ◌≡◌, refl, true, false, if◌then◌else◌, Option,
  none, some, [], ◌∷◌, String, inl, inr,
}
use s3ntinel.Prelude.Int.{pos, pos_part}
use s3ntinel.Prelude.Dict.{Dict, lookup, mapped}
use s3ntinel.Simulation.Coupling.Apply.{Port, TransferConfig, Target, CouplingExecution}
use s3ntinel.Simulation.Coupling.Config.{
  coupling_id, Objects, effective_transfer_config, violation_type, apply_coupling,
}
use s3ntinel.Simulation.Coupling.Effective.{Obeys, effective_transfer_config-Obeys}
use s3ntinel.Simulation.Coupling.Severed.{Severed, apply_coupling-Severed}
use s3ntinel.Simulation.Module.{
  BehaviorSample, Behavior, Parameter, LatentUpdate, Module, apply_latent_updates,
}
use s3ntinel.Simulation.Module.Latents.{HasLatest, apply_latent_updates-HasLatest}
use s3ntinel.Simulation.Module.Labels.{
  misbehaves, IsLabelled, labelled_sample, sample_metadata-IsLabelled,
}
use s3ntinel.Simulation.Module.Outline.{Outline, outline}
use s3ntinel.Simulation.Module.Total.{IsWired}
use s3ntinel.Simulation.Module.Step.{StepContext}
use s3ntinel.Simulation.Module.Keeps.{shape}
use s3ntinel.Simulation.Module.Keys.{Returns}
use s3ntinel.Simulation.Module.Returns.{IsNamed}
use s3ntinel.Simulation.Aircraft.{Aircraft, step_aircraft}
use s3ntinel.Simulation.Aircraft.Shape.{step_aircraft-shape}
use s3ntinel.Simulation.Aircraft.Total.{
  IsSteppable, AllSystems, OutgoingWired, step_aircraft-Returns,
}
use s3ntinel.Examples.Coupled.{counts, seconds, bleed_air, idle}

-- Numbers as objects: a text is its sign, and every number is written so.
abbrev pub numbers : Objects counts
numbers = record {
  to_int = λ v. some (pos v);
  str_of = λ v. "coupling_break";
  of_text = λ t. 1;
  of_flag = λ b. if b then 1 else 0;
  of_integer = pos_part;
  add = λ a b. a + b;
  ltb = ltb;
}

abbrev cut : String × Option ℕ
cut = ("violation_type", some 1)

abbrev cut_config : TransferConfig counts
cut_config = record {
  gain = 3;
  sign = pos 1;
  lag_seconds = 2;
  ignore_phase_gate = false;
  break_coupling = true;
}

config_of_cut :
    effective_transfer_config counts numbers bleed_air (cut ∷ []) (some 6000000) ≡ some cut_config
unfolding effective_transfer_config
config_of_cut = refl

effective_transfer_config-Obeys_example : Obeys counts numbers bleed_air (cut ∷ []) cut_config
effective_transfer_config-Obeys_example =
    effective_transfer_config-Obeys counts numbers bleed_air cut [] (some 6000000) cut_config refl
      config_of_cut

is_cut : violation_type counts numbers (cut ∷ []) ≡ "coupling_break"
unfolding violation_type
is_cut = refl

apply_coupling-Severed_example :
    (after : Target counts × CouplingExecution counts) × ((apply_coupling counts numbers seconds
          bleed_air
          (cut ∷ [])
          (some 5)
          (some 6000000)
          []
          none
          idle
        ≡ some after)
      × Severed counts numbers seconds idle after)
apply_coupling-Severed_example =
    apply_coupling-Severed counts numbers seconds bleed_air cut [] (some 5) (some 6000000) [] none
      idle cut_config refl is_cut config_of_cut

abbrev count_up : Behavior counts numbers
count_up = record {
  generate = λ name input initial. some (
      record {
        parameter_name = name;
        parameter_value_clean = some 7;
        parameter_value = some 8;
        metadata = [];
      }
      ∷ []);
  violate = λ name samples context. some samples;
}

abbrev pub pressure : Parameter counts numbers
pressure = record {
  datatype_label = "float";
  unit = "psi";
  sampling_rate_hz = some 1;
  behavior_family_label = some "count_up";
  input_port_names = "supply" ∷ [];
  output_port_name = some "bleed";
  metadata = [];
  behavior = some count_up;
  parameter_value = none;
  parameter_value_clean = none;
  timestamp_utc = none;
}

abbrev empty_port : Port counts
empty_port = record { current_value = none; timestamp_utc = none; metadata = [] }

abbrev heat : LatentUpdate counts numbers
heat = record {
  latent_name = "heat";
  source_name = "supply";
  source_kind = "input_port";
  gain = 2;
  sign = pos 1;
  offset = 1;
  default_value = 9;
  clamp_min = some 1;
  clamp_max = some 5;
}

abbrev pub unit : String → Module counts numbers
unit id = record {
  id = id;
  system_id = "air";
  subsystem_id = "bleed";
  latent_updates = heat ∷ [];
  parameters = ("pressure", pressure) ∷ [];
  input_ports = ("supply", empty_port) ∷ [];
  output_ports = ("bleed", empty_port) ∷ [];
  latent_state_by_name = [];
  mode_state_by_name = [];
  delayed_input_transfers_by_key = λ key. none;
}

abbrev pub plane : Aircraft counts numbers seconds
plane = record {
  id = "plane";
  systems =
      record {
        id = "air";
        subsystems = record { id = "bleed"; modules = "engine" ∷ "ecs" ∷ [] } ∷ [];
      }
      ∷ [];
  modules_by_id = ("engine", unit "engine") ∷ ("ecs", unit "ecs") ∷ [];
  outgoing_couplings_by_source_module = ("engine", bleed_air ∷ []) ∷ [];
}

abbrev at_six : StepContext counts numbers seconds
at_six = record {
  timestamp_utc = some 6000000;
  current_phase_label = none;
  apply_faults = true;
  coupling_context_by_id = [];
  fault_context_by_module = [];
  initial_state_by_module = [];
  step_inputs_by_module = [];
}

ltb_irrefl : (a : ℕ) → ltb a a ≡ false
ltb_irrefl a = ground arith

apply_latent_updates-HasLatest_example :
    HasLatest counts numbers "heat"
      (unit "ecs")
      (apply_latent_updates counts numbers (unit "ecs") [])
apply_latent_updates-HasLatest_example =
    apply_latent_updates-HasLatest counts numbers "heat" (unit "ecs") [] ltb_irrefl

abbrev touched : BehaviorSample counts numbers
touched = record {
  parameter_name = "pressure";
  parameter_value_clean = some 7;
  parameter_value = some 8;
  metadata = ("misbehavior_applied", some 0) ∷ [];
}

abbrev cut_unit : Module counts numbers
cut_unit = record (unit "ecs") {
  input_ports =
      ("supply", record empty_port { metadata = ("misbehavior_active", some 1) ∷ [] }) ∷ [];
}

sample_metadata-IsLabelled_example :
    IsLabelled counts numbers cut_unit pressure [] touched
      (any (misbehaves counts numbers cut_unit.input_ports) pressure.input_port_names)
      (labelled_sample counts numbers cut_unit pressure [] touched)
sample_metadata-IsLabelled_example =
    sample_metadata-IsLabelled counts numbers cut_unit pressure [] touched

pub count_up-IsNamed :
    (name : String) (behavior : Behavior counts numbers)
    → pressure.behavior ≡ some behavior
    → IsNamed counts numbers name behavior
count_up-IsNamed name behavior e =
    subst (IsNamed counts numbers name) (some-injective count_up behavior e) record {
      generated = λ input initial. (_, (refl, (refl, tt)));
      violated = λ samples context all. (samples, (refl, all));
    }

abbrev pub units : Dict (Outline counts numbers)
units = shape counts numbers seconds plane.modules_by_id

pub bleed_air-IsWired : IsWired counts numbers seconds at_six units bleed_air
unfolding mapped lookup coupling_id effective_transfer_config
bleed_air-IsWired = record {
  source = outline counts numbers (unit "engine");
  target = outline counts numbers (unit "ecs");
  has_source = refl;
  has_target = refl;
  source_port = refl;
  target_port = refl;
  parses = λ time. (_, refl);
}

plane-OutgoingWired :
    OutgoingWired counts numbers seconds at_six plane.outgoing_couplings_by_source_module units
unfolding lookup
plane-OutgoingWired id = elim (Bool-cases (str_eq "engine" id)) [
  | inl e ↦ rw e (bleed_air-IsWired, tt)
  | inr e ↦ rw e tt
]

unit-IsSteppable :
    (id : String)
    → lookup id units ≡ some (outline counts numbers (unit id))
    → IsSteppable counts numbers seconds at_six units id
unfolding mapped lookup
unit-IsSteppable id found = record {
  outline = outline counts numbers (unit id);
  there = found;
  ready = record { inputs = tt; behaved = (count_up-IsNamed "pressure", tt) };
}

plane-AllSystems : AllSystems counts numbers seconds at_six units plane.systems
unfolding mapped lookup
plane-AllSystems = (((unit-IsSteppable "engine" refl, (unit-IsSteppable "ecs" refl, tt)), tt), tt)

flies : Returns (step_aircraft counts numbers seconds at_six plane)
flies =
    step_aircraft-Returns counts numbers seconds at_six plane plane-OutgoingWired plane-AllSystems

step_aircraft-shape_example : shape counts numbers seconds (flies.0).modules ≡ units
step_aircraft-shape_example =
    step_aircraft-shape counts numbers seconds at_six plane flies.0 flies.1
