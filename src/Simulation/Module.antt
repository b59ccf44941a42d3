-- ===== src/Simulation/Module.antt =====
-- libs/simulation/module/runtime.py, parameter/runtime.py and port/runtime.py: a module, and how a
-- step's inputs meet its ports and latent state. `str` of a name is the name.
pub mod Metadata
pub mod Samples
pub mod Step
pub mod Latents
pub mod Labels
pub mod Outline
pub mod Keeps
pub mod Keys
pub mod Returns
pub mod Raises
pub mod Total
use s3ntinel.Prelude.{
  ℕ, Bool, true, false, not, Option, none, some, List, [], ◌∷◌, foldl, String, str_eq,
  if◌then◌else◌, coalesce, is_some, map,
}
use s3ntinel.Prelude.Int.{ℤ, pos}
use s3ntinel.Prelude.Dict.{Dict, lookup, insert, merge}
use s3ntinel.Simulation.Coupling.{Signals}
use s3ntinel.Simulation.Coupling.Gates.{Modes}
use s3ntinel.Simulation.Coupling.Apply.{Port, Queues}
use s3ntinel.Simulation.Coupling.Config.{Objects, Context, to_double, ◌>>=◌}

module _ (signals : Signals) (objects : Objects signals) where
  open signals use {Value, Double}

  pub record BehaviorStepInput : Type 0 where
    pub dt_seconds : Double
    pub latent_state : Dict Double
    pub context : Context signals objects

  -- Its `state`, which a module hands on unread, is left out.
  pub record BehaviorSample : Type 0 where
    pub parameter_name : String
    pub parameter_value_clean : Option Value
    pub parameter_value : Option Value
    pub metadata : Context signals objects

  -- The protocols of a behavior's generator and violator, for one step's input, where None
  -- stands for a raise; without a violator, `violate` returns the samples that it is given.
  pub record Behavior : Type 0 where
    pub generate : String → BehaviorStepInput → Option Value → Option (List BehaviorSample)
    pub violate :
        String → List BehaviorSample → Context signals objects → Option (List BehaviorSample)

  pub record Parameter : Type 0 where
    pub datatype_label : String
    pub unit : String
    pub sampling_rate_hz : Option Value
    pub behavior_family_label : Option String
    pub input_port_names : List String
    pub output_port_name : Option String
    pub metadata : Context signals objects
    pub behavior : Option Behavior
    pub parameter_value : Option Value
    pub parameter_value_clean : Option Value
    pub timestamp_utc : Option ℕ

  pub record LatentUpdate : Type 0 where
    pub latent_name : String
    pub source_name : String
    pub source_kind : String
    pub gain : Double
    pub sign : ℤ
    pub offset : Double
    pub default_value : Double
    pub clamp_min : Option Double
    pub clamp_max : Option Double

  pub record Module : Type 0 where
    pub id : String
    pub system_id : String
    pub subsystem_id : String
    pub latent_updates : List LatentUpdate
    pub parameters : Dict Parameter
    pub input_ports : Dict (Port signals)
    pub output_ports : Dict (Port signals)
    pub latent_state_by_name : Dict Double
    pub mode_state_by_name : Modes
    pub delayed_input_transfers_by_key : Queues signals

  abbrev pub StepInputs : Type 0
  StepInputs = Dict BehaviorStepInput

  abbrev one_second : Double
  one_second = signals.of_int (pos 1)

  abbrev default_dt_seconds : StepInputs → Double
  default_dt_seconds [] = one_second
  default_dt_seconds (entry ∷ entries) = (entry.1).dt_seconds

  abbrev blank_input : Double → BehaviorStepInput
  blank_input dt_seconds = record { dt_seconds = dt_seconds; latent_state = []; context = [] }

  -- `for parameter_name in self.parameters`
  unfoldable pub add_missing : BehaviorStepInput → Dict Parameter → StepInputs → StepInputs
  unfolding lookup insert
  add_missing blank [] resolved = resolved
  add_missing blank (entry ∷ entries) resolved =
      add_missing blank entries
        (if is_some (lookup entry.0 resolved) then resolved else insert entry.0 blank resolved)

  unfoldable pub resolve_step_inputs : Module → StepInputs → StepInputs
  unfolding add_missing
  resolve_step_inputs self raw =
      add_missing (blank_input (default_dt_seconds raw)) self.parameters raw

  -- The values of a parameter's input ports.
  unfoldable pub injected_context :
      Dict (Port signals) → List String → Context signals objects → Context signals objects
  unfolding lookup insert
  injected_context ports [] injected = injected
  injected_context ports (name ∷ names) injected = elim (lookup name ports) [
    | none ↦ injected_context ports names injected
    | some port ↦ elim port.current_value [
      | none ↦ injected_context ports names injected
      | some value ↦ injected_context ports names (insert name (some value) injected)
    ]
  ]

  abbrev pub with_ports : Module → Parameter → BehaviorStepInput → BehaviorStepInput
  with_ports self parameter step_input = record step_input {
    context =
        merge (injected_context self.input_ports parameter.input_port_names []) step_input.context;
  }

  -- None where an input names no parameter of the module.
  unfoldable pub hydrate_step_inputs_from_ports : Module → StepInputs → Option StepInputs
  unfolding lookup injected_context merge
  hydrate_step_inputs_from_ports self [] = some []
  hydrate_step_inputs_from_ports self (entry ∷ entries) =
      lookup entry.0 self.parameters >>= λ parameter.
      hydrate_step_inputs_from_ports self entries >>= λ rest.
      some ((entry.0, with_ports self parameter entry.1) ∷ rest)

  -- `_coerce_float`
  abbrev coerce_float : Option Value → Double → Double
  coerce_float value default = coalesce (to_double signals objects value) default

  -- `max(value, low)` and `min(value, high)`
  abbrev pub at_least : Option Double → Double → Double
  at_least none value = value
  at_least (some low) value = if objects.ltb value low then low else value

  abbrev pub at_most : Option Double → Double → Double
  at_most none value = value
  at_most (some high) value = if objects.ltb high value then high else value

  abbrev port_value : Option (Port signals) → Option Value
  port_value none = none
  port_value (some port) = port.current_value

  unfoldable pub source_value :
      LatentUpdate → Dict (Port signals) → Context signals objects → Option Value
  unfolding lookup
  source_value update ports context_values =
      if str_eq update.source_kind "input_port"
      then port_value (lookup update.source_name ports)
      else coalesce (lookup update.source_name context_values) none

  unfoldable pub resolve_value :
      LatentUpdate → Dict (Port signals) → Context signals objects → Double
  unfolding source_value
  resolve_value update ports context_values =
      let read = coerce_float (source_value update ports context_values) update.default_value in
      let scaled = signals.mul (signals.mul (signals.of_int update.sign) update.gain) read in
      at_most update.clamp_max (at_least update.clamp_min (objects.add scaled update.offset))

  unfoldable pub context_values_of : StepInputs → Context signals objects → Context signals objects
  unfolding merge
  context_values_of [] context_values = context_values
  context_values_of (entry ∷ entries) context_values =
      context_values_of entries (merge context_values (entry.1).context)

  unfoldable pub updated_latents :
      Dict (Port signals) → Context signals objects → List LatentUpdate → Dict Double → Dict Double
  unfolding resolve_value insert
  updated_latents ports context_values [] latents = latents
  updated_latents ports context_values (update ∷ updates) latents =
      updated_latents ports context_values updates
        (insert update.latent_name (resolve_value update ports context_values) latents)

  unfoldable pub apply_latent_updates : Module → StepInputs → Module
  unfolding updated_latents context_values_of
  apply_latent_updates self step_inputs = record self {
    latent_state_by_name =
        updated_latents self.input_ports (context_values_of step_inputs []) self.latent_updates
          self.latent_state_by_name;
  }

  unfoldable pub hydrate_step_inputs_from_latent_state : Dict Double → StepInputs → StepInputs
  unfolding merge
  hydrate_step_inputs_from_latent_state latents [] = []
  hydrate_step_inputs_from_latent_state latents (entry ∷ entries) =
      (entry.0, record (entry.1) { latent_state = merge latents (entry.1).latent_state })
      ∷ hydrate_step_inputs_from_latent_state latents entries

  abbrev held_value : Parameter → Option Value
  held_value parameter = elim parameter.parameter_value_clean [
    | none ↦ parameter.parameter_value
    | some value ↦ some value
  ]

  unfoldable pub resolve_initial_state :
      Dict Parameter → Context signals objects → Context signals objects
  unfolding lookup insert
  resolve_initial_state [] resolved = resolved
  resolve_initial_state (entry ∷ entries) resolved = resolve_initial_state entries (
      if is_some (lookup entry.0 resolved) then resolved else elim (held_value entry.1) [
        | none ↦ resolved
        | some value ↦ insert entry.0 (some value) resolved
      ])
