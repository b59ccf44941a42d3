-- ===== src/Simulation/Flight.antt =====
-- libs/simulation/flight/runtime.py, flight/spec.py and phase/runtime.py: what a flight's input
-- program and the envelope of its phase give a step. A mode is a text or None.
pub mod Step
pub mod Keeps
pub mod Named
pub mod Envelopes
pub mod Total
pub mod Telemetry
pub mod Emits
use s3ntinel.Prelude.{
  ℕ, Bool, true, false, Option, none, some, List, [], ◌∷◌, String, if◌then◌else◌, coalesce,
  get_elem?,
}
use s3ntinel.Prelude.Int.{ℤ, pos, negsuc}
use s3ntinel.Prelude.Dict.{Dict, lookup, insert, merge}
use s3ntinel.Simulation.Coupling.{Signals}
use s3ntinel.Simulation.Coupling.Apply.{Lags}
use s3ntinel.Simulation.Coupling.Gates.{Modes}
use s3ntinel.Simulation.Coupling.Config.{Objects, Context, ◌>>=◌}
use s3ntinel.Simulation.Module.{BehaviorStepInput, Module, StepInputs, add_missing}
use s3ntinel.Simulation.Module.Step.{Modules}

module _ (signals : Signals) (objects : Objects signals) (lags : Lags signals) where
  open signals use {Value, Double}

  abbrev Store : Type 0
  Store = Modules signals objects lags

  pub record StepInputSpec : Type 0 where
    pub context : Context signals objects
    pub latent_state : Dict Double

  abbrev pub Template : Type 0
  Template = Dict (Dict StepInputSpec)

  pub record InputProgramSpec : Type 0 where
    pub steps : List Template
    pub hold_last_step : Bool

  pub record PhaseEnvelopeSpec : Type 0 where
    pub phase_label : String
    pub step_input_context_by_module : Dict (Dict (Context signals objects))
    pub mode_state_by_module : Dict Modes
    pub latent_state_by_module : Dict (Dict Double)

  abbrev last_or_empty : Template → List Template → Template
  last_or_empty last [] = last
  last_or_empty last (template ∷ templates) = last_or_empty template templates

  abbrev pub held_template : InputProgramSpec → Template
  held_template program = if program.hold_last_step then last_or_empty [] program.steps else []

  unfoldable pub step_template : InputProgramSpec → ℤ → Template
  step_template program (pos index) =
      coalesce (get_elem? program.steps index) (held_template program)
  step_template program (negsuc n) = held_template program

  abbrev step_input_of : Double → ℤ → StepInputSpec → BehaviorStepInput signals objects
  step_input_of dt_seconds index spec = record {
    dt_seconds = dt_seconds;
    latent_state = spec.latent_state;
    context = insert "step_index" (some (objects.of_integer index)) spec.context;
  }

  unfoldable pub parameter_inputs : Double → ℤ → Dict StepInputSpec → StepInputs signals objects
  unfolding insert
  parameter_inputs dt_seconds index [] = []
  parameter_inputs dt_seconds index (entry ∷ entries) =
      (entry.0, step_input_of dt_seconds index entry.1) ∷ parameter_inputs dt_seconds index entries

  unfoldable pub module_inputs : Double → ℤ → Template → Dict (StepInputs signals objects)
  unfolding parameter_inputs
  module_inputs dt_seconds index [] = []
  module_inputs dt_seconds index (entry ∷ entries) =
      (entry.0, parameter_inputs dt_seconds index entry.1) ∷ module_inputs dt_seconds index entries

  unfoldable pub step_inputs_for_step :
      InputProgramSpec → ℤ → Double → Dict (StepInputs signals objects)
  unfolding step_template module_inputs
  step_inputs_for_step program index dt_seconds =
      module_inputs dt_seconds index (step_template program index)

  -- The latent values that an envelope sets; none where it names no module.
  unfoldable pub set_latents : Dict (Dict Double) → Store → Option Store
  unfolding lookup insert merge
  set_latents [] modules = some modules
  set_latents (entry ∷ entries) modules = lookup entry.0 modules >>= λ self.
      let latents = merge self.latent_state_by_name entry.1 in
      set_latents entries (insert entry.0 (record self { latent_state_by_name = latents }) modules)

  unfoldable pub set_modes : Dict Modes → Store → Option Store
  unfolding lookup insert merge
  set_modes [] modules = some modules
  set_modes (entry ∷ entries) modules = lookup entry.0 modules >>= λ self.
      let modes = merge self.mode_state_by_name entry.1 in
      set_modes entries (insert entry.0 (record self { mode_state_by_name = modes }) modules)

  unfoldable pub apply_to_aircraft : Option PhaseEnvelopeSpec → Store → Option Store
  unfolding set_latents set_modes
  apply_to_aircraft none modules = some modules
  apply_to_aircraft (some envelope) modules =
      set_latents envelope.latent_state_by_module modules
      >>= set_modes envelope.mode_state_by_module

  -- An input with the contexts of the envelope, or a new one.
  abbrev pub updated_input :
      Double
      → Dict Double
      → Context signals objects
      → Option (BehaviorStepInput signals objects)
      → BehaviorStepInput signals objects
  updated_input dt_seconds latents context none = record {
    dt_seconds = dt_seconds;
    latent_state = latents;
    context = context;
  }
  updated_input dt_seconds latents context (some input) = record input {
    context = merge input.context context;
  }

  unfoldable pub update_inputs :
      Double
      → Dict Double
      → Dict (Context signals objects)
      → StepInputs signals objects
      → StepInputs signals objects
  unfolding lookup insert merge
  update_inputs dt_seconds latents [] inputs = inputs
  update_inputs dt_seconds latents (entry ∷ entries) inputs =
      update_inputs dt_seconds latents entries
        (insert entry.0 (updated_input dt_seconds latents entry.1 (lookup entry.0 inputs)) inputs)

  abbrev pub blank_of : Double → Module signals objects → BehaviorStepInput signals objects
  blank_of dt_seconds self = record {
    dt_seconds = dt_seconds;
    latent_state = self.latent_state_by_name;
    context = [];
  }

  -- The inputs of one module, with what the envelope gives it.
  unfoldable pub enveloped :
      Double
      → Module signals objects
      → Dict (Context signals objects)
      → StepInputs signals objects
      → StepInputs signals objects
  unfolding update_inputs add_missing
  enveloped dt_seconds self contexts inputs =
      add_missing signals objects (blank_of dt_seconds self) self.parameters
        (update_inputs dt_seconds self.latent_state_by_name contexts inputs)

  unfoldable pub envelope_inputs :
      Double
      → Store
      → Dict (Dict (Context signals objects))
      → Dict (StepInputs signals objects)
      → Option (Dict (StepInputs signals objects))
  unfolding lookup insert enveloped
  envelope_inputs dt_seconds modules [] resolved = some resolved
  envelope_inputs dt_seconds modules (entry ∷ entries) resolved = lookup entry.0 modules >>= λ self.
      envelope_inputs dt_seconds modules entries (
        insert entry.0 (enveloped dt_seconds self entry.1 (coalesce (lookup entry.0 resolved) []))
          resolved)

  unfoldable pub apply_to_step_inputs :
      Double
      → Option PhaseEnvelopeSpec
      → Store
      → Dict (StepInputs signals objects)
      → Option (Dict (StepInputs signals objects))
  unfolding envelope_inputs
  apply_to_step_inputs dt_seconds none modules resolved = some resolved
  apply_to_step_inputs dt_seconds (some envelope) modules resolved =
      envelope_inputs dt_seconds modules envelope.step_input_context_by_module resolved
