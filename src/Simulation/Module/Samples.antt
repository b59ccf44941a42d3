-- ===== src/Simulation/Module/Samples.antt =====
-- libs/simulation/module/runtime.py: the samples of a step, and what they leave in the module:
-- iter_samples and apply_sample.
use s3ntinel.Prelude.{
  ℕ, Bool, Option, none, some, List, [], ◌∷◌, ◌++◌, String, str_eq, if◌then◌else◌, coalesce, map,
}
use s3ntinel.Prelude.Dict.{Dict, lookup, insert, merge}
use s3ntinel.Simulation.Coupling.{Signals}
use s3ntinel.Simulation.Coupling.Apply.{Port}
use s3ntinel.Simulation.Coupling.Config.{Objects, Context, ◌>>=◌}
use s3ntinel.Simulation.Module.{
  BehaviorStepInput, BehaviorSample, Behavior, Parameter, Module, StepInputs,
}
use s3ntinel.Simulation.Module.Metadata.{sample_metadata}

module _ (signals : Signals) (objects : Objects signals) where
  open signals use {Value}

  abbrev Fields : Type 0
  Fields = Context signals objects

  abbrev pub with_metadata :
      BehaviorSample signals objects → Fields → BehaviorSample signals objects
  with_metadata sample metadata = record sample { metadata = metadata }

  -- The samples of one parameter, where its behavior does not raise; `violation_context` is never
  -- None.
  unfoldable pub parameter_samples :
      Module signals objects
      → String
      → Parameter signals objects
      → Behavior signals objects
      → BehaviorStepInput signals objects
      → Option Value
      → Fields
      → Bool
      → Option (List (BehaviorSample signals objects))
  unfolding merge sample_metadata
  parameter_samples self name parameter behavior step_input initial fault apply_faults =
      let context = merge parameter.metadata step_input.context in
      behavior.generate name (record step_input { context = context }) initial >>= λ generated.
      (if apply_faults
        then behavior.violate name generated (merge context fault)
        else some generated)
      >>= λ drawn. some (
          map
            (λ sample.
              with_metadata sample (sample_metadata signals objects self parameter fault sample))
            drawn)

  unfoldable pub iter_samples :
      Module signals objects
      → StepInputs signals objects
      → Fields
      → Dict Fields
      → Bool
      → Dict (Parameter signals objects)
      → Option (List (BehaviorSample signals objects))
  unfolding lookup parameter_samples
  iter_samples self inputs initial faults apply_faults [] = some []
  iter_samples self inputs initial faults apply_faults (entry ∷ entries) =
      let rest = iter_samples self inputs initial faults apply_faults entries in
      elim (lookup entry.0 inputs) [
        | none ↦ rest
        | some step_input ↦ elim (entry.1).behavior [
          | none ↦ rest
          | some behavior ↦
              parameter_samples self entry.0 entry.1 behavior step_input
                (coalesce (lookup entry.0 initial) none) (coalesce (lookup entry.0 faults) [])
                apply_faults
              >>= λ first. rest >>= λ later. some (first ++ later)
        ]
      ]

  abbrev pub sampled :
      BehaviorSample signals objects
      → Option ℕ
      → Parameter signals objects
      → Parameter signals objects
  sampled sample timestamp parameter = record parameter {
    parameter_value = sample.parameter_value;
    parameter_value_clean = sample.parameter_value_clean;
    timestamp_utc = timestamp;
  }

  abbrev either_value : Option Value → Option Value → Option Value
  either_value none b = b
  either_value (some a) b = some a

  -- The output ports, with the sample on the one that the parameter names.
  unfoldable pub write_output :
      Option String
      → BehaviorSample signals objects
      → Option ℕ
      → Dict (Port signals)
      → Dict (Port signals)
  unfolding lookup insert
  write_output none sample timestamp ports = ports
  write_output (some name) sample timestamp ports = elim (lookup name ports) [
    | none ↦ ports
    | some port ↦
        if str_eq name ""
        then ports
        else insert name
            (record port {
              current_value = either_value sample.parameter_value_clean sample.parameter_value;
              timestamp_utc = timestamp;
            })
            ports
  ]

  abbrev pub with_sample :
      Option ℕ
      → Module signals objects
      → BehaviorSample signals objects
      → Parameter signals objects
      → Module signals objects
  with_sample timestamp self sample parameter = record self {
    parameters = insert sample.parameter_name (sampled sample timestamp parameter) self.parameters;
    output_ports = write_output parameter.output_port_name sample timestamp self.output_ports;
  }

  -- None where the sample names no parameter of the module.
  unfoldable pub apply_sample :
      Option ℕ
      → Module signals objects
      → BehaviorSample signals objects
      → Option (Module signals objects)
  unfolding lookup insert write_output
  apply_sample timestamp self sample = lookup sample.parameter_name self.parameters >>= λ parameter.
      some (with_sample timestamp self sample parameter)

  unfoldable pub apply_samples :
      Option ℕ
      → Module signals objects
      → List (BehaviorSample signals objects)
      → Option (Module signals objects)
  unfolding apply_sample
  apply_samples timestamp self [] = some self
  apply_samples timestamp self (sample ∷ samples) =
      apply_sample timestamp self sample >>= λ next. apply_samples timestamp next samples
