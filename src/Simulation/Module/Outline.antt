-- ===== src/Simulation/Module/Outline.antt =====
-- libs/simulation/module/runtime.py: what a step of a module does not change: its id, the names of
-- its ports, and its parameters but for their values.
use s3ntinel.Prelude.{
  ℕ, ◌≡◌, refl, sym, ap, ◌∙◌, Bool, true, Option, none, some, List, [], ◌∷◌, String, str_eq,
  Option-cases, Bool-cases, inl, inr,
}
use mathlib.Core.Option.{some-injective}
use s3ntinel.Prelude.Dict.{Dict, lookup, mapped, mapped-insert}
use s3ntinel.Simulation.Coupling.{Signals}
use s3ntinel.Simulation.Coupling.Apply.{Port}
use s3ntinel.Simulation.Coupling.Config.{Objects}
use s3ntinel.Simulation.Coupling.Effective.{bind-some}
use s3ntinel.Simulation.Module.{BehaviorSample, Parameter, Module, StepInputs, apply_latent_updates}
use s3ntinel.Simulation.Module.Samples.{write_output, with_sample, apply_sample, apply_samples}

-- Of a port, only that it is there.
abbrev pub there {ℓ} : {A : Type ℓ} → A → Bool
there a = true

module _ (signals : Signals) (objects : Objects signals) where
  -- A parameter without its values.
  abbrev pub blank : Parameter signals objects → Parameter signals objects
  blank parameter = record parameter {
    parameter_value = none;
    parameter_value_clean = none;
    timestamp_utc = none;
  }

  pub record Outline : Type 0 where
    pub id : String
    pub inputs : Dict Bool
    pub outputs : Dict Bool
    pub parameters : Dict (Parameter signals objects)

  abbrev pub outline : Module signals objects → Outline
  outline self = record {
    id = self.id;
    inputs = mapped there self.input_ports;
    outputs = mapped there self.output_ports;
    parameters = mapped blank self.parameters;
  }

  pub outline-apply_latent_updates :
      (self : Module signals objects) (inputs : StepInputs signals objects)
      → outline (apply_latent_updates signals objects self inputs) ≡ outline self
  unfolding apply_latent_updates
  outline-apply_latent_updates self inputs = refl

  pub outline_parts :
      (id : String) (inputs : Dict Bool) {outputs outputs' : Dict Bool}
      {parameters parameters' : Dict (Parameter signals objects)}
      → outputs ≡ outputs'
      → parameters ≡ parameters'
      → ◌≡◌ {A = Outline}
          record { id = id; inputs = inputs; outputs = outputs; parameters = parameters }
          record { id = id; inputs = inputs; outputs = outputs'; parameters = parameters' }
  outline_parts id inputs e f = cc

  mapped-write_output :
      (name : Option String) (sample : BehaviorSample signals objects) (timestamp : Option ℕ)
      (ports : Dict (Port signals))
      → mapped there (write_output signals objects name sample timestamp ports) ≡ mapped there ports
  unfolding write_output
  mapped-write_output none sample timestamp ports = refl
  mapped-write_output (some name) sample timestamp ports = elim (Option-cases (lookup name ports)) [
    | inl e ↦ rw (e, write_output) refl
    | inr (port, e) ↦ elim (Bool-cases (str_eq name "")) [
      | inl h ↦ rw (e, write_output, h) refl
      | inr h ↦ rw (e, write_output, h) (mapped-insert there name port _ ports e refl)
    ]
  ]

  pub outline-apply_sample :
      (timestamp : Option ℕ) (self next : Module signals objects)
      (sample : BehaviorSample signals objects)
      → apply_sample signals objects timestamp self sample ≡ some next
      → outline next ≡ outline self
  unfolding apply_sample
  outline-apply_sample timestamp self next sample e =
      let after = with_sample signals objects timestamp self sample in
      let (parameter, (found, same)) =
        bind-some signals objects (lookup sample.parameter_name self.parameters)
          (λ p. some (after p)) next e in
      sym (ap outline (some-injective (after parameter) next same))
      ∙ outline_parts self.id (mapped there self.input_ports)
          (mapped-write_output parameter.output_port_name sample timestamp self.output_ports)
          (mapped-insert blank sample.parameter_name parameter _ self.parameters found refl)

  pub outline-apply_samples :
      (timestamp : Option ℕ) (samples : List (BehaviorSample signals objects))
      (self next : Module signals objects)
      → apply_samples signals objects timestamp self samples ≡ some next
      → outline next ≡ outline self
  unfolding apply_samples
  outline-apply_samples timestamp [] self next e = ap outline (some-injective next self (sym e))
  outline-apply_samples timestamp (sample ∷ samples) self next e =
      let (between, (one, rest)) =
        bind-some signals objects (apply_sample signals objects timestamp self sample)
          (λ m. apply_samples signals objects timestamp m samples) next e in
      outline-apply_samples timestamp samples between next rest
      ∙ outline-apply_sample timestamp self between sample one
