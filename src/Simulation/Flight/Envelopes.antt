-- ===== src/Simulation/Flight/Envelopes.antt =====
-- libs/simulation/phase/runtime.py: an envelope that names what an aircraft has is applied without a
-- raise.
use s3ntinel.Prelude.{◌≡◌, refl, sym, subst, ◌∙◌, Option, none, some, [], ◌∷◌, String}
use s3ntinel.Prelude.Dict.{Dict, lookup, insert, merge, mapped-insert}
use s3ntinel.Simulation.Coupling.{Signals}
use s3ntinel.Simulation.Coupling.Apply.{Lags}
use s3ntinel.Simulation.Coupling.Gates.{Modes}
use s3ntinel.Simulation.Coupling.Config.{Objects}
use s3ntinel.Simulation.Module.{Module, StepInputs}
use s3ntinel.Simulation.Module.Step.{Modules}
use s3ntinel.Simulation.Module.Outline.{Outline, outline}
use s3ntinel.Simulation.Module.Keeps.{shape}
use s3ntinel.Simulation.Module.Keys.{AllKeys, Has, Has-unmapped, Returns, bind-Returns, some_of}
use s3ntinel.Simulation.Flight.{
  PhaseEnvelopeSpec, set_latents, set_modes, apply_to_aircraft, apply_to_step_inputs,
}
use s3ntinel.Simulation.Flight.Keeps.{set_latents-shape}
use s3ntinel.Simulation.Flight.Named.{NamesParameters, NamesModules, envelope_inputs-Returns}

module _ (signals : Signals) (objects : Objects signals) (lags : Lags signals) where
  open signals use {Double}

  abbrev Store : Type 0
  Store = Modules signals objects lags

  abbrev Shape : Type 0
  Shape = Dict (Outline signals objects)

  abbrev Envelope : Type 0
  Envelope = PhaseEnvelopeSpec signals objects lags

  -- An envelope's modules are there, and its contexts name their parameters.
  abbrev pub NamesEnvelope : Shape → Option Envelope → Type 0
  NamesEnvelope sh none = Unit
  NamesEnvelope sh (some envelope) =
      (AllKeys (Has sh) envelope.latent_state_by_module
        × AllKeys (Has sh) envelope.mode_state_by_module)
      × NamesModules signals objects lags sh envelope.step_input_context_by_module

  there_in :
      (modules : Store) (key : String)
      → Has (shape signals objects lags modules) key
      → Returns (lookup key modules)
  there_in modules key h =
      some_of (lookup key modules) (Has-unmapped (outline signals objects) modules key h)

  set_latents-Returns :
      (sh : Shape) (entries : Dict (Dict Double)) (modules : Store)
      → shape signals objects lags modules ≡ sh
      → AllKeys (Has sh) entries
      → Returns (set_latents signals objects lags entries modules)
  unfolding set_latents
  set_latents-Returns sh [] modules same all = (modules, refl)
  set_latents-Returns sh (entry ∷ entries) modules same all =
      let after : Module signals objects → Module signals objects =
        λ self. record self { latent_state_by_name = merge self.latent_state_by_name entry.1 } in
      bind-Returns (lookup entry.0 modules)
        (λ m. set_latents signals objects lags entries (insert entry.0 (after m) modules))
        (there_in modules entry.0 (subst (λ d. Has d entry.0) (sym same) all.0))
        (λ m e.
          set_latents-Returns sh entries (insert entry.0 (after m) modules)
            (mapped-insert (outline signals objects) entry.0 m (after m) modules e refl ∙ same)
            all.1)

  set_modes-Returns :
      (sh : Shape) (entries : Dict Modes) (modules : Store)
      → shape signals objects lags modules ≡ sh
      → AllKeys (Has sh) entries
      → Returns (set_modes signals objects lags entries modules)
  unfolding set_modes
  set_modes-Returns sh [] modules same all = (modules, refl)
  set_modes-Returns sh (entry ∷ entries) modules same all =
      let after : Module signals objects → Module signals objects =
        λ self. record self { mode_state_by_name = merge self.mode_state_by_name entry.1 } in
      bind-Returns (lookup entry.0 modules)
        (λ m. set_modes signals objects lags entries (insert entry.0 (after m) modules))
        (there_in modules entry.0 (subst (λ d. Has d entry.0) (sym same) all.0))
        (λ m e.
          set_modes-Returns sh entries (insert entry.0 (after m) modules)
            (mapped-insert (outline signals objects) entry.0 m (after m) modules e refl ∙ same)
            all.1)

  pub apply_to_aircraft-Returns :
      (envelope : Option Envelope) (modules : Store)
      → NamesEnvelope (shape signals objects lags modules) envelope
      → Returns (apply_to_aircraft signals objects lags envelope modules)
  unfolding apply_to_aircraft
  apply_to_aircraft-Returns none modules named = (modules, refl)
  apply_to_aircraft-Returns (some envelope) modules named =
      bind-Returns (set_latents signals objects lags envelope.latent_state_by_module modules)
        (set_modes signals objects lags envelope.mode_state_by_module)
        (set_latents-Returns _ envelope.latent_state_by_module modules refl (named.0).0)
        (λ between e.
          set_modes-Returns _ envelope.mode_state_by_module between
            (set_latents-shape signals objects lags envelope.latent_state_by_module modules between
              e)
            (named.0).1)

  pub apply_to_step_inputs-Returns :
      (dt_seconds : Double) (envelope : Option Envelope) (modules : Store)
      (resolved : Dict (StepInputs signals objects))
      → NamesEnvelope (shape signals objects lags modules) envelope
      → NamesParameters signals objects lags (shape signals objects lags modules) resolved
      → (out : Dict (StepInputs signals objects)) × ((apply_to_step_inputs signals objects lags
              dt_seconds envelope modules resolved
            ≡ some out)
          × NamesParameters signals objects lags (shape signals objects lags modules) out)
  unfolding apply_to_step_inputs
  apply_to_step_inputs-Returns dt_seconds none modules resolved there named =
      (resolved, (refl, named))
  apply_to_step_inputs-Returns dt_seconds (some envelope) modules resolved there named =
      envelope_inputs-Returns signals objects lags dt_seconds modules
        envelope.step_input_context_by_module resolved there.1 named
