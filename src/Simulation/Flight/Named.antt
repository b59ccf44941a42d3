-- ===== src/Simulation/Flight/Named.antt =====
-- libs/simulation/flight/runtime.py and phase/runtime.py: the inputs of a step name the parameters
-- of their modules, if the input program and the envelope do.
use s3ntinel.Prelude.{
  ◌≡◌, refl, sym, subst, ap, ◌∙◌, Bool, true, false, some, [], ◌∷◌, String, str_eq, eq_iff,
  coalesce, if◌then◌else◌, Bool-cases, inl, inr,
}
use s3ntinel.Prelude.Int.{ℤ}
use s3ntinel.Prelude.Dict.{Dict, lookup, insert, lookup-insert, lookup-mapped}
use mathlib.Core.Option.{some-injective}
use s3ntinel.Simulation.Coupling.{Signals}
use s3ntinel.Simulation.Coupling.Apply.{Lags}
use s3ntinel.Simulation.Coupling.Config.{Objects, Context}
use s3ntinel.Simulation.Module.{Module, StepInputs}
use s3ntinel.Simulation.Module.Step.{Modules}
use s3ntinel.Simulation.Module.Outline.{Outline, outline, blank}
use s3ntinel.Simulation.Module.Keeps.{shape}
use s3ntinel.Simulation.Module.Keys.{
  AllKeys, AllKeys-insert, AllKeys-weaken, Has, Has-mapped, own_keys,
}
use s3ntinel.Simulation.Module.Returns.{add_missing-AllKeys}
use s3ntinel.Simulation.Module.Total.{found_under}
use s3ntinel.Simulation.Flight.{
  StepInputSpec, Template, InputProgramSpec, step_template, parameter_inputs, module_inputs,
  step_inputs_for_step, blank_of, update_inputs, enveloped, envelope_inputs,
}

module _ (signals : Signals) (objects : Objects signals) (lags : Lags signals) where
  open signals use {Double}

  abbrev Shape : Type 0
  Shape = Dict (Outline signals objects)

  -- What a dictionary has for a module has keys that are names of its parameters.
  abbrev pub NamesParameters {ℓ} : {V : Type ℓ} → Shape → Dict (Dict V) → Type 0
  NamesParameters sh d =
      (id : String) (o : Outline signals objects)
      → lookup id sh ≡ some o
      → AllKeys (Has o.parameters) (coalesce (lookup id d) [])

  parameter_inputs-AllKeys :
      (P : String → Type 0) (dt_seconds : Double) (index : ℤ)
      (entries : Dict (StepInputSpec signals objects lags))
      → AllKeys P entries
      → AllKeys P (parameter_inputs signals objects lags dt_seconds index entries)
  unfolding parameter_inputs
  parameter_inputs-AllKeys P dt_seconds index [] all = tt
  parameter_inputs-AllKeys P dt_seconds index (entry ∷ entries) all =
      (all.0, parameter_inputs-AllKeys P dt_seconds index entries all.1)

  module_inputs-AllKeys :
      (P : String → Type 0) (dt_seconds : Double) (index : ℤ) (id : String)
      (template : Template signals objects lags)
      → AllKeys P (coalesce (lookup id template) [])
      → AllKeys P
          (coalesce (lookup id (module_inputs signals objects lags dt_seconds index template)) [])
  unfolding lookup module_inputs
  module_inputs-AllKeys P dt_seconds index id [] all = tt
  module_inputs-AllKeys P dt_seconds index id (entry ∷ entries) all =
      pick (module_inputs-AllKeys P dt_seconds index id entries) (str_eq entry.0 id) all
    where
      pick :
          (AllKeys P (coalesce (lookup id entries) [])
            → AllKeys P (
                coalesce
                  (lookup id (module_inputs signals objects lags dt_seconds index entries))
                  []))
          → (b : Bool) → AllKeys P (coalesce (if b then some entry.1 else lookup id entries) [])
          → AllKeys P (
              coalesce
                (if b
                  then some (parameter_inputs signals objects lags dt_seconds index entry.1)
                  else lookup id (module_inputs signals objects lags dt_seconds index entries))
                [])
      pick later true h = parameter_inputs-AllKeys P dt_seconds index entry.1 h
      pick later false h = later h

  pub step_inputs_for_step-NamesParameters :
      (sh : Shape) (program : InputProgramSpec signals objects lags) (index : ℤ)
      (dt_seconds : Double)
      → NamesParameters sh (step_template signals objects lags program index)
      → NamesParameters sh (step_inputs_for_step signals objects lags program index dt_seconds)
  unfolding step_inputs_for_step
  step_inputs_for_step-NamesParameters sh program index dt_seconds named id o e =
      module_inputs-AllKeys (Has o.parameters) dt_seconds index id _ (named id o e)

  update_inputs-AllKeys :
      (P : String → Type 0) (dt_seconds : Double) (latents : Dict Double)
      (entries : Dict (Context signals objects)) (inputs : StepInputs signals objects)
      → AllKeys P entries
      → AllKeys P inputs
      → AllKeys P (update_inputs signals objects lags dt_seconds latents entries inputs)
  unfolding update_inputs
  update_inputs-AllKeys P dt_seconds latents [] inputs named all = all
  update_inputs-AllKeys P dt_seconds latents (entry ∷ entries) inputs named all =
      update_inputs-AllKeys P dt_seconds latents entries _ named.1
        (AllKeys-insert P entry.0 _ inputs named.0 all)

  enveloped-AllKeys :
      (dt_seconds : Double) (self : Module signals objects)
      (contexts : Dict (Context signals objects)) (inputs : StepInputs signals objects)
      → AllKeys (Has (outline signals objects self).parameters) contexts
      → AllKeys (Has (outline signals objects self).parameters) inputs
      → AllKeys
          (Has (outline signals objects self).parameters)
          (enveloped signals objects lags dt_seconds self contexts inputs)
  unfolding enveloped
  enveloped-AllKeys dt_seconds self contexts inputs named all =
      add_missing-AllKeys signals objects (Has (outline signals objects self).parameters)
        (blank_of signals objects lags dt_seconds self) self.parameters _
        (AllKeys-weaken (Has self.parameters) (Has (outline signals objects self).parameters)
          self.parameters (λ key h. Has-mapped (blank signals objects) self.parameters key h)
          (own_keys self.parameters))
        (update_inputs-AllKeys (Has (outline signals objects self).parameters) dt_seconds
          self.latent_state_by_name contexts inputs named all)

  -- Each module of an envelope's contexts is there, and their keys are names of its parameters.
  abbrev pub NamesModules {ℓ} : {V : Type ℓ} → Shape → Dict (Dict V) → Type 0
  NamesModules sh [] = Unit
  NamesModules sh (entry ∷ entries) =
      ((o : Outline signals objects) × ((lookup entry.0 sh ≡ some o)
          × AllKeys (Has o.parameters) entry.1))
      × NamesModules sh entries

  NamesParameters-insert :
      (sh : Shape) (key : String) (o : Outline signals objects)
      (inputs : StepInputs signals objects) (d : Dict (StepInputs signals objects))
      → lookup key sh ≡ some o
      → AllKeys (Has o.parameters) inputs
      → NamesParameters sh d
      → NamesParameters sh (insert key inputs d)
  NamesParameters-insert sh key o inputs d e all named id p f =
      subst (λ found. AllKeys (Has p.parameters) (coalesce found []))
        (sym (lookup-insert id key inputs d))
        (elim (Bool-cases (str_eq key id)) [
          | inl same ↦
              let at_id = ap (λ k. lookup k sh) (sym ((eq_iff key id).0 same)) in
              rw same (
                subst (λ (q : Outline signals objects). AllKeys (Has q.parameters) inputs)
                  (some-injective o p (sym e ∙ sym at_id ∙ f)) all)
          | inr other ↦ rw other (named id p f)
        ])

  pub envelope_inputs-Returns :
      (dt_seconds : Double) (modules : Modules signals objects lags)
      (contexts : Dict (Dict (Context signals objects)))
      (resolved : Dict (StepInputs signals objects))
      → NamesModules (shape signals objects lags modules) contexts
      → NamesParameters (shape signals objects lags modules) resolved
      → (out : Dict (StepInputs signals objects)) × ((envelope_inputs signals objects lags
              dt_seconds modules contexts resolved
            ≡ some out)
          × NamesParameters (shape signals objects lags modules) out)
  unfolding envelope_inputs
  envelope_inputs-Returns dt_seconds modules [] resolved there named = (resolved, (refl, named))
  envelope_inputs-Returns dt_seconds modules (entry ∷ entries) resolved there named =
      let (o, (at_entry, keys)) = there.0 in
      let (self, (found, same)) =
        found_under (outline signals objects) (lookup entry.0 modules) o
          (sym (lookup-mapped (outline signals objects) entry.0 modules) ∙ at_entry) in
      let inputs = coalesce (lookup entry.0 resolved) [] in
      let given = enveloped signals objects lags dt_seconds self entry.1 inputs in
      let all : AllKeys (Has o.parameters) given =
        subst (λ (q : Outline signals objects). AllKeys (Has q.parameters) given) same
          (enveloped-AllKeys dt_seconds self entry.1 inputs
            (subst (λ (q : Outline signals objects). AllKeys (Has q.parameters) entry.1) (sym same)
              keys)
            (subst (λ (q : Outline signals objects). AllKeys (Has q.parameters) inputs) (sym same)
              (named entry.0 o at_entry))) in
      let (out, (e, all_out)) =
        envelope_inputs-Returns dt_seconds modules entries (insert entry.0 given resolved) there.1 (
          NamesParameters-insert (shape signals objects lags modules) entry.0 o given resolved
            at_entry all named) in
      (out, (rw (found, envelope_inputs) e, all_out))
