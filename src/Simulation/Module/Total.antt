-- ===== src/Simulation/Module/Total.antt =====
-- libs/simulation/module/runtime.py: a step of a module raises nothing, where the module is ready
-- and its couplings are wired.
use mathlib.Core.Option.{some-injective}
use s3ntinel.Prelude.{
  ℕ, ◌≡◌, refl, sym, subst, ap, ◌∙◌, Option, none, some, List, [], ◌∷◌, String, coalesce,
}
use s3ntinel.Prelude.Dict.{Dict, lookup, insert, mapped, mapped-insert, over, lookup-mapped}
use s3ntinel.Simulation.Coupling.{Signals}
use s3ntinel.Simulation.Coupling.Apply.{Lags, Port, Target, Coupling, CouplingExecution, apply}
use s3ntinel.Simulation.Coupling.Gates.{Modes}
use s3ntinel.Simulation.Coupling.Config.{
  Objects, coupling_id, effective_transfer_config, build_transfer_metadata, apply_coupling, ◌>>=◌,
}
use s3ntinel.Simulation.Module.{
  BehaviorSample, Parameter, Module, StepInputs, resolve_step_inputs,
  hydrate_step_inputs_from_ports, apply_latent_updates, hydrate_step_inputs_from_latent_state,
  resolve_initial_state,
}
use s3ntinel.Simulation.Module.Samples.{apply_samples}
use s3ntinel.Simulation.Module.Step.{
  Modules, StepContext, Stepped, target_of, with_target, either_time, apply_outgoing,
  apply_outgoings, sample_step, step_module,
}
use s3ntinel.Simulation.Module.Outline.{there, blank, Outline, outline}
use s3ntinel.Simulation.Module.Keys.{
  AllKeys, AllKeys-weaken, own_keys, Has, Has-unmapped, Returns, some_of, bind-Returns, bind-With,
}
use s3ntinel.Simulation.Module.Returns.{
  AllBehaved, AllNames, ReturnsNamed, hydrate-some, resolve_step_inputs-AllKeys,
  iter_samples-AllNames, apply_samples-Returns,
}
use s3ntinel.Simulation.Module.Keeps.{
  shape, samples_of, outline-sample_step, apply_outgoing-Writes, Writes-shape,
}

pub found_under {ℓ κ} :
    {V : Type ℓ} {W : Type κ} (f : V → W) (o : Option V) (w : W)
    → over f o ≡ some w
    → (v : V) × ((o ≡ some v) × (f v ≡ w))
found_under f none w e = cc
found_under f (some v) w e = (v, (refl, some-injective (f v) w e))

module _ (signals : Signals) (objects : Objects signals) (lags : Lags signals) where
  abbrev Given : Type 0
  Given = StepContext signals objects lags

  -- The inputs of a module name its parameters, and its behaviors return, for
  -- every input, samples that they name.
  pub record IsReady (given : Given) (o : Outline signals objects) : Type 0 where
    pub inputs : AllKeys (Has o.parameters) (coalesce (lookup o.id given.step_inputs_by_module) [])
    pub behaved : AllBehaved signals objects o.parameters

  -- A coupling joins an output port to an input port, and the numbers of its context parse.
  pub record IsWired (given : Given) (sh : Dict (Outline signals objects))
      (coupling : Coupling signals) : Type 0 where
    pub source : Outline signals objects
    pub target : Outline signals objects
    pub has_source : lookup coupling.source_module_id sh ≡ some source
    pub has_target : lookup coupling.target_module_id sh ≡ some target
    pub source_port : Has source.outputs coupling.source_port_name
    pub target_port : Has target.inputs coupling.target_port_name
    pub parses :
        (time : Option ℕ)
        → Returns (
            effective_transfer_config signals objects coupling
              (coalesce
                (lookup (coupling_id signals objects coupling) given.coupling_context_by_id)
                [])
              time)

  abbrev pub AllWired : Given → Dict (Outline signals objects) → List (Coupling signals) → Type 0
  AllWired given sh [] = Unit
  AllWired given sh (coupling ∷ couplings) = IsWired given sh coupling × AllWired given sh couplings

  AllBehaved-blank :
      (parameters : Dict (Parameter signals objects))
      → AllBehaved signals objects (mapped (blank signals objects) parameters)
      → AllBehaved signals objects parameters
  unfolding mapped
  AllBehaved-blank [] all = tt
  AllBehaved-blank (entry ∷ entries) all = (all.0, AllBehaved-blank entries all.1)

  samples_of-AllNames :
      (given : Given) (updated : Module signals objects) (h : StepInputs signals objects)
      → AllBehaved signals objects updated.parameters
      → ReturnsNamed signals objects
          (Has updated.parameters)
          (samples_of signals objects lags given updated h)
  samples_of-AllNames given updated h behaved =
      iter_samples-AllNames signals objects updated
        (hydrate_step_inputs_from_latent_state signals objects updated.latent_state_by_name h)
        (resolve_initial_state signals objects updated.parameters
          (coalesce (lookup updated.id given.initial_state_by_module) []))
        (coalesce (lookup updated.id given.fault_context_by_module) []) given.apply_faults
        (Has updated.parameters) updated.parameters behaved (own_keys updated.parameters)

  sample_step-Returns :
      (given : Given) (self : Module signals objects)
      → IsReady given (outline signals objects self)
      → Returns (sample_step signals objects lags given self)
  unfolding sample_step apply_latent_updates
  sample_step-Returns given self ready =
      let raw = coalesce (lookup self.id given.step_inputs_by_module) [] in
      let update : StepInputs signals objects → Module signals objects =
        λ hydrated. apply_latent_updates signals objects self hydrated in
      bind-Returns
        (hydrate_step_inputs_from_ports signals objects self
          (resolve_step_inputs signals objects self raw))
        (λ h. samples_of signals objects lags given (update h) h >>= λ xs.
          apply_samples signals objects given.timestamp_utc (update h) xs >>= λ m. some (m, xs))
        (hydrate-some signals objects self (resolve_step_inputs signals objects self raw) (
          resolve_step_inputs-AllKeys signals objects self raw (
            AllKeys-weaken _ _ raw
              (λ key h. Has-unmapped (blank signals objects) self.parameters key h) ready.inputs)))
        (λ h e.
          bind-With (AllNames signals objects (Has (update h).parameters)) Returns
            (samples_of signals objects lags given (update h) h)
            (λ xs.
              apply_samples signals objects given.timestamp_utc (update h) xs >>= λ m. some (m, xs))
            (samples_of-AllNames given (update h) h
              (AllBehaved-blank self.parameters ready.behaved))
            (λ xs names.
              bind-Returns (apply_samples signals objects given.timestamp_utc (update h) xs)
                (λ m. some (m, xs))
                (apply_samples-Returns signals objects given.timestamp_utc xs (update h) names)
                (λ m f. (_, refl))))

  -- What one coupling is applied to.
  abbrev coupled :
      Given
      → Coupling signals
      → Modes
      → Port signals
      → Target signals
      → Option (Target signals × CouplingExecution signals)
  coupled given coupling modes source_port target =
      apply_coupling signals objects lags coupling
        (coalesce (lookup (coupling_id signals objects coupling) given.coupling_context_by_id) [])
        source_port.current_value
        (either_time signals objects lags given.timestamp_utc source_port.timestamp_utc) modes
        given.current_phase_label target

  apply_coupling-Returns :
      (given : Given) (coupling : Coupling signals) (modes : Modes) (source_port : Port signals)
      (target : Target signals)
      → ((time : Option ℕ)
          → Returns (
              effective_transfer_config signals objects coupling
                (coalesce
                  (lookup (coupling_id signals objects coupling) given.coupling_context_by_id)
                  [])
                time))
      → Returns (coupled given coupling modes source_port target)
  unfolding apply_coupling
  apply_coupling-Returns given coupling modes source_port target parses =
      let context =
        coalesce (lookup (coupling_id signals objects coupling) given.coupling_context_by_id) [] in
      let time = either_time signals objects lags given.timestamp_utc source_port.timestamp_utc in
      bind-Returns (effective_transfer_config signals objects coupling context time)
        (λ config. some (
          apply signals lags coupling config
            (build_transfer_metadata signals objects coupling context) source_port.current_value
            time modes given.current_phase_label target))
        (parses time) (λ config e. (_, refl))

  apply_outgoing-found :
      (given : Given) (coupling : Coupling signals) (modules : Modules signals objects lags)
      (s t : Module signals objects) (sp tp : Port signals)
      (after : Target signals × CouplingExecution signals)
      → lookup coupling.source_module_id modules ≡ some s
      → lookup coupling.target_module_id modules ≡ some t
      → lookup coupling.source_port_name s.output_ports ≡ some sp
      → lookup coupling.target_port_name t.input_ports ≡ some tp
      → coupled given coupling s.mode_state_by_name sp (target_of signals objects lags t tp)
        ≡ some after
      → apply_outgoing signals objects lags given coupling modules
        ≡ some (
          insert coupling.target_module_id
              (with_target signals objects lags coupling.target_port_name after.0 t)
              modules,
          after.1,
        )
  unfolding apply_outgoing
  apply_outgoing-found given coupling modules s t sp tp after es et esp etp ea =
      rw (es, apply_outgoing, et, esp, etp, ea) refl

  apply_outgoing-Returns :
      (given : Given) (coupling : Coupling signals) (modules : Modules signals objects lags)
      → IsWired given (shape signals objects lags modules) coupling
      → Returns (apply_outgoing signals objects lags given coupling modules)
  apply_outgoing-Returns given coupling modules wired =
      let context =
        coalesce (lookup (coupling_id signals objects coupling) given.coupling_context_by_id) [] in
      let source =
        found_under (outline signals objects) (lookup coupling.source_module_id modules)
          wired.source
          (sym (lookup-mapped (outline signals objects) coupling.source_module_id modules)
            ∙ wired.has_source) in
      let target =
        found_under (outline signals objects) (lookup coupling.target_module_id modules)
          wired.target
          (sym (lookup-mapped (outline signals objects) coupling.target_module_id modules)
            ∙ wired.has_target) in
      let (s, (s_found, s_outline)) = source in
      let (t, (t_found, t_outline)) = target in
      let (sp, sp_found) = some_of (lookup coupling.source_port_name s.output_ports) (
        Has-unmapped there s.output_ports coupling.source_port_name (
          subst (λ (o : Outline signals objects). Has o.outputs coupling.source_port_name)
            (sym s_outline) wired.source_port)) in
      let (tp, tp_found) = some_of (lookup coupling.target_port_name t.input_ports) (
        Has-unmapped there t.input_ports coupling.target_port_name (
          subst (λ (o : Outline signals objects). Has o.inputs coupling.target_port_name)
            (sym t_outline) wired.target_port)) in
      let (after, applied) =
        apply_coupling-Returns given coupling s.mode_state_by_name sp
          (target_of signals objects lags t tp) wired.parses in
      (
        _,
        apply_outgoing-found given coupling modules s t sp tp after s_found t_found sp_found
            tp_found applied,
      )

  apply_outgoings-Returns :
      (given : Given) (couplings : List (Coupling signals)) (modules : Modules signals objects lags)
      → AllWired given (shape signals objects lags modules) couplings
      → Returns (apply_outgoings signals objects lags given couplings modules)
  unfolding apply_outgoings
  apply_outgoings-Returns given [] modules all = (_, refl)
  apply_outgoings-Returns given (coupling ∷ couplings) modules all =
      bind-Returns (apply_outgoing signals objects lags given coupling modules)
        (λ n. apply_outgoings signals objects lags given couplings n.0 >>= λ last.
          some (last.0, n.1 ∷ last.1))
        (apply_outgoing-Returns given coupling modules all.0)
        (λ n e.
          let kept =
            Writes-shape signals objects lags coupling modules n.0
              (apply_outgoing-Writes signals objects lags given coupling modules n e) in
          bind-Returns (apply_outgoings signals objects lags given couplings n.0)
            (λ last. some (last.0, n.1 ∷ last.1))
            (apply_outgoings-Returns given couplings n.0
              (subst (λ sh. AllWired given sh couplings) (sym kept) all.1))
            (λ last f. (_, refl)))

  abbrev finished :
      List (BehaviorSample signals objects)
      → Modules signals objects lags × List (CouplingExecution signals)
      → Stepped signals objects lags
  finished samples r = record { modules = r.0; samples = samples; executions = r.1 }

  pub step_module-Returns :
      (given : Given) (module_id : String) (outgoing : List (Coupling signals))
      (modules : Modules signals objects lags) (o : Outline signals objects)
      → lookup module_id (shape signals objects lags modules) ≡ some o
      → IsReady given o
      → AllWired given (shape signals objects lags modules) outgoing
      → Returns (step_module signals objects lags given module_id outgoing modules)
  unfolding step_module
  step_module-Returns given module_id outgoing modules o e ready wired =
      let (self, (found, same)) =
        found_under (outline signals objects) (lookup module_id modules) o
          (sym (lookup-mapped (outline signals objects) module_id modules) ∙ e) in
      bind-Returns (lookup module_id modules)
        (λ m. sample_step signals objects lags given m >>= λ s.
          apply_outgoings signals objects lags given outgoing (insert module_id s.0 modules)
          >>= λ r. some (finished s.1 r))
        (self, found)
        (λ m f.
          let ready_m : IsReady given (outline signals objects m) =
            subst (IsReady given)
              (sym same ∙ ap (outline signals objects) (some-injective self m (sym found ∙ f)))
              ready in
          bind-Returns (sample_step signals objects lags given m)
            (λ s.
              apply_outgoings signals objects lags given outgoing (insert module_id s.0 modules)
              >>= λ r. some (finished s.1 r))
            (sample_step-Returns given m ready_m)
            (λ s g.
              let kept =
                mapped-insert (outline signals objects) module_id m s.0 modules f
                  (outline-sample_step signals objects lags given m s.0 s.1 g) in
              bind-Returns
                (apply_outgoings signals objects lags given outgoing (insert module_id s.0 modules))
                (λ r. some (finished s.1 r))
                (apply_outgoings-Returns given outgoing (insert module_id s.0 modules)
                  (subst (λ sh. AllWired given sh outgoing) (sym kept) wired))
                (λ r h. (_, refl))))
