-- ===== src/Simulation/Module/Keeps.antt =====
-- libs/simulation/module/runtime.py: a step of a module keeps the modules and their outlines.
use mathlib.Core.Option.{some-injective}
use s3ntinel.Prelude.{◌≡◌, refl, sym, ap, ◌∙◌, Bool, Option, some, List, [], ◌∷◌, String, coalesce}
use s3ntinel.Prelude.Dict.{Dict, lookup, insert, mapped, mapped-insert}
use s3ntinel.Simulation.Coupling.{Signals}
use s3ntinel.Simulation.Coupling.Apply.{Lags, Port, Target, Coupling, CouplingExecution}
use s3ntinel.Simulation.Coupling.Config.{Objects, coupling_id, apply_coupling, ◌>>=◌}
use s3ntinel.Simulation.Coupling.Effective.{bind-some}
use s3ntinel.Simulation.Module.{
  BehaviorSample, Module, resolve_step_inputs, hydrate_step_inputs_from_ports, StepInputs,
  apply_latent_updates, hydrate_step_inputs_from_latent_state, resolve_initial_state,
}
use s3ntinel.Simulation.Module.Samples.{iter_samples, apply_samples}
use s3ntinel.Simulation.Module.Step.{
  Modules, StepContext, Stepped, target_of, with_target, either_time, apply_outgoing,
  apply_outgoings, sample_step, step_module,
}
use s3ntinel.Simulation.Module.Outline.{
  there, Outline, outline, outline-apply_latent_updates, outline-apply_samples,
}

module _ (signals : Signals) (objects : Objects signals) (lags : Lags signals) where
  abbrev Given : Type 0
  Given = StepContext signals objects lags

  -- The module ids with the outlines of the modules.
  abbrev pub shape : Modules signals objects lags → Dict (Outline signals objects)
  shape modules = mapped (outline signals objects) modules

  -- The inputs of a module's step, and its samples.
  abbrev pub samples_of :
      Given
      → Module signals objects
      → StepInputs signals objects
      → Option (List (BehaviorSample signals objects))
  samples_of given updated hydrated =
      iter_samples signals objects updated
        (hydrate_step_inputs_from_latent_state signals objects updated.latent_state_by_name
          hydrated)
        (resolve_initial_state signals objects updated.parameters
          (coalesce (lookup updated.id given.initial_state_by_module) []))
        (coalesce (lookup updated.id given.fault_context_by_module) []) given.apply_faults
        updated.parameters

  pub outline-sample_step :
      (given : Given) (self next : Module signals objects)
      (samples : List (BehaviorSample signals objects))
      → sample_step signals objects lags given self ≡ some (next, samples)
      → outline signals objects next ≡ outline signals objects self
  unfolding sample_step
  outline-sample_step given self next samples e =
      let update : StepInputs signals objects → Module signals objects =
        λ hydrated. apply_latent_updates signals objects self hydrated in
      let (hydrated, (_, e1)) =
        bind-some signals objects
          (hydrate_step_inputs_from_ports signals objects self (
            resolve_step_inputs signals objects self
              (coalesce (lookup self.id given.step_inputs_by_module) [])))
          (λ h. samples_of given (update h) h >>= λ xs.
            apply_samples signals objects given.timestamp_utc (update h) xs >>= λ m. some (m, xs))
          (next, samples) e in
      let (drawn, (_, e2)) =
        bind-some signals objects (samples_of given (update hydrated) hydrated)
          (λ xs. apply_samples signals objects given.timestamp_utc (update hydrated) xs >>= λ m.
            some (m, xs))
          (next, samples) e1 in
      let (last, (e3, e4)) =
        bind-some signals objects
          (apply_samples signals objects given.timestamp_utc (update hydrated) drawn)
          (λ m. some (m, drawn)) (next, samples) e2 in
      ap (λ r. outline signals objects r.0) (sym (some-injective _ _ e4))
      ∙ outline-apply_samples signals objects given.timestamp_utc drawn (update hydrated) last e3
      ∙ outline-apply_latent_updates signals objects self hydrated

  -- What one coupling writes.
  pub record Writes (coupling : Coupling signals) (modules next : Modules signals objects lags)
      : Type 0 where
    pub target : Module signals objects
    pub port : Port signals
    pub after : Target signals
    pub has_target : lookup coupling.target_module_id modules ≡ some target
    pub has_port : lookup coupling.target_port_name target.input_ports ≡ some port
    pub written :
        next
        ≡ insert coupling.target_module_id
            (with_target signals objects lags coupling.target_port_name after target)
            modules

  pub apply_outgoing-Writes :
      (given : Given) (coupling : Coupling signals) (modules : Modules signals objects lags)
      (out : Modules signals objects lags × CouplingExecution signals)
      → apply_outgoing signals objects lags given coupling modules ≡ some out
      → Writes coupling modules out.0
  unfolding apply_outgoing
  apply_outgoing-Writes given coupling modules out e =
      let last : (t : Module signals objects)
          → Target signals × CouplingExecution signals
          → Modules signals objects lags × CouplingExecution signals =
        λ t r. (
          insert coupling.target_module_id
              (with_target signals objects lags coupling.target_port_name r.0 t) modules,
          r.1,
        ) in
      let run : (s t : Module signals objects) (sp tp : Port signals)
          → Option (Target signals × CouplingExecution signals) =
        λ s t sp tp.
          apply_coupling signals objects lags coupling
            (coalesce (lookup (coupling_id signals objects coupling) given.coupling_context_by_id)
              [])
            sp.current_value (either_time signals objects lags given.timestamp_utc sp.timestamp_utc)
            s.mode_state_by_name given.current_phase_label (target_of signals objects lags t tp) in
      let (source, (_, e1)) =
        bind-some signals objects (lookup coupling.source_module_id modules)
          (λ s. lookup coupling.target_module_id modules >>= λ t.
            lookup coupling.source_port_name s.output_ports >>= λ sp.
            lookup coupling.target_port_name t.input_ports >>= λ tp.
            run s t sp tp >>= λ r. some (last t r))
          out e in
      let (target, (has_target, e2)) =
        bind-some signals objects (lookup coupling.target_module_id modules)
          (λ t. lookup coupling.source_port_name source.output_ports >>= λ sp.
            lookup coupling.target_port_name t.input_ports >>= λ tp.
            run source t sp tp >>= λ r. some (last t r))
          out e1 in
      let (source_port, (_, e3)) =
        bind-some signals objects (lookup coupling.source_port_name source.output_ports)
          (λ sp. lookup coupling.target_port_name target.input_ports >>= λ tp.
            run source target sp tp >>= λ r. some (last target r))
          out e2 in
      let (port, (has_port, e4)) =
        bind-some signals objects (lookup coupling.target_port_name target.input_ports)
          (λ tp. run source target source_port tp >>= λ r. some (last target r)) out e3 in
      let (after, (_, e5)) =
        bind-some signals objects (run source target source_port port) (λ r. some (last target r))
          out e4 in
      record {
        target = target;
        port = port;
        after = after.0;
        has_target = has_target;
        has_port = has_port;
        written = sym (ap (λ r. r.0) (some-injective (last target after) out e5));
      }

  abbrev pub with_inputs : Module signals objects → Dict Bool → Outline signals objects
  with_inputs self inputs = record (outline signals objects self) { inputs = inputs }

  pub Writes-shape :
      (coupling : Coupling signals) (modules next : Modules signals objects lags)
      → Writes coupling modules next
      → shape next ≡ shape modules
  Writes-shape coupling modules next w =
      ap shape w.written
      ∙ mapped-insert (outline signals objects) coupling.target_module_id w.target _ modules
          w.has_target
          (ap (with_inputs w.target) (
            mapped-insert there coupling.target_port_name w.port w.after.port w.target.input_ports
              w.has_port refl))

  pub apply_outgoings-shape :
      (given : Given) (couplings : List (Coupling signals)) (modules : Modules signals objects lags)
      (out : Modules signals objects lags × List (CouplingExecution signals))
      → apply_outgoings signals objects lags given couplings modules ≡ some out
      → shape out.0 ≡ shape modules
  unfolding apply_outgoings
  apply_outgoings-shape given [] modules out e =
      ap (λ r. shape r.0) (some-injective out (modules, []) (sym e))
  apply_outgoings-shape given (coupling ∷ couplings) modules out e =
      let (next, (one, rest)) =
        bind-some signals objects (apply_outgoing signals objects lags given coupling modules)
          (λ n. apply_outgoings signals objects lags given couplings n.0 >>= λ last.
            some (last.0, n.1 ∷ last.1))
          out e in
      let (last, (two, same)) =
        bind-some signals objects (apply_outgoings signals objects lags given couplings next.0)
          (λ last. some (last.0, next.1 ∷ last.1)) out rest in
      ap (λ r. shape r.0) (sym (some-injective (last.0, next.1 ∷ last.1) out same))
      ∙ apply_outgoings-shape given couplings next.0 last two
      ∙ Writes-shape coupling modules next.0 (apply_outgoing-Writes given coupling modules next one)

  pub step_module-shape :
      (given : Given) (module_id : String) (outgoing : List (Coupling signals))
      (modules : Modules signals objects lags) (out : Stepped signals objects lags)
      → step_module signals objects lags given module_id outgoing modules ≡ some out
      → shape out.modules ≡ shape modules
  unfolding step_module
  step_module-shape given module_id outgoing modules out e =
      let finish : List (BehaviorSample signals objects)
          → Modules signals objects lags × List (CouplingExecution signals)
          → Stepped signals objects lags =
        λ samples r. record { modules = r.0; samples = samples; executions = r.1 } in
      let (self, (found, e1)) =
        bind-some signals objects (lookup module_id modules)
          (λ m. sample_step signals objects lags given m >>= λ s.
            apply_outgoings signals objects lags given outgoing (insert module_id s.0 modules)
            >>= λ r. some (finish s.1 r))
          out e in
      let (sampled, (e2, e3)) =
        bind-some signals objects (sample_step signals objects lags given self)
          (λ s.
            apply_outgoings signals objects lags given outgoing (insert module_id s.0 modules)
            >>= λ r. some (finish s.1 r))
          out e1 in
      let (last, (e4, e5)) =
        bind-some signals objects
          (apply_outgoings signals objects lags given outgoing (insert module_id sampled.0 modules))
          (λ r. some (finish sampled.1 r)) out e3 in
      ap (λ (r : Stepped signals objects lags). shape r.modules)
        (sym (some-injective (finish sampled.1 last) out e5))
      ∙ apply_outgoings-shape given outgoing (insert module_id sampled.0 modules) last e4
      ∙ mapped-insert (outline signals objects) module_id self sampled.0 modules found
          (outline-sample_step given self sampled.0 sampled.1 e2)
