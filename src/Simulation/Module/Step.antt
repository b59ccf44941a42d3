-- ===== src/Simulation/Module/Step.antt =====
-- libs/simulation/module/runtime.py: `Module.step` over the aircraft's modules, which the couplings
-- share. None stands for a raise: a name that is missing, a number that does not parse, or
-- a behavior that raises.
use s3ntinel.Prelude.{ℕ, Bool, Option, none, some, List, [], ◌∷◌, String, coalesce}
use s3ntinel.Prelude.Dict.{Dict, lookup, insert}
use s3ntinel.Simulation.Coupling.{Signals}
use s3ntinel.Simulation.Coupling.Apply.{Lags, Port, Target, Coupling, CouplingExecution}
use s3ntinel.Simulation.Coupling.Config.{Objects, Context, coupling_id, apply_coupling, ◌>>=◌}
use s3ntinel.Simulation.Module.{
  BehaviorSample, Module, StepInputs, resolve_step_inputs, hydrate_step_inputs_from_ports,
  apply_latent_updates, hydrate_step_inputs_from_latent_state, resolve_initial_state,
}
use s3ntinel.Simulation.Module.Samples.{iter_samples, apply_samples}

module _ (signals : Signals) (objects : Objects signals) (lags : Lags signals) where
  -- `modules_by_id`
  abbrev pub Modules : Type 0
  Modules = Dict (Module signals objects)

  abbrev Fields : Type 0
  Fields = Context signals objects

  -- What a step is given: the timestamp, the phase, whether faults are applied, and the contexts
  -- of the misbehaviors of couplings and of parameters.
  pub record StepContext : Type 0 where
    pub timestamp_utc : Option ℕ
    pub current_phase_label : Option String
    pub apply_faults : Bool
    pub coupling_context_by_id : Dict Fields
    pub fault_context_by_module : Dict (Dict Fields)
    pub initial_state_by_module : Dict Fields
    pub step_inputs_by_module : Dict (StepInputs signals objects)

  abbrev pub target_of : Module signals objects → Port signals → Target signals
  target_of self port = record {
    port = port;
    queues = self.delayed_input_transfers_by_key;
    modes = self.mode_state_by_name;
  }

  -- The target module after a transfer to the port.
  abbrev pub with_target : String → Target signals → Module signals objects → Module signals objects
  with_target name target self = record self {
    input_ports = insert name target.port self.input_ports;
    delayed_input_transfers_by_key = target.queues;
  }

  abbrev pub either_time : Option ℕ → Option ℕ → Option ℕ
  either_time none b = b
  either_time (some a) b = some a

  -- One coupling of the loop at the end of `step`.
  unfoldable pub apply_outgoing :
      StepContext → Coupling signals → Modules → Option (Modules × CouplingExecution signals)
  unfolding lookup insert apply_coupling coupling_id
  apply_outgoing given coupling modules = lookup coupling.source_module_id modules >>= λ source.
      lookup coupling.target_module_id modules >>= λ target.
      lookup coupling.source_port_name source.output_ports >>= λ source_port.
      lookup coupling.target_port_name target.input_ports >>= λ target_port.
      apply_coupling signals objects lags coupling
        (coalesce (lookup (coupling_id signals objects coupling) given.coupling_context_by_id) [])
        source_port.current_value (either_time given.timestamp_utc source_port.timestamp_utc)
        source.mode_state_by_name given.current_phase_label (target_of target target_port)
      >>= λ (after, execution). some (
        insert coupling.target_module_id (with_target coupling.target_port_name after target)
            modules,
        execution,
      )

  unfoldable pub apply_outgoings :
      StepContext
      → List (Coupling signals)
      → Modules
      → Option (Modules × List (CouplingExecution signals))
  unfolding apply_outgoing
  apply_outgoings given [] modules = some (modules, [])
  apply_outgoings given (coupling ∷ couplings) modules =
      apply_outgoing given coupling modules >>= λ (next, execution).
      apply_outgoings given couplings next >>= λ (last, executions).
      some (last, execution ∷ executions)

  -- The module after its samples, and the samples.
  unfoldable pub sample_step :
      StepContext
      → Module signals objects
      → Option (Module signals objects × List (BehaviorSample signals objects))
  unfolding lookup resolve_step_inputs hydrate_step_inputs_from_ports apply_latent_updates
      hydrate_step_inputs_from_latent_state resolve_initial_state iter_samples apply_samples
  sample_step given self =
      hydrate_step_inputs_from_ports signals objects self (
        resolve_step_inputs signals objects self
          (coalesce (lookup self.id given.step_inputs_by_module) []))
      >>= λ hydrated.
          let updated = apply_latent_updates signals objects self hydrated in
          let inputs =
            hydrate_step_inputs_from_latent_state signals objects updated.latent_state_by_name
              hydrated in
          let initial =
            resolve_initial_state signals objects updated.parameters
              (coalesce (lookup self.id given.initial_state_by_module) []) in
          iter_samples signals objects updated inputs initial
            (coalesce (lookup self.id given.fault_context_by_module) []) given.apply_faults
            updated.parameters
          >>= λ samples.
              apply_samples signals objects given.timestamp_utc updated samples >>= λ sampled.
              some (sampled, samples)

  -- What a step leaves: the modules, the samples and the executions of couplings.
  pub record Stepped : Type 0 where
    pub modules : Modules
    pub samples : List (BehaviorSample signals objects)
    pub executions : List (CouplingExecution signals)

  unfoldable pub step_module :
      StepContext → String → List (Coupling signals) → Modules → Option Stepped
  unfolding lookup insert sample_step apply_outgoings
  step_module given module_id outgoing modules = lookup module_id modules >>= λ self.
      sample_step given self >>= λ (sampled, samples).
      apply_outgoings given outgoing (insert module_id sampled modules) >>= λ (last, executions).
      some record { modules = last; samples = samples; executions = executions }
