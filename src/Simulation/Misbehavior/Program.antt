-- ===== src/Simulation/Misbehavior/Program.antt =====
-- libs/simulation/fault/runtime.py: MisbehaviorProgram, the contexts of a step.
use s3ntinel.Prelude.{ℕ, ◌+◌, ◌&&◌, Bool, List, [], ◌∷◌, String, str_eq, if◌then◌else◌, coalesce}
use s3ntinel.Prelude.Int.{ℤ, leb_ℤ, ltb_ℤ}
use s3ntinel.Prelude.Dict.{Dict, lookup, insert}
use s3ntinel.Windows.Doubles.{Doubles}
use s3ntinel.Simulation.Misbehavior.{Value, MisbehaviorWindowSpec}
use s3ntinel.Simulation.Misbehavior.Context.{resolved_context, name_text}

module _ (doubles : Doubles) (printed : Value doubles → String) where
  abbrev pub Context' : Type 0
  Context' = Dict (Value doubles)

  abbrev Window : Type 0
  Window = MisbehaviorWindowSpec doubles

  pub record MisbehaviorStepContext : Type 0 where
    pub parameter_context_by_module : Dict (Dict Context')
    pub coupling_context_by_id : Dict Context'

  abbrev pub covers_step : ℤ → Window → Bool
  covers_step step window = leb_ℤ window.start_step step && ltb_ℤ step window.end_step_exclusive

  abbrev pub is_coupling : Window → Bool
  is_coupling window = str_eq window.subject_kind "coupling"

  -- The entry that an active window writes.
  unfoldable pub add_context : Window → Context' → MisbehaviorStepContext → MisbehaviorStepContext
  unfolding lookup insert
  add_context window context contexts =
      let modules = contexts.parameter_context_by_module in
      let parameters = coalesce (lookup (name_text window.module_id) modules) [] in
      if is_coupling window
      then record contexts {
        coupling_context_by_id =
            insert (name_text window.coupling_id) context contexts.coupling_context_by_id;
      }
      else record contexts {
        parameter_context_by_module =
            insert (name_text window.module_id)
              (insert (name_text window.parameter_name) context parameters) modules;
      }

  -- `for offset, window in enumerate(self.spec.windows, start=1)`
  unfoldable pub add_contexts :
      ℤ → ℕ → List Window → MisbehaviorStepContext → MisbehaviorStepContext
  unfolding add_context resolved_context
  add_contexts step offset [] contexts = contexts
  add_contexts step offset (window ∷ windows) contexts = add_contexts step (offset + 1) windows (
      if covers_step step window
      then add_context window (resolved_context doubles printed window offset) contexts
      else contexts)

  unfoldable pub step_context_for_step : List Window → ℤ → MisbehaviorStepContext
  unfolding add_contexts
  step_context_for_step windows step =
      add_contexts step 1 windows
        record { parameter_context_by_module = []; coupling_context_by_id = [] }

  unfoldable pub context_for_step : List Window → ℤ → Dict (Dict Context')
  unfolding step_context_for_step
  context_for_step windows step = (step_context_for_step windows step).parameter_context_by_module

  unfoldable pub coupling_context_for_step : List Window → ℤ → Dict Context'
  unfolding step_context_for_step
  coupling_context_for_step windows step =
      (step_context_for_step windows step).coupling_context_by_id
