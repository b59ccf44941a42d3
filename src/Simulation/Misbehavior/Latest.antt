-- ===== src/Simulation/Misbehavior/Latest.antt =====
-- libs/simulation/fault/runtime.py: which window's context a parameter or a coupling has at a step.
use s3ntinel.Prelude.{
  ℕ, ◌+◌, ◌≡◌, refl, ◌∙◌, not, ◌&&◌, Bool, Option, none, some, List, [], ◌∷◌, String, str_eq,
  eq_iff, if◌then◌else◌, coalesce, arith,
}
use s3ntinel.Prelude.Int.{ℤ}
use s3ntinel.Prelude.Dict.{Dict, lookup, insert, lookup-insert}
use s3ntinel.Windows.Doubles.{Doubles}
use s3ntinel.Simulation.Misbehavior.{Value, MisbehaviorWindowSpec}
use s3ntinel.Simulation.Misbehavior.Context.{resolved_context, name_text}
use s3ntinel.Simulation.Misbehavior.Program.{
  Context', MisbehaviorStepContext, covers_step, is_coupling, add_context, add_contexts,
  context_for_step, coupling_context_for_step,
}

module _ (doubles : Doubles) (printed : Value doubles → String) where
  abbrev Window : Type 0
  Window = MisbehaviorWindowSpec doubles

  abbrev pub parameter_entry :
      String → String → Dict (Dict (Context' doubles printed)) → Option (Context' doubles printed)
  parameter_entry m p modules = lookup p (coalesce (lookup m modules) [])

  abbrev pub names_parameter : String → String → Window → Bool
  names_parameter m p window =
      not (is_coupling doubles printed window)
      && str_eq (name_text window.module_id) m
      && str_eq (name_text window.parameter_name) p

  abbrev pub names_coupling : String → Window → Bool
  names_coupling id window =
      is_coupling doubles printed window && str_eq (name_text window.coupling_id) id

  -- The context of the last window that is active at the step and that the test selects.
  abbrev pub last_active : (Window → Bool) → ℤ → ℕ → List Window → Option (Context' doubles printed)
  last_active names step offset [] = none
  last_active names step offset (window ∷ windows) =
      elim (last_active names step (offset + 1) windows) [
        | none ↦
            if covers_step doubles printed step window && names window
            then some (resolved_context doubles printed window offset)
            else none
        | some later ↦ some later
      ]

  parameter_entry-insert :
      (m p key name : String) (context : Context' doubles printed)
      (modules : Dict (Dict (Context' doubles printed)))
      → parameter_entry m p
          (insert key (insert name context (coalesce (lookup key modules) [])) modules)
        ≡ (if str_eq key m && str_eq name p then some context else parameter_entry m p modules)
  parameter_entry-insert m p key name context modules =
      let before = coalesce (lookup key modules) [] in
      ground (
        arith,
        eq_iff key m,
        lookup-insert m key (insert name context before) modules,
        lookup-insert p name context before,
      )

  parameter_entry-add_context :
      (m p : String) (window : Window) (context : Context' doubles printed)
      (contexts : MisbehaviorStepContext doubles printed)
      → parameter_entry m p
          (add_context doubles printed window context contexts).parameter_context_by_module
        ≡ (if names_parameter m p window
            then some context
            else parameter_entry m p contexts.parameter_context_by_module)
  unfolding add_context
  parameter_entry-add_context m p window context contexts = ground (
    arith,
    parameter_entry-insert m p (name_text window.module_id) (name_text window.parameter_name)
        context contexts.parameter_context_by_module,
  )

  coupling_entry-add_context :
      (id : String) (window : Window) (context : Context' doubles printed)
      (contexts : MisbehaviorStepContext doubles printed)
      → lookup id (add_context doubles printed window context contexts).coupling_context_by_id ≡ (
          if names_coupling id window
          then some context
          else lookup id contexts.coupling_context_by_id)
  unfolding add_context
  coupling_entry-add_context id window context contexts = ground (
    arith,
    lookup-insert id (name_text window.coupling_id) context contexts.coupling_context_by_id,
  )

  -- What the steps write: the last active window's context, else what was there.
  abbrev later :
      Option (Context' doubles printed)
      → Option (Context' doubles printed)
      → Option (Context' doubles printed)
  later none before = before
  later (some context) before = some context

  later-none : (o : Option (Context' doubles printed)) → later o none ≡ o
  later-none none = refl
  later-none (some context) = refl

  module _ (entry : MisbehaviorStepContext doubles printed → Option (Context' doubles printed))
      (names : Window → Bool)
      (writes : (window : Window) (context : Context' doubles printed)
          (contexts : MisbehaviorStepContext doubles printed)
        → entry (add_context doubles printed window context contexts)
          ≡ (if names window then some context else entry contexts)) where
    entry-add_contexts :
        (step : ℤ) (offset : ℕ) (windows : List Window)
        (contexts : MisbehaviorStepContext doubles printed)
        → entry (add_contexts doubles printed step offset windows contexts)
          ≡ later (last_active names step offset windows) (entry contexts)
    unfolding add_contexts
    entry-add_contexts step offset [] contexts = refl
    entry-add_contexts step offset (window ∷ windows) contexts =
        entry-add_contexts step (offset + 1) windows _
        ∙ joined (covers_step doubles printed step window)
            (last_active names step (offset + 1) windows)
      where
        context : Context' doubles printed
        context = resolved_context doubles printed window offset

        joined :
            (active : Bool) (rest : Option (Context' doubles printed))
            → later rest (
                entry (
                  if active then add_context doubles printed window context contexts else contexts))
              ≡ later
                  (elim rest [
                    | none ↦ if active && names window then some context else none
                    | some l ↦ some l
                  ])
                  (entry contexts)
        joined active rest = ground (arith, writes window context contexts)

  -- At a step a parameter of a module has the context of the last window that names it and is
  -- active, and none if there is no such window; and so has a coupling.
  pub step_context_lem :
      (windows : List Window) (step : ℤ) (m p id : String)
      → (parameter_entry m p (context_for_step doubles printed windows step)
          ≡ last_active (names_parameter m p) step 1 windows)
        × (lookup id (coupling_context_for_step doubles printed windows step)
            ≡ last_active (names_coupling id) step 1 windows)
  unfolding context_for_step coupling_context_for_step lookup
  step_context_lem windows step m p id = (
    entry-add_contexts (λ c. parameter_entry m p c.parameter_context_by_module)
          (names_parameter m p) (parameter_entry-add_context m p) step 1 windows _
        ∙ later-none (last_active (names_parameter m p) step 1 windows),
    entry-add_contexts (λ c. lookup id c.coupling_context_by_id) (names_coupling id)
          (coupling_entry-add_context id) step 1 windows _
        ∙ later-none (last_active (names_coupling id) step 1 windows),
  )
