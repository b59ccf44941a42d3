-- ===== src/Simulation/Module/Returns.antt =====
-- libs/simulation/module/runtime.py: the sampling of a module raises nothing, if the inputs name its
-- parameters and the behaviors return samples that they name.
use s3ntinel.Prelude.{
  ℕ, ◌≡◌, refl, sym, subst, Bool, true, false, Option, none, some, List, [], ◌∷◌, ◌++◌, map, String,
  if◌then◌else◌, coalesce, is_some,
}
use s3ntinel.Prelude.Dict.{Dict, lookup, insert, merge}
use s3ntinel.Simulation.Coupling.{Signals}
use s3ntinel.Simulation.Coupling.Config.{Objects, Context, ◌>>=◌}
use s3ntinel.Simulation.Module.{
  BehaviorStepInput, BehaviorSample, Behavior, Parameter, Module, StepInputs, add_missing,
  with_ports, resolve_step_inputs, hydrate_step_inputs_from_ports,
}
use s3ntinel.Simulation.Module.Samples.{
  parameter_samples, iter_samples, apply_sample, apply_samples, with_metadata, with_sample,
}
use s3ntinel.Simulation.Module.Metadata.{sample_metadata}
use s3ntinel.Simulation.Module.Outline.{blank, outline-apply_sample}
use s3ntinel.Simulation.Module.Keys.{
  AllKeys, Has, Returns, some_of, bind-Returns, ReturnsWith, bind-With, Has-mapped, Has-unmapped,
  AllKeys-insert, own_keys,
}

module _ (signals : Signals) (objects : Objects signals) where
  open signals use {Value}

  pub add_missing-AllKeys :
      (P : String → Type 0) (blank : BehaviorStepInput signals objects)
      (parameters : Dict (Parameter signals objects)) (resolved : StepInputs signals objects)
      → AllKeys P parameters
      → AllKeys P resolved
      → AllKeys P (add_missing signals objects blank parameters resolved)
  unfolding add_missing
  add_missing-AllKeys P blank [] resolved named all = all
  add_missing-AllKeys P blank (entry ∷ entries) resolved named all =
      add_missing-AllKeys P blank entries _ named.1 (pick (is_some (lookup entry.0 resolved)))
    where
      pick : (b : Bool) → AllKeys P (if b then resolved else insert entry.0 blank resolved)
      pick true = all
      pick false = AllKeys-insert P entry.0 blank resolved named.0 all

  pub resolve_step_inputs-AllKeys :
      (self : Module signals objects) (raw : StepInputs signals objects)
      → AllKeys (Has self.parameters) raw
      → AllKeys (Has self.parameters) (resolve_step_inputs signals objects self raw)
  unfolding resolve_step_inputs
  resolve_step_inputs-AllKeys self raw all =
      add_missing-AllKeys (Has self.parameters) _ self.parameters raw (own_keys self.parameters) all

  pub hydrate-some :
      (self : Module signals objects) (inputs : StepInputs signals objects)
      → AllKeys (Has self.parameters) inputs
      → Returns (hydrate_step_inputs_from_ports signals objects self inputs)
  unfolding hydrate_step_inputs_from_ports
  hydrate-some self [] all = ([], refl)
  hydrate-some self (entry ∷ entries) all =
      bind-Returns (lookup entry.0 self.parameters)
        (λ parameter. hydrate_step_inputs_from_ports signals objects self entries >>= λ rest.
          some ((entry.0, with_ports signals objects self parameter entry.1) ∷ rest))
        (some_of (lookup entry.0 self.parameters) all.0)
        (λ parameter e.
          bind-Returns (hydrate_step_inputs_from_ports signals objects self entries)
            (λ rest. some ((entry.0, with_ports signals objects self parameter entry.1) ∷ rest))
            (hydrate-some self entries all.1) (λ rest f. (_, refl)))

  abbrev pub AllNames : (String → Type 0) → List (BehaviorSample signals objects) → Type 0
  AllNames P [] = Unit
  AllNames P (sample ∷ samples) = P sample.parameter_name × AllNames P samples

  -- A call that returns samples whose names have a property.
  abbrev pub ReturnsNamed :
      (String → Type 0) → Option (List (BehaviorSample signals objects)) → Type 0
  ReturnsNamed P = ReturnsWith (AllNames P)

  -- For every input, a behavior returns samples, and these have the name of the parameter that it
  -- is asked for; so does its violator, for samples of that name.
  pub record IsNamed (name : String) (behavior : Behavior signals objects) : Type 0 where
    pub generated :
        (input : BehaviorStepInput signals objects) (initial : Option Value)
        → ReturnsNamed (λ n. n ≡ name) (behavior.generate name input initial)
    pub violated :
        (samples : List (BehaviorSample signals objects)) (context : Context signals objects)
        → AllNames (λ n. n ≡ name) samples
        → ReturnsNamed (λ n. n ≡ name) (behavior.violate name samples context)

  abbrev pub AllBehaved : Dict (Parameter signals objects) → Type 0
  AllBehaved [] = Unit
  AllBehaved (entry ∷ entries) =
      ((behavior : Behavior signals objects)
        → (entry.1).behavior ≡ some behavior
        → IsNamed entry.0 behavior)
      × AllBehaved entries

  AllNames-weaken :
      (P Q : String → Type 0) (samples : List (BehaviorSample signals objects))
      → ((name : String) → P name → Q name)
      → AllNames P samples
      → AllNames Q samples
  AllNames-weaken P Q [] f all = tt
  AllNames-weaken P Q (sample ∷ samples) f all =
      (f sample.parameter_name all.0, AllNames-weaken P Q samples f all.1)

  AllNames-join :
      (P : String → Type 0) (xs ys : List (BehaviorSample signals objects))
      → AllNames P xs
      → AllNames P ys
      → AllNames P (xs ++ ys)
  AllNames-join P [] ys a b = b
  AllNames-join P (x ∷ xs) ys a b = (a.0, AllNames-join P xs ys a.1 b)

  AllNames-map :
      (P : String → Type 0) (f : BehaviorSample signals objects → Context signals objects)
      (xs : List (BehaviorSample signals objects))
      → AllNames P xs
      → AllNames P (map (λ x. with_metadata signals objects x (f x)) xs)
  AllNames-map P f [] a = tt
  AllNames-map P f (x ∷ xs) a = (a.0, AllNames-map P f xs a.1)

  module _ (self : Module signals objects) (name : String) (parameter : Parameter signals objects)
      (behavior : Behavior signals objects) (named : IsNamed name behavior)
      (input : BehaviorStepInput signals objects) (initial : Option Value)
      (fault : Context signals objects) where
    abbrev marked : List (BehaviorSample signals objects) → List (BehaviorSample signals objects)
    marked samples =
        map
          (λ sample.
            with_metadata signals objects sample
              (sample_metadata signals objects self parameter fault sample))
          samples

    marked-AllNames :
        (samples : List (BehaviorSample signals objects))
        → AllNames (λ n. n ≡ name) samples
        → ReturnsNamed (λ n. n ≡ name) (some (marked samples))
    marked-AllNames samples all =
        (marked samples, (refl, AllNames-map (λ n. n ≡ name) _ samples all))

    parameter_samples-AllNames :
        (apply_faults : Bool)
        → ReturnsNamed
            (λ n. n ≡ name)
            (parameter_samples signals objects self name parameter behavior input initial fault
              apply_faults)
    unfolding parameter_samples
    parameter_samples-AllNames true =
        let context = merge parameter.metadata input.context in
        bind-With (AllNames (λ n. n ≡ name)) (ReturnsNamed (λ n. n ≡ name))
          (behavior.generate name (record input { context = context }) initial)
          (λ generated.
            behavior.violate name generated (merge context fault) >>= λ drawn. some (marked drawn))
          (named.generated (record input { context = context }) initial)
          (λ xs all.
            bind-With (AllNames (λ n. n ≡ name)) (ReturnsNamed (λ n. n ≡ name))
              (behavior.violate name xs (merge context fault)) (λ drawn. some (marked drawn))
              (named.violated xs (merge context fault) all) marked-AllNames)
    parameter_samples-AllNames false =
        let context = merge parameter.metadata input.context in
        bind-With (AllNames (λ n. n ≡ name)) (ReturnsNamed (λ n. n ≡ name))
          (behavior.generate name (record input { context = context }) initial)
          (λ drawn. some (marked drawn))
          (named.generated (record input { context = context }) initial) marked-AllNames

  pub iter_samples-AllNames :
      (self : Module signals objects) (inputs : StepInputs signals objects)
      (initial : Context signals objects) (faults : Dict (Context signals objects))
      (apply_faults : Bool) (P : String → Type 0) (parameters : Dict (Parameter signals objects))
      → AllBehaved parameters
      → AllKeys P parameters
      → ReturnsNamed P
          (iter_samples signals objects self inputs initial faults apply_faults parameters)
  unfolding iter_samples
  iter_samples-AllNames self inputs initial faults apply_faults P [] behaved has = ([], (refl, tt))
  iter_samples-AllNames self inputs initial faults apply_faults P (entry ∷ entries) behaved has =
      go (lookup entry.0 inputs) (entry.1).behavior refl
        (iter_samples-AllNames self inputs initial faults apply_faults P entries behaved.1 has.1)
    where
      later : Option (List (BehaviorSample signals objects))
      later = iter_samples signals objects self inputs initial faults apply_faults entries

      drawn :
          BehaviorStepInput signals objects
          → Behavior signals objects
          → Option (List (BehaviorSample signals objects))
      drawn step_input b =
          parameter_samples signals objects self entry.0 entry.1 b step_input
            (coalesce (lookup entry.0 initial) none) (coalesce (lookup entry.0 faults) [])
            apply_faults

      go :
          (input : Option (BehaviorStepInput signals objects))
          (behavior : Option (Behavior signals objects))
          → (entry.1).behavior ≡ behavior
          → ReturnsNamed P later
          → ReturnsNamed P (elim input [
            | none ↦ later
            | some step_input ↦ elim behavior [
              | none ↦ later
              | some b ↦ drawn step_input b >>= λ first. later >>= λ rest. some (first ++ rest)
            ]
          ])
      go none behavior e rest = rest
      go (some step_input) none e rest = rest
      go (some step_input) (some b) e rest =
          bind-With (AllNames (λ n. n ≡ entry.0)) (ReturnsNamed P) (drawn step_input b)
            (λ first. later >>= λ l. some (first ++ l))
            (parameter_samples-AllNames self entry.0 entry.1 b (behaved.0 b e) step_input
              (coalesce (lookup entry.0 initial) none) (coalesce (lookup entry.0 faults) [])
              apply_faults)
            (λ xs named.
              bind-With (AllNames P) (ReturnsNamed P) later (λ l. some (xs ++ l)) rest
                (λ ys all. (
                  xs ++ ys,
                  (
                    refl,
                    AllNames-join P xs ys
                        (AllNames-weaken (λ n. n ≡ entry.0) P xs
                          (λ n same. subst P (sym same) has.0) named)
                        all,
                  ),
                )))

  apply_sample-Has :
      (timestamp : Option ℕ) (self next : Module signals objects)
      (sample : BehaviorSample signals objects) (key : String)
      → apply_sample signals objects timestamp self sample ≡ some next
      → Has self.parameters key
      → Has next.parameters key
  apply_sample-Has timestamp self next sample key e h =
      Has-unmapped (blank signals objects) next.parameters key (
        subst (λ o. Has o.parameters key)
          (sym (outline-apply_sample signals objects timestamp self next sample e))
          (Has-mapped (blank signals objects) self.parameters key h))

  apply_sample-Returns :
      (timestamp : Option ℕ) (self : Module signals objects)
      (sample : BehaviorSample signals objects)
      → Has self.parameters sample.parameter_name
      → Returns (apply_sample signals objects timestamp self sample)
  unfolding apply_sample
  apply_sample-Returns timestamp self sample h =
      bind-Returns (lookup sample.parameter_name self.parameters)
        (λ parameter. some (with_sample signals objects timestamp self sample parameter))
        (some_of (lookup sample.parameter_name self.parameters) h) (λ parameter e. (_, refl))

  pub apply_samples-Returns :
      (timestamp : Option ℕ) (samples : List (BehaviorSample signals objects))
      (self : Module signals objects)
      → AllNames (Has self.parameters) samples
      → Returns (apply_samples signals objects timestamp self samples)
  unfolding apply_samples
  apply_samples-Returns timestamp [] self all = (self, refl)
  apply_samples-Returns timestamp (sample ∷ samples) self all =
      bind-Returns (apply_sample signals objects timestamp self sample)
        (λ next. apply_samples signals objects timestamp next samples)
        (apply_sample-Returns timestamp self sample all.0)
        (λ next e. apply_samples-Returns timestamp samples next (
          AllNames-weaken (Has self.parameters) (Has next.parameters) samples
            (λ key h. apply_sample-Has timestamp self next sample key e h) all.1))
