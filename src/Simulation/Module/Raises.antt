-- ===== src/Simulation/Module/Raises.antt =====
-- libs/simulation/module/runtime.py: when the sampling of a module's parameters raises.
use s3ntinel.Prelude.{
  ◌≡◌, refl, sym, ap, ◌∙◌, ◌↔◌, ◌⊎◌, Bool, true, Bool-cases, Option, none, some, Option-cases, inl,
  inr, List, [], ◌∷◌, ◌++◌, String, coalesce,
}
use s3ntinel.Prelude.Dict.{Dict, lookup, merge}
use s3ntinel.Simulation.Coupling.{Signals}
use s3ntinel.Simulation.Coupling.Config.{Objects, Context, ◌>>=◌}
use s3ntinel.Simulation.Module.{
  BehaviorStepInput, BehaviorSample, Behavior, Parameter, Module, StepInputs,
}
use s3ntinel.Simulation.Module.Samples.{parameter_samples, iter_samples}

bind-none {ℓ κ} :
    {A : Type ℓ} {B : Type κ} (o : Option A) (f : A → Option B)
    → (o >>= f) ≡ none
    → (o ≡ none) ⊎ ((a : A) × ((o ≡ some a) × (f a ≡ none)))
bind-none none f e = inl refl
bind-none (some a) f e = inr (a, (refl, e))

bind-none_after {ℓ κ} :
    {A : Type ℓ} {B : Type κ} (o : Option A) (f : A → Option B)
    → ((a : A) → f a ≡ none)
    → (o >>= f) ≡ none
bind-none_after none f h = refl
bind-none_after (some a) f h = h a

some-ne-none {ℓ} : {A : Type ℓ} (a : A) → ◌≡◌ {A = Option A} (some a) none → ⊥
some-ne-none a e = cc

module _ (signals : Signals) (objects : Objects signals) (self : Module signals objects)
    (inputs : StepInputs signals objects) (initial : Context signals objects)
    (faults : Dict (Context signals objects)) (apply_faults : Bool) where
  open signals use {Value}

  abbrev Entry : Type 0
  Entry = String × Parameter signals objects

  -- The input that a parameter's behavior is asked with: the parameter's metadata are under it.
  abbrev pub asked : Entry → BehaviorStepInput signals objects → BehaviorStepInput signals objects
  asked entry input = record input { context = merge (entry.1).metadata input.context }

  abbrev pub initial_of : Entry → Option Value
  initial_of entry = coalesce (lookup entry.0 initial) none

  abbrev pub fault_of : Entry → Context signals objects
  fault_of entry = coalesce (lookup entry.0 faults) []

  -- The generator raises, or it does not, faults are applied and the violator raises.
  pub data BehaviorRaises (entry : Entry) (behavior : Behavior signals objects)
      (input : BehaviorStepInput signals objects) : Type 0 where
    generator :
        behavior.generate entry.0 (asked entry input) (initial_of entry) ≡ none
        → BehaviorRaises entry behavior input
    violator :
        (samples : List (BehaviorSample signals objects))
        → apply_faults ≡ true
        → behavior.generate entry.0 (asked entry input) (initial_of entry) ≡ some samples
        → behavior.violate entry.0 samples (merge (asked entry input).context (fault_of entry))
          ≡ none
        → BehaviorRaises entry behavior input

  -- Some parameter that has a behavior and an input raises.
  pub record SomeRaises (parameters : Dict (Parameter signals objects)) : Type 0 where
    pub before : Dict (Parameter signals objects)
    pub entry : Entry
    pub after : Dict (Parameter signals objects)
    pub split : parameters ≡ before ++ entry ∷ after
    pub input : BehaviorStepInput signals objects
    pub has_input : lookup entry.0 inputs ≡ some input
    pub behavior : Behavior signals objects
    pub has_behavior : (entry.1).behavior ≡ some behavior
    pub raises : BehaviorRaises entry behavior input

  later_raises :
      (entry : Entry) (entries : Dict (Parameter signals objects))
      → SomeRaises entries
      → SomeRaises (entry ∷ entries)
  later_raises entry entries r = record {
    before = entry ∷ r.before;
    entry = r.entry;
    after = r.after;
    split = ap (λ l. entry ∷ l) r.split;
    input = r.input;
    has_input = r.has_input;
    behavior = r.behavior;
    has_behavior = r.has_behavior;
    raises = r.raises;
  }

  module _ (entry : Entry) (b : Behavior signals objects)
      (input : BehaviorStepInput signals objects) where
    abbrev drawn : Option (List (BehaviorSample signals objects))
    drawn =
        parameter_samples signals objects self entry.0 entry.1 b input (initial_of entry)
          (fault_of entry) apply_faults

    drawn-raises : drawn ≡ none → BehaviorRaises entry b input
    unfolding parameter_samples
    drawn-raises e =
        elim (bind-none (b.generate entry.0 (asked entry input) (initial_of entry)) _ e) [
          | inl none_generated ↦ generator none_generated
          | inr (samples, (generated, rest)) ↦ elim (Bool-cases apply_faults) [
            | inl applied ↦
                elim (bind-none
                  (b.violate entry.0 samples (merge (asked entry input).context (fault_of entry))) _
                  (rw applied at rest)) [
                    | inl none_violated ↦ violator samples applied generated none_violated
                    | inr (ys, (violated, finished)) ↦ absurd (some-ne-none _ finished)
                  ]
            | inr not_applied ↦ absurd (some-ne-none _ (rw not_applied at rest))
          ]
        ]

    raises-drawn : BehaviorRaises entry b input → drawn ≡ none
    unfolding parameter_samples
    raises-drawn (generator e) = rw (e, parameter_samples) refl
    raises-drawn (violator samples applied generated violated) =
        rw (generated, parameter_samples, applied, violated) refl

  abbrev sampled : Dict (Parameter signals objects) → Option (List (BehaviorSample signals objects))
  sampled parameters =
      iter_samples signals objects self inputs initial faults apply_faults parameters

  -- The parameter's samples come before those of the parameters after it.
  sampled_with :
      (entry : Entry) (entries : Dict (Parameter signals objects))
      (input : BehaviorStepInput signals objects) (b : Behavior signals objects)
      → lookup entry.0 inputs ≡ some input
      → (entry.1).behavior ≡ some b
      → sampled (entry ∷ entries)
        ≡ (drawn entry b input >>= λ first. sampled entries >>= λ later. some (first ++ later))
  unfolding iter_samples
  sampled_with entry entries input b i h = rw (i, iter_samples, h) refl

  sampled_without_input :
      (entry : Entry) (entries : Dict (Parameter signals objects))
      → lookup entry.0 inputs ≡ none
      → sampled (entry ∷ entries) ≡ sampled entries
  unfolding iter_samples
  sampled_without_input entry entries i = rw (i, iter_samples) refl

  sampled_without_behavior :
      (entry : Entry) (entries : Dict (Parameter signals objects))
      (input : BehaviorStepInput signals objects)
      → lookup entry.0 inputs ≡ some input
      → (entry.1).behavior ≡ none
      → sampled (entry ∷ entries) ≡ sampled entries
  unfolding iter_samples
  sampled_without_behavior entry entries input i h = rw (i, iter_samples, h) refl

  sampled-raises :
      (parameters : Dict (Parameter signals objects))
      → sampled parameters ≡ none
      → SomeRaises parameters
  unfolding iter_samples
  sampled-raises [] e = absurd (some-ne-none _ e)
  sampled-raises (entry ∷ entries) e = elim (Option-cases (lookup entry.0 inputs)) [
    | inl absent ↦
        later_raises entry entries
          (sampled-raises entries (sym (sampled_without_input entry entries absent) ∙ e))
    | inr (input, i) ↦ elim (Option-cases (entry.1).behavior) [
      | inl still ↦
          later_raises entry entries (
            sampled-raises entries (sym (sampled_without_behavior entry entries input i still) ∙ e))
      | inr (b, h) ↦
          elim (bind-none (drawn entry b input)
            (λ first. sampled entries >>= λ later. some (first ++ later))
            (sym (sampled_with entry entries input b i h) ∙ e)) [
              | inl raised ↦ record {
                before = [];
                entry = entry;
                after = entries;
                split = refl;
                input = input;
                has_input = i;
                behavior = b;
                has_behavior = h;
                raises = drawn-raises entry b input raised;
              }
              | inr (first, (_, rest)) ↦
                  elim (bind-none (sampled entries) (λ later. some (first ++ later)) rest) [
                    | inl later ↦ later_raises entry entries (sampled-raises entries later)
                    | inr (last, (_, finished)) ↦ absurd (some-ne-none _ finished)
                  ]
            ]
    ]
  ]

  -- What raises later raises.
  sampled_later :
      (entry : Entry) (entries : Dict (Parameter signals objects))
      → sampled entries ≡ none
      → sampled (entry ∷ entries) ≡ none
  sampled_later entry entries e = elim (Option-cases (lookup entry.0 inputs)) [
    | inl absent ↦ sampled_without_input entry entries absent ∙ e
    | inr (input, i) ↦ elim (Option-cases (entry.1).behavior) [
      | inl still ↦ sampled_without_behavior entry entries input i still ∙ e
      | inr (b, h) ↦
          sampled_with entry entries input b i h
          ∙ bind-none_after (drawn entry b input)
              (λ first. sampled entries >>= λ later. some (first ++ later)) (λ first. rw e refl)
    ]
  ]

  raises-sampled :
      (before after : Dict (Parameter signals objects)) (entry : Entry)
      (input : BehaviorStepInput signals objects) (b : Behavior signals objects)
      → lookup entry.0 inputs ≡ some input
      → (entry.1).behavior ≡ some b
      → BehaviorRaises entry b input
      → sampled (before ++ entry ∷ after) ≡ none
  raises-sampled [] after entry input b i h r =
      sampled_with entry after input b i h ∙ rw (raises-drawn entry b input r) refl
  raises-sampled (first ∷ before) after entry input b i h r =
      sampled_later first (before ++ entry ∷ after)
        (raises-sampled before after entry input b i h r)

  -- The sampling of a module's parameters raises exactly if the behavior of some parameter that has
  -- an input raises: its generator, or, where faults are applied, its violator on what the
  -- generator returned.
  pub iter_samples-raises_iff :
      (parameters : Dict (Parameter signals objects))
      → (iter_samples signals objects self inputs initial faults apply_faults parameters ≡ none)
        ↔ SomeRaises parameters
  iter_samples-raises_iff parameters = (
    sampled-raises parameters,
    λ r.
        ap sampled r.split
        ∙ raises-sampled r.before r.after r.entry r.input r.behavior r.has_input r.has_behavior
            r.raises,
  )
