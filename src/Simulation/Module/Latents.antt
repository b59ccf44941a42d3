-- ===== src/Simulation/Module/Latents.antt =====
-- libs/simulation/module/runtime.py: what the updates leave in a module's latent state.
use mathlib.Core.Option.{some-injective}
use s3ntinel.Prelude.{
  ◌≡◌, refl, sym, ap, ◌∙◌, false, Option, none, some, List, [], ◌∷◌, String, str_eq, if◌then◌else◌,
  Bool-cases, inl, inr,
}
use s3ntinel.Prelude.Dict.{Dict, lookup, lookup-insert}
use s3ntinel.Simulation.Coupling.{Signals}
use s3ntinel.Simulation.Coupling.Apply.{Port}
use s3ntinel.Simulation.Coupling.Config.{Objects, Context}
use s3ntinel.Simulation.Module.{
  LatentUpdate, Module, StepInputs, at_least, at_most, resolve_value, context_values_of,
  updated_latents, apply_latent_updates,
}

module _ (signals : Signals) (objects : Objects signals) where
  open signals use {Value, Double}

  -- A value within the bounds of an update, where its lower bound is not above its upper one.
  pub record IsClamped (update : LatentUpdate signals objects) (value : Double) : Type 0 where
    pub low :
        (least : Double)
        → update.clamp_min ≡ some least
        → ((most : Double) → update.clamp_max ≡ some most → objects.ltb most least ≡ false)
        → objects.ltb value least ≡ false
    pub high : (most : Double) → update.clamp_max ≡ some most → objects.ltb most value ≡ false

  -- The last update of a name, or the one found so far.
  unfoldable pub last_update :
      String
      → List (LatentUpdate signals objects)
      → Option (LatentUpdate signals objects)
      → Option (LatentUpdate signals objects)
  last_update name [] found = found
  last_update name (update ∷ updates) found =
      last_update name updates (if str_eq update.latent_name name then some update else found)

  module _ (irreflexive : (a : Double) → objects.ltb a a ≡ false) where
    at_least-low :
        (bound : Option Double) (least value : Double)
        → bound ≡ some least
        → objects.ltb (at_least signals objects bound value) least ≡ false
    at_least-low none least value e = cc
    at_least-low (some l) least value e = elim (Bool-cases (objects.ltb value l)) [
      | inl h ↦ rw (h, sym (some-injective l least e)) (irreflexive l)
      | inr h ↦ rw (h, sym (some-injective l least e)) h
    ]

    at_most-low :
        (bound : Option Double) (least value : Double)
        → ((most : Double) → bound ≡ some most → objects.ltb most least ≡ false)
        → objects.ltb value least ≡ false
        → objects.ltb (at_most signals objects bound value) least ≡ false
    at_most-low none least value apart h = h
    at_most-low (some most) least value apart h = elim (Bool-cases (objects.ltb most value)) [
      | inl e ↦ rw e (apart most refl)
      | inr e ↦ rw e h
    ]

    at_most-high :
        (bound : Option Double) (most value : Double)
        → bound ≡ some most
        → objects.ltb most (at_most signals objects bound value) ≡ false
    at_most-high none most value e = cc
    at_most-high (some m) most value e = elim (Bool-cases (objects.ltb m value)) [
      | inl h ↦ rw (h, sym (some-injective m most e)) (irreflexive m)
      | inr h ↦ rw (h, sym (some-injective m most e)) h
    ]

    resolve_value-IsClamped :
        (update : LatentUpdate signals objects) (ports : Dict (Port signals))
        (context_values : Context signals objects)
        → IsClamped update (resolve_value signals objects update ports context_values)
    unfolding resolve_value
    resolve_value-IsClamped update ports context_values = record {
      low = λ least e apart.
          at_most-low update.clamp_max least _ apart (at_least-low update.clamp_min least _ e);
      high = λ most e. at_most-high update.clamp_max most _ e;
    }

  abbrev held :
      Dict (Port signals)
      → Context signals objects
      → Option Double
      → Option (LatentUpdate signals objects)
      → Option Double
  held ports context_values before none = before
  held ports context_values before (some update) =
      some (resolve_value signals objects update ports context_values)

  lookup-updated_latents :
      (name : String) (ports : Dict (Port signals)) (context_values : Context signals objects)
      (before : Option Double) (updates : List (LatentUpdate signals objects))
      (latents : Dict Double) (found : Option (LatentUpdate signals objects))
      → lookup name latents ≡ held ports context_values before found
      → lookup name (updated_latents signals objects ports context_values updates latents)
        ≡ held ports context_values before (last_update name updates found)
  unfolding updated_latents last_update
  lookup-updated_latents name ports context_values before [] latents found e = e
  lookup-updated_latents name ports context_values before (update ∷ updates) latents found e =
      lookup-updated_latents name ports context_values before updates _ _ (
        lookup-insert name update.latent_name
          (resolve_value signals objects update ports context_values) latents
        ∙ elim (Bool-cases (str_eq update.latent_name name)) [ inl h ↦ rw h refl | inr h ↦ rw h e ])

  -- A latent after the updates of a module: what its last update gives, within that one's bounds,
  -- or what it was.
  pub record HasLatest (name : String) (self after : Module signals objects) : Type 0 where
    pub updated :
        (update : LatentUpdate signals objects)
        → last_update name self.latent_updates none ≡ some update
        → (value : Double) × ((lookup name after.latent_state_by_name ≡ some value)
            × IsClamped update value)
    pub kept :
        last_update name self.latent_updates none ≡ none
        → lookup name after.latent_state_by_name ≡ lookup name self.latent_state_by_name

  -- After the updates of a module, a latent that an update names has a value that is not above the
  -- upper bound of the last such update, nor below its lower bound if that is not above the upper
  -- one; another latent has what it had. Doubles are not less than themselves.
  pub apply_latent_updates-HasLatest :
      (name : String) (self : Module signals objects) (step_inputs : StepInputs signals objects)
      → ((a : Double) → objects.ltb a a ≡ false)
      → HasLatest name self (apply_latent_updates signals objects self step_inputs)
  unfolding apply_latent_updates
  apply_latent_updates-HasLatest name self step_inputs irreflexive =
      let context_values = context_values_of signals objects step_inputs [] in
      let found =
        lookup-updated_latents name self.input_ports context_values
          (lookup name self.latent_state_by_name) self.latent_updates self.latent_state_by_name none
          refl in
      record {
        updated = λ update e. (
          resolve_value signals objects update self.input_ports context_values,
          (
            found
                ∙ ap (held self.input_ports context_values (lookup name self.latent_state_by_name))
                    e,
            resolve_value-IsClamped irreflexive update self.input_ports context_values,
          ),
        );
        kept = λ e.
            found
            ∙ ap (held self.input_ports context_values (lookup name self.latent_state_by_name)) e;
      }
