-- ===== src/Simulation/Flight/Keeps.antt =====
-- libs/simulation/flight/runtime.py: the ticks of a flight are its steps in order, and its aircraft
-- keeps its modules.
use mathlib.Core.Option.{some-injective}
use s3ntinel.Prelude.{
  ℕ, zero, suc, ◌+◌, ◌≡◌, refl, sym, subst, ap, ◌∙◌, Option, none, some, List, [], ◌∷◌, String,
  length, arith,
}
use s3ntinel.Prelude.Int.{pos}
use s3ntinel.Prelude.Dict.{Dict, lookup, insert, merge, mapped-insert}
use s3ntinel.Simulation.Phase.{label_for_step, envelope_for_step}
use s3ntinel.Simulation.Coupling.{Signals}
use s3ntinel.Simulation.Coupling.Apply.{Lags}
use s3ntinel.Simulation.Coupling.Gates.{Modes}
use s3ntinel.Simulation.Coupling.Config.{Objects, ◌>>=◌}
use s3ntinel.Simulation.Coupling.Effective.{bind-some}
use s3ntinel.Simulation.Module.{Module, StepInputs}
use s3ntinel.Simulation.Module.Step.{Modules}
use s3ntinel.Simulation.Module.Outline.{outline}
use s3ntinel.Simulation.Module.Keeps.{shape}
use s3ntinel.Simulation.Aircraft.{Flown, step_aircraft}
use s3ntinel.Simulation.Aircraft.Shape.{step_aircraft-shape}
use s3ntinel.Simulation.Flight.{
  PhaseEnvelopeSpec, step_inputs_for_step, set_latents, set_modes, apply_to_aircraft,
  apply_to_step_inputs,
}
use s3ntinel.Simulation.Flight.Step.{
  ContextValues, returned, Flight, FlightTick, StepOptions, context_at, with_modules, advanced,
  tick_of, step_flight, iter_ticks,
}

module _ (signals : Signals) (objects : Objects signals) (lags : Lags signals) where
  open signals use {Double}

  abbrev Store : Type 0
  Store = Modules signals objects lags

  pub set_latents-shape :
      (entries : Dict (Dict Double)) (modules out : Store)
      → set_latents signals objects lags entries modules ≡ some out
      → shape signals objects lags out ≡ shape signals objects lags modules
  unfolding set_latents
  set_latents-shape [] modules out e =
      ap (shape signals objects lags) (some-injective out modules (sym e))
  set_latents-shape (entry ∷ entries) modules out e =
      let after : Module signals objects → Module signals objects =
        λ self. record self { latent_state_by_name = merge self.latent_state_by_name entry.1 } in
      let (self, (found, rest)) =
        bind-some signals objects (lookup entry.0 modules)
          (λ m. set_latents signals objects lags entries (insert entry.0 (after m) modules)) out
          e in
      set_latents-shape entries (insert entry.0 (after self) modules) out rest
      ∙ mapped-insert (outline signals objects) entry.0 self (after self) modules found refl

  pub set_modes-shape :
      (entries : Dict Modes) (modules out : Store)
      → set_modes signals objects lags entries modules ≡ some out
      → shape signals objects lags out ≡ shape signals objects lags modules
  unfolding set_modes
  set_modes-shape [] modules out e =
      ap (shape signals objects lags) (some-injective out modules (sym e))
  set_modes-shape (entry ∷ entries) modules out e =
      let after : Module signals objects → Module signals objects =
        λ self. record self { mode_state_by_name = merge self.mode_state_by_name entry.1 } in
      let (self, (found, rest)) =
        bind-some signals objects (lookup entry.0 modules)
          (λ m. set_modes signals objects lags entries (insert entry.0 (after m) modules)) out e in
      set_modes-shape entries (insert entry.0 (after self) modules) out rest
      ∙ mapped-insert (outline signals objects) entry.0 self (after self) modules found refl

  pub apply_to_aircraft-shape :
      (envelope : Option (PhaseEnvelopeSpec signals objects lags)) (modules out : Store)
      → apply_to_aircraft signals objects lags envelope modules ≡ some out
      → shape signals objects lags out ≡ shape signals objects lags modules
  unfolding apply_to_aircraft
  apply_to_aircraft-shape none modules out e =
      ap (shape signals objects lags) (some-injective out modules (sym e))
  apply_to_aircraft-shape (some envelope) modules out e =
      let (between, (e1, e2)) =
        bind-some signals objects
          (set_latents signals objects lags envelope.latent_state_by_module modules)
          (set_modes signals objects lags envelope.mode_state_by_module) out e in
      set_modes-shape envelope.mode_state_by_module between out e2
      ∙ set_latents-shape envelope.latent_state_by_module modules between e1

  module _ (values : ContextValues signals)
      (options : StepOptions signals objects lags values) where
    abbrev AnyFlight : Type 0
    AnyFlight = Flight signals objects lags values

    abbrev Tick : Type 0
    Tick = FlightTick signals objects lags values

    abbrev pub shape_of :
        AnyFlight → Dict (s3ntinel.Simulation.Module.Outline.Outline signals objects)
    shape_of flight = shape signals objects lags (flight.aircraft).modules_by_id

    -- The parts of a step that returns.
    pub record StepParts (flight : AnyFlight) (out : AnyFlight × Tick) : Type 0 where
      pub label : Option String
      pub flown : Flown signals objects lags
      pub kept : shape signals objects lags flown.modules ≡ shape_of flight
      pub result : out ≡ (
        advanced signals objects lags values options flight label flown,
        tick_of signals objects lags values options flight label flown,
      )

    pub step_flight-StepParts :
        (flight : AnyFlight) (out : AnyFlight × Tick)
        → step_flight signals objects lags values options flight ≡ some out
        → StepParts flight out
    unfolding step_flight
    step_flight-StepParts flight out e =
        let index = pos flight.step_index in
        let finish : Option String → Flown signals objects lags → AnyFlight × Tick = λ l f. (
          advanced signals objects lags values options flight l f,
          tick_of signals objects lags values options flight l f,
        ) in
        let raw =
          step_inputs_for_step signals objects lags flight.input_program index options.dt_seconds in
        let fly : Option String
            → Store
            → Dict (StepInputs signals objects)
            → Option (Flown signals objects lags) =
          λ l m i.
            step_aircraft signals objects lags
              (context_at signals objects lags values options flight l i)
              (with_modules signals objects lags values flight.aircraft m) in
        let inputs : Option (PhaseEnvelopeSpec signals objects lags)
            → Store
            → Option (Dict (StepInputs signals objects)) =
          λ v m. apply_to_step_inputs signals objects lags options.dt_seconds v m raw in
        let enter : Option (PhaseEnvelopeSpec signals objects lags) → Option Store =
          λ v. apply_to_aircraft signals objects lags v (flight.aircraft).modules_by_id in
        let (label, (_, e1)) =
          bind-some signals objects (returned (label_for_step flight.phase_program index))
            (λ l. returned (envelope_for_step flight.phase_program index) >>= λ v.
              enter v >>= λ m. inputs v m >>= λ i. fly l m i >>= λ f. some (finish l f))
            out e in
        let (envelope, (_, e2)) =
          bind-some signals objects (returned (envelope_for_step flight.phase_program index))
            (λ v. enter v >>= λ m. inputs v m >>= λ i. fly label m i >>= λ f. some (finish label f))
            out e1 in
        let (modules, (entered, e3)) =
          bind-some signals objects (enter envelope)
            (λ m. inputs envelope m >>= λ i. fly label m i >>= λ f. some (finish label f)) out e2 in
        let (step_inputs, (_, e4)) =
          bind-some signals objects (inputs envelope modules)
            (λ i. fly label modules i >>= λ f. some (finish label f)) out e3 in
        let (flown, (flew, e5)) =
          bind-some signals objects (fly label modules step_inputs) (λ f. some (finish label f)) out
            e4 in
        record {
          label = label;
          flown = flown;
          kept =
              step_aircraft-shape signals objects lags
                (context_at signals objects lags values options flight label step_inputs)
                (with_modules signals objects lags values flight.aircraft modules) flown flew
              ∙ apply_to_aircraft-shape envelope (flight.aircraft).modules_by_id modules entered;
          result = some-injective out (finish label flown) (sym e5);
        }

    -- Ticks of consecutive steps, from the given one.
    abbrev pub StepsFrom : ℕ → List Tick → Type 0
    StepsFrom n [] = Unit
    StepsFrom n (tick ∷ ticks) = (tick.step_index ≡ n) × StepsFrom (suc n) ticks

    pub record IsFlown (n : ℕ) (flight : AnyFlight) (out : AnyFlight × List Tick) : Type 0 where
      pub count : length out.1 ≡ n
      pub steps : StepsFrom flight.step_index out.1
      pub counter : (out.0).step_index ≡ flight.step_index + n
      pub systems : ((out.0).aircraft).systems ≡ (flight.aircraft).systems
      pub kept : shape_of out.0 ≡ shape_of flight

    pub iter_ticks-IsFlown :
        (n : ℕ) (flight : AnyFlight) (out : AnyFlight × List Tick)
        → iter_ticks signals objects lags values options n flight ≡ some out
        → IsFlown n flight out
    unfolding iter_ticks
    iter_ticks-IsFlown zero flight out e =
        subst (IsFlown zero flight) (some-injective (flight, []) out e)
          record { count = refl; steps = tt; counter = omega arith; systems = refl; kept = refl }
    iter_ticks-IsFlown (suc n) flight out e =
        let (stepped, (e1, e2)) =
          bind-some signals objects (step_flight signals objects lags values options flight)
            (λ s.
              iter_ticks signals objects lags values options n s.0 >>= λ r. some (r.0, s.1 ∷ r.1))
            out e in
        let (rest, (e3, e4)) =
          bind-some signals objects (iter_ticks signals objects lags values options n stepped.0)
            (λ r. some (r.0, stepped.1 ∷ r.1)) out e2 in
        let parts = step_flight-StepParts flight stepped e1 in
        let later = iter_ticks-IsFlown n stepped.0 rest e3 in
        let next : (stepped.0).step_index ≡ suc flight.step_index =
          ap (λ (s : AnyFlight × Tick). (s.0).step_index) parts.result ∙ omega arith in
        subst (IsFlown (suc n) flight) (some-injective (rest.0, stepped.1 ∷ rest.1) out e4) record {
          count = ap suc later.count;
          steps = (
            ap (λ (s : AnyFlight × Tick). (s.1).step_index) parts.result,
            subst (λ k. StepsFrom k rest.1) next later.steps,
          );
          counter = later.counter ∙ ap (λ k. k + n) next ∙ omega arith;
          systems =
              later.systems ∙ ap (λ (s : AnyFlight × Tick). ((s.0).aircraft).systems) parts.result;
          kept = later.kept ∙ ap (λ (s : AnyFlight × Tick). shape_of s.0) parts.result ∙ parts.kept;
        }
