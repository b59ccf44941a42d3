-- ===== src/Simulation/Flight/Total.antt =====
-- libs/simulation/flight/runtime.py: all the ticks of a flight are drawn, if its programs name what
-- its aircraft has.
use s3ntinel.Prelude.{ℕ, ◌≡◌, Option, some, List, [], ◌∷◌, String}
use s3ntinel.Prelude.Int.{pos}
use s3ntinel.Prelude.Dict.{Dict, lookup, mapped}
use s3ntinel.Simulation.Phase.{label_for_step, envelope_for_step}
use s3ntinel.Simulation.Coupling.{Signals}
use s3ntinel.Simulation.Coupling.Apply.{Lags}
use s3ntinel.Simulation.Coupling.Config.{Objects}
use s3ntinel.Simulation.Module.Step.{Modules, StepContext}
use s3ntinel.Simulation.Module.Outline.{Outline}
use s3ntinel.Simulation.Module.Keys.{Returns}
use s3ntinel.Simulation.Module.Returns.{AllBehaved}
use s3ntinel.Simulation.Aircraft.{Subsystem, System}
use s3ntinel.Simulation.Aircraft.Total.{OutgoingWired}
use s3ntinel.Simulation.Flight.{PhaseEnvelopeSpec, step_template}
use s3ntinel.Simulation.Flight.Step.{
  ContextValues, returned, Flight, FlightTick, StepOptions, as_context, misbehaviors_at,
}
use s3ntinel.Simulation.Flight.Named.{NamesParameters}
use s3ntinel.Simulation.Flight.Envelopes.{NamesEnvelope}

module _ (signals : Signals) (objects : Objects signals) (lags : Lags signals) where
  open signals use {Double}

  abbrev Store : Type 0
  Store = Modules signals objects lags

  abbrev Shape : Type 0
  Shape = Dict (Outline signals objects)

  abbrev Envelope : Type 0
  Envelope = PhaseEnvelopeSpec signals objects lags

  -- A module that is there under its id, with behaviors that name their samples.
  pub record IsThere (sh : Shape) (id : String) : Type 0 where
    pub outline : Outline signals objects
    pub found : lookup id sh ≡ some outline
    pub own_id : outline.id ≡ id
    pub behaved : AllBehaved signals objects outline.parameters

  abbrev pub ModulesThere : Shape → List String → Type 0
  ModulesThere sh [] = Unit
  ModulesThere sh (id ∷ ids) = IsThere sh id × ModulesThere sh ids

  abbrev pub SubsystemsThere : Shape → List Subsystem → Type 0
  SubsystemsThere sh [] = Unit
  SubsystemsThere sh (subsystem ∷ rest) =
      ModulesThere sh subsystem.modules × SubsystemsThere sh rest

  abbrev pub SystemsThere : Shape → List System → Type 0
  SystemsThere sh [] = Unit
  SystemsThere sh (system ∷ rest) = SubsystemsThere sh system.subsystems × SystemsThere sh rest

  module _ (values : ContextValues signals)
      (options : StepOptions signals objects lags values) where
    abbrev AnyFlight : Type 0
    AnyFlight = Flight signals objects lags values

    abbrev Tick : Type 0
    Tick = FlightTick signals objects lags values

    abbrev at_step : ℕ → AnyFlight → AnyFlight
    at_step index flight = record flight { step_index = index }

    -- At every step there are a label and an envelope, the programs name modules and parameters of
    -- the aircraft, and its couplings are wired under the step's misbehaviors.
    pub record IsFlyable (sh : Shape) (flight : AnyFlight) : Type 0 where
      pub labels :
          (index : ℕ) → Returns (returned (label_for_step flight.phase_program (pos index)))
      pub envelopes :
          (index : ℕ)
          → (envelope : Option Envelope) × ((returned
                  (envelope_for_step flight.phase_program (pos index))
                ≡ some envelope)
              × NamesEnvelope signals objects lags sh envelope)
      pub inputs :
          (index : ℕ)
          → NamesParameters signals objects lags sh
              (step_template signals objects lags flight.input_program (pos index))
      pub systems : SystemsThere sh (flight.aircraft).systems
      pub wired :
          (index : ℕ) (given : StepContext signals objects lags)
          → given.coupling_context_by_id
            ≡ mapped
                (as_context signals objects lags values)
                (misbehaviors_at signals objects lags values options
                  (at_step index flight)).coupling_context_by_id
          → OutgoingWired signals objects lags given
              (flight.aircraft).outgoing_couplings_by_source_module
              sh
