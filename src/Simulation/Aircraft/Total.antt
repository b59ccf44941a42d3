-- ===== src/Simulation/Aircraft/Total.antt =====
-- libs/simulation/aircraft/runtime.py: a step of a wired aircraft raises nothing.
use s3ntinel.Prelude.{◌≡◌, refl, sym, subst, some, List, [], ◌∷◌, map, String, coalesce}
use s3ntinel.Prelude.Dict.{Dict, lookup}
use s3ntinel.Simulation.Coupling.{Signals}
use s3ntinel.Simulation.Coupling.Apply.{Lags}
use s3ntinel.Simulation.Coupling.Config.{Objects}
use s3ntinel.Simulation.Module.Step.{StepContext, step_module}
use s3ntinel.Simulation.Module.Outline.{Outline}
use s3ntinel.Simulation.Module.Keeps.{shape, step_module-shape}
use s3ntinel.Simulation.Module.Keys.{Returns, bind-Returns}
use s3ntinel.Simulation.Module.Total.{IsReady, AllWired, step_module-Returns}
use s3ntinel.Simulation.Aircraft.{
  Subsystem, System, Outgoing, Aircraft, Flown, joined, untouched, of_module, step_modules,
  step_subsystems, step_systems, cleared, step_aircraft,
}
use s3ntinel.Simulation.Aircraft.Shape.{step_modules-shape, step_subsystems-shape, shape-cleared}

module _ (signals : Signals) (objects : Objects signals) (lags : Lags signals) where
  abbrev Given : Type 0
  Given = StepContext signals objects lags

  abbrev Shape : Type 0
  Shape = Dict (Outline signals objects)

  -- A module that is there and ready.
  pub record IsSteppable (given : Given) (sh : Shape) (module_id : String) : Type 0 where
    pub outline : Outline signals objects
    pub there : lookup module_id sh ≡ some outline
    pub ready : IsReady signals objects lags given outline

  abbrev pub AllModules : Given → Shape → List String → Type 0
  AllModules given sh [] = Unit
  AllModules given sh (id ∷ ids) = IsSteppable given sh id × AllModules given sh ids

  abbrev pub AllSubsystems : Given → Shape → List Subsystem → Type 0
  AllSubsystems given sh [] = Unit
  AllSubsystems given sh (subsystem ∷ rest) =
      AllModules given sh subsystem.modules × AllSubsystems given sh rest

  abbrev pub AllSystems : Given → Shape → List System → Type 0
  AllSystems given sh [] = Unit
  AllSystems given sh (system ∷ rest) =
      AllSubsystems given sh system.subsystems × AllSystems given sh rest

  abbrev pub OutgoingWired : Given → Outgoing signals objects lags → Shape → Type 0
  OutgoingWired given outgoing sh =
      (id : String) → AllWired signals objects lags given sh (coalesce (lookup id outgoing) [])

  step_modules-Returns :
      (given : Given) (outgoing : Outgoing signals objects lags) (ids : List String)
      (flown : Flown signals objects lags)
      → OutgoingWired given outgoing (shape signals objects lags flown.modules)
      → AllModules given (shape signals objects lags flown.modules) ids
      → Returns (step_modules signals objects lags given outgoing ids flown)
  unfolding step_modules
  step_modules-Returns given outgoing [] flown wired all = (flown, refl)
  step_modules-Returns given outgoing (id ∷ ids) flown wired all =
      bind-Returns
        (step_module signals objects lags given id (coalesce (lookup id outgoing) []) flown.modules)
        (λ s.
          step_modules signals objects lags given outgoing ids
            (joined signals objects lags flown (of_module signals objects lags id s)))
        (step_module-Returns signals objects lags given id (coalesce (lookup id outgoing) [])
          flown.modules all.0.outline all.0.there all.0.ready (wired id))
        (λ s e.
          let kept =
            step_module-shape signals objects lags given id (coalesce (lookup id outgoing) [])
              flown.modules s e in
          step_modules-Returns given outgoing ids
            (joined signals objects lags flown (of_module signals objects lags id s))
            (subst (OutgoingWired given outgoing) (sym kept) wired)
            (subst (λ sh. AllModules given sh ids) (sym kept) all.1))

  step_subsystems-Returns :
      (given : Given) (outgoing : Outgoing signals objects lags) (subsystems : List Subsystem)
      (flown : Flown signals objects lags)
      → OutgoingWired given outgoing (shape signals objects lags flown.modules)
      → AllSubsystems given (shape signals objects lags flown.modules) subsystems
      → Returns (step_subsystems signals objects lags given outgoing subsystems flown)
  unfolding step_subsystems
  step_subsystems-Returns given outgoing [] flown wired all = (flown, refl)
  step_subsystems-Returns given outgoing (subsystem ∷ rest) flown wired all =
      let first = untouched signals objects lags flown.modules in
      bind-Returns (step_modules signals objects lags given outgoing subsystem.modules first)
        (λ s.
          step_subsystems signals objects lags given outgoing rest
            (joined signals objects lags flown s))
        (step_modules-Returns given outgoing subsystem.modules first wired all.0)
        (λ s e.
          let kept =
            step_modules-shape signals objects lags given outgoing subsystem.modules first s e in
          step_subsystems-Returns given outgoing rest (joined signals objects lags flown s)
            (subst (OutgoingWired given outgoing) (sym kept) wired)
            (subst (λ sh. AllSubsystems given sh rest) (sym kept) all.1))

  step_systems-Returns :
      (given : Given) (outgoing : Outgoing signals objects lags) (systems : List System)
      (flown : Flown signals objects lags)
      → OutgoingWired given outgoing (shape signals objects lags flown.modules)
      → AllSystems given (shape signals objects lags flown.modules) systems
      → Returns (step_systems signals objects lags given outgoing systems flown)
  unfolding step_systems
  step_systems-Returns given outgoing [] flown wired all = (flown, refl)
  step_systems-Returns given outgoing (system ∷ rest) flown wired all =
      let first = untouched signals objects lags flown.modules in
      bind-Returns (step_subsystems signals objects lags given outgoing system.subsystems first)
        (λ s.
          step_systems signals objects lags given outgoing rest
            (joined signals objects lags flown s))
        (step_subsystems-Returns given outgoing system.subsystems first wired all.0)
        (λ s e.
          let kept =
            step_subsystems-shape signals objects lags given outgoing system.subsystems first s e in
          step_systems-Returns given outgoing rest (joined signals objects lags flown s)
            (subst (OutgoingWired given outgoing) (sym kept) wired)
            (subst (λ sh. AllSystems given sh rest) (sym kept) all.1))

  pub step_aircraft-Returns :
      (given : Given) (aircraft : Aircraft signals objects lags)
      → OutgoingWired given aircraft.outgoing_couplings_by_source_module
          (shape signals objects lags aircraft.modules_by_id)
      → AllSystems given (shape signals objects lags aircraft.modules_by_id) aircraft.systems
      → Returns (step_aircraft signals objects lags given aircraft)
  unfolding step_aircraft
  step_aircraft-Returns given aircraft wired all =
      let kept = shape-cleared signals objects lags aircraft.modules_by_id in
      step_systems-Returns given aircraft.outgoing_couplings_by_source_module aircraft.systems
        (untouched signals objects lags (map (cleared signals objects lags) aircraft.modules_by_id))
        (subst (OutgoingWired given aircraft.outgoing_couplings_by_source_module) (sym kept) wired)
        (subst (λ sh. AllSystems given sh aircraft.systems) (sym kept) all)
