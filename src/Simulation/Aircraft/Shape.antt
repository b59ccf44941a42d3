-- ===== src/Simulation/Aircraft/Shape.antt =====
-- libs/simulation/aircraft/runtime.py and module/runtime.py: a step keeps the modules of an aircraft
-- and their outlines.
use mathlib.Core.Option.{some-injective}
use s3ntinel.Prelude.{◌≡◌, refl, sym, ap, ◌∙◌, true, some, List, [], ◌∷◌, String, coalesce, map}
use s3ntinel.Prelude.Dict.{Dict, lookup, mapped}
use s3ntinel.Simulation.Coupling.{Signals}
use s3ntinel.Simulation.Coupling.Apply.{Lags, Port}
use s3ntinel.Simulation.Coupling.Config.{Objects}
use s3ntinel.Simulation.Coupling.Effective.{bind-some}
use s3ntinel.Simulation.Module.Step.{StepContext, Stepped, step_module}
use s3ntinel.Simulation.Module.Keeps.{shape, with_inputs, step_module-shape}
use s3ntinel.Simulation.Module.Outline.{there, outline}
use s3ntinel.Simulation.Aircraft.{
  Subsystem, System, Store, Outgoing, Aircraft, Flown, joined, untouched, of_module, step_modules,
  step_subsystems, step_systems, without_metadata, cleared, step_aircraft,
}

module _ (signals : Signals) (objects : Objects signals) (lags : Lags signals) where
  abbrev Given : Type 0
  Given = StepContext signals objects lags

  pub step_modules-shape :
      (given : Given) (outgoing : Outgoing signals objects lags) (ids : List String)
      (flown out : Flown signals objects lags)
      → step_modules signals objects lags given outgoing ids flown ≡ some out
      → shape signals objects lags out.modules ≡ shape signals objects lags flown.modules
  unfolding step_modules
  step_modules-shape given outgoing [] flown out e =
      ap (λ (r : Flown signals objects lags). shape signals objects lags r.modules)
        (some-injective out flown (sym e))
  step_modules-shape given outgoing (id ∷ ids) flown out e =
      let next : Stepped signals objects lags → Flown signals objects lags =
        λ s. joined signals objects lags flown (of_module signals objects lags id s) in
      let (stepped, (one, rest)) =
        bind-some signals objects
          (step_module signals objects lags given id (coalesce (lookup id outgoing) [])
            flown.modules)
          (λ s. step_modules signals objects lags given outgoing ids (next s)) out e in
      step_modules-shape given outgoing ids (next stepped) out rest
      ∙ step_module-shape signals objects lags given id (coalesce (lookup id outgoing) [])
          flown.modules stepped one

  pub step_subsystems-shape :
      (given : Given) (outgoing : Outgoing signals objects lags) (subsystems : List Subsystem)
      (flown out : Flown signals objects lags)
      → step_subsystems signals objects lags given outgoing subsystems flown ≡ some out
      → shape signals objects lags out.modules ≡ shape signals objects lags flown.modules
  unfolding step_subsystems
  step_subsystems-shape given outgoing [] flown out e =
      ap (λ (r : Flown signals objects lags). shape signals objects lags r.modules)
        (some-injective out flown (sym e))
  step_subsystems-shape given outgoing (subsystem ∷ rest) flown out e =
      let first = untouched signals objects lags flown.modules in
      let (stepped, (one, e1)) =
        bind-some signals objects
          (step_modules signals objects lags given outgoing subsystem.modules first)
          (λ s.
            step_subsystems signals objects lags given outgoing rest
              (joined signals objects lags flown s))
          out e in
      step_subsystems-shape given outgoing rest (joined signals objects lags flown stepped) out e1
      ∙ step_modules-shape given outgoing subsystem.modules first stepped one

  pub step_systems-shape :
      (given : Given) (outgoing : Outgoing signals objects lags) (systems : List System)
      (flown out : Flown signals objects lags)
      → step_systems signals objects lags given outgoing systems flown ≡ some out
      → shape signals objects lags out.modules ≡ shape signals objects lags flown.modules
  unfolding step_systems
  step_systems-shape given outgoing [] flown out e =
      ap (λ (r : Flown signals objects lags). shape signals objects lags r.modules)
        (some-injective out flown (sym e))
  step_systems-shape given outgoing (system ∷ rest) flown out e =
      let first = untouched signals objects lags flown.modules in
      let (stepped, (one, e1)) =
        bind-some signals objects
          (step_subsystems signals objects lags given outgoing system.subsystems first)
          (λ s.
            step_systems signals objects lags given outgoing rest
              (joined signals objects lags flown s))
          out e in
      step_systems-shape given outgoing rest (joined signals objects lags flown stepped) out e1
      ∙ step_subsystems-shape given outgoing system.subsystems first stepped one

  there-without_metadata :
      (ports : Dict (Port signals))
      → mapped there (map (without_metadata signals objects lags) ports) ≡ mapped there ports
  unfolding mapped
  there-without_metadata [] = refl
  there-without_metadata (entry ∷ entries) =
      ap (λ r. (entry.0, true) ∷ r) (there-without_metadata entries)

  pub shape-cleared :
      (modules : Store signals objects lags)
      → shape signals objects lags (map (cleared signals objects lags) modules)
        ≡ shape signals objects lags modules
  unfolding mapped
  shape-cleared [] = refl
  shape-cleared (entry ∷ entries) =
      ap
        (λ d.
          (entry.0, with_inputs signals objects lags entry.1 d)
          ∷ shape signals objects lags (map (cleared signals objects lags) entries))
        (there-without_metadata (entry.1).input_ports)
      ∙ ap (λ r. (entry.0, outline signals objects entry.1) ∷ r) (shape-cleared entries)

  -- A step of an aircraft that returns keeps its modules, in their order, and of each its id, the
  -- names of its ports and all of its parameters but their values.
  pub step_aircraft-shape :
      (given : Given) (aircraft : Aircraft signals objects lags) (out : Flown signals objects lags)
      → step_aircraft signals objects lags given aircraft ≡ some out
      → shape signals objects lags out.modules ≡ shape signals objects lags aircraft.modules_by_id
  unfolding step_aircraft
  step_aircraft-shape given aircraft out e =
      step_systems-shape given aircraft.outgoing_couplings_by_source_module aircraft.systems
        (untouched signals objects lags (map (cleared signals objects lags) aircraft.modules_by_id))
        out e
      ∙ shape-cleared aircraft.modules_by_id
