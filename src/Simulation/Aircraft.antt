-- ===== src/Simulation/Aircraft.antt =====
-- libs/simulation/aircraft/runtime.py, system/runtime.py and subsystem/runtime.py: one step of an
-- aircraft, its modules in the order of its systems and subsystems.
pub mod Shape
pub mod Total
pub mod Spec
use s3ntinel.Prelude.{Option, none, some, List, [], ◌∷◌, ◌++◌, String, coalesce, map, foldl}
use s3ntinel.Prelude.Dict.{Dict, lookup, insert, merge}
use s3ntinel.Simulation.Coupling.{Signals}
use s3ntinel.Simulation.Coupling.Apply.{Lags, Port, Coupling, CouplingExecution}
use s3ntinel.Simulation.Coupling.Config.{Objects, ◌>>=◌}
use s3ntinel.Simulation.Module.{BehaviorSample, Module}
use s3ntinel.Simulation.Module.Step.{Modules, StepContext, Stepped, step_module}

-- The modules of a subsystem by their ids: the objects are those of `modules_by_id`.
pub record Subsystem : Type 0 where
  pub id : String
  pub modules : List String

pub record System : Type 0 where
  pub id : String
  pub subsystems : List Subsystem

module _ (signals : Signals) (objects : Objects signals) (lags : Lags signals) where
  abbrev pub Store : Type 0
  Store = Modules signals objects lags

  abbrev pub Outgoing : Type 0
  Outgoing = Dict (List (Coupling signals))

  -- `Coupling.group_by_source_module`: `grouped.setdefault(source, []).append(coupling)`.
  unfoldable pub group_by_source_module : List (Coupling signals) → Outgoing → Outgoing
  unfolding lookup insert
  group_by_source_module [] grouped = grouped
  group_by_source_module (coupling ∷ couplings) grouped =
      let source = coupling.source_module_id in
      group_by_source_module couplings
        (insert source (coalesce (lookup source grouped) [] ++ coupling ∷ []) grouped)

  pub record Aircraft : Type 0 where
    pub id : String
    pub systems : List System
    pub modules_by_id : Store
    pub outgoing_couplings_by_source_module : Outgoing

  -- The samples by module id, and the executions, which `audit_sink` collects.
  pub record Flown : Type 0 where
    pub modules : Store
    pub samples_by_module_id : Dict (List (BehaviorSample signals objects))
    pub executions : List (CouplingExecution signals)

  abbrev Given : Type 0
  Given = StepContext signals objects lags

  -- `samples_by_module_id.update(...)` of a later part.
  abbrev pub joined : Flown → Flown → Flown
  joined first next = record {
    modules = next.modules;
    samples_by_module_id = merge first.samples_by_module_id next.samples_by_module_id;
    executions = first.executions ++ next.executions;
  }

  abbrev pub untouched : Store → Flown
  untouched modules = record { modules = modules; samples_by_module_id = []; executions = [] }

  abbrev of_module : String → Stepped signals objects lags → Flown
  of_module module_id stepped = record {
    modules = stepped.modules;
    samples_by_module_id = (module_id, stepped.samples) ∷ [];
    executions = stepped.executions;
  }

  -- The loop of `Subsystem.step`.
  unfoldable pub step_modules : Given → Outgoing → List String → Flown → Option Flown
  unfolding lookup step_module merge
  step_modules given outgoing [] flown = some flown
  step_modules given outgoing (module_id ∷ rest) flown =
      step_module signals objects lags given module_id (coalesce (lookup module_id outgoing) [])
        flown.modules
      >>= λ stepped. step_modules given outgoing rest (joined flown (of_module module_id stepped))

  -- The loop of `System.step`.
  unfoldable pub step_subsystems : Given → Outgoing → List Subsystem → Flown → Option Flown
  unfolding step_modules merge
  step_subsystems given outgoing [] flown = some flown
  step_subsystems given outgoing (subsystem ∷ rest) flown =
      step_modules given outgoing subsystem.modules (untouched flown.modules) >>= λ stepped.
      step_subsystems given outgoing rest (joined flown stepped)

  -- The loop of `Aircraft.step`.
  unfoldable pub step_systems : Given → Outgoing → List System → Flown → Option Flown
  unfolding step_subsystems merge
  step_systems given outgoing [] flown = some flown
  step_systems given outgoing (system ∷ rest) flown =
      step_subsystems given outgoing system.subsystems (untouched flown.modules) >>= λ stepped.
      step_systems given outgoing rest (joined flown stepped)

  abbrev pub without_metadata : String × Port signals → String × Port signals
  without_metadata entry = (entry.0, record (entry.1) { metadata = [] })

  abbrev pub cleared : String × Module signals objects → String × Module signals objects
  cleared entry =
      (entry.0, record (entry.1) { input_ports = map without_metadata (entry.1).input_ports })

  unfoldable pub step_aircraft : Given → Aircraft → Option Flown
  unfolding step_systems
  step_aircraft given aircraft =
      step_systems given aircraft.outgoing_couplings_by_source_module aircraft.systems
        (untouched (map cleared aircraft.modules_by_id))
