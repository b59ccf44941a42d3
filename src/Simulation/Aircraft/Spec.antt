-- ===== src/Simulation/Aircraft/Spec.antt =====
-- libs/simulation/aircraft/spec.py: AircraftSpec.validate. Of a module's spec it reads the id and
-- the names of the ports.
pub mod Distinct
pub mod Valid
use s3ntinel.Prelude.{
  ℕ, zero, suc, ◌+◌, ◌≤◌, ◌==◌, ◌≡◌, ◌⊎◌, refl, sym, ap, ◌∙◌, arith, Bool, true, false, not, ◌&&◌,
  ◌||◌, Option, none, some, List, [], ◌∷◌, ◌++◌, any, length, String, str_eq, eq_iff, if◌then◌else◌,
  Bool-cases, Option-cases, inl, inr, coalesce, is_some,
}
use s3ntinel.Prelude.Dict.{Dict, lookup, insert, lookup-insert}
use s3ntinel.Simulation.Coupling.Gates.{CouplingGates}

pub record ModuleSpec : Type 0 where
  pub module_id : String
  pub input_ports : List String
  pub output_ports : List String

pub record SubsystemSpec : Type 0 where
  pub subsystem_id : String
  pub modules : List ModuleSpec

pub record SystemSpec : Type 0 where
  pub system_id : String
  pub subsystems : List SubsystemSpec

pub record CouplingSpec : Type 0 where
  pub source_module_id : String
  pub source_port_name : String
  pub target_module_id : String
  pub target_port_name : String
  pub gates : CouplingGates

pub record AircraftSpec : Type 0 where
  pub aircraft_id : String
  pub systems : List SystemSpec
  pub couplings : List CouplingSpec

pub data SpecError : Type 0 where
  duplicate_modules unknown_source unknown_target unknown_source_port unknown_target_port
        unnamed_source_mode unnamed_target_mode :
      SpecError

abbrev modules_of : List SubsystemSpec → List ModuleSpec
modules_of [] = []
modules_of (subsystem ∷ subsystems) = subsystem.modules ++ modules_of subsystems

abbrev modules_in : List SystemSpec → List ModuleSpec
modules_in [] = []
modules_in (system ∷ systems) = modules_of system.subsystems ++ modules_in systems

abbrev pub iter_module_specs : AircraftSpec → List ModuleSpec
iter_module_specs spec = modules_in spec.systems

-- `{module_spec.module_id: module_spec for ...}`
unfoldable pub module_by_id : List ModuleSpec → Dict ModuleSpec → Dict ModuleSpec
unfolding insert
module_by_id [] found = found
module_by_id (self ∷ specs) found = module_by_id specs (insert self.module_id self found)

abbrev pub filled : List String → Bool
filled [] = false
filled (x ∷ xs) = true

abbrev pub declares : List String → String → Bool
declares ports name = any (λ p. str_eq p name) ports

abbrev pub is_named : Option String → Bool
is_named name = not (str_eq (coalesce name "") "")

-- The checks of a coupling between modules that are there.
unfoldable pub check_ports : ModuleSpec → ModuleSpec → CouplingSpec → Option SpecError
check_ports source target coupling =
    if filled source.output_ports && not (declares source.output_ports coupling.source_port_name)
    then some unknown_source_port
    else if filled target.input_ports && not (declares target.input_ports coupling.target_port_name)
    then some unknown_target_port
    else if filled coupling.gates.source_mode_gate && not (is_named coupling.gates.source_mode_name)
    then some unnamed_source_mode
    else if filled coupling.gates.target_mode_gate && not (is_named coupling.gates.target_mode_name)
    then some unnamed_target_mode
    else none

unfoldable pub check_coupling : Dict ModuleSpec → CouplingSpec → Option SpecError
unfolding lookup check_ports
check_coupling modules coupling = elim (lookup coupling.source_module_id modules) [
  | none ↦ some unknown_source
  | some source ↦ elim (lookup coupling.target_module_id modules) [
    | none ↦ some unknown_target
    | some target ↦ check_ports source target coupling
  ]
]

abbrev pub first_error : Option SpecError → Option SpecError → Option SpecError
first_error none later = later
first_error (some error) later = some error

unfoldable pub check_couplings : Dict ModuleSpec → List CouplingSpec → Option SpecError
unfolding check_coupling
check_couplings modules [] = none
check_couplings modules (coupling ∷ couplings) =
    first_error (check_coupling modules coupling) (check_couplings modules couplings)

-- The first error, or none.
unfoldable pub validate : AircraftSpec → Option SpecError
unfolding module_by_id check_couplings
validate spec =
    let specs = iter_module_specs spec in
    let modules = module_by_id specs [] in
    if length modules == length specs
    then check_couplings modules spec.couplings
    else some duplicate_modules
