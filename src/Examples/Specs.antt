-- ===== src/Examples/Specs.antt =====
-- An aircraft's spec, and one whose modules declare no ports: libs/simulation/aircraft/spec.py.
use s3ntinel.Prelude.{◌≡◌, ◌↔◌, refl, none, some, [], ◌∷◌, List, String}
use s3ntinel.Simulation.Aircraft.Spec.{
  ModuleSpec, CouplingSpec, AircraftSpec, unknown_target_port, validate,
}
use s3ntinel.Simulation.Aircraft.Spec.Valid.{IsValid, validate_iff}
use s3ntinel.Examples.Coupled.{open_gates}

abbrev module_with : String → List String → List String → ModuleSpec
module_with id inputs outputs = record {
  module_id = id;
  input_ports = inputs;
  output_ports = outputs;
}

abbrev bleed : CouplingSpec
bleed = record {
  source_module_id = "engine";
  source_port_name = "bleed";
  target_module_id = "ecs";
  target_port_name = "supply";
  gates = open_gates;
}

abbrev spec_of : List String → AircraftSpec
spec_of inputs = record {
  aircraft_id = "plane";
  systems =
      record {
        system_id = "air";
        subsystems =
            record {
              subsystem_id = "bleed";
              modules = module_with "engine" [] ("bleed" ∷ []) ∷ module_with "ecs" inputs [] ∷ [];
            }
            ∷ [];
      }
      ∷ [];
  couplings = bleed ∷ [];
}

passes : validate (spec_of ("supply" ∷ [])) ≡ none
unfolding validate
passes = refl

fails : validate (spec_of ("demand" ∷ [])) ≡ some unknown_target_port
unfolding validate
fails = refl

-- A target with no ports passes; a step of its aircraft finds no port of that name.
passes_portless : validate (spec_of []) ≡ none
unfolding validate
passes_portless = refl

validate_iff_example :
    (validate (spec_of ("supply" ∷ [])) ≡ none) ↔ IsValid (spec_of ("supply" ∷ []))
validate_iff_example = validate_iff (spec_of ("supply" ∷ []))
