-- ===== src/Simulation/Aircraft/Spec/Valid.antt =====
-- libs/simulation/aircraft/spec.py: what AircraftSpec.validate checks.
use s3ntinel.Prelude.{
  ◌==◌, ◌≡◌, ◌⊎◌, ◌↔◌, refl, ◌∙◌, arith, Bool, true, false, not, ◌&&◌, Option, none, some, List, [],
  ◌∷◌, length, String, if◌then◌else◌, inl, inr,
}
use s3ntinel.Prelude.Dict.{Dict, lookup}
use s3ntinel.Simulation.Aircraft.Spec.{
  unknown_source, unknown_target, unknown_source_port, unknown_target_port, unnamed_source_mode,
  unnamed_target_mode, ModuleSpec, CouplingSpec, AircraftSpec, SpecError, iter_module_specs,
  module_by_id, filled, declares, is_named, check_ports, check_coupling, check_couplings,
  first_error, validate, duplicate_modules,
}
use s3ntinel.Simulation.Aircraft.Spec.Distinct.{
  AllDistinct, Seen, module_by_id-AllDistinct, AllDistinct-module_by_id,
}

-- What the checks ask of a coupling.
pub record IsConnected (modules : Dict ModuleSpec) (coupling : CouplingSpec) : Type 0 where
  pub source : ModuleSpec
  pub target : ModuleSpec
  pub has_source : lookup coupling.source_module_id modules ≡ some source
  pub has_target : lookup coupling.target_module_id modules ≡ some target
  pub source_port :
      (source.output_ports ≡ []) ⊎ (declares source.output_ports coupling.source_port_name ≡ true)
  pub target_port :
      (target.input_ports ≡ []) ⊎ (declares target.input_ports coupling.target_port_name ≡ true)
  pub source_mode :
      ((coupling.gates).source_mode_gate ≡ []) ⊎ (is_named (coupling.gates).source_mode_name ≡ true)
  pub target_mode :
      ((coupling.gates).target_mode_gate ≡ []) ⊎ (is_named (coupling.gates).target_mode_name ≡ true)

abbrev pub AllConnected : Dict ModuleSpec → List CouplingSpec → Type 0
AllConnected modules [] = Unit
AllConnected modules (coupling ∷ couplings) =
    IsConnected modules coupling × AllConnected modules couplings

pub record IsValid (spec : AircraftSpec) : Type 0 where
  pub distinct : AllDistinct [] (iter_module_specs spec)
  pub connected : AllConnected (module_by_id (iter_module_specs spec) []) spec.couplings

met : (names : List String) (b : Bool) → (filled names && not b) ≡ false → (names ≡ []) ⊎ (b ≡ true)
met [] b e = inl refl
met (name ∷ names) true e = inr refl
met (name ∷ names) false e = cc

unmet :
    (names : List String) (b : Bool) → (names ≡ []) ⊎ (b ≡ true) → (filled names && not b) ≡ false
unmet names b (inl e) = rw e refl
unmet [] b (inr e) = refl
unmet (name ∷ names) b (inr e) = rw e refl

pub check_ports-none :
    (source target : ModuleSpec) (coupling : CouplingSpec)
    → check_ports source target coupling ≡ none
    → (((filled source.output_ports && not (declares source.output_ports coupling.source_port_name))
          ≡ false)
        × ((filled target.input_ports
              && not (declares target.input_ports coupling.target_port_name))
            ≡ false))
      × (((filled (coupling.gates).source_mode_gate
              && not (is_named (coupling.gates).source_mode_name))
            ≡ false)
          × ((filled (coupling.gates).target_mode_gate
                && not (is_named (coupling.gates).target_mode_name))
              ≡ false))
unfolding check_ports
check_ports-none source target coupling e =
    go (filled source.output_ports && not (declares source.output_ports coupling.source_port_name))
      (filled target.input_ports && not (declares target.input_ports coupling.target_port_name))
      (filled (coupling.gates).source_mode_gate && not (is_named (coupling.gates).source_mode_name))
      (filled (coupling.gates).target_mode_gate && not (is_named (coupling.gates).target_mode_name))
      e
  where
    go :
        (a b c d : Bool)
        → (if a
            then some unknown_source_port
            else if b
            then some unknown_target_port
            else if c
            then some unnamed_source_mode
            else if d
            then some unnamed_target_mode
            else none)
          ≡ none
        → ((a ≡ false) × (b ≡ false)) × ((c ≡ false) × (d ≡ false))
    go true b c d e = cc
    go false true c d e = cc
    go false false true d e = cc
    go false false false true e = cc
    go false false false false e = ((refl, refl), (refl, refl))

check_coupling-IsConnected :
    (modules : Dict ModuleSpec) (coupling : CouplingSpec)
    → check_coupling modules coupling ≡ none
    → IsConnected modules coupling
unfolding check_coupling
check_coupling-IsConnected modules coupling e =
    go (lookup coupling.source_module_id modules) (lookup coupling.target_module_id modules) refl
      refl e
  where
    go :
        (s t : Option ModuleSpec)
        → lookup coupling.source_module_id modules ≡ s
        → lookup coupling.target_module_id modules ≡ t
        → (elim s [
          | none ↦ some unknown_source
          | some source ↦ elim t [
            | none ↦ some unknown_target
            | some target ↦ check_ports source target coupling
          ]
        ])
          ≡ none
        → IsConnected modules coupling
    go none t at_s at_t e = cc
    go (some source) none at_s at_t e = cc
    go (some source) (some target) at_s at_t e =
        let ((a, b), (c, d)) = check_ports-none source target coupling e in
        record {
          source = source;
          target = target;
          has_source = at_s;
          has_target = at_t;
          source_port = met source.output_ports _ a;
          target_port = met target.input_ports _ b;
          source_mode = met (coupling.gates).source_mode_gate _ c;
          target_mode = met (coupling.gates).target_mode_gate _ d;
        }

IsConnected-check_coupling :
    (modules : Dict ModuleSpec) (coupling : CouplingSpec)
    → IsConnected modules coupling
    → check_coupling modules coupling ≡ none
unfolding check_coupling check_ports
IsConnected-check_coupling modules coupling c =
    rw
      (
        check_coupling,
        c.has_source,
        c.has_target,
        check_ports,
        unmet (c.source).output_ports _ c.source_port,
        unmet (c.target).input_ports _ c.target_port,
        unmet (coupling.gates).source_mode_gate _ c.source_mode,
        unmet (coupling.gates).target_mode_gate _ c.target_mode,
      )
      refl

check_couplings-AllConnected :
    (modules : Dict ModuleSpec) (couplings : List CouplingSpec)
    → check_couplings modules couplings ≡ none
    → AllConnected modules couplings
unfolding check_couplings
check_couplings-AllConnected modules [] e = tt
check_couplings-AllConnected modules (coupling ∷ couplings) e =
    let (first, later) =
      both (check_coupling modules coupling) (check_couplings modules couplings) e in
    (
      check_coupling-IsConnected modules coupling first,
      check_couplings-AllConnected modules couplings later,
    )
  where
    both : (a b : Option SpecError) → first_error a b ≡ none → (a ≡ none) × (b ≡ none)
    both none b h = (refl, h)
    both (some error) b h = cc

AllConnected-check_couplings :
    (modules : Dict ModuleSpec) (couplings : List CouplingSpec)
    → AllConnected modules couplings
    → check_couplings modules couplings ≡ none
unfolding check_couplings
AllConnected-check_couplings modules [] all = refl
AllConnected-check_couplings modules (coupling ∷ couplings) all =
    rw (IsConnected-check_coupling modules coupling all.0)
      (AllConnected-check_couplings modules couplings all.1)

passes :
    (b : Bool) (rest : Option SpecError)
    → (if b then rest else some duplicate_modules) ≡ none
    → (b ≡ true) × (rest ≡ none)
passes true rest e = (refl, e)
passes false rest e = cc

-- The checks of an aircraft's spec pass exactly if its module ids are distinct and every coupling
-- joins two of its modules, by a port that is declared or where the module declares none, and names
-- the modes that it has gates for.
pub validate_iff : (spec : AircraftSpec) → (validate spec ≡ none) ↔ IsValid spec
unfolding validate
validate_iff spec = (to, from)
  where
    specs : List ModuleSpec
    specs = iter_module_specs spec

    modules : Dict ModuleSpec
    modules = module_by_id specs []

    unseen : Seen [] []
    unseen key = refl

    to : validate spec ≡ none → IsValid spec
    to e =
        let (sized, checked) =
          passes (length modules == length specs) (check_couplings modules spec.couplings) e in
        record {
          distinct = module_by_id-AllDistinct specs [] [] unseen (ground arith);
          connected = check_couplings-AllConnected modules spec.couplings checked;
        }

    from : IsValid spec → validate spec ≡ none
    from valid =
        let sized : length modules ≡ length specs =
          AllDistinct-module_by_id specs [] [] unseen valid.distinct ∙ omega arith in
        let test : (length modules == length specs) ≡ true = ground arith in
        rw test (AllConnected-check_couplings modules spec.couplings valid.connected)
