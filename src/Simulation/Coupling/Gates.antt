-- ===== src/Simulation/Coupling/Gates.antt =====
-- libs/simulation/coupling/runtime.py: `_blocking_gate` and `is_active`.
use s3ntinel.Prelude.{
  ◌≡◌, Bool, true, false, not, ◌&&◌, ◌||◌, Option, none, some, List, [], ◌∷◌, String, arith, str_eq,
  if◌then◌else◌, any, is_some, coalesce,
}
use s3ntinel.Prelude.Dict.{Dict, lookup}

pub data CouplingGate : Type 0 where
  phase source_mode target_mode mode : CouplingGate

-- The fields of a coupling that the gates read.
pub record CouplingGates : Type 0 where
  pub phase_gate : List String
  pub mode_gate : List String
  pub source_mode_name : Option String
  pub source_mode_gate : List String
  pub target_mode_name : Option String
  pub target_mode_gate : List String

-- The modes of a module, as texts: `mode_state_by_name`.
abbrev pub Modes : Type 0
Modes = Dict (Option String)

abbrev pub contains : List String → String → Bool
contains gate value = any (λ g. str_eq g value) gate

abbrev pub filled : List String → Bool
filled [] = false
filled (x ∷ xs) = true

-- A gate lets a label through that is there and that it names.
unfoldable pub lets_through : List String → Option String → Bool
lets_through gate none = false
lets_through gate (some label) = contains gate label

abbrev join : Option (Option String) → Option String
join none = none
join (some value) = value

unfoldable pub mode_value : Modes → Option String → Option String
mode_value modes name = join (lookup (coalesce name "") modes)

-- `{str(value) for value in modes.values() if value}` meets the gate.
unfoldable pub meets : List String → Modes → Bool
meets gate [] = false
meets gate ((name, none) ∷ rest) = meets gate rest
meets gate ((name, some value) ∷ rest) =
    (not (str_eq value "") && contains gate value) || meets gate rest

unfoldable pub blocking_gate :
    CouplingGates → Modes → Modes → Option String → Bool → Option CouplingGate
unfolding lets_through
blocking_gate c source target current_phase_label ignore_phase_gate =
    if filled c.phase_gate
      && not ignore_phase_gate
      && not (lets_through c.phase_gate current_phase_label)
    then some phase
    else if filled c.source_mode_gate
        && not (lets_through c.source_mode_gate (mode_value source c.source_mode_name))
    then some source_mode
    else if filled c.target_mode_gate
        && not (lets_through c.target_mode_gate (mode_value target c.target_mode_name))
    then some target_mode
    else if filled c.mode_gate
        && not (filled c.source_mode_gate)
        && not (filled c.target_mode_gate)
        && not (meets c.mode_gate source || meets c.mode_gate target)
    then some mode
    else none

unfoldable pub is_active : CouplingGates → Modes → Modes → Option String → Bool → Bool
unfolding blocking_gate
is_active c source target current_phase_label ignore_phase_gate =
    not (is_some (blocking_gate c source target current_phase_label ignore_phase_gate))

-- An empty gate is open, and so is one that lets the label through.
abbrev pub open_to : List String → Option String → Bool
open_to gate label = not (filled gate) || lets_through gate label

-- A coupling is active exactly if its phase gate is empty, ignored or open to the phase, each mode
-- gate of a side is empty or open to that side's mode, and its common mode gate is empty, set
-- aside by a mode gate of a side, or met by a mode of either module.
pub is_active_iff :
    (c : CouplingGates) (source target : Modes) (label : Option String) (ignored : Bool)
    → is_active c source target label ignored ≡ (
        (ignored || open_to c.phase_gate label)
        && open_to c.source_mode_gate (mode_value source c.source_mode_name)
        && open_to c.target_mode_gate (mode_value target c.target_mode_name)
        && (not (filled c.mode_gate)
            || filled c.source_mode_gate
            || filled c.target_mode_gate
            || meets c.mode_gate source
            || meets c.mode_gate target))
unfolding is_active
is_active_iff c source target label ignored = ground arith
