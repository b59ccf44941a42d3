-- ===== src/Examples/Flights.antt =====
-- A phase schedule and a coupling: libs/simulation.
use s3ntinel.Prelude.{
  ℕ, ◌%◌, ◌≡◌, refl, true, false, not, ◌&&◌, ◌||◌, inl, none, some, List, [], ◌∷◌, String, arith,
  select,
}
use s3ntinel.Prelude.Int.{pos}
use s3ntinel.Simulation.Phase.{
  PhaseSegmentSpec, ok, total_duration, label_in, HoldsStep, label_in-HoldsStep, label_in-past_end,
}
use s3ntinel.Simulation.Coupling.{DelayedTransfer, is_due, drain_due, last_or, drain_due_lem}
use s3ntinel.Simulation.Coupling.Gates.{
  CouplingGates, Modes, is_active, is_active_iff, meets, mode_value, filled, open_to,
}

abbrev taxi : PhaseSegmentSpec
taxi = record { phase_label = "taxi_out"; duration_steps = pos 3 }

abbrev cruise : PhaseSegmentSpec
cruise = record { phase_label = "cruise"; duration_steps = pos 5 }

abbrev day : List PhaseSegmentSpec
day = taxi ∷ cruise ∷ []

label_in-HoldsStep_example :
    (label : String) × (label_in true 21 day ≡ ok (some label))
    × HoldsStep (21 % total_duration day) 0 day label
label_in-HoldsStep_example =
    label_in-HoldsStep true 21 day (unfold total_duration in omega arith) (inl refl)

label_in-past_end_example : label_in false 9 day ≡ ok (some "cruise")
label_in-past_end_example =
    label_in-past_end (taxi ∷ []) cruise 9 (omega arith) (unfold total_duration in omega arith)

abbrev at : ℕ → ℕ → DelayedTransfer ℕ
at time value = record { effective_timestamp_utc = time; value = some value; metadata = [] }

abbrev queue : List (DelayedTransfer ℕ)
queue = at 5 1 ∷ at 9 2 ∷ at 3 3 ∷ []

drained : drain_due 5 queue ≡ (at 9 2 ∷ [], some (at 3 3))
unfolding drain_due
drained = refl

drain_due_lem_example :
    drain_due 5 queue
    ≡ (select (λ t. not (is_due 5 t)) queue, last_or none (select (is_due 5) queue))
drain_due_lem_example = drain_due_lem 5 queue

abbrev gated : CouplingGates
gated = record {
  phase_gate = "cruise" ∷ [];
  mode_gate = "armed" ∷ [];
  source_mode_name = none;
  source_mode_gate = [];
  target_mode_name = none;
  target_mode_gate = [];
}

abbrev armed : Modes
armed = ("pump", some "armed") ∷ []

is_active_iff_example : is_active gated armed [] (some "cruise") false ≡ (
    (false || open_to gated.phase_gate (some "cruise"))
    && open_to gated.source_mode_gate (mode_value armed gated.source_mode_name)
    && open_to gated.target_mode_gate (mode_value [] gated.target_mode_name)
    && (not (filled gated.mode_gate)
        || filled gated.source_mode_gate
        || filled gated.target_mode_gate
        || meets gated.mode_gate armed
        || meets gated.mode_gate []))
is_active_iff_example = is_active_iff gated armed [] (some "cruise") false
