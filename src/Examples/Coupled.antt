-- ===== src/Examples/Coupled.antt =====
-- A coupling of libs/simulation/coupling/runtime.py with a lag, and a transfer that waits.
use s3ntinel.Prelude.{
  ℕ, ◌+◌, ◌*◌, ◌==◌, ltb, not, ◌≡◌, refl, false, if◌then◌else◌, none, some, [], ◌∷◌,
}
use s3ntinel.Prelude.Int.{pos, pos_part}
use s3ntinel.Simulation.Coupling.{DelayedTransfer, Signals, drive}
use s3ntinel.Simulation.Coupling.Gates.{CouplingGates}
use s3ntinel.Simulation.Coupling.Apply.{
  Lags, TransferConfig, Coupling, Target, transfer_key, key_eq, apply,
}
use s3ntinel.Simulation.Coupling.Delivery.{Delivers, apply-Delivers, waiting}

abbrev pub counts : Signals
counts = record {
  Value = ℕ;
  Double = ℕ;
  to_double = λ v. some v;
  truthy = λ v. not (v == 0);
  nonzero = λ x. not (x == 0);
  of_double = λ x. x;
  of_int = pos_part;
  mul = λ a b. a * b;
}

abbrev pub seconds : Lags counts
seconds = record {
  positive = λ x. ltb 0 x;
  same = λ a b. a == b;
  after = λ now lag. now + lag * 1000000;
}

abbrev pub open_gates : CouplingGates
open_gates = record {
  phase_gate = [];
  mode_gate = [];
  source_mode_name = none;
  source_mode_gate = [];
  target_mode_name = none;
  target_mode_gate = [];
}

abbrev pub bleed_air : Coupling counts
bleed_air = record {
  source_module_id = "engine";
  source_port_name = "bleed";
  target_module_id = "ecs";
  target_port_name = "supply";
  relation_type = drive;
  gain = 3;
  sign = pos 1;
  lag_seconds = 2;
  gates = open_gates;
  explicit_id = none;
}

abbrev two_seconds : TransferConfig counts
two_seconds = record {
  gain = 3;
  sign = pos 1;
  lag_seconds = 2;
  ignore_phase_gate = false;
  break_coupling = false;
}

abbrev early : DelayedTransfer ℕ
early = record { effective_timestamp_utc = 4000000; value = some 6; metadata = [] }

abbrev pub idle : Target counts
idle = record {
  port = record { current_value = none; timestamp_utc = none; metadata = [] };
  queues = λ key.
      if key_eq counts seconds (transfer_key counts seconds bleed_air two_seconds) key
      then some (early ∷ [])
      else none;
  modes = [];
}

-- At the sixth second the early transfer arrives, and the new one waits until the eighth.
arrives :
    (apply counts seconds bleed_air two_seconds [] (some 5) (some 6000000) [] none idle).0.port
    ≡ record { current_value = some 6; timestamp_utc = some 4000000; metadata = [] }
unfolding apply key_eq
arrives = refl

waits :
    waiting counts seconds
      (apply counts seconds bleed_air two_seconds [] (some 5) (some 6000000) [] none idle).0.queues
      (transfer_key counts seconds bleed_air two_seconds)
    ≡ record { effective_timestamp_utc = 8000000; value = some 15; metadata = [] } ∷ []
unfolding apply key_eq transfer_key
waits = refl

apply-Delivers_example :
    Delivers counts seconds bleed_air two_seconds []
      (some 5)
      []
      none
      6000000
      idle
      (apply counts seconds bleed_air two_seconds [] (some 5) (some 6000000) [] none idle)
unfolding key_eq transfer_key
apply-Delivers_example =
    apply-Delivers counts seconds bleed_air two_seconds [] (some 5) [] none 6000000 idle refl refl
