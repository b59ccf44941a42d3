-- ===== src/Simulation/Coupling/Apply.antt =====
-- libs/simulation/coupling/runtime.py: `Coupling.apply` under a transfer configuration, with the
-- queues of delayed transfers of the target. The audit's copies of its inputs are left out.
use s3ntinel.Prelude.{
  ℕ, Bool, true, false, ◌&&◌, Option, none, some, List, [], ◌∷◌, ◌++◌, String, str_eq,
  if◌then◌else◌, coalesce,
}
use s3ntinel.Prelude.Dict.{Dict}
use s3ntinel.Prelude.Int.{ℤ, leb_ℤ}
use s3ntinel.Simulation.Coupling.{
  DelayedTransfer, drain_due, Signals, RelationType, drive, enable, inhibit, other_relation,
  resolve_transfer_result,
}
use s3ntinel.Simulation.Coupling.Gates.{CouplingGate, CouplingGates, Modes, blocking_gate}

-- What `apply` reads of doubles and of the time: `lag > 0.0`, `a == b`, and the time that a lag of
-- seconds after another is.
pub record Lags (signals : Signals) : Type 0 where
  pub positive : signals.Double → Bool
  pub same : signals.Double → signals.Double → Bool
  pub after : ℕ → signals.Double → ℕ

abbrev pub relation_text : RelationType → String
relation_text drive = "drive"
relation_text enable = "enable"
relation_text inhibit = "inhibit"
relation_text (other_relation name) = name

pub data CouplingAction : Type 0 where
  blocked suppressed_break no_write enqueued written : CouplingAction

module _ (signals : Signals) where
  open signals use {Value, Double}

  pub record TransferConfig : Type 0 where
    pub gain : Double
    pub sign : ℤ
    pub lag_seconds : Double
    pub ignore_phase_gate : Bool
    pub break_coupling : Bool

  pub record Coupling : Type 0 where
    pub source_module_id : String
    pub source_port_name : String
    pub target_module_id : String
    pub target_port_name : String
    pub relation_type : RelationType
    pub gain : Double
    pub sign : ℤ
    pub lag_seconds : Double
    pub gates : CouplingGates
    -- `metadata["coupling_id"]`, where it is there
    pub explicit_id : Option String

  pub record DelayedTransferKey : Type 0 where
    pub coupling : Coupling
    pub gain : Double
    pub sign : ℤ
    pub lag_seconds : Double

  abbrev pub Metadata : Type 0
  Metadata = Dict (Option Value)

  abbrev pub Queue : Type 0
  Queue = List (DelayedTransfer Value)

  -- `delayed_input_transfers_by_key`
  abbrev pub Queues : Type 0
  Queues = DelayedTransferKey → Option Queue

  pub record Port : Type 0 where
    pub current_value : Option Value
    pub timestamp_utc : Option ℕ
    pub metadata : Dict (Option Value)

  pub record Target : Type 0 where
    pub port : Port
    pub queues : Queues
    pub modes : Modes

  pub record CouplingExecution : Type 0 where
    pub action : CouplingAction
    pub gate_block_reason : Option CouplingGate
    pub scheduled_for_timestamp_utc : Option ℕ
    pub delivered_transfer : Option (DelayedTransfer Value)

  abbrev texts_eq : List String → List String → Bool
  texts_eq [] [] = true
  texts_eq [] (y ∷ ys) = false
  texts_eq (x ∷ xs) [] = false
  texts_eq (x ∷ xs) (y ∷ ys) = str_eq x y && texts_eq xs ys

  abbrev name_eq : Option String → Option String → Bool
  name_eq none none = true
  name_eq none (some y) = false
  name_eq (some x) none = false
  name_eq (some x) (some y) = str_eq x y

  module _ (lags : Lags signals) where
    -- `==` of keys, which leave `mode_gate` out
    unfoldable pub key_eq : DelayedTransferKey → DelayedTransferKey → Bool
    key_eq a b =
        let c = a.coupling in
        let d = b.coupling in
        str_eq c.source_module_id d.source_module_id
        && str_eq c.source_port_name d.source_port_name
        && str_eq c.target_module_id d.target_module_id
        && str_eq c.target_port_name d.target_port_name
        && str_eq (relation_text c.relation_type) (relation_text d.relation_type)
        && lags.same a.gain b.gain
        && (leb_ℤ a.sign b.sign && leb_ℤ b.sign a.sign)
        && lags.same a.lag_seconds b.lag_seconds
        && texts_eq c.gates.phase_gate d.gates.phase_gate
        && name_eq c.gates.source_mode_name d.gates.source_mode_name
        && texts_eq c.gates.source_mode_gate d.gates.source_mode_gate
        && name_eq c.gates.target_mode_name d.gates.target_mode_name
        && texts_eq c.gates.target_mode_gate d.gates.target_mode_gate

    -- Sets a key, or removes it.
    abbrev pub set : DelayedTransferKey → Option Queue → Queues → Queues
    set key entry queues other = if key_eq key other then entry else queues other

    unfoldable pub transfer_key : Coupling → TransferConfig → DelayedTransferKey
    transfer_key coupling config = record {
      coupling = coupling;
      gain = config.gain;
      sign = config.sign;
      lag_seconds = config.lag_seconds;
    }

    abbrev pub port_of : Option (DelayedTransfer Value) → Port → Port
    port_of none port = port
    port_of (some transfer) port = record {
      current_value = transfer.value;
      timestamp_utc = some transfer.effective_timestamp_utc;
      metadata = transfer.metadata;
    }

    abbrev pub queue_or_none : Queue → Option Queue
    queue_or_none [] = none
    queue_or_none (transfer ∷ rest) = some (transfer ∷ rest)

    unfoldable pub drain_due_transfers :
        DelayedTransferKey → ℕ → Target → Target × Option (DelayedTransfer Value)
    unfolding drain_due
    drain_due_transfers key now target = elim (target.queues key) [
      | none ↦ (target, none)
      | some queue ↦
          let drained = drain_due now queue in
          (
            record target {
              port = port_of drained.1 target.port;
              queues = set key (queue_or_none drained.0) target.queues;
            },
            drained.1,
          )
    ]

    -- The delivery at the start of `apply`.
    unfoldable pub deliver :
        Coupling → TransferConfig → Option ℕ → Target → Target × Option (DelayedTransfer Value)
    unfolding drain_due_transfers transfer_key
    deliver coupling config none target = (target, none)
    deliver coupling config (some now) target =
        if lags.positive config.lag_seconds
        then drain_due_transfers (transfer_key coupling config) now target
        else (target, none)

    abbrev pub unsent : TransferConfig → CouplingAction
    unsent config = if config.break_coupling then suppressed_break else no_write

    abbrev pub Sent : Type 0
    Sent = Target × (CouplingAction × Option ℕ)

    -- A write to the target's port, if there is one.
    unfoldable pub write_now :
        TransferConfig → Metadata → Bool × Option Value → Option ℕ → Target → Sent
    write_now config metadata (true, value) time target = (
      record target {
        port = record { current_value = value; timestamp_utc = time; metadata = metadata };
      },
      (written, none),
    )
    write_now config metadata (false, value) time target = (target, (unsent config, none))

    -- `setdefault` of the key's queue, and the transfer that is appended to it, if there is one.
    unfoldable pub enqueue :
        DelayedTransferKey → TransferConfig → Metadata → Bool × Option Value → ℕ → Target → Sent
    enqueue key config metadata (true, value) now target =
        let scheduled = lags.after now config.lag_seconds in
        let transfer : DelayedTransfer Value = record {
          effective_timestamp_utc = scheduled;
          value = value;
          metadata = metadata;
        } in
        (
          record target {
            queues =
                set key (some (coalesce (target.queues key) [] ++ transfer ∷ [])) target.queues;
          },
          (enqueued, some scheduled),
        )
    enqueue key config metadata (false, value) now target = (
      record target { queues = set key (some (coalesce (target.queues key) [])) target.queues },
      (unsent config, none),
    )

    -- The transfer of `apply` behind open gates, at the source's time.
    unfoldable pub send :
        Coupling → TransferConfig → Metadata → Bool × Option Value → Option ℕ → Target → Sent
    unfolding transfer_key write_now enqueue
    send coupling config metadata result none target = write_now config metadata result none target
    send coupling config metadata result (some now) target =
        if lags.positive config.lag_seconds
        then enqueue (transfer_key coupling config) config metadata result now target
        else write_now config metadata result (some now) target

    unfoldable pub apply :
        Coupling
        → TransferConfig
        → Metadata
        → Option Value
        → Option ℕ
        → Modes
        → Option String
        → Target
        → Target × CouplingExecution
    unfolding deliver send blocking_gate resolve_transfer_result
    apply coupling config metadata source_value time source_modes current_phase_label target =
        let delivered = deliver coupling config time target in
        let result =
          resolve_transfer_result signals coupling.relation_type config.gain config.sign
            config.break_coupling source_value in
        let sent = send coupling config metadata result time delivered.0 in
        elim (blocking_gate coupling.gates source_modes target.modes current_phase_label
          config.ignore_phase_gate) [
            | some gate ↦ (
              delivered.0,
              record {
                action = blocked;
                gate_block_reason = some gate;
                scheduled_for_timestamp_utc = none;
                delivered_transfer = delivered.1;
              },
            )
            | none ↦ (
              sent.0,
              record {
                action = (sent.1).0;
                gate_block_reason = none;
                scheduled_for_timestamp_utc = (sent.1).1;
                delivered_transfer = delivered.1;
              },
            )
          ]
