-- ===== src/Simulation/Coupling/Severed.antt =====
-- libs/simulation/coupling/runtime.py: `Coupling.apply` under a coupling break.
use s3ntinel.Prelude.{
  ℕ, ◌≡◌, refl, sym, subst, ap, ◌∙◌, ◌⊎◌, inl, inr, true, false, Option, none, some, ◌∷◌, String,
  Bool-cases, Option-cases,
}
use s3ntinel.Prelude.Int.{pos}
use s3ntinel.Simulation.Coupling.{Signals, DelayedTransfer, resolve_transfer_result}
use s3ntinel.Simulation.Coupling.Gates.{Modes, CouplingGate, blocking_gate}
use s3ntinel.Simulation.Coupling.Apply.{
  Lags, TransferConfig, Coupling, Target, Metadata, CouplingExecution, blocked, suppressed_break,
  port_of, deliver, write_now, enqueue, send, apply, transfer_key,
}
use s3ntinel.Simulation.Coupling.Delivery.{drain_due_transfers-Drains}
use s3ntinel.Simulation.Coupling.Config.{
  Objects, Context, violation_type, effective_transfer_config, build_transfer_metadata,
  apply_coupling,
}
use s3ntinel.Simulation.Coupling.Effective.{effective_transfer_config-Obeys}

module _ (signals : Signals) (objects : Objects signals) (lags : Lags signals) where
  open signals use {Value, Double}

  -- What a broken coupling leaves: it sends nothing, and only what was due arrives.
  pub record Severed (target : Target signals) (after : Target signals × CouplingExecution signals)
      : Type 0 where
    pub acts : ((after.1).action ≡ blocked) ⊎ ((after.1).action ≡ suppressed_break)
    pub unscheduled : (after.1).scheduled_for_timestamp_utc ≡ none
    pub port : (after.0).port ≡ port_of signals lags (after.1).delivered_transfer target.port

  deliver-port :
      (coupling : Coupling signals) (config : TransferConfig signals) (time : Option ℕ)
      (target : Target signals)
      → (deliver signals lags coupling config time target).0.port
        ≡ port_of signals lags (deliver signals lags coupling config time target).1 target.port
  unfolding deliver
  deliver-port coupling config none target = refl
  deliver-port coupling config (some now) target =
      elim (Bool-cases (lags.positive config.lag_seconds)) [
        | inl e ↦
            let d =
              drain_due_transfers-Drains signals lags (transfer_key signals lags coupling config)
                now target in
            rw e (d.port ∙ ap (λ t. port_of signals lags t target.port) (sym d.delivered))
        | inr e ↦ rw e refl
      ]

  severed_send :
      (coupling : Coupling signals) (config : TransferConfig signals) (metadata : Metadata signals)
      (time : Option ℕ) (target : Target signals)
      → config.break_coupling ≡ true
      → ((send signals lags coupling config metadata (false, none) time target).0.port
          ≡ target.port)
        × ((send signals lags coupling config metadata (false, none) time target).1
            ≡ (suppressed_break, none))
  unfolding send enqueue write_now
  severed_send coupling config metadata none target b = (refl, rw b refl)
  severed_send coupling config metadata (some now) target b =
      elim (Bool-cases (lags.positive config.lag_seconds)) [
        | inl e ↦ (rw e refl, rw (e, b) refl)
        | inr e ↦ (rw e refl, rw (e, b) refl)
      ]

  broken_result :
      (coupling : Coupling signals) (config : TransferConfig signals) (value : Option Value)
      → config.break_coupling ≡ true
      → resolve_transfer_result signals coupling.relation_type config.gain config.sign
          config.break_coupling value
        ≡ (false, none)
  unfolding resolve_transfer_result
  broken_result coupling config value b = rw b refl

  module _ (coupling : Coupling signals) (config : TransferConfig signals)
      (metadata : Metadata signals) (value : Option Value) (time : Option ℕ) (modes : Modes)
      (label : Option String) (target : Target signals)
      (broken : config.break_coupling ≡ true) where
    abbrev gate : Option CouplingGate
    gate = blocking_gate coupling.gates modes target.modes label config.ignore_phase_gate

    abbrev applied : Target signals × CouplingExecution signals
    applied = apply signals lags coupling config metadata value time modes label target

    abbrev delivered : Target signals × Option (DelayedTransfer Value)
    delivered = deliver signals lags coupling config time target

    applied-blocked :
        (g : CouplingGate)
        → gate ≡ some g
        → applied ≡ (
          delivered.0,
          record {
            action = blocked;
            gate_block_reason = some g;
            scheduled_for_timestamp_utc = none;
            delivered_transfer = delivered.1;
          },
        )
    unfolding apply
    applied-blocked g e = rw (e, apply) refl

    applied-open :
        gate ≡ none
        → applied ≡ (
          (send signals lags coupling config metadata (false, none) time delivered.0).0,
          record {
            action = suppressed_break;
            gate_block_reason = none;
            scheduled_for_timestamp_utc = none;
            delivered_transfer = delivered.1;
          },
        )
    unfolding apply
    applied-open e =
        let sent = severed_send coupling config metadata time delivered.0 broken in
        rw (e, apply, broken_result coupling config value broken, sent.1) refl

    apply-Severed : Severed target applied
    apply-Severed = elim (Option-cases gate) [
      | inl e ↦ subst (Severed target) (sym (applied-open e)) record {
        acts = inr refl;
        unscheduled = refl;
        port =
            (severed_send coupling config metadata time delivered.0 broken).0
            ∙ deliver-port coupling config time target;
      }
      | inr (g, e) ↦ subst (Severed target) (sym (applied-blocked g e)) record {
        acts = inl refl;
        unscheduled = refl;
        port = deliver-port coupling config time target;
      }
    ]

  -- Under a context whose violation is a coupling break, and which gives a configuration, a
  -- coupling is applied to the end: it is blocked or suppressed, it schedules nothing, and the
  -- port has what was due, or what it had.
  pub apply_coupling-Severed :
      (coupling : Coupling signals) (entry : String × Option Value)
      (entries : Context signals objects) (value : Option Value) (time : Option ℕ) (modes : Modes)
      (label : Option String) (target : Target signals) (config : TransferConfig signals)
      → objects.ltb (signals.of_int (pos 0)) (signals.of_int (pos 0)) ≡ false
      → violation_type signals objects (entry ∷ entries) ≡ "coupling_break"
      → effective_transfer_config signals objects coupling (entry ∷ entries) time ≡ some config
      → (after : Target signals × CouplingExecution signals) × ((apply_coupling signals objects lags
              coupling
              (entry ∷ entries)
              value
              time
              modes
              label
              target
            ≡ some after)
          × Severed target after)
  unfolding apply_coupling
  apply_coupling-Severed coupling entry entries value time modes label target config h v e =
      let obeys =
        effective_transfer_config-Obeys signals objects coupling entry entries time config h e in
      let metadata = build_transfer_metadata signals objects coupling (entry ∷ entries) in
      (
        apply signals lags coupling config metadata value time modes label target,
        (
          rw (e, apply_coupling) refl,
          apply-Severed coupling config metadata value time modes label target (obeys.breaks v),
        ),
      )
