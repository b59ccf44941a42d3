-- ===== src/Simulation/Coupling/Delivery.antt =====
-- libs/simulation/coupling/runtime.py: what `Coupling.apply` delivers, and what waits after it.
use s3ntinel.Prelude.{
  ℕ, ◌≡◌, refl, sym, subst, ap, ◌∙◌, Bool, true, false, not, Option, none, some, [], ◌∷◌, ◌++◌,
  String, if◌then◌else◌, coalesce, select, is_some, Option-cases, inl, inr, append-nil,
}
use s3ntinel.Simulation.Coupling.{
  DelayedTransfer, is_due, last_or, drain_due_lem, Signals, resolve_transfer_result,
}
use s3ntinel.Simulation.Coupling.Gates.{CouplingGate, Modes, blocking_gate}
use s3ntinel.Simulation.Coupling.Apply.{
  Lags, TransferConfig, Coupling, DelayedTransferKey, Queue, Queues, Metadata, Target,
  CouplingExecution, key_eq, set, transfer_key, port_of, queue_or_none, drain_due_transfers,
  deliver, send, enqueue, apply,
}

module _ (signals : Signals) (lags : Lags signals) where
  open signals use {Value, Double}

  abbrev pub waiting : Queues signals → DelayedTransferKey signals → Queue signals
  waiting queues key = coalesce (queues key) []

  abbrev pub due : ℕ → Queue signals → Option (DelayedTransfer Value)
  due now queue = last_or none (select (is_due now) queue)

  abbrev pub not_due : ℕ → Queue signals → Queue signals
  not_due now queue = select (λ t. not (is_due now t)) queue

  queue_or_none-coalesce : (q : Queue signals) → coalesce (queue_or_none signals lags q) [] ≡ q
  queue_or_none-coalesce [] = refl
  queue_or_none-coalesce (t ∷ q) = refl

  drain-none :
      (key : DelayedTransferKey signals) (now : ℕ) (target : Target signals)
      → target.queues key ≡ none
      → drain_due_transfers signals lags key now target ≡ (target, none)
  unfolding drain_due_transfers
  drain-none key now target e = rw (e, drain_due_transfers) refl

  drain-some :
      (key : DelayedTransferKey signals) (now : ℕ) (target : Target signals) (queue : Queue signals)
      → target.queues key ≡ some queue
      → drain_due_transfers signals lags key now target ≡ (
        record target {
          port = port_of signals lags (due now queue) target.port;
          queues =
              set signals lags key (queue_or_none signals lags (not_due now queue)) target.queues;
        },
        due now queue,
      )
  unfolding drain_due_transfers
  drain-some key now target queue e = rw (e, drain_due_transfers, drain_due_lem now queue) refl

  pub record Drains (key : DelayedTransferKey signals) (now : ℕ) (target : Target signals)
      (out : Target signals × Option (DelayedTransfer Value)) : Type 0 where
    pub port : (out.0).port ≡ port_of signals lags (due now (waiting target.queues key)) target.port
    pub waits :
        key_eq signals lags key key ≡ true
        → waiting (out.0).queues key ≡ not_due now (waiting target.queues key)
    pub delivered : out.1 ≡ due now (waiting target.queues key)
    pub others :
        (other : DelayedTransferKey signals)
        → key_eq signals lags key other ≡ false
        → (out.0).queues other ≡ target.queues other
    pub modes : (out.0).modes ≡ target.modes

  pub drain_due_transfers-Drains :
      (key : DelayedTransferKey signals) (now : ℕ) (target : Target signals)
      → Drains key now target (drain_due_transfers signals lags key now target)
  drain_due_transfers-Drains key now target = elim (Option-cases (target.queues key)) [
    | inl e ↦ subst (Drains key now target) (sym (drain-none key now target e)) record {
      port = rw e refl;
      waits = λ h. rw e refl;
      delivered = rw e refl;
      others = λ other h. refl;
      modes = refl;
    }
    | inr (queue, e) ↦
        subst (Drains key now target) (sym (drain-some key now target queue e)) record {
          port = rw e refl;
          waits = λ h. rw (h, e) (queue_or_none-coalesce (not_due now queue));
          delivered = rw e refl;
          others = λ other h. rw h refl;
          modes = refl;
        }
  ]

  -- What a transfer adds to the queue.
  abbrev pub added :
      TransferConfig signals → Metadata signals → Bool × Option Value → ℕ → Queue signals
  added config metadata (true, value) now =
      record {
        effective_timestamp_utc = lags.after now config.lag_seconds;
        value = value;
        metadata = metadata;
      }
      ∷ []
  added config metadata (false, value) now = []

  record Sends (key : DelayedTransferKey signals) (new : Queue signals)
      (target out : Target signals) : Type 0 where
    port : out.port ≡ target.port
    waits :
        key_eq signals lags key key ≡ true
        → waiting out.queues key ≡ waiting target.queues key ++ new
    others :
        (other : DelayedTransferKey signals)
        → key_eq signals lags key other ≡ false
        → out.queues other ≡ target.queues other

  enqueue-Sends :
      (key : DelayedTransferKey signals) (config : TransferConfig signals)
      (metadata : Metadata signals) (result : Bool × Option Value) (now : ℕ)
      (target : Target signals)
      → Sends key
          (added config metadata result now)
          target
          (enqueue signals lags key config metadata result now target).0
  unfolding enqueue
  enqueue-Sends key config metadata (true, value) now target = record {
    port = refl;
    waits = λ h. rw h refl;
    others = λ other h. rw h refl;
  }
  enqueue-Sends key config metadata (false, value) now target = record {
    port = refl;
    waits = λ h. rw h (sym (append-nil (waiting target.queues key)));
    others = λ other h. rw h refl;
  }

  module _ (coupling : Coupling signals) (config : TransferConfig signals)
      (metadata : Metadata signals) (source_value : Option Value) (source_modes : Modes)
      (label : Option String) where
    abbrev key : DelayedTransferKey signals
    key = transfer_key signals lags coupling config

    -- Whether the source's value is to be written, and what is written.
    abbrev pub result : Bool × Option Value
    result =
        resolve_transfer_result signals coupling.relation_type config.gain config.sign
          config.break_coupling source_value

    abbrev pub gate : Modes → Option CouplingGate
    gate target_modes =
        blocking_gate coupling.gates source_modes target_modes label config.ignore_phase_gate

    abbrev pub applied : Option ℕ → Target signals → Target signals × CouplingExecution signals
    applied time target =
        apply signals lags coupling config metadata source_value time source_modes label target

    abbrev drained : ℕ → Target signals → Target signals × Option (DelayedTransfer Value)
    drained now target = drain_due_transfers signals lags key now target

    applied-blocked :
        (now : ℕ) (target : Target signals) (g : CouplingGate)
        → lags.positive config.lag_seconds ≡ true
        → gate target.modes ≡ some g
        → ((applied (some now) target).0 ≡ (drained now target).0)
          × ((applied (some now) target).1.delivered_transfer ≡ (drained now target).1)
    unfolding apply deliver
    applied-blocked now target g p e = (rw (e, apply, p) refl, rw (e, apply, p) refl)

    applied-open :
        (now : ℕ) (target : Target signals)
        → lags.positive config.lag_seconds ≡ true
        → gate target.modes ≡ none
        → ((applied (some now) target).0
            ≡ (enqueue signals lags key config metadata result now (drained now target).0).0)
          × ((applied (some now) target).1.delivered_transfer ≡ (drained now target).1)
    unfolding apply deliver send
    applied-open now target p e = (rw (e, apply, p) refl, rw (e, apply, p) refl)

    -- The queue of the transfer's key is drained, then the new transfer waits in it if the gates are
    -- open; the last due transfer is on the port; the queues of other keys stay.
    pub record Delivers (now : ℕ) (target : Target signals)
        (out : Target signals × CouplingExecution signals) : Type 0 where
      pub port :
          (out.0).port ≡ port_of signals lags (due now (waiting target.queues key)) target.port
      pub waits :
          waiting (out.0).queues key
          ≡ not_due now (waiting target.queues key)
            ++ (if is_some (gate target.modes) then [] else added config metadata result now)
      pub delivered : (out.1).delivered_transfer ≡ due now (waiting target.queues key)
      pub others :
          (other : DelayedTransferKey signals)
          → key_eq signals lags key other ≡ false
          → (out.0).queues other ≡ target.queues other

    -- A coupling with a lag above 0, applied at a time of its source, and whose key equals itself:
    -- the last due transfer of the key's queue is delivered to the port, and the port is not
    -- written otherwise; in the queue stay those not due, in order, and behind them the new
    -- transfer if the gates are open and there is one; the queue of any other key stays as it was.
    pub apply-Delivers :
        (now : ℕ) (target : Target signals)
        → lags.positive config.lag_seconds ≡ true
        → key_eq signals lags key key ≡ true
        → Delivers now target (applied (some now) target)
    apply-Delivers now target p h =
        let d = drain_due_transfers-Drains key now target in
        let s = enqueue-Sends key config metadata result now (drained now target).0 in
        elim (Option-cases (gate target.modes)) [
          | inl e ↦
              let o = applied-open now target p e in
              record {
                port = ap (λ t. t.port) o.0 ∙ s.port ∙ d.port;
                waits =
                    ap (λ t. waiting t.queues key) o.0
                    ∙ s.waits h
                    ∙ ap (λ q. q ++ added config metadata result now) (d.waits h)
                    ∙ sym (
                        ap
                          (λ g.
                            not_due now (waiting target.queues key)
                            ++ (if is_some g then [] else added config metadata result now))
                          e);
                delivered = o.1 ∙ d.delivered;
                others =
                    λ other f. ap (λ t. t.queues other) o.0 ∙ s.others other f ∙ d.others other f;
              }
          | inr (g, e) ↦
              let o = applied-blocked now target g p e in
              record {
                port = ap (λ t. t.port) o.0 ∙ d.port;
                waits =
                    ap (λ t. waiting t.queues key) o.0
                    ∙ d.waits h
                    ∙ sym (append-nil (not_due now (waiting target.queues key)))
                    ∙ sym (
                        ap
                          (λ g.
                            not_due now (waiting target.queues key)
                            ++ (if is_some g then [] else added config metadata result now))
                          e);
                delivered = o.1 ∙ d.delivered;
                others = λ other f. ap (λ t. t.queues other) o.0 ∙ d.others other f;
              }
        ]
