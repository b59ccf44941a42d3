-- ===== src/Simulation/Coupling/Config.antt =====
-- libs/simulation/coupling/runtime.py: the transfer configuration and the metadata that a
-- misbehavior context gives a coupling, and `Coupling.apply` under it.
use Prim.Native.String.{◌++◌ as append}
use s3ntinel.Prelude.{
  ℕ, zero, suc, ◌/◌, ◌%◌, ◌==◌, Bool, true, false, Option, none, some, List, [], ◌∷◌, String,
  str_eq, if◌then◌else◌, coalesce,
}
use s3ntinel.Prelude.Int.{ℤ, pos, negsuc, ltb_ℤ}
use s3ntinel.Prelude.Dict.{Dict, lookup}
use s3ntinel.Simulation.Coupling.{Signals}
use s3ntinel.Simulation.Coupling.Gates.{Modes}
use s3ntinel.Simulation.Coupling.Apply.{
  Lags, TransferConfig, Coupling, Target, CouplingExecution, Metadata, relation_text, apply,
}

-- What the configuration reads of Python's objects and doubles: `int(value)`, where it does not
-- raise, `str(value)`, texts, flags and integers as values, `a + b` and `a < b`.
pub record Objects (signals : Signals) : Type 0 where
  pub to_int : signals.Value → Option ℤ
  pub str_of : signals.Value → String
  pub of_text : String → signals.Value
  pub of_flag : Bool → signals.Value
  pub of_integer : ℤ → signals.Value
  pub add : signals.Double → signals.Double → signals.Double
  pub ltb : signals.Double → signals.Double → Bool

infixl 5 ◌>>=◌
abbrev pub ◌>>=◌ {ℓ κ} : {A : Type ℓ} {B : Type κ} → Option A → (A → Option B) → Option B
none >>= f = none
some a >>= f = f a

abbrev pub neg_ℤ : ℤ → ℤ
neg_ℤ (pos zero) = pos 0
neg_ℤ (pos (suc n)) = negsuc n
neg_ℤ (negsuc n) = pos (suc n)

abbrev pub abs_ℤ : ℤ → ℤ
abs_ℤ (pos n) = pos n
abs_ℤ (negsuc n) = pos (suc n)

module _ (signals : Signals) (objects : Objects signals) where
  open signals use {Value, Double}

  -- A context: its keys, with None among the values.
  abbrev pub Context : Type 0
  Context = Dict (Option Value)

  -- `context.get(key)`
  abbrev pub get : String → Context → Option Value
  get key context = coalesce (lookup key context) none

  abbrev pub holds : Option Value → Bool
  holds none = false
  holds (some value) = signals.truthy value

  infixr 3 ◌or◌
  abbrev pub ◌or◌ : Option Value → Option Value → Option Value
  a or b = if holds a then a else b

  -- `str(value or "")`
  abbrev pub text_or_empty : Option Value → String
  text_or_empty none = ""
  text_or_empty (some value) = if signals.truthy value then objects.str_of value else ""

  -- `float(value)`, with none where it raises
  abbrev pub to_double : Option Value → Option Double
  to_double none = none
  to_double (some value) = signals.to_double value

  abbrev pub to_int : Option Value → Option ℤ
  to_int none = none
  to_int (some value) = objects.to_int value

  abbrev double_or : Option (Option Value) → Double → Option Double
  double_or none default = some default
  double_or (some value) default = to_double value

  abbrev int_or : Option (Option Value) → ℤ → Option ℤ
  int_or none default = some default
  int_or (some value) default = to_int value

  abbrev either : Option (Option Value) → Option (Option Value) → Option (Option Value)
  either none b = b
  either (some a) b = some a

  abbrev zero_seconds : Double
  zero_seconds = signals.of_int (pos 0)

  -- `max(a, 0.0)`
  abbrev pub at_least_zero : Double → Double
  at_least_zero a = if objects.ltb a zero_seconds then zero_seconds else a

  unfoldable pub violation_type : Context → String
  unfolding lookup
  violation_type context = text_or_empty (
      get "misbehavior_detail_label" context
      or get "misbehavior_family_label" context
      or get "violation_type" context)

  -- `-abs(sign) if sign > 0 else abs(sign)`
  unfoldable pub inverted_sign : ℤ → ℤ
  inverted_sign sign = if ltb_ℤ (pos 0) sign then neg_ℤ (abs_ℤ sign) else abs_ℤ sign

  unfoldable pub timing_lag : Coupling signals → Context → Option Double
  unfolding lookup
  timing_lag coupling context =
      double_or (either (lookup "lag_delta_seconds" context) (lookup "extra_lag_seconds" context))
        zero_seconds
      >>= λ delta. some (objects.add coupling.lag_seconds delta)

  -- The jitter of the even or the odd second of the source.
  unfoldable pub second_jitter : Context → ℕ → Option Double
  unfolding lookup
  second_jitter context time =
      double_or (lookup "jitter_seconds_even" context) zero_seconds >>= λ even.
      if (time / 1000000) % 2 == 0
      then some even
      else double_or (lookup "jitter_seconds_odd" context) even

  unfoldable pub jitter_seconds : Context → Option ℕ → Option Double
  unfolding lookup second_jitter
  jitter_seconds context none = double_or (lookup "jitter_seconds" context) zero_seconds
  jitter_seconds context (some time) =
      double_or (lookup "jitter_seconds" context) zero_seconds >>= λ jitter.
      if signals.nonzero jitter then some jitter else second_jitter context time

  unfoldable pub timing_jitter : Coupling signals → Context → Option ℕ → Option Double
  unfolding jitter_seconds
  timing_jitter coupling context time = jitter_seconds context time >>= λ jitter.
      some (at_least_zero (objects.add coupling.lag_seconds jitter))

  abbrev pub plain_config : Coupling signals → TransferConfig signals
  plain_config coupling = record {
    gain = coupling.gain;
    sign = coupling.sign;
    lag_seconds = coupling.lag_seconds;
    ignore_phase_gate = false;
    break_coupling = false;
  }

  abbrev pub overridden :
      Option Double → Option ℤ → Option Double → Bool → Option (TransferConfig signals)
  overridden none sign lag ignored = none
  overridden (some gain) none lag ignored = none
  overridden (some gain) (some sign) none ignored = none
  overridden (some gain) (some sign) (some lag) ignored = some record {
    gain = gain;
    sign = sign;
    lag_seconds = lag;
    ignore_phase_gate = ignored;
    break_coupling = false;
  }

  -- The configuration before the violation's own change.
  unfoldable pub overridden_config : Coupling signals → Context → Option (TransferConfig signals)
  unfolding lookup
  overridden_config coupling context =
      overridden (double_or (lookup "gain_override" context) coupling.gain)
        (int_or (lookup "sign_override" context) coupling.sign)
        (double_or
          (either (lookup "lag_seconds_override" context)
            (either (lookup "lag_seconds" context) (lookup "extra_lag_seconds" context)))
          coupling.lag_seconds)
        (holds (get "ignore_phase_gate" context))

  abbrev with_lag : TransferConfig signals → Option Double → Option (TransferConfig signals)
  with_lag config none = none
  with_lag config (some lag) = some (record config { lag_seconds = lag })

  -- The change by the type of the violation.
  unfoldable pub violated_config :
      String
      → Coupling signals
      → Context
      → Option ℕ
      → TransferConfig signals
      → Option (TransferConfig signals)
  unfolding inverted_sign timing_lag timing_jitter
  violated_config violation coupling context time config =
      if str_eq violation "coupling_break"
      then some (record config { break_coupling = true })
      else if str_eq violation "coupling_inversion"
      then some (record config { sign = inverted_sign coupling.sign })
      else if str_eq violation "timing_lag"
      then with_lag config (timing_lag coupling context)
      else if str_eq violation "timing_jitter"
      then with_lag config (timing_jitter coupling context time)
      else if str_eq violation "phase_context_violation"
      then some (record config { ignore_phase_gate = true })
      else some config

  -- `max(lag, 0.0)`, of the result
  abbrev pub clamped : TransferConfig signals → TransferConfig signals
  clamped config = record config { lag_seconds = at_least_zero config.lag_seconds }

  unfoldable pub effective_transfer_config :
      Coupling signals → Context → Option ℕ → Option (TransferConfig signals)
  unfolding overridden_config violated_config violation_type
  effective_transfer_config coupling [] time = some (plain_config coupling)
  effective_transfer_config coupling (entry ∷ entries) time =
      overridden_config coupling (entry ∷ entries) >>= λ before.
      violated_config (violation_type (entry ∷ entries)) coupling (entry ∷ entries) time before
      >>= λ config. some (clamped config)

  abbrev by_colons : String → List String → String
  by_colons first [] = first
  by_colons first (next ∷ rest) = append first (append ":" (by_colons next rest))

  unfoldable pub coupling_id : Coupling signals → String
  coupling_id coupling =
      let joined = by_colons coupling.source_module_id (
        coupling.source_port_name
        ∷ relation_text coupling.relation_type
        ∷ coupling.target_module_id
        ∷ coupling.target_port_name
        ∷ []) in
      elim coupling.explicit_id [
        | none ↦ joined
        | some explicit ↦ if str_eq explicit "" then joined else explicit
      ]

  abbrev entry_text : String → Option Value
  entry_text t = some (objects.of_text t)

  -- `metadata.update(...)`, for keys that are not there yet
  unfoldable pub build_transfer_metadata : Coupling signals → Context → Metadata signals
  unfolding lookup coupling_id
  build_transfer_metadata coupling [] =
      ("coupling_id", entry_text (coupling_id coupling))
      ∷ ("source_module_id", entry_text coupling.source_module_id)
      ∷ ("source_port_name", entry_text coupling.source_port_name)
      ∷ ("target_module_id", entry_text coupling.target_module_id)
      ∷ ("target_port_name", entry_text coupling.target_port_name)
      ∷ ("relation_type", entry_text (relation_text coupling.relation_type))
      ∷ []
  build_transfer_metadata coupling (entry ∷ entries) =
      let context = entry ∷ entries in
      let label : String → Option Value = λ key. entry_text (text_or_empty (get key context)) in
      ("coupling_id", entry_text (coupling_id coupling))
      ∷ ("source_module_id", entry_text coupling.source_module_id)
      ∷ ("source_port_name", entry_text coupling.source_port_name)
      ∷ ("target_module_id", entry_text coupling.target_module_id)
      ∷ ("target_port_name", entry_text coupling.target_port_name)
      ∷ ("relation_type", entry_text (relation_text coupling.relation_type))
      ∷ (
        "misbehavior_active",
        some (
            objects.of_flag (elim (lookup "misbehavior_active" context) [
              | none ↦ true
              | some value ↦ holds value
            ])),
      )
      ∷ ("misbehavior_family_label", label "misbehavior_family_label")
      ∷ ("misbehavior_detail_label", label "misbehavior_detail_label")
      ∷ ("misbehavior_window_id", label "misbehavior_window_id")
      ∷ ("event_misbehavior_label", label "event_misbehavior_label")
      ∷ ("anomaly_type_label", label "anomaly_type_label")
      ∷ ("anomaly_score_label", get "anomaly_score_label" context)
      ∷ (
        "fault_active",
        some (
            objects.of_flag
              (elim (lookup "fault_active" context) [ none ↦ true | some value ↦ holds value ])),
      )
      ∷ ("fault_family_label", label "fault_family_label")
      ∷ ("fault_type", label "fault_type")
      ∷ ("fault_window_id", label "fault_window_id")
      ∷ []

  -- `Coupling.apply`; none where a number of the context does not parse.
  unfoldable pub apply_coupling :
      Lags signals
      → Coupling signals
      → Context
      → Option Value
      → Option ℕ
      → Modes
      → Option String
      → Target signals
      → Option (Target signals × CouplingExecution signals)
  unfolding effective_transfer_config build_transfer_metadata apply
  apply_coupling lags coupling context source_value time source_modes label target =
      effective_transfer_config coupling context time >>= λ config. some (
        apply signals lags coupling config (build_transfer_metadata coupling context) source_value
          time source_modes label target)
