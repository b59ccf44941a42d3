-- ===== src/Simulation/Coupling.antt =====
-- libs/simulation/coupling/runtime.py: the queue of delayed transfers, the gates of a coupling and
-- what a coupling transfers. A port's value is an object of Python's, a parameter here.
pub mod Gates
pub mod Apply
pub mod Delivery
pub mod Config
pub mod Effective
pub mod Severed
use s3ntinel.Prelude.{
  ℕ, ◌+◌, ◌≤◌, ◌≡◌, refl, sym, Bool, true, false, not, ◌&&◌, ◌||◌, Option, none, some, List, [],
  ◌∷◌, ◌++◌, String, arith, str_eq, if◌then◌else◌, any, leb, ltb, length, select, is_some, coalesce,
  Bool-cases, inl, inr, append-nil, append_assoc, ◌∙◌,
}
use s3ntinel.Prelude.Dict.{Dict}
use s3ntinel.Prelude.Int.{ℤ, pos, negsuc, ltb_ℤ}

-- A transfer that waits for its time, in microseconds.
pub record DelayedTransfer {ℓ} (Value : Type ℓ) : Type ℓ where
  pub effective_timestamp_utc : ℕ
  pub value : Option Value
  pub metadata : Dict (Option Value)

module _ {ℓ} {Value : Type ℓ} where
  abbrev pub is_due : ℕ → DelayedTransfer Value → Bool
  is_due now transfer = leb transfer.effective_timestamp_utc now

  -- The loop of `drain_due`: what stays, and the last transfer that was due.
  unfoldable pub drain_loop :
      ℕ
      → List (DelayedTransfer Value)
      → Option (DelayedTransfer Value)
      → List (DelayedTransfer Value)
      → List (DelayedTransfer Value) × Option (DelayedTransfer Value)
  drain_loop now remaining last_due [] = (remaining, last_due)
  drain_loop now remaining last_due (transfer ∷ rest) =
      drain_loop now (if is_due now transfer then remaining else remaining ++ transfer ∷ [])
        (if is_due now transfer then some transfer else last_due) rest

  unfoldable pub drain_due :
      ℕ
      → List (DelayedTransfer Value)
      → List (DelayedTransfer Value) × Option (DelayedTransfer Value)
  unfolding drain_loop
  drain_due now transfers = drain_loop now [] none transfers

  -- The last element, and where there is none the default.
  abbrev pub last_or :
      Option (DelayedTransfer Value) → List (DelayedTransfer Value) → Option (DelayedTransfer Value)
  last_or d [] = d
  last_or d (x ∷ xs) = last_or (some x) xs

  drain_loop_lem :
      (now : ℕ) (transfers remaining : List (DelayedTransfer Value))
      (last_due : Option (DelayedTransfer Value))
      → drain_loop now remaining last_due transfers ≡ (
        remaining ++ select (λ t. not (is_due now t)) transfers,
        last_or last_due (select (is_due now) transfers),
      )
  unfolding drain_loop
  drain_loop_lem now [] remaining last_due = rw append-nil refl
  drain_loop_lem now (transfer ∷ rest) remaining last_due =
      elim (Bool-cases (is_due now transfer)) [
        | inl due ↦ rw due (drain_loop_lem now rest remaining (some transfer))
        | inr waits ↦
            rw waits
              (drain_loop_lem now rest (remaining ++ transfer ∷ []) last_due ∙ rw append_assoc refl)
      ]

  -- Draining a queue leaves the transfers that are not due, in their order, and returns the last
  -- of those that are due, or none if none is.
  pub drain_due_lem :
      (now : ℕ) (transfers : List (DelayedTransfer Value))
      → drain_due now transfers
        ≡ (select (λ t. not (is_due now t)) transfers, last_or none (select (is_due now) transfers))
  unfolding drain_due
  drain_due_lem now transfers = drain_loop_lem now transfers [] none

-- What the transfer reads of Python's objects and doubles.
pub record Signals : Type 1 where
  pub Value : Type 0
  pub Double : Type 0
  -- `float(value)`, where it does not raise, and `bool(value)`
  pub to_double : Value → Option Double
  pub truthy : Value → Bool
  pub nonzero : Double → Bool
  pub of_double : Double → Value
  pub of_int : ℤ → Double
  pub mul : Double → Double → Double

pub data RelationType : Type 0 where
  drive enable inhibit : RelationType
  other_relation : String → RelationType

module _ (signals : Signals) where
  open signals use {Value, Double, to_double, truthy, nonzero, of_double, of_int, mul}

  unfoldable pub signal_is_active : Option Value → Bool
  signal_is_active none = false
  signal_is_active (some value) = elim (to_double value) [
    | some x ↦ nonzero x
    | none ↦ truthy value
  ]

  unfoldable pub transfer_value : Double → ℤ → Option Value → Option Value
  transfer_value gain sign none = none
  transfer_value gain sign (some value) = elim (to_double value) [
    | none ↦ some value
    | some numeric ↦ some (of_double (mul (mul (of_int sign) gain) numeric))
  ]

  unfoldable pub resolve_transfer_result :
      RelationType → Double → ℤ → Bool → Option Value → Bool × Option Value
  unfolding signal_is_active transfer_value
  resolve_transfer_result relation gain sign true source = (false, none)
  resolve_transfer_result drive gain sign false source = (true, transfer_value gain sign source)
  resolve_transfer_result enable gain sign false source =
      (true, if signal_is_active source then transfer_value gain sign source else none)
  resolve_transfer_result inhibit gain sign false source = (signal_is_active source, none)
  resolve_transfer_result (other_relation name) gain sign false source =
      (true, transfer_value gain sign source)
