-- ===== src/Windows/Policy.antt =====
-- libs/windows/window.py: WindowPolicy and WindowClosureBudgetPolicy.
-- A window closes when its events, plus a credit for quiet time, reach the event threshold.
use s3ntinel.Prelude.{ℕ, ◌-◌, ◌*◌, Bool, not, max, if◌then◌else◌, leb}
use s3ntinel.Prelude.Int.{ℤ, pos, pos_part, max_ℤ, leb_ℤ}
use s3ntinel.Windows.Doubles.{Doubles}

-- The texts of `close_reason`.
pub data CloseReason : Type 0 where
  event_threshold budget_threshold inactivity_timeout end_of_stream still_open : CloseReason

pub record WindowPolicy : Type 0 where
  pub max_ms : ℤ
  pub event_threshold : ℤ
  pub min_ms : ℤ
  pub inactivity_timeout_ms : ℤ

-- Both fields have gone through `max(…, 1)`.
pub record WindowClosureBudgetPolicy : Type 0 where
  pub quiet_horizon_ms : ℕ
  pub event_threshold : ℕ

unfoldable pub from_window_policy : WindowPolicy → WindowClosureBudgetPolicy
from_window_policy policy = record {
  quiet_horizon_ms = max (pos_part policy.max_ms) 1;
  event_threshold = max (pos_part policy.event_threshold) 1;
}

module _ (doubles : Doubles) where
  open doubles use {Double, of_int, add, mul, div, ceil}

  unfoldable pub quiet_credit : WindowClosureBudgetPolicy → ℤ → Double
  quiet_credit policy duration_ms =
      div (mul (of_int (max_ℤ duration_ms (pos 0))) (of_int (pos policy.event_threshold)))
        (of_int (pos policy.quiet_horizon_ms))

  unfoldable pub closure_budget : WindowClosureBudgetPolicy → ℤ → ℤ → Double
  closure_budget policy duration_ms real_event_count =
      add (of_int (max_ℤ real_event_count (pos 0))) (quiet_credit policy duration_ms)

  unfoldable pub should_close_budget : WindowClosureBudgetPolicy → ℤ → ℤ → Bool
  unfolding closure_budget quiet_credit
  should_close_budget policy duration_ms real_event_count =
      doubles.leb (of_int (pos policy.event_threshold))
        (closure_budget policy duration_ms real_event_count)

  unfoldable pub budget_close_reason : WindowClosureBudgetPolicy → ℤ → CloseReason
  budget_close_reason policy real_event_count =
      if leb_ℤ (pos policy.event_threshold) real_event_count
      then event_threshold
      else budget_threshold

  unfoldable pub budget_close_elapsed_ms : WindowClosureBudgetPolicy → ℤ → ℤ
  budget_close_elapsed_ms policy real_event_count =
      let remaining = policy.event_threshold - pos_part real_event_count in
      if leb remaining 0
      then pos 0
      else ceil (
          div (of_int (pos (remaining * policy.quiet_horizon_ms)))
            (of_int (pos policy.event_threshold)))

  unfoldable pub should_close : WindowPolicy → ℤ → ℤ → Bool
  unfolding from_window_policy should_close_budget
  should_close policy duration_ms event_count =
      should_close_budget (from_window_policy policy) duration_ms event_count

  unfoldable pub close_reason : WindowPolicy → ℤ → ℤ → CloseReason
  unfolding should_close budget_close_reason
  close_reason policy duration_ms event_count =
      if not (should_close policy duration_ms event_count)
      then still_open
      else budget_close_reason (from_window_policy policy) event_count

unfoldable pub effective_duration_ms : WindowPolicy → ℤ → ℤ
effective_duration_ms policy duration_ms = max_ℤ duration_ms policy.min_ms
