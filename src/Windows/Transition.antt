-- ===== src/Windows/Transition.antt =====
-- libs/windows/pipeline.py: AdaptiveWindowTransition, the step of the fold over a flight's ordered
-- steps. A nullable column is an `Option`; timestamps are milliseconds since the epoch.
pub mod Numbering
pub mod Cuts
pub mod Segments
pub mod Passes
use s3ntinel.Prelude.{
  ℕ, ◌+◌, ◌/◌, Bool, true, false, not, ◌&&◌, ◌||◌, Option, none, some, List, [], ◌∷◌, ◌++◌, String,
  leb, ltb, if◌then◌else◌, is_some,
}
use mathlib.Core.Option
use s3ntinel.Prelude.Int.{ℤ, pos, sub_ℕ, leb_ℤ, ltb_ℤ}
use s3ntinel.Prelude.Text.{is_filled}
use s3ntinel.Windows.Doubles.{Doubles}
use s3ntinel.Windows.Policy.{
  CloseReason, event_threshold, budget_threshold, inactivity_timeout, end_of_stream, WindowPolicy,
  from_window_policy,
}

-- One row of `steps`.
pub record WindowStep : Type 0 where
  pub timestamp_utc : ℕ
  pub event_type_detected : Option String
  pub event_seq_id : Option ℕ
  pub is_budget_step : Bool

-- The columns of OpenWindowState, all null when no window is open.
pub record OpenWindowState : Type 0 where
  pub win_id : Option ℕ
  pub t_start : Option ℕ
  pub t_end : Option ℕ
  pub start_event_seq_id : Option ℕ
  pub end_event_seq_id : Option ℕ
  pub event_count : ℕ

abbrev pub no_window : OpenWindowState
no_window = record {
  win_id = none;
  t_start = none;
  t_end = none;
  start_event_seq_id = none;
  end_event_seq_id = none;
  event_count = 0;
}

-- `to_date` of a time, as days since the epoch.
abbrev pub to_date : ℕ → ℕ
to_date ms = ms / 86400000

-- A row of the windows table; the columns that stay null for a null bound are options.
pub record WindowSummary (Double : Type 0) : Type 0 where
  pub win_id : Option ℕ
  pub t_start : Option ℕ
  pub t_end : Option ℕ
  pub start_event_seq_id : Option ℕ
  pub end_event_seq_id : Option ℕ
  pub event_count : ℕ
  pub real_event_count : ℕ
  pub quiet_credit_end : Option Double
  pub closure_budget_end : Option Double
  pub close_reason : CloseReason
  pub date_utc : Option ℕ

pub record SegmentState (Double : Type 0) : Type 0 where
  pub next_win_id : ℕ
  pub has_open_window : Bool
  pub open_state : OpenWindowState
  pub closed_windows : List (WindowSummary Double)

unfoldable pub elapsed_ms : Option ℕ → Option ℕ → Option ℤ
elapsed_ms (some t_start) (some t_end) = some (sub_ℕ t_end t_start)
elapsed_ms _ _ = none

-- The event type is there and is more than spaces.
unfoldable pub has_event : WindowStep → Bool
has_event step = is_filled step.event_type_detected

unfoldable pub initial_state : {Double : Type 0} → SegmentState Double
initial_state = record {
  next_win_id = 1;
  has_open_window = false;
  open_state = no_window;
  closed_windows = [];
}

unfoldable pub carry_state : {Double : Type 0} → SegmentState Double → SegmentState Double
carry_state state = record state { closed_windows = [] }

module _ (doubles : Doubles) (policy : WindowPolicy) where
  open doubles use {Double, of_int, add, mul, div}

  unfoldable pub quiet_credit_expr : ℤ → Double
  unfolding from_window_policy
  quiet_credit_expr duration_ms =
      let budget = from_window_policy policy in
      mul (of_int duration_ms)
        (div (of_int (pos budget.event_threshold)) (of_int (pos budget.quiet_horizon_ms)))

  unfoldable pub closure_budget_expr : ℤ → ℕ → Double
  unfolding quiet_credit_expr
  closure_budget_expr duration_ms real_event_count =
      add (of_int (pos real_event_count)) (quiet_credit_expr duration_ms)

  unfoldable pub close_reason_expr : ℕ → CloseReason
  unfolding from_window_policy
  close_reason_expr real_event_count =
      if leb (from_window_policy policy).event_threshold real_event_count
      then event_threshold
      else budget_threshold

  unfoldable pub window_summary : OpenWindowState → Option ℕ → CloseReason → WindowSummary Double
  unfolding elapsed_ms closure_budget_expr
  window_summary open_window t_end close_reason =
      let duration_ms = elapsed_ms open_window.t_start t_end in
      record {
        win_id = open_window.win_id;
        t_start = open_window.t_start;
        t_end = t_end;
        start_event_seq_id = open_window.start_event_seq_id;
        end_event_seq_id = open_window.end_event_seq_id;
        event_count = open_window.event_count;
        real_event_count = open_window.event_count;
        quiet_credit_end = Option.map quiet_credit_expr duration_ms;
        closure_budget_end =
            Option.map (λ d. closure_budget_expr d open_window.event_count) duration_ms;
        close_reason = close_reason;
        date_utc = Option.map to_date open_window.t_start;
      }

  -- A comparison with a null end holds for no row.
  unfoldable pub inactivity_condition : SegmentState Double → WindowStep → Bool
  inactivity_condition acc step =
      ltb_ℤ (pos 0) policy.inactivity_timeout_ms
      && acc.has_open_window
      && ltb 0 acc.open_state.event_count
      && elim acc.open_state.t_end [
        | none ↦ false
        | some t_end ↦ leb_ℤ policy.inactivity_timeout_ms (sub_ℕ step.timestamp_utc t_end)
      ]

  -- Why the open window closes before the step is taken in, if it does.
  unfoldable pub preclose_reason : SegmentState Double → WindowStep → Option CloseReason
  unfolding inactivity_condition
  preclose_reason acc step =
      if inactivity_condition acc step
      then some inactivity_timeout
      else if acc.has_open_window && step.is_budget_step
      then some budget_threshold
      else none

  unfoldable pub preclose_t_end : SegmentState Double → WindowStep → Option ℕ
  unfolding inactivity_condition
  preclose_t_end acc step =
      if inactivity_condition acc step then acc.open_state.t_end else some step.timestamp_utc

  unfoldable pub preclosed : SegmentState Double → WindowStep → List (WindowSummary Double)
  unfolding preclose_reason preclose_t_end window_summary
  preclosed acc step = elim (preclose_reason acc step) [
    | none ↦ []
    | some reason ↦ window_summary acc.open_state (preclose_t_end acc step) reason ∷ []
  ]

  unfoldable pub next_win_after_preclose : SegmentState Double → WindowStep → ℕ
  unfolding preclose_reason
  next_win_after_preclose acc step =
      acc.next_win_id + (if is_some (preclose_reason acc step) then 1 else 0)

  unfoldable pub keep_existing_open : SegmentState Double → WindowStep → Bool
  unfolding preclose_reason
  keep_existing_open acc step = acc.has_open_window && not (is_some (preclose_reason acc step))

  -- The window that the step falls into, with the step taken in.
  unfoldable pub working_window : SegmentState Double → WindowStep → OpenWindowState
  unfolding keep_existing_open next_win_after_preclose has_event
  working_window acc step =
      let keep = keep_existing_open acc step in
      let old = acc.open_state in
      let event = has_event step in
      record {
        win_id = if keep then old.win_id else some (next_win_after_preclose acc step);
        t_start = if keep then old.t_start else some step.timestamp_utc;
        t_end =
            if event
            then some step.timestamp_utc
            else if keep
            then old.t_end
            else some step.timestamp_utc;
        start_event_seq_id =
            if event && keep && (leb old.event_count 0 || not (is_some old.start_event_seq_id))
            then step.event_seq_id
            else if keep
            then old.start_event_seq_id
            else step.event_seq_id;
        end_event_seq_id =
            if event then step.event_seq_id else if keep then old.end_event_seq_id else none;
        event_count =
            if event
            then (if keep then old.event_count + 1 else 1)
            else (if keep then old.event_count else 0);
      }

  unfoldable pub postclose_condition : SegmentState Double → WindowStep → Bool
  unfolding working_window elapsed_ms closure_budget_expr
  postclose_condition acc step =
      let working = working_window acc step in
      has_event step && elim (elapsed_ms working.t_start working.t_end) [
        | none ↦ false
        | some d ↦
            doubles.leb (of_int policy.event_threshold) (closure_budget_expr d working.event_count)
      ]

  unfoldable pub postclosed : SegmentState Double → WindowStep → List (WindowSummary Double)
  unfolding postclose_condition working_window window_summary close_reason_expr
  postclosed acc step =
      let working = working_window acc step in
      if postclose_condition acc step
      then window_summary working working.t_end (close_reason_expr working.event_count) ∷ []
      else []

  unfoldable pub state_after_step : SegmentState Double → WindowStep → SegmentState Double
  unfolding preclosed postclosed
  state_after_step acc step =
      let closes = postclose_condition acc step in
      record {
        next_win_id = next_win_after_preclose acc step + (if closes then 1 else 0);
        has_open_window = not closes;
        open_state = if closes then no_window else working_window acc step;
        closed_windows = acc.closed_windows ++ (preclosed acc step ++ postclosed acc step);
      }

  unfoldable pub end_of_stream_windows : SegmentState Double → Bool → List (WindowSummary Double)
  unfolding window_summary
  end_of_stream_windows state is_last_segment =
      if is_last_segment && state.has_open_window && ltb 0 state.open_state.event_count
      then window_summary state.open_state state.open_state.t_end end_of_stream ∷ []
      else []

  -- The fold over steps of one flight.
  unfoldable pub run_steps : SegmentState Double → List WindowStep → SegmentState Double
  run_steps acc [] = acc
  run_steps acc (step ∷ steps) = run_steps (state_after_step acc step) steps

  -- The windows of steps, as if a flight had all of them in one segment.
  unfoldable pub windows_of : List WindowStep → List (WindowSummary Double)
  unfolding run_steps end_of_stream_windows initial_state
  windows_of steps =
      let state = run_steps initial_state steps in
      state.closed_windows ++ end_of_stream_windows state true
