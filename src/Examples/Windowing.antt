-- ===== src/Examples/Windowing.antt =====
-- A short flight through libs/windows/pipeline.py.
use s3ntinel.Prelude.{ℕ, ◌≡◌, refl, true, false, Option, none, some, List, [], ◌∷◌, ◌++◌, map}
use s3ntinel.Prelude.Int.{pos}
use s3ntinel.Windows.Policy.{
  WindowPolicy, CloseReason, event_threshold, budget_threshold, inactivity_timeout, end_of_stream,
}
use s3ntinel.Windows.Transition.{
  WindowStep, WindowSummary, windows_of, end_of_stream_windows, state_after_step, run_steps,
  initial_state,
}
use s3ntinel.Windows.Transition.Cuts.{Cuts, HasIds, event_ids}
use s3ntinel.Windows.Transition.Numbering.{NumberedFrom}
use s3ntinel.Windows.Transition.Segments.{
  absent, is_last, without_gap, joined, build_window_summaries,
}
use s3ntinel.Windows.Transition.Passes.{build-run_steps, build-Cuts, build-NumberedFrom}
use s3ntinel.Examples.Inputs.{fixed_point}

abbrev policy : WindowPolicy
policy = record {
  max_ms = pos 10000;
  event_threshold = pos 3;
  min_ms = pos 50;
  inactivity_timeout_ms = pos 2000;
}

abbrev event : ℕ → ℕ → WindowStep
event at id = record {
  timestamp_utc = at;
  event_type_detected = some "transition";
  event_seq_id = some id;
  is_budget_step = false;
}

abbrev blank : ℕ → ℕ → WindowStep
blank at id = record (event at id) { event_type_detected = some " " }

abbrev boundary : ℕ → WindowStep
boundary at = record {
  timestamp_utc = at;
  event_type_detected = none;
  event_seq_id = none;
  is_budget_step = true;
}

abbrev steps : List WindowStep
steps =
    event 1000 1
    ∷ event 1100 2
    ∷ event 1200 3
    ∷ blank 1300 4
    ∷ event 1400 5
    ∷ event 4000 6
    ∷ boundary 5000
    ∷ event 5100 7
    ∷ []

abbrev summary_key : WindowSummary ℕ → Option ℕ × Option ℕ × ℕ × CloseReason
summary_key w = (w.start_event_seq_id, w.end_event_seq_id, w.event_count, w.close_reason)

four_windows :
    map summary_key (windows_of fixed_point policy steps)
    ≡ (some 1, some 3, 3, event_threshold)
      ∷ (some 5, some 5, 1, inactivity_timeout)
      ∷ (some 6, some 6, 1, budget_threshold)
      ∷ (some 7, some 7, 1, end_of_stream)
      ∷ []
unfolding windows_of state_after_step
four_windows = refl

-- The steps in two segments, with the blank step in the second one.
abbrev two_segments : List (List WindowStep)
two_segments = (event 1000 1 ∷ event 1100 2 ∷ []) ∷ (event 1200 3 ∷ blank 1300 4 ∷ []) ∷ []

-- A gap drops the open window of the segment before it, and starts the ids again.
gap_drops_open_window :
    map summary_key (
      build_window_summaries fixed_point policy none
        (some (event 1000 1 ∷ []) ∷ none ∷ some (event 2000 2 ∷ []) ∷ []))
    ≡ (some 2, some 2, 1, end_of_stream) ∷ []
unfolding build_window_summaries state_after_step run_steps initial_state end_of_stream_windows
    is_last
gap_drops_open_window = refl

build-run_steps_example :
    (build_window_summaries fixed_point policy none (without_gap 1 1 two_segments)
      ≡ windows_of fixed_point policy (joined two_segments))
    × (build_window_summaries fixed_point policy none
          (absent 1 ++ (map some two_segments ++ none ∷ without_gap 0 1 (steps ∷ [])))
        ≡ (run_steps fixed_point policy initial_state (joined two_segments)).closed_windows
          ++ windows_of fixed_point policy (joined (steps ∷ [])))
build-run_steps_example = build-run_steps fixed_point policy 1 0 1 two_segments steps []

two_segments-HasIds : HasIds (joined two_segments)
unfolding joined
two_segments-HasIds = (λ h. refl, (λ h. refl, (λ h. refl, (λ h. refl, tt))))

build-Cuts_example :
    Cuts
      (event_ids (joined two_segments))
      (build_window_summaries fixed_point policy none (without_gap 1 1 two_segments))
build-Cuts_example = build-Cuts fixed_point policy 1 1 two_segments two_segments-HasIds

build-NumberedFrom_example :
    NumberedFrom 1 (build_window_summaries fixed_point policy none (without_gap 1 1 two_segments))
build-NumberedFrom_example = build-NumberedFrom fixed_point policy 1 1 two_segments
