-- ===== src/Examples/Detection.antt =====
-- A short categorical stream through libs/events/categorical.py.
use s3ntinel.Prelude.{ℕ, ◌+◌, ◌≡◌, refl, true, none, some, List, [], ◌∷◌, ◌++◌, map, String, arith}
use s3ntinel.Events.Categorical.{
  DetectedEvent, Sample, CategoricalDetectorConfig, initial_state, run_samples,
}
use s3ntinel.Events.Categorical.Outline.{
  transitions, changes, drops, onsets, run_samples-transitions, run_samples-drops,
}
use s3ntinel.Events.Categorical.Segments.{build, flatten, build-run_samples}
use s3ntinel.Events.Categorical.Passes.{passes, build-assign_rows}
use s3ntinel.Prelude.Int.{pos}
use s3ntinel.Sequence.Plan.{
  Row, SegmentedRow, SequenceOrderingPolicy, SequenceSegmentPolicy, assign_rows, is_timed,
  build_segment_steps, collect_segment_ids,
}
use s3ntinel.Sequence.Segments.{steps_of}
use s3ntinel.Examples.Inputs.{fixed_point}

abbrev config : CategoricalDetectorConfig fixed_point
config = record {
  min_dwell_seconds = 500000;
  max_dwell_seconds = 3000000;
  emit_state_enter = true;
  emit_state_exit = true;
  emit_dwell_bucket = true;
  illegal_transitions = ("on", "off") ∷ [];
}

abbrev sample : ℕ → String → Sample
sample at state = record { timestamp_utc = at; current_state = some state }

abbrev missing : ℕ → Sample
missing at = record { timestamp_utc = at; current_state = none }

abbrev morning : List Sample
morning = sample 0 "off" ∷ sample 1000 "on" ∷ missing 2000 ∷ missing 3000 ∷ sample 4000 "on" ∷ []

abbrev evening : List Sample
evening = sample 9000 "off" ∷ sample 9100 "on" ∷ []

run_samples-transitions_example :
    transitions (run_samples fixed_point config initial_state morning).emitted_events
    ≡ transitions (initial_state {Double = ℕ}).emitted_events
      ++ changes (initial_state {Double = ℕ}).last_state morning
run_samples-transitions_example =
    run_samples-transitions fixed_point config morning initial_state
      (λ h. unfold initial_state in refl)

run_samples-drops_example :
    drops (run_samples fixed_point config initial_state morning).emitted_events
    ≡ drops (initial_state {Double = ℕ}).emitted_events
      + onsets (initial_state {Double = ℕ}).missing morning
run_samples-drops_example = run_samples-drops fixed_point config morning initial_state

abbrev events_of : List Sample → List (DetectedEvent ℕ)
events_of steps = (run_samples fixed_point config initial_state steps).emitted_events

build-run_samples_example :
    (build fixed_point config none (map some (morning ∷ [])) ≡ events_of (flatten (morning ∷ [])))
    × (build fixed_point config none (map some (morning ∷ []) ++ none ∷ map some (evening ∷ []))
        ≡ events_of (flatten (morning ∷ [])) ++ events_of (flatten (evening ∷ [])))
build-run_samples_example = build-run_samples fixed_point config (morning ∷ []) (evening ∷ [])

abbrev ordering : SequenceOrderingPolicy
ordering = record {
  key_columns = "parameter_name" ∷ [];
  order_columns = "timestamp_utc" ∷ [];
  timestamp_column = some "timestamp_utc";
  row_number_column = "sequence_row_number";
  segment_id_column = "flight_segment_id";
  row_in_segment_column = "sequence_row_in_segment";
}

-- Two rows to a segment.
abbrev policy : SequenceSegmentPolicy
policy = record { max_rows_per_segment = pos 2; max_span_ms = pos 0 }

abbrev row : Sample → Row Sample
row s = record { timestamp = some s.timestamp_utc; step = s }

abbrev morning_rows : List (Row Sample)
morning_rows = map row morning

abbrev evening_rows : List (SegmentedRow Sample)
evening_rows = assign_rows ordering policy (map row evening)

build-assign_rows_example :
    build fixed_point config none (
      passes
        (collect_segment_ids (assign_rows ordering policy morning_rows ++ evening_rows))
        (assign_rows ordering policy morning_rows))
    ≡ (run_samples fixed_point config initial_state (steps_of morning_rows)).emitted_events
unfolding assign_rows is_timed collect_segment_ids build_segment_steps
build-assign_rows_example =
    build-assign_rows fixed_point config ordering policy morning_rows evening_rows (omega arith)
      (omega arith)
