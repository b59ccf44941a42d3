-- ===== src/Examples/Segmenting.antt =====
-- Short streams through libs/spark_sequence/plan.py.
use s3ntinel.Prelude.{
  ℕ, ◌+◌, ◌*◌, ◌≤◌, ◌≡◌, refl, false, ◌&&◌, ltb, some, List, [], ◌∷◌, ◌++◌, map, arith,
}
use s3ntinel.Prelude.Int.{pos}
use s3ntinel.Prelude.Text.{sorted_texts}
use s3ntinel.Sequence.Plan.{
  Row, SegmentedRow, SequenceOrderingPolicy, SequenceSegmentPolicy, assign_rows, is_timed, err,
  missing, no_key_columns, validate_columns, collect_segment_ids, segment_of,
  normalized_max_rows_per_segment, normalized_max_span_ms,
}
use s3ntinel.Sequence.Segments.{steps_over, steps_of, steps_over-collect_segment_ids}
use s3ntinel.Sequence.Bounds.{burst, segment_row_count_bound, late_burst}

abbrev ordering : SequenceOrderingPolicy
ordering = record {
  key_columns = "tail_id" ∷ "flight_id" ∷ [];
  order_columns = "timestamp_utc" ∷ [];
  timestamp_column = some "timestamp_utc";
  row_number_column = "sequence_row_number";
  segment_id_column = "flight_segment_id";
  row_in_segment_column = "sequence_row_in_segment";
}

-- Two rows, or ten milliseconds, to a segment.
abbrev policy : SequenceSegmentPolicy
policy = record { max_rows_per_segment = pos 2; max_span_ms = pos 10 }

abbrev at : ℕ → ℕ → Row ℕ
at time step = record { timestamp = some time; step = step }

abbrev rows : List (Row ℕ)
rows = at 0 1 ∷ at 3 2 ∷ at 5 3 ∷ at 31 4 ∷ []

abbrev others : List (SegmentedRow ℕ)
others = assign_rows ordering policy (at 0 7 ∷ at 25 8 ∷ [])

segment_ids :
    map (λ (r : SegmentedRow ℕ). r.flight_segment_id) (assign_rows ordering policy rows)
    ≡ 0 ∷ 0 ∷ 1 ∷ 3 ∷ []
unfolding assign_rows is_timed
segment_ids = refl

all_ids : collect_segment_ids (assign_rows ordering policy rows ++ others) ≡ 0 ∷ 1 ∷ 2 ∷ 3 ∷ []
unfolding assign_rows collect_segment_ids is_timed
all_ids = refl

missing_flight :
    validate_columns ordering ("timestamp_utc" ∷ "a" ∷ [])
    ≡ err (missing ("flight_id" ∷ "tail_id" ∷ []))
unfolding validate_columns sorted_texts
missing_flight = refl

no_keys : validate_columns (record ordering { key_columns = [] }) [] ≡ err no_key_columns
unfolding validate_columns
no_keys = refl

steps_over-collect_segment_ids_example :
    steps_over
      (collect_segment_ids (assign_rows ordering policy rows ++ others))
      (assign_rows ordering policy rows)
    ≡ steps_of rows
unfolding is_timed
steps_over-collect_segment_ids_example =
    steps_over-collect_segment_ids ordering policy rows others (omega arith)

segment_row_count_bound_example :
    ((segment_of 1 (assign_rows ordering policy rows)).segment_row_count
      ≤ (1 + 1) * normalized_max_rows_per_segment policy)
    × ((ltb 0 (normalized_max_span_ms policy) && is_timed ordering) ≡ false
        → (segment_of 1 (assign_rows ordering policy rows)).segment_row_count
          ≤ normalized_max_rows_per_segment policy)
segment_row_count_bound_example = segment_row_count_bound ordering policy rows 1

-- Five rows in a segment, where the policy says two.
late_burst_example :
    (segment_of 2 (assign_rows ordering policy (at 0 1 ∷ burst 5 (at 20 2)))).segment_row_count ≡ 5
unfolding is_timed normalized_max_span_ms normalized_max_rows_per_segment
late_burst_example =
    late_burst ordering policy 2 5 (at 0 1) (at 20 2) refl (omega arith) (omega arith) refl refl
      (omega arith)
