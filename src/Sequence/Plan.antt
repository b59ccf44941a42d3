-- ===== src/Sequence/Plan.antt =====
-- libs/spark_sequence/plan.py: SegmentedSequencePlan. A frame is the list of one key's rows in the
-- plan's order. Row numbers start at 1, segment ids at 0.
use s3ntinel.Prelude.{
  ℕ, ◌+◌, ◌-◌, ◌/◌, max, min, ◌==◌, ltb, Bool, false, ◌&&◌, Option, none, some, List, [], ◌∷◌, ◌++◌,
  map, String, str_eq, if◌then◌else◌, length, any, select, not,
}
use s3ntinel.Prelude.Int.{ℤ, pos_part}
use s3ntinel.Prelude.Text.{sorted_texts}

pub record SequenceOrderingPolicy : Type 0 where
  pub key_columns : List String
  pub order_columns : List String
  pub timestamp_column : Option String
  pub row_number_column : String
  pub segment_id_column : String
  pub row_in_segment_column : String

pub record SequenceSegmentPolicy : Type 0 where
  pub max_rows_per_segment : ℤ
  pub max_span_ms : ℤ

-- The `ValueError`s of the plan. The message lists the missing columns.
pub data PlanError : Type 0 where
  no_key_columns no_order_columns : PlanError
  missing : List String → PlanError

pub data Checked (A : Type 0) : Type 0 where
  ok : A → Checked A
  err : PlanError → Checked A

infixl 5 ◌>>=◌
abbrev ◌>>=◌ : {A B : Type 0} → Checked A → (A → Checked B) → Checked B
ok a >>= f = f a
err e >>= f = err e

unfoldable pub normalized_max_rows_per_segment : SequenceSegmentPolicy → ℕ
normalized_max_rows_per_segment policy = max (pos_part policy.max_rows_per_segment) 1

unfoldable pub normalized_max_span_ms : SequenceSegmentPolicy → ℕ
normalized_max_span_ms policy = pos_part policy.max_span_ms

-- `if timestamp_column`: neither None nor empty.
unfoldable pub is_timed : SequenceOrderingPolicy → Bool
is_timed ordering = elim ordering.timestamp_column [
  | none ↦ false
  | some column ↦ not (str_eq column "")
]

unfoldable pub normalized_key_columns : SequenceOrderingPolicy → Checked (List String)
normalized_key_columns ordering = elim ordering.key_columns [
  | [] ↦ err no_key_columns
  | column ∷ rest ↦ ok (column ∷ rest)
]

unfoldable pub normalized_order_columns : SequenceOrderingPolicy → Checked (List String)
normalized_order_columns ordering = elim ordering.order_columns [
  | [] ↦ err no_order_columns
  | column ∷ rest ↦ ok (column ∷ rest)
]

pub record Row (A : Type 0) : Type 0 where
  -- The timestamp column, in milliseconds.
  pub timestamp : Option ℕ
  pub step : A

pub record SegmentedRow (A : Type 0) : Type 0 where
  pub sequence_row_number : ℕ
  pub flight_segment_id : ℕ
  pub sequence_row_in_segment : ℕ
  pub row : Row A

pub record SequenceSegment : Type 0 where
  pub flight_segment_id : ℕ
  pub segment_row_count : ℕ
  pub segment_row_number_start : Option ℕ
  pub segment_row_number_end : Option ℕ
  pub segment_t_start : Option ℕ
  pub segment_t_end : Option ℕ

-- Spark's `min` and `max` of a column: nulls count for nothing.
abbrev least : Option ℕ → Option ℕ → Option ℕ
least none b = b
least (some a) none = some a
least (some a) (some b) = some (min a b)

abbrev most : Option ℕ → Option ℕ → Option ℕ
most none b = b
most (some a) none = some a
most (some a) (some b) = some (max a b)

abbrev count_of : ℕ → List ℕ → ℕ
count_of id [] = 0
count_of id (i ∷ ids) = (if i == id then 1 else 0) + count_of id ids

-- `_span_segment_id`, null for a row with no timestamp.
unfoldable pub span_segment_id : ℕ → Option ℕ → Option ℕ → Option ℕ
span_segment_id span none at = none
span_segment_id span (some start) none = none
span_segment_id span (some start) (some at) = some ((at - start) / span)

-- `greatest`, which skips a null.
abbrev greatest : ℕ → Option ℕ → ℕ
greatest a none = a
greatest a (some b) = max a b

unfoldable pub segment_id : ℕ → ℕ → Bool → Option ℕ → ℕ → Option ℕ → ℕ
unfolding span_segment_id
segment_id max_rows span timed start number at =
    let row_segment = (number - 1) / max_rows in
    if ltb 0 span && timed
    then greatest row_segment (span_segment_id span start at)
    else row_segment

module _ {A : Type 0} where
  unfoldable pub sequence_start : List (Row A) → Option ℕ
  sequence_start [] = none
  sequence_start (row ∷ rows) = least row.timestamp (sequence_start rows)

  -- The windows' row numbers, over the whole key and over each segment; `seen` holds the segment
  -- ids of the rows before.
  unfoldable pub number_rows :
      ℕ → ℕ → Bool → Option ℕ → ℕ → List ℕ → List (Row A) → List (SegmentedRow A)
  unfolding segment_id
  number_rows max_rows span timed start number seen [] = []
  number_rows max_rows span timed start number seen (row ∷ rows) =
      let id = segment_id max_rows span timed start number row.timestamp in
      record {
        sequence_row_number = number;
        flight_segment_id = id;
        sequence_row_in_segment = count_of id seen + 1;
        row = row;
      }
      ∷ number_rows max_rows span timed start (number + 1) (id ∷ seen) rows

  unfoldable pub assign_rows :
      SequenceOrderingPolicy → SequenceSegmentPolicy → List (Row A) → List (SegmentedRow A)
  unfolding number_rows sequence_start normalized_max_rows_per_segment normalized_max_span_ms
  assign_rows ordering policy rows =
      number_rows (normalized_max_rows_per_segment policy) (normalized_max_span_ms policy)
        (is_timed ordering) (sequence_start rows) 1 [] rows

  abbrev pub has_id : ℕ → SegmentedRow A → Bool
  has_id id row = row.flight_segment_id == id

  unfoldable pub rows_at : ℕ → List (SegmentedRow A) → List (SegmentedRow A)
  rows_at id rows = select (has_id id) rows

  abbrev first_number : List (SegmentedRow A) → Option ℕ
  first_number [] = none
  first_number (row ∷ rows) = least (some row.sequence_row_number) (first_number rows)

  abbrev last_number : List (SegmentedRow A) → Option ℕ
  last_number [] = none
  last_number (row ∷ rows) = most (some row.sequence_row_number) (last_number rows)

  abbrev first_time : List (SegmentedRow A) → Option ℕ
  first_time [] = none
  first_time (row ∷ rows) = least row.row.timestamp (first_time rows)

  abbrev last_time : List (SegmentedRow A) → Option ℕ
  last_time [] = none
  last_time (row ∷ rows) = most row.row.timestamp (last_time rows)

  -- The aggregates of one group of `segments_df`.
  unfoldable pub segment_of : ℕ → List (SegmentedRow A) → SequenceSegment
  unfolding rows_at
  segment_of id rows =
      let group = rows_at id rows in
      record {
        flight_segment_id = id;
        segment_row_count = length group;
        segment_row_number_start = first_number group;
        segment_row_number_end = last_number group;
        segment_t_start = first_time group;
        segment_t_end = last_time group;
      }

  -- The steps of one group. Row numbers come first in the struct and are distinct, so the sorted
  -- array has the rows' order.
  unfoldable pub build_segment_steps : ℕ → List (SegmentedRow A) → List A
  unfolding rows_at
  build_segment_steps id rows = map (λ (r : SegmentedRow A). r.row.step) (rows_at id rows)

-- The ids of the frame, distinct and ascending.
unfoldable pub insert_id : ℕ → List ℕ → List ℕ
insert_id id [] = id ∷ []
insert_id id (i ∷ ids) =
    let later = i ∷ insert_id id ids in
    if id == i then i ∷ ids else if ltb id i then id ∷ i ∷ ids else later

unfoldable pub collect_segment_ids : {A : Type 0} → List (SegmentedRow A) → List ℕ
unfolding insert_id
collect_segment_ids [] = []
collect_segment_ids (row ∷ rows) = insert_id row.flight_segment_id (collect_segment_ids rows)

-- `set(required).difference(df.columns)`, sorted.
unfoldable pub missing_columns : List String → List String → List String
missing_columns required columns =
    select (λ c. not (any (str_eq c) columns)) (sorted_texts required)

unfoldable pub required_columns : SequenceOrderingPolicy → List String
required_columns ordering =
    ordering.key_columns ++ ordering.order_columns ++ elim ordering.timestamp_column [
      | none ↦ []
      | some column ↦ if str_eq column "" then [] else column ∷ []
    ]

abbrev require : List String → List String × List String → Checked (List String × List String)
require [] columns = ok columns
require (c ∷ cs) columns = err (missing (c ∷ cs))

unfoldable pub validate_columns :
    SequenceOrderingPolicy → List String → Checked (List String × List String)
unfolding normalized_key_columns normalized_order_columns required_columns missing_columns
validate_columns ordering columns = normalized_key_columns ordering >>= λ keys.
    normalized_order_columns ordering >>= λ orders.
    require (missing_columns (required_columns ordering) columns) (keys, orders)

-- `assign_segments`: the rows of one key, segmented.
unfoldable pub assign_segments :
    {A : Type 0}
    → SequenceOrderingPolicy
    → SequenceSegmentPolicy
    → List String
    → List (Row A)
    → Checked (List (SegmentedRow A))
unfolding validate_columns
assign_segments ordering policy columns rows =
    validate_columns ordering columns >>= λ _. ok (assign_rows ordering policy rows)
