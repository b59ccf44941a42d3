-- ===== src/Sequence/Bounds.antt =====
-- libs/spark_sequence/plan.py: how many rows a segment holds.
use s3ntinel.Prelude.{
  ℕ, zero, suc, ◌+◌, ◌-◌, ◌*◌, ◌/◌, ◌≤◌, ◌<◌, ◌≡◌, refl, ap, ◌∙◌, inl, inr, Bool, true, false,
  Option, none, some, List, [], ◌∷◌, arith, ◌==◌, length, max, min, ltb, ◌&&◌, Bool-cases, leb,
  leb→le, lt→ltb, ==_iff, if◌then◌else◌,
}
use native.Mathlib.Nat.{
  le-div_iff_mul-le, div-mul-le_self, le_refl, add-sub_cancel, zero-div, div-lt_iff_lt-mul,
  mul-div_cancel,
}
use s3ntinel.Sequence.Plan.{
  Row, SegmentedRow, SequenceOrderingPolicy, SequenceSegmentPolicy, segment_id, span_segment_id,
  number_rows, assign_rows, is_timed, rows_at, segment_of, has_id, normalized_max_rows_per_segment,
  normalized_max_span_ms, sequence_start,
}

-- The row part of the id alone bounds the row's number.
segment_id-ge :
    (m span : ℕ) (timed : Bool) (start : Option ℕ) (n : ℕ) (at : Option ℕ)
    → n / m ≤ segment_id m span timed start (n + 1) at
unfolding segment_id span_segment_id
segment_id-ge m zero timed start n at = ground arith
segment_id-ge m (suc span) false start n at = ground arith
segment_id-ge m (suc span) true none n at = ground arith
segment_id-ge m (suc span) true (some s) n none = ground arith
segment_id-ge m (suc span) true (some s) n (some b) = ground arith

segment_id-untimed :
    (m span : ℕ) (timed : Bool) (start : Option ℕ) (n : ℕ) (at : Option ℕ)
    → (ltb 0 span && timed) ≡ false
    → segment_id m span timed start (n + 1) at ≡ n / m
unfolding segment_id
segment_id-untimed m span timed start n at off = rw off (ap (λ k. k / m) (omega arith))

lt-div_bound : (n m id : ℕ) → 0 < m → n / m ≤ id → n < (id + 1) * m
lt-div_bound n m id wide h = elim (Bool-cases (leb ((id + 1) * m) n)) [
  | inl e ↦
      let above = (le-div_iff_mul-le {k = m} {x = id + 1} {y = n} wide).1 (leb→le _ n e) in
      absurd (omega arith)
  | inr e ↦ ground arith
]

-- A row that an untimed plan gives the id lies in the id's block of rows.
untimed_block : (n m id : ℕ) → 0 < m → (n / m == id) ≡ true → id * m ≤ n
untimed_block n m id wide e = rw (← (==_iff (n / m) id).0 e) (div-mul-le_self n m)

late_max :
    (test : Bool) (a b k : ℕ)
    → test ≡ true
    → a < k + 1
    → b ≡ k
    → (if test && true then max a b else a) ≡ k
late_max test a b k t low e = ground arith

-- A row k spans after the start, among the first (k + 1) * m rows, is in segment k.
segment_id-late :
    (k m span n : ℕ) (at : Option ℕ)
    → 0 < m
    → 0 < span
    → at ≡ some (k * span)
    → n < (k + 1) * m
    → segment_id m span true (some 0) (n + 1) at ≡ k
unfolding segment_id span_segment_id
segment_id-late k m span n at wide long e fits =
    let early : n / m < k + 1 = (div-lt_iff_lt-mul {k = m} {x = n} {y = k + 1} wide).1 fits in
    rw e (
      late_max (ltb 0 span) ((n + 1 - 1) / m) ((k * span - 0) / span) k (lt→ltb 0 span long)
        (rw (add-sub_cancel n 1) early) (ap (λ t. t / span) (omega arith) ∙ mul-div_cancel k long))

segment_id-first :
    (m span : ℕ) (at : Option ℕ)
    → 0 < m
    → 0 < span
    → at ≡ some 0
    → segment_id m span true (some 0) 1 at ≡ 0
unfolding segment_id span_segment_id
segment_id-first m span at wide long e = rw e (
    late_max (ltb 0 span) (0 / m) (0 / span) 0 (lt→ltb 0 span long) (rw (zero-div m) (omega arith))
      (zero-div span))

max_rows_pos : (policy : SequenceSegmentPolicy) → 0 < normalized_max_rows_per_segment policy
unfolding normalized_max_rows_per_segment
max_rows_pos policy = ground arith

abbrev one_if : Bool → ℕ
one_if b = if b then 1 else 0

one_if-true : (i j : ℕ) → i ≡ j → one_if (i == j) ≡ 1
one_if-true i j e = ground arith

step_bound :
    (here id n m rest : ℕ)
    → 0 < m
    → n / m ≤ here
    → rest ≤ (id + 1) * m - (n + 1)
    → one_if (here == id) + rest ≤ (id + 1) * m - n
step_bound here id n m rest wide low ih = elim (Bool-cases (here == id)) [
  | inl e ↦
      let same = (==_iff here id).0 e in
      rw e (omega (arith, lt-div_bound n m id wide (rw (← same) low)))
  | inr e ↦ rw e (omega arith)
]

block_bound :
    (id n m rest : ℕ)
    → 0 < m
    → rest ≤ min m ((id + 1) * m - (n + 1))
    → one_if (n / m == id) + rest ≤ min m ((id + 1) * m - n)
block_bound id n m rest wide ih = elim (Bool-cases (n / m == id)) [
  | inl e ↦
      let low : n / m ≤ id = rw ((==_iff (n / m) id).0 e) (le_refl id) in
      rw e (omega (arith, lt-div_bound n m id wide low, untimed_block n m id wide e))
  | inr e ↦ rw e (omega arith)
]

module _ {A : Type 0} where
  length-rows_at_cons :
      (id : ℕ) (row : SegmentedRow A) (rows : List (SegmentedRow A))
      → length (rows_at id (row ∷ rows)) ≡ one_if (has_id id row) + length (rows_at id rows)
  unfolding rows_at
  length-rows_at_cons id row rows = ground arith

  length-rows_at :
      (id m span : ℕ) (timed : Bool) (start : Option ℕ) (rows : List (Row A)) (n : ℕ)
      (seen : List ℕ)
      → 0 < m
      → length (rows_at id (number_rows m span timed start (n + 1) seen rows)) ≤ (id + 1) * m - n
  unfolding number_rows
  length-rows_at id m span timed start [] n seen wide = unfold rows_at in omega arith
  length-rows_at id m span timed start (row ∷ rows) n seen wide =
      let here = segment_id m span timed start (n + 1) row.timestamp in
      rw (length-rows_at_cons id _ (number_rows m span timed start (n + 1 + 1) (here ∷ seen) rows))
        (step_bound here id n m _ wide (segment_id-ge m span timed start n row.timestamp)
          (length-rows_at id m span timed start rows (n + 1) (here ∷ seen) wide))

  length-rows_at_untimed :
      (id m span : ℕ) (timed : Bool) (start : Option ℕ) (rows : List (Row A)) (n : ℕ)
      (seen : List ℕ)
      → 0 < m
      → (ltb 0 span && timed) ≡ false
      → length (rows_at id (number_rows m span timed start (n + 1) seen rows))
        ≤ min m ((id + 1) * m - n)
  unfolding number_rows
  length-rows_at_untimed id m span timed start [] n seen wide off = unfold rows_at in omega arith
  length-rows_at_untimed id m span timed start (row ∷ rows) n seen wide off =
      let here = segment_id m span timed start (n + 1) row.timestamp in
      rw
        (
          length-rows_at_cons id _ (number_rows m span timed start (n + 1 + 1) (here ∷ seen) rows),
          segment_id-untimed m span timed start n row.timestamp off,
        )
        (block_bound id n m _ wide
          (length-rows_at_untimed id m span timed start rows (n + 1) (n / m ∷ seen) wide off))

  -- Segment `id` of any key holds at most (id + 1) * max_rows rows, and at most max_rows rows if the
  -- plan has no span or reads no timestamps.
  pub segment_row_count_bound :
      (ordering : SequenceOrderingPolicy) (policy : SequenceSegmentPolicy) (rows : List (Row A))
      (id : ℕ)
      → ((segment_of id (assign_rows ordering policy rows)).segment_row_count
          ≤ (id + 1) * normalized_max_rows_per_segment policy)
        × ((ltb 0 (normalized_max_span_ms policy) && is_timed ordering) ≡ false
            → (segment_of id (assign_rows ordering policy rows)).segment_row_count
              ≤ normalized_max_rows_per_segment policy)
  unfolding segment_of assign_rows
  segment_row_count_bound ordering policy rows id =
      let m = normalized_max_rows_per_segment policy in
      let span = normalized_max_span_ms policy in
      let timed = is_timed ordering in
      let start = sequence_start rows in
      (
        omega (arith, length-rows_at id m span timed start rows 0 [] (max_rows_pos policy)),
        λ off. omega (
          arith,
          length-rows_at_untimed id m span timed start rows 0 [] (max_rows_pos policy) off,
        ),
      )

  abbrev pub burst : ℕ → Row A → List (Row A)
  burst zero row = []
  burst (suc n) row = row ∷ burst n row

  length-rows_at-burst :
      (k m span r n : ℕ) (row : Row A) (seen : List ℕ)
      → 0 < m
      → 0 < span
      → row.timestamp ≡ some (k * span)
      → n + r ≤ (k + 1) * m
      → length (rows_at k (number_rows m span true (some 0) (n + 1) seen (burst r row))) ≡ r
  unfolding number_rows
  length-rows_at-burst k m span zero n row seen wide long at fits = unfold rows_at in refl
  length-rows_at-burst k m span (suc r) n row seen wide long at fits =
      let here = segment_id m span true (some 0) (n + 1) row.timestamp in
      length-rows_at_cons k _
        (number_rows m span true (some 0) (n + 1 + 1) (here ∷ seen) (burst r row))
      ∙ omega (
        arith,
        one_if-true here k (segment_id-late k m span n row.timestamp wide long at (omega arith)),
        length-rows_at-burst k m span r (n + 1) row (here ∷ seen) wide long at (omega arith),
      )

  segment_row_count_lem :
      (ordering : SequenceOrderingPolicy) (policy : SequenceSegmentPolicy) (rows : List (Row A))
      (id : ℕ)
      → (segment_of id (assign_rows ordering policy rows)).segment_row_count
        ≡ length (
            rows_at id (
              number_rows
                (normalized_max_rows_per_segment policy)
                (normalized_max_span_ms policy)
                (is_timed ordering)
                (sequence_start rows)
                1
                []
                rows))
  unfolding segment_of assign_rows
  segment_row_count_lem ordering policy rows id = refl

  length-rows_at_first :
      (k m span r : ℕ) (first row : Row A)
      → 0 < k
      → segment_id m span true (some 0) 1 first.timestamp ≡ 0
      → length (rows_at k (number_rows m span true (some 0) 1 [] (first ∷ burst r row)))
        ≡ length (rows_at k (number_rows m span true (some 0) (1 + 1) (0 ∷ []) (burst r row)))
  unfolding number_rows
  length-rows_at_first k m span r first row late e = rw e (
      length-rows_at_cons k _ (number_rows m span true (some 0) (1 + 1) (0 ∷ []) (burst r row))
      ∙ ground arith)

  sequence_start-zero :
      (first : Row A) (rows : List (Row A))
      → first.timestamp ≡ some 0
      → sequence_start (first ∷ rows) ≡ some 0
  unfolding sequence_start
  sequence_start-zero first rows e = ground (arith, e)

  -- A key with a row at the time 0 and r rows a whole number k of spans later, k at least 1: up to
  -- (k + 1) * max_rows - 1 of the later rows make one segment, which may so exceed max_rows.
  pub late_burst :
      (ordering : SequenceOrderingPolicy) (policy : SequenceSegmentPolicy) (k r : ℕ)
      (first row : Row A)
      → is_timed ordering ≡ true
      → 0 < normalized_max_span_ms policy
      → 0 < k
      → first.timestamp ≡ some 0
      → row.timestamp ≡ some (k * normalized_max_span_ms policy)
      → r + 1 ≤ (k + 1) * normalized_max_rows_per_segment policy
      → (segment_of k (assign_rows ordering policy (first ∷ burst r row))).segment_row_count ≡ r
  late_burst ordering policy k r first row timed long late e at fits =
      let m = normalized_max_rows_per_segment policy in
      let span = normalized_max_span_ms policy in
      let rows = first ∷ burst r row in
      let size =
        λ (t : Bool) (s : Option ℕ). length (rows_at k (number_rows m span t s 1 [] rows)) in
      segment_row_count_lem ordering policy rows k
      ∙ ap (λ t. size t (sequence_start rows)) timed
      ∙ ap (size true) (sequence_start-zero first (burst r row) e)
      ∙ length-rows_at_first k m span r first row late
          (segment_id-first m span first.timestamp (max_rows_pos policy) long e)
      ∙ length-rows_at-burst k m span r 1 row (0 ∷ []) (max_rows_pos policy) long at (omega arith)
