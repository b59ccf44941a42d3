-- ===== src/Sequence/Segments.antt =====
-- libs/spark_sequence/plan.py: the segments of a key, put one after the other in the order of their
-- ids, are the key's rows.
use s3ntinel.Prelude.{
  ℕ, suc, ◌+◌, ◌≤◌, ◌<◌, ◌≡◌, refl, sym, ap, ◌∙◌, subst, inl, inr, Bool-cases, Bool, true, false,
  List, [], ◌∷◌, ◌++◌, map, arith, ◌==◌, any, if◌then◌else◌, Option,
}
use mathlib.Core.List.{map-append}
use s3ntinel.Sequence.Plan.{
  Row, SegmentedRow, SequenceOrderingPolicy, SequenceSegmentPolicy, number_rows, assign_rows,
  is_timed, rows_at, build_segment_steps, collect_segment_ids, insert_id,
  normalized_max_rows_per_segment, normalized_max_span_ms, sequence_start,
}
use s3ntinel.Sequence.Ascending.{Ascends, IdsFrom, assign_rows-IdsFrom}

-- Strictly ascending, and above `lo`.
abbrev pub AscendsAbove : ℕ → List ℕ → Type 0
AscendsAbove lo [] = Unit
AscendsAbove lo (i ∷ is) = (lo < i) × AscendsAbove i is

abbrev pub IsAscending : List ℕ → Type 0
IsAscending [] = Unit
IsAscending (i ∷ is) = AscendsAbove i is

AscendsAbove-weaken : (lo hi : ℕ) (is : List ℕ) → lo ≤ hi → AscendsAbove hi is → AscendsAbove lo is
AscendsAbove-weaken lo hi [] h above = tt
AscendsAbove-weaken lo hi (i ∷ is) h above = (omega arith, above.1)

insert_id-AscendsAbove :
    (lo id : ℕ) (is : List ℕ) → lo < id → AscendsAbove lo is → AscendsAbove lo (insert_id id is)
unfolding insert_id
insert_id-AscendsAbove lo id [] h above = ground arith
insert_id-AscendsAbove lo id (i ∷ is) h above = ground (arith, insert_id-AscendsAbove i id is)

insert_id-IsAscending : (id : ℕ) (is : List ℕ) → IsAscending is → IsAscending (insert_id id is)
unfolding insert_id
insert_id-IsAscending id [] above = tt
insert_id-IsAscending id (i ∷ is) above = ground (arith, insert_id-AscendsAbove i id is)

any-insert_id :
    (j id : ℕ) (is : List ℕ)
    → any (λ i. j == i) (insert_id id is) ≡ (if j == id then true else any (λ i. j == i) is)
unfolding insert_id
any-insert_id j id [] = ground arith
any-insert_id j id (i ∷ is) = ground (arith, any-insert_id j id is)

any-above : (j lo : ℕ) (is : List ℕ) → j ≤ lo → AscendsAbove lo is → any (λ i. j == i) is ≡ false
any-above j lo [] h above = refl
any-above j lo (i ∷ is) h above = ground (arith, any-above j i is)

IsAscending-tail : (lo : ℕ) (is : List ℕ) → AscendsAbove lo is → IsAscending is
IsAscending-tail lo [] above = tt
IsAscending-tail lo (i ∷ is) above = above.1

-- A listed id other than the first lies above it.
listed_above :
    (j i : ℕ) (is : List ℕ)
    → AscendsAbove i is
    → any (λ k. j == k) (i ∷ is) ≡ true
    → (j == i) ≡ false
    → i < j
listed_above j i is above listed other = ground (arith, any-above j i is)

same : {i j : ℕ} → (j == i) ≡ true → i ≡ j
same e = ground arith

module _ {A : Type 0} where
  -- Each row's id is listed.
  abbrev pub Listed : List ℕ → List (SegmentedRow A) → Type 0
  Listed ids [] = Unit
  Listed ids (row ∷ rows) = (any (λ i. row.flight_segment_id == i) ids ≡ true) × Listed ids rows

  pub collect_segment_ids-IsAscending :
      (rows : List (SegmentedRow A)) → IsAscending (collect_segment_ids rows)
  unfolding collect_segment_ids
  collect_segment_ids-IsAscending [] = tt
  collect_segment_ids-IsAscending (row ∷ rows) =
      insert_id-IsAscending row.flight_segment_id _ (collect_segment_ids-IsAscending rows)

  Listed-insert_id :
      (id : ℕ) (ids : List ℕ) (rows : List (SegmentedRow A))
      → Listed ids rows
      → Listed (insert_id id ids) rows
  Listed-insert_id id ids [] h = tt
  Listed-insert_id id ids (row ∷ rows) h =
      (any-insert_id row.flight_segment_id id ids ∙ ground arith, Listed-insert_id id ids rows h.1)

  pub collect_segment_ids-Listed :
      (rows : List (SegmentedRow A)) → Listed (collect_segment_ids rows) rows
  unfolding collect_segment_ids
  collect_segment_ids-Listed [] = tt
  collect_segment_ids-Listed (row ∷ rows) = (
    any-insert_id row.flight_segment_id row.flight_segment_id (collect_segment_ids rows)
        ∙ ground arith,
    Listed-insert_id row.flight_segment_id _ rows (collect_segment_ids-Listed rows),
  )

  -- The rows at each id in turn.
  unfoldable pub regroup : List ℕ → List (SegmentedRow A) → List (SegmentedRow A)
  regroup [] rows = []
  regroup (id ∷ ids) rows = rows_at id rows ++ regroup ids rows

  regroup-skip :
      (ids : List ℕ) (row : SegmentedRow A) (rows : List (SegmentedRow A))
      → AscendsAbove row.flight_segment_id ids
      → regroup ids (row ∷ rows) ≡ regroup ids rows
  unfolding regroup rows_at
  regroup-skip [] row rows above = refl
  regroup-skip (id ∷ ids) row rows above = ground (
    arith,
    regroup-skip ids row rows
        (AscendsAbove-weaken row.flight_segment_id id ids (omega arith) above.1),
  )

  rows_at-below :
      (id lo : ℕ) (rows : List (SegmentedRow A)) → id < lo → IdsFrom lo rows → rows_at id rows ≡ []
  unfolding rows_at
  rows_at-below id lo [] h from = refl
  rows_at-below id lo (row ∷ rows) h from =
      ground (arith, rows_at-below id row.flight_segment_id rows)

  Listed-tail :
      (id lo : ℕ) (ids : List ℕ) (rows : List (SegmentedRow A))
      → id < lo
      → IdsFrom lo rows
      → Listed (id ∷ ids) rows
      → Listed ids rows
  Listed-tail id lo ids [] h from listed = tt
  Listed-tail id lo ids (row ∷ rows) h from listed =
      (ground arith, Listed-tail id row.flight_segment_id ids rows (omega arith) from.1 listed.1)

  rows_at-here :
      (id : ℕ) (row : SegmentedRow A) (rows : List (SegmentedRow A))
      → (row.flight_segment_id == id) ≡ true
      → rows_at id (row ∷ rows) ≡ row ∷ rows_at id rows
  unfolding rows_at
  rows_at-here id row rows e = ground arith

  pub regroup_lem :
      (ids : List ℕ) (lo : ℕ) (rows : List (SegmentedRow A))
      → IsAscending ids
      → IdsFrom lo rows
      → Listed ids rows
      → regroup ids rows ≡ rows
  unfolding regroup
  regroup_lem [] lo [] above from listed = refl
  regroup_lem [] lo (row ∷ rows) above from listed = cc
  regroup_lem (id ∷ ids) lo [] above from listed =
      rw (rows_at-below id (suc id) [] (omega arith) tt)
        (regroup_lem ids lo [] (IsAscending-tail id ids above) tt tt)
  regroup_lem (id ∷ ids) lo (row ∷ rows) above from listed =
      elim (Bool-cases (row.flight_segment_id == id)) [
        | inl e ↦
            let rest = regroup_lem (id ∷ ids) row.flight_segment_id rows above from.1 listed.1 in
            let skip = regroup-skip ids row rows (subst (λ i. AscendsAbove i ids) (same e) above) in
            rw (rows_at-here id row rows e, skip) (ap (◌∷◌ row) rest)
        | inr e ↦
            let above' = listed_above row.flight_segment_id id ids above listed.0 e in
            let here : IdsFrom row.flight_segment_id (row ∷ rows) = (omega arith, from.1) in
            rw (rows_at-below id row.flight_segment_id (row ∷ rows) above' here) (
              regroup_lem ids row.flight_segment_id (row ∷ rows) (IsAscending-tail id ids above)
                here (Listed-tail id row.flight_segment_id ids (row ∷ rows) above' here listed))
      ]

  abbrev step_of : SegmentedRow A → A
  step_of row = row.row.step

  abbrev pub steps_of : List (Row A) → List A
  steps_of rows = map (λ r. r.step) rows

  -- The steps of the segments, in the order in which the passes over the ids read them.
  unfoldable pub steps_over : List ℕ → List (SegmentedRow A) → List A
  steps_over [] rows = []
  steps_over (id ∷ ids) rows = build_segment_steps id rows ++ steps_over ids rows

  steps_over-regroup :
      (ids : List ℕ) (rows : List (SegmentedRow A))
      → steps_over ids rows ≡ map step_of (regroup ids rows)
  unfolding steps_over regroup build_segment_steps
  steps_over-regroup [] rows = refl
  steps_over-regroup (id ∷ ids) rows =
      ap (λ rest. map step_of (rows_at id rows) ++ rest) (steps_over-regroup ids rows)
      ∙ sym (map-append step_of (rows_at id rows) (regroup ids rows))

  steps-number_rows :
      (m span : ℕ) (timed : Bool) (start : Option ℕ) (rows : List (Row A)) (n : ℕ) (seen : List ℕ)
      → map step_of (number_rows m span timed start n seen rows) ≡ steps_of rows
  unfolding number_rows
  steps-number_rows m span timed start [] n seen = refl
  steps-number_rows m span timed start (row ∷ rows) n seen =
      ap (◌∷◌ row.step) (steps-number_rows m span timed start rows (n + 1) _)

  steps-assign_rows :
      (ordering : SequenceOrderingPolicy) (policy : SequenceSegmentPolicy) (rows : List (Row A))
      → map step_of (assign_rows ordering policy rows) ≡ steps_of rows
  unfolding assign_rows
  steps-assign_rows ordering policy rows =
      steps-number_rows (normalized_max_rows_per_segment policy) (normalized_max_span_ms policy)
        (is_timed ordering) (sequence_start rows) rows 1 []

  Listed-append :
      (ids : List ℕ) (rows others : List (SegmentedRow A))
      → Listed ids (rows ++ others)
      → Listed ids rows
  Listed-append ids [] others h = tt
  Listed-append ids (row ∷ rows) others h = (h.0, Listed-append ids rows others h.1)

  -- The rows of a key are in the order of their timestamps. Then the passes over the segment ids of
  -- all keys, whatever segments the other keys have, read the key's steps once each and in order.
  pub steps_over-collect_segment_ids :
      (ordering : SequenceOrderingPolicy) (policy : SequenceSegmentPolicy) (rows : List (Row A))
      (others : List (SegmentedRow A))
      → Ascends (is_timed ordering) rows
      → steps_over
          (collect_segment_ids (assign_rows ordering policy rows ++ others))
          (assign_rows ordering policy rows)
        ≡ steps_of rows
  steps_over-collect_segment_ids ordering policy rows others h =
      let segs = assign_rows ordering policy rows in
      let ids = collect_segment_ids (segs ++ others) in
      steps_over-regroup ids segs
      ∙ ap (map step_of) (
          regroup_lem ids 0 segs (collect_segment_ids-IsAscending (segs ++ others))
            (assign_rows-IdsFrom ordering policy rows h)
            (Listed-append ids segs others (collect_segment_ids-Listed (segs ++ others))))
      ∙ steps-assign_rows ordering policy rows
