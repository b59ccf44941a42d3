-- ===== src/Events/Categorical/Passes.antt =====
-- libs/events/categorical.py over the segments of libs/spark_sequence/plan.py: the passes that
-- `build` makes for one key, with the steps that the plan groups under each segment id.
use s3ntinel.Prelude.{◌≡◌, refl, ap, ◌∙◌, ℕ, List, [], ◌∷◌, ◌++◌, Option, none, some, map}
use s3ntinel.Windows.Doubles.{Doubles}
use s3ntinel.Sequence.Plan.{
  Row, SegmentedRow, SequenceOrderingPolicy, SequenceSegmentPolicy, is_timed, assign_rows,
  build_segment_steps, collect_segment_ids,
}
use s3ntinel.Sequence.Ascending.{Ascends}
use s3ntinel.Sequence.Segments.{steps_over, steps_of, steps_over-collect_segment_ids}
use s3ntinel.Events.Categorical.{Sample, CategoricalDetectorConfig, initial_state, run_samples}
use s3ntinel.Events.Categorical.Segments.{build, flatten, build-run_samples}

-- `segment_steps_df.where(segment_id)`: the key's row of a pass, if the key has one.
abbrev pass : List Sample → Option (List Sample)
pass [] = none
pass (step ∷ steps) = some (step ∷ steps)

unfoldable pub passes : List ℕ → List (SegmentedRow Sample) → List (Option (List Sample))
passes [] rows = []
passes (id ∷ ids) rows = pass (build_segment_steps id rows) ∷ passes ids rows

abbrev HasSteps : List Sample → Type 0
HasSteps [] = ⊥
HasSteps (step ∷ steps) = Unit

-- The key has rows at each of the ids.
abbrev pub HasNoGap : List ℕ → List (SegmentedRow Sample) → Type 0
HasNoGap [] rows = Unit
HasNoGap (id ∷ ids) rows = HasSteps (build_segment_steps id rows) × HasNoGap ids rows

segments : List ℕ → List (SegmentedRow Sample) → List (List Sample)
segments [] rows = []
segments (id ∷ ids) rows = build_segment_steps id rows ∷ segments ids rows

pass-some : (steps : List Sample) → HasSteps steps → pass steps ≡ some steps
pass-some [] h = absurd h
pass-some (step ∷ steps) h = refl

passes-some :
    (ids : List ℕ) (rows : List (SegmentedRow Sample))
    → HasNoGap ids rows
    → passes ids rows ≡ map some (segments ids rows)
unfolding passes segments
passes-some [] rows h = refl
passes-some (id ∷ ids) rows h =
    rw (pass-some (build_segment_steps id rows) h.0)
      (ap (◌∷◌ (some (build_segment_steps id rows))) (passes-some ids rows h.1))

flatten-segments :
    (ids : List ℕ) (rows : List (SegmentedRow Sample))
    → flatten (segments ids rows) ≡ steps_over ids rows
unfolding flatten segments steps_over
flatten-segments [] rows = refl
flatten-segments (id ∷ ids) rows =
    ap (λ rest. build_segment_steps id rows ++ rest) (flatten-segments ids rows)

-- A key's samples are in the order of their timestamps, and the key has rows at every segment id of
-- the frame, whatever rows the other keys have. Then the detector's passes over the plan's segments
-- emit what one run over the key's samples emits, for every segment policy.
pub build-assign_rows :
    (doubles : Doubles) (config : CategoricalDetectorConfig doubles)
    (ordering : SequenceOrderingPolicy) (policy : SequenceSegmentPolicy) (rows : List (Row Sample))
    (others : List (SegmentedRow Sample))
    → Ascends (is_timed ordering) rows
    → HasNoGap
        (collect_segment_ids (assign_rows ordering policy rows ++ others))
        (assign_rows ordering policy rows)
    → build doubles config none (
        passes
          (collect_segment_ids (assign_rows ordering policy rows ++ others))
          (assign_rows ordering policy rows))
      ≡ (run_samples doubles config initial_state (steps_of rows)).emitted_events
build-assign_rows doubles config ordering policy rows others ascends present =
    let segs = assign_rows ordering policy rows in
    let ids = collect_segment_ids (segs ++ others) in
    let emitted =
      λ (steps : List Sample). (run_samples doubles config initial_state steps).emitted_events in
    ap (build doubles config none) (passes-some ids segs present)
    ∙ (build-run_samples doubles config (segments ids segs) []).0
    ∙ ap emitted (
        flatten-segments ids segs
        ∙ steps_over-collect_segment_ids ordering policy rows others ascends)
