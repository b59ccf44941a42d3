-- ===== src/Events/Categorical/Segments.antt =====
-- libs/events/categorical.py runs the fold segment by segment, and carries the state over with its
-- events cleared.
use s3ntinel.Prelude.{
  ◌≡◌, refl, sym, ap, ◌∙◌, List, [], ◌∷◌, ◌++◌, append_assoc, append-nil, Option, none, some,
  String, map, coalesce,
}
use mathlib.Core.Path.{ap₂}
use s3ntinel.Windows.Doubles.{Doubles}
use s3ntinel.Events.Categorical.{
  DetectedEvent, Sample, SequenceState, initial_state, carry_state, CategoricalDetectorConfig,
  emitted_by_step, is_new_state, guard_is_due, state_after_step, run_samples,
}

-- The whole stream of some segments.
unfoldable pub flatten : List (List Sample) → List Sample
flatten [] = []
flatten (steps ∷ rest) = steps ++ flatten rest

module _ (doubles : Doubles) (config : CategoricalDetectorConfig doubles) where
  open doubles use {Double}

  -- `build`, for one key: the passes over the segment ids in order, with the key's samples where
  -- it has a row at that id. The carry frame of a pass holds the keys of that pass alone.
  unfoldable pub build :
      Option (SequenceState Double) → List (Option (List Sample)) → List (DetectedEvent Double)
  build carry [] = []
  build carry (none ∷ rest) = build none rest
  build carry (some steps ∷ rest) =
      let after = run_samples doubles config (coalesce carry initial_state) steps in
      after.emitted_events ++ build (some (carry_state after)) rest

  abbrev with_events : SequenceState Double → List (DetectedEvent Double) → SequenceState Double
  with_events acc events = record acc { emitted_events = events }

  -- The step reads no events: those of the start stay in front.
  emitted_by_step-with_events :
      (acc : SequenceState Double) (events : List (DetectedEvent Double)) (step : Sample)
      (now old : Option String)
      → emitted_by_step doubles config (with_events acc events) step now old
        ≡ emitted_by_step doubles config acc step now old
  unfolding emitted_by_step
  emitted_by_step-with_events acc events step none old = refl
  emitted_by_step-with_events acc events step (some now) none = refl
  emitted_by_step-with_events acc events step (some now) (some old) = refl

  is_new_state-with_events :
      (acc : SequenceState Double) (events : List (DetectedEvent Double)) (now old : Option String)
      → is_new_state doubles (with_events acc events) now old ≡ is_new_state doubles acc now old
  unfolding is_new_state
  is_new_state-with_events acc events none old = refl
  is_new_state-with_events acc events (some now) none = refl
  is_new_state-with_events acc events (some now) (some old) = refl

  guard_is_due-with_events :
      (acc : SequenceState Double) (events : List (DetectedEvent Double)) (step : Sample)
      → guard_is_due doubles config (with_events acc events) step
        ≡ guard_is_due doubles config acc step
  unfolding guard_is_due
  guard_is_due-with_events acc events step = refl

  state_after_step-with_events :
      (acc : SequenceState Double) (events : List (DetectedEvent Double)) (step : Sample)
      → state_after_step doubles config (with_events acc (events ++ acc.emitted_events)) step
        ≡ with_events
            (state_after_step doubles config acc step)
            (events ++ (state_after_step doubles config acc step).emitted_events)
  unfolding state_after_step
  state_after_step-with_events acc events step = simp (
    emitted_by_step-with_events, is_new_state-with_events, guard_is_due-with_events, append_assoc,
  )

  run_samples-with_events :
      (steps : List Sample) (acc : SequenceState Double) (events : List (DetectedEvent Double))
      → run_samples doubles config (with_events acc (events ++ acc.emitted_events)) steps
        ≡ with_events
            (run_samples doubles config acc steps)
            (events ++ (run_samples doubles config acc steps).emitted_events)
  unfolding run_samples
  run_samples-with_events [] acc events = refl
  run_samples-with_events (step ∷ steps) acc events =
      ap (λ s. run_samples doubles config s steps) (state_after_step-with_events acc events step)
      ∙ run_samples-with_events steps (state_after_step doubles config acc step) events

  run_samples-append :
      (xs ys : List Sample) (acc : SequenceState Double)
      → run_samples doubles config acc (xs ++ ys)
        ≡ run_samples doubles config (run_samples doubles config acc xs) ys
  unfolding run_samples
  run_samples-append [] ys acc = refl
  run_samples-append (x ∷ xs) ys acc =
      run_samples-append xs ys (state_after_step doubles config acc x)

  run_samples-carry_state :
      (steps : List Sample) (acc : SequenceState Double)
      → run_samples doubles config acc steps
        ≡ with_events (run_samples doubles config (carry_state acc) steps) (
            acc.emitted_events
            ++ (run_samples doubles config (carry_state acc) steps).emitted_events)
  unfolding carry_state
  run_samples-carry_state steps acc =
      ap
        (λ (es : List (DetectedEvent Double)).
          run_samples doubles config (with_events acc es) steps)
        (sym (append-nil acc.emitted_events))
      ∙ run_samples-with_events steps (carry_state acc) acc.emitted_events

  build-carry :
      (segments : List (List Sample)) (acc : SequenceState Double)
      → acc.emitted_events ++ build (some (carry_state acc)) (map some segments)
        ≡ (run_samples doubles config acc (flatten segments)).emitted_events
  unfolding build flatten carry_state
  build-carry [] acc = unfold run_samples in append-nil acc.emitted_events
  build-carry (steps ∷ rest) acc =
      let after = run_samples doubles config (carry_state acc) steps in
      let all = acc.emitted_events ++ after.emitted_events in
      sym (append_assoc acc.emitted_events after.emitted_events _)
      ∙ build-carry rest (with_events after all)
      ∙ ap
          (λ (s : SequenceState Double).
            (run_samples doubles config s (flatten rest)).emitted_events)
          (sym (run_samples-carry_state steps acc))
      ∙ ap (λ (s : SequenceState Double). s.emitted_events)
          (sym (run_samples-append steps (flatten rest) acc))

  build-start :
      (segments : List (List Sample))
      → build none (map some segments)
        ≡ build (some (carry_state initial_state)) (map some segments)
  unfolding build carry_state initial_state
  build-start [] = refl
  build-start (steps ∷ rest) = refl

  build-whole :
      (segments : List (List Sample))
      → build none (map some segments)
        ≡ (run_samples doubles config initial_state (flatten segments)).emitted_events
  unfolding initial_state
  build-whole segments = build-start segments ∙ build-carry segments initial_state

  build-gap :
      (before : List (List Sample)) (carry : Option (SequenceState Double))
      (rest : List (Option (List Sample)))
      → build carry (map some before ++ none ∷ rest)
        ≡ build carry (map some before) ++ build none rest
  unfolding build
  build-gap [] carry rest = refl
  build-gap (steps ∷ before) carry rest =
      let after = run_samples doubles config (coalesce carry initial_state) steps in
      rw (build-gap before (some (carry_state after)) rest) (
        sym (
          append_assoc after.emitted_events (build (some (carry_state after)) (map some before))
            (build none rest)))

  -- Over segment ids without a gap for the key, whatever the segments hold, the passes emit what
  -- one run over the whole stream emits; where one gap lies between two such stretches, they emit
  -- what two runs, each from the initial state, emit.
  pub build-run_samples :
      (before after : List (List Sample))
      → (build none (map some before)
          ≡ (run_samples doubles config initial_state (flatten before)).emitted_events)
        × (build none (map some before ++ none ∷ map some after)
            ≡ (run_samples doubles config initial_state (flatten before)).emitted_events
              ++ (run_samples doubles config initial_state (flatten after)).emitted_events)
  build-run_samples before after = (
    build-whole before,
    build-gap before none (map some after) ∙ ap₂ ◌++◌ (build-whole before) (build-whole after),
  )
