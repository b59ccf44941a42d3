-- ===== src/Events/Categorical/Outline.antt =====
-- What the fold of libs/events/categorical.py emits, against a description of the sample stream.
use s3ntinel.Prelude.{
  ℕ, ◌+◌, ◌≡◌, refl, sym, ◌∙◌, Bool, true, Option, none, some, List, [], ◌∷◌, ◌++◌, String, str_eq,
  if◌then◌else◌, arith, append_assoc, append-nil, is_some, not,
}
use s3ntinel.Windows.Doubles.{Doubles}
use s3ntinel.Events.Categorical.{
  DetectedEvent, dropped, transition, Sample, SequenceState, CategoricalDetectorConfig,
  emitted_by_step, state_after_step, run_samples,
}

-- The changes of state between neighbouring samples, both present.
changes_at : Option String → Option String → List (String × String)
changes_at (some old) (some now) = if str_eq now old then [] else (old, now) ∷ []
changes_at _ _ = []

pub changes : Option String → List Sample → List (String × String)
changes old [] = []
changes old (step ∷ steps) = changes_at old step.current_state ++ changes step.current_state steps

-- The missing samples that follow no missing sample.
onset_at : Bool → Option String → ℕ
onset_at was_missing (some now) = 0
onset_at was_missing none = if was_missing then 0 else 1

pub onsets : Bool → List Sample → ℕ
onsets was_missing [] = 0
onsets was_missing (step ∷ steps) =
    onset_at was_missing step.current_state + onsets (not (is_some step.current_state)) steps

module _ {D : Type 0} where
  transition_of : DetectedEvent D → List (String × String)
  transition_of (transition at old now dwell) = (old, now) ∷ []
  transition_of _ = []

  pub transitions : List (DetectedEvent D) → List (String × String)
  transitions [] = []
  transitions (e ∷ es) = transition_of e ++ transitions es

  drop_of : DetectedEvent D → ℕ
  drop_of (dropped at old) = 1
  drop_of _ = 0

  pub drops : List (DetectedEvent D) → ℕ
  drops [] = 0
  drops (e ∷ es) = drop_of e + drops es

  transitions-append :
      (xs ys : List (DetectedEvent D)) → transitions (xs ++ ys) ≡ transitions xs ++ transitions ys
  unfolding transitions
  transitions-append [] ys = refl
  transitions-append (x ∷ xs) ys = simp (transitions-append xs ys, append_assoc)

  drops-append : (xs ys : List (DetectedEvent D)) → drops (xs ++ ys) ≡ drops xs + drops ys
  unfolding drops
  drops-append [] ys = omega arith
  drops-append (x ∷ xs) ys = omega (arith, drops-append xs ys)

module _ (doubles : Doubles) (config : CategoricalDetectorConfig doubles) where
  open doubles use {Double}

  -- What one step adds to the transitions and to the dropped events.
  step_transitions :
      (acc : SequenceState Double) (step : Sample) (now old : Option String)
      → (acc.missing ≡ true → old ≡ none)
      → transitions (emitted_by_step doubles config acc step now old) ≡ changes_at old now
  unfolding emitted_by_step transitions transition_of changes_at
  step_transitions acc step none none clear = ground arith
  step_transitions acc step none (some old) clear = ground arith
  step_transitions acc step (some now) none clear = ground arith
  step_transitions acc step (some now) (some old) clear = ground arith

  step_drops :
      (acc : SequenceState Double) (step : Sample) (now old : Option String)
      → drops (emitted_by_step doubles config acc step now old) ≡ onset_at acc.missing now
  unfolding emitted_by_step drops drop_of onset_at
  step_drops acc step none none = ground arith
  step_drops acc step none (some old) = ground arith
  step_drops acc step (some now) none = ground arith
  step_drops acc step (some now) (some old) = ground arith

  -- From a state whose missing flag is set only where it has no last state, the transitions that a
  -- run emits, after those of the start, are the changes of state between neighbouring samples,
  -- in order; a missing sample separates its neighbours.
  pub run_samples-transitions :
      (steps : List Sample) (acc : SequenceState Double)
      → (acc.missing ≡ true → acc.last_state ≡ none)
      → transitions (run_samples doubles config acc steps).emitted_events
        ≡ transitions acc.emitted_events ++ changes acc.last_state steps
  unfolding run_samples changes state_after_step
  run_samples-transitions [] acc clear = sym (append-nil _)
  run_samples-transitions (step ∷ steps) acc clear =
      let emitted = emitted_by_step doubles config acc step step.current_state acc.last_state in
      run_samples-transitions steps (state_after_step doubles config acc step) (λ h. ground arith)
      ∙ simp (
        transitions-append acc.emitted_events emitted,
        step_transitions acc step step.current_state acc.last_state clear,
        append_assoc,
      )

  -- A run emits one dropped event for each missing sample that follows no missing sample.
  pub run_samples-drops :
      (steps : List Sample) (acc : SequenceState Double)
      → drops (run_samples doubles config acc steps).emitted_events
        ≡ drops acc.emitted_events + onsets acc.missing steps
  unfolding run_samples onsets state_after_step
  run_samples-drops [] acc = omega arith
  run_samples-drops (step ∷ steps) acc =
      let emitted = emitted_by_step doubles config acc step step.current_state acc.last_state in
      omega (
        arith,
        run_samples-drops steps (state_after_step doubles config acc step),
        drops-append acc.emitted_events emitted,
        step_drops acc step step.current_state acc.last_state,
      )
