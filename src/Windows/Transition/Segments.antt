-- ===== src/Windows/Transition/Segments.antt =====
-- libs/windows/pipeline.py runs the fold segment by segment: AdaptiveWindowPlan.
-- _build_window_summaries, for the rows of one flight.
use s3ntinel.Prelude.{
  ℕ, zero, suc, ◌≡◌, refl, sym, ap, ◌∙◌, Bool, true, false, not, Option, none, some, List, [], ◌∷◌,
  ◌++◌, append_assoc, append-nil, map, any, is_some, coalesce, if◌then◌else◌,
}
use s3ntinel.Windows.Doubles.{Doubles}
use s3ntinel.Windows.Policy.{WindowPolicy}
use s3ntinel.Windows.Transition.{
  WindowStep, WindowSummary, SegmentState, initial_state, carry_state, state_after_step, run_steps,
  end_of_stream_windows,
}

-- All steps of some segments.
unfoldable pub joined : List (List WindowStep) → List WindowStep
joined [] = []
joined (steps ∷ rest) = steps ++ joined rest

-- Segment ids at which the flight has no row.
unfoldable pub absent : ℕ → List (Option (List WindowStep))
absent zero = []
absent (suc n) = none ∷ absent n

-- A flight that has a row at each of some ids that lie together, and at none before and after.
abbrev pub without_gap : ℕ → ℕ → List (List WindowStep) → List (Option (List WindowStep))
without_gap m n segments = absent m ++ (map some segments ++ absent n)

-- `__is_last_segment`: no later id has a row of the flight.
unfoldable pub is_last : List (Option (List WindowStep)) → Bool
is_last rest = not (any is_some rest)

module _ (doubles : Doubles) (policy : WindowPolicy) where
  open doubles use {Double}

  -- The passes over the segment ids in order, with the flight's steps where it has a row at that
  -- id. The carry frame of a pass holds the flights of that pass alone, and not those that end
  -- with it.
  unfoldable pub build_window_summaries :
      Option (SegmentState Double) → List (Option (List WindowStep)) → List (WindowSummary Double)
  build_window_summaries carry [] = []
  build_window_summaries carry (none ∷ rest) = build_window_summaries none rest
  build_window_summaries carry (some steps ∷ rest) =
      let last = is_last rest in
      let after = run_steps doubles policy (coalesce carry initial_state) steps in
      (after.closed_windows ++ end_of_stream_windows doubles policy after last)
      ++ build_window_summaries (if last then none else some (carry_state after)) rest

  abbrev with_closed : SegmentState Double → List (WindowSummary Double) → SegmentState Double
  with_closed acc windows = record acc { closed_windows = windows }

  -- The step reads no closed windows: those of the start stay in front.
  state_after_step-with_closed :
      (acc : SegmentState Double) (windows : List (WindowSummary Double)) (step : WindowStep)
      → state_after_step doubles policy (with_closed acc (windows ++ acc.closed_windows)) step
        ≡ with_closed
            (state_after_step doubles policy acc step)
            (windows ++ (state_after_step doubles policy acc step).closed_windows)
  unfolding state_after_step
  state_after_step-with_closed acc windows step = simp (append_assoc)

  run_steps-with_closed :
      (steps : List WindowStep) (acc : SegmentState Double) (windows : List (WindowSummary Double))
      → run_steps doubles policy (with_closed acc (windows ++ acc.closed_windows)) steps
        ≡ with_closed
            (run_steps doubles policy acc steps)
            (windows ++ (run_steps doubles policy acc steps).closed_windows)
  unfolding run_steps
  run_steps-with_closed [] acc windows = refl
  run_steps-with_closed (step ∷ steps) acc windows =
      ap (λ s. run_steps doubles policy s steps) (state_after_step-with_closed acc windows step)
      ∙ run_steps-with_closed steps (state_after_step doubles policy acc step) windows

  run_steps-append :
      (xs ys : List WindowStep) (acc : SegmentState Double)
      → run_steps doubles policy acc (xs ++ ys)
        ≡ run_steps doubles policy (run_steps doubles policy acc xs) ys
  unfolding run_steps
  run_steps-append [] ys acc = refl
  run_steps-append (x ∷ xs) ys acc = run_steps-append xs ys (state_after_step doubles policy acc x)

  run_steps-carry_state :
      (steps : List WindowStep) (acc : SegmentState Double)
      → run_steps doubles policy acc steps
        ≡ with_closed (run_steps doubles policy (carry_state acc) steps) (
            acc.closed_windows ++ (run_steps doubles policy (carry_state acc) steps).closed_windows)
  unfolding carry_state
  run_steps-carry_state steps acc =
      ap (λ (ws : List (WindowSummary Double)). run_steps doubles policy (with_closed acc ws) steps)
        (sym (append-nil acc.closed_windows))
      ∙ run_steps-with_closed steps (carry_state acc) acc.closed_windows

  -- What a flight's windows are if it ends in a state.
  abbrev finished : SegmentState Double → List (WindowSummary Double)
  finished state = state.closed_windows ++ end_of_stream_windows doubles policy state true

  end_of_stream_windows-with_closed :
      (acc : SegmentState Double) (windows : List (WindowSummary Double))
      → end_of_stream_windows doubles policy (with_closed acc windows) true
        ≡ end_of_stream_windows doubles policy acc true
  unfolding end_of_stream_windows
  end_of_stream_windows-with_closed acc windows = refl

  end_of_stream_windows-not_last :
      (acc : SegmentState Double) → end_of_stream_windows doubles policy acc false ≡ []
  unfolding end_of_stream_windows
  end_of_stream_windows-not_last acc = refl

  pub build-absent : (n : ℕ) → build_window_summaries none (absent n) ≡ []
  unfolding build_window_summaries absent
  build-absent zero = refl
  build-absent (suc n) = build-absent n

  is_last-absent : (n : ℕ) → is_last (absent n) ≡ true
  unfolding is_last absent
  is_last-absent zero = refl
  is_last-absent (suc n) = is_last-absent n

  is_last-gap :
      (segments : List (List WindowStep)) (rest : List (Option (List WindowStep)))
      → is_last rest ≡ false
      → is_last (map some segments ++ none ∷ rest) ≡ false
  unfolding is_last
  is_last-gap [] rest more = more
  is_last-gap (steps ∷ segments) rest more = refl

  -- One pass that is not the flight's last adds its closed windows to those before it.
  build_step :
      (steps : List WindowStep) (rest : List (Option (List WindowStep))) (acc : SegmentState Double)
      → is_last rest ≡ false
      → acc.closed_windows ++ build_window_summaries (some (carry_state acc)) (some steps ∷ rest)
        ≡ (run_steps doubles policy acc steps).closed_windows
          ++ build_window_summaries (some (carry_state (run_steps doubles policy acc steps))) rest
  unfolding build_window_summaries carry_state
  build_step steps rest acc more = rw more (
      rw
        (
          run_steps-carry_state steps acc,
          end_of_stream_windows-not_last (run_steps doubles policy (carry_state acc) steps),
          append-nil (run_steps doubles policy (carry_state acc) steps).closed_windows,
        )
        (sym (append_assoc acc.closed_windows _ _)))

  build_final_step :
      (steps : List WindowStep) (n : ℕ) (acc : SegmentState Double)
      → acc.closed_windows
          ++ build_window_summaries (some (carry_state acc)) (some steps ∷ absent n)
        ≡ finished (run_steps doubles policy acc steps)
  unfolding build_window_summaries
  build_final_step steps n acc =
      let after = run_steps doubles policy (carry_state acc) steps in
      rw
        (
          is_last-absent n,
          build-absent n,
          run_steps-carry_state steps acc,
          end_of_stream_windows-with_closed after (acc.closed_windows ++ after.closed_windows),
          append-nil (finished after),
        )
        (sym (append_assoc acc.closed_windows _ _))

  -- From a carried state, over segment ids at which the flight has a row each time.
  pub build-carry :
      (steps : List WindowStep) (rest : List (List WindowStep)) (n : ℕ) (acc : SegmentState Double)
      → acc.closed_windows
          ++ build_window_summaries (some (carry_state acc)) (map some (steps ∷ rest) ++ absent n)
        ≡ finished (run_steps doubles policy acc (joined (steps ∷ rest)))
  unfolding joined
  build-carry steps [] n acc = rw append-nil (build_final_step steps n acc)
  build-carry steps (next ∷ rest) n acc =
      build_step steps (map some (next ∷ rest) ++ absent n) acc (unfold is_last in refl)
      ∙ build-carry next rest n (run_steps doubles policy acc steps)
      ∙ ap (λ (s : SegmentState Double). finished s)
          (sym (run_steps-append steps (joined (next ∷ rest)) acc))

  -- From a carried state, up to a segment id at which the flight has no row.
  pub build_gap :
      (segments : List (List WindowStep)) (rest : List (Option (List WindowStep)))
      (acc : SegmentState Double)
      → is_last rest ≡ false
      → acc.closed_windows
          ++ build_window_summaries (some (carry_state acc)) (map some segments ++ none ∷ rest)
        ≡ (run_steps doubles policy acc (joined segments)).closed_windows
          ++ build_window_summaries none rest
  unfolding joined build_window_summaries run_steps
  build_gap [] rest acc more = refl
  build_gap (steps ∷ segments) rest acc more =
      build_step steps (map some segments ++ none ∷ rest) acc (is_last-gap segments rest more)
      ∙ build_gap segments rest (run_steps doubles policy acc steps) more
      ∙ ap (λ (s : SegmentState Double). s.closed_windows ++ build_window_summaries none rest)
          (sym (run_steps-append steps (joined segments) acc))
