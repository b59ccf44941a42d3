-- ===== src/Windows/Transition/Numbering.antt =====
-- The window ids that the fold of libs/windows/pipeline.py hands out.
use s3ntinel.Prelude.{
  ℕ, suc, ◌+◌, ◌≡◌, refl, true, false, some, List, [], ◌∷◌, ◌++◌, arith, length, length-append,
  subst,
}
use s3ntinel.Windows.Doubles.{Doubles}
use s3ntinel.Windows.Policy.{WindowPolicy}
use s3ntinel.Windows.Transition.{
  WindowStep, no_window, WindowSummary, SegmentState, initial_state, preclosed, postclosed,
  state_after_step, run_steps, end_of_stream_windows, windows_of,
}

-- The ids are `n`, `n + 1`, and so on.
abbrev pub NumberedFrom : {D : Type 0} → ℕ → List (WindowSummary D) → Type 0
NumberedFrom n [] = Unit
NumberedFrom n (w ∷ ws) = (w.win_id ≡ some n) × NumberedFrom (suc n) ws

NumberedFrom-append :
    {D : Type 0} (n : ℕ) (xs ys : List (WindowSummary D))
    → NumberedFrom n xs
    → NumberedFrom (n + length xs) ys
    → NumberedFrom n (xs ++ ys)
NumberedFrom-append n [] ys h k = rw (let e : n + 0 ≡ n = omega arith in e) at k
NumberedFrom-append n (x ∷ xs) ys h k = (
  h.0,
  NumberedFrom-append (suc n) xs ys h.1
      (rw (let e : n + suc (length xs) ≡ suc n + length xs = omega arith in e) at k),
)

module _ (doubles : Doubles) (policy : WindowPolicy) where
  open doubles use {Double}

  -- The next id is that of the open window, and one more than the number of closed windows.
  pub record IsNumbered (state : SegmentState Double) : Type 0 where
    pub closed : NumberedFrom 1 state.closed_windows
    pub next : state.next_win_id ≡ 1 + length state.closed_windows
    pub opened : state.has_open_window ≡ true → state.open_state.win_id ≡ some state.next_win_id
    pub shut : state.has_open_window ≡ false → state.open_state ≡ no_window

  -- What one step closes is numbered on from the next id.
  step_numbers :
      (acc : SegmentState Double) (step : WindowStep)
      → IsNumbered acc
      → NumberedFrom acc.next_win_id
          (preclosed doubles policy acc step ++ postclosed doubles policy acc step)
        × ((state_after_step doubles policy acc step).next_win_id
            ≡ acc.next_win_id
              + length (preclosed doubles policy acc step ++ postclosed doubles policy acc step))
        × ((state_after_step doubles policy acc step).has_open_window ≡ true
            → (state_after_step doubles policy acc step).open_state.win_id
              ≡ some (state_after_step doubles policy acc step).next_win_id)
        × ((state_after_step doubles policy acc step).has_open_window ≡ false
            → (state_after_step doubles policy acc step).open_state ≡ no_window)
  unfolding state_after_step
  step_numbers acc step inv = (ground arith, ground arith, ground arith, ground arith)

  state_after_step-IsNumbered :
      (acc : SegmentState Double) (step : WindowStep)
      → IsNumbered acc
      → IsNumbered (state_after_step doubles policy acc step)
  unfolding state_after_step
  state_after_step-IsNumbered acc step inv =
      let emitted = preclosed doubles policy acc step ++ postclosed doubles policy acc step in
      let (ids, next, opened, shut) = step_numbers acc step inv in
      record {
        closed =
            NumberedFrom-append 1 acc.closed_windows emitted inv.closed
              (subst (λ n. NumberedFrom n emitted) inv.next ids);
        next = omega (arith, next, inv.next, length-append acc.closed_windows emitted);
        opened = opened;
        shut = shut;
      }

  pub run_steps-IsNumbered :
      (acc : SegmentState Double) (steps : List WindowStep)
      → IsNumbered acc
      → IsNumbered (run_steps doubles policy acc steps)
  unfolding run_steps
  run_steps-IsNumbered acc [] inv = inv
  run_steps-IsNumbered acc (step ∷ steps) inv =
      run_steps-IsNumbered (state_after_step doubles policy acc step) steps
        (state_after_step-IsNumbered acc step inv)

  initial_state-IsNumbered : IsNumbered initial_state
  unfolding initial_state
  initial_state-IsNumbered = record { closed = tt; next = refl; opened = λ e. cc; shut = λ e. refl }

  final_numbers :
      (state : SegmentState Double)
      → IsNumbered state
      → NumberedFrom state.next_win_id (end_of_stream_windows doubles policy state true)
  unfolding end_of_stream_windows
  final_numbers state inv = ground arith

  -- Whatever the steps, the windows of one segment, the one that the end of the stream closes
  -- included, have the ids 1, 2, 3 and so on, in the order in which they close.
  pub windows_of-NumberedFrom :
      (steps : List WindowStep) → NumberedFrom 1 (windows_of doubles policy steps)
  unfolding windows_of
  windows_of-NumberedFrom steps =
      let inv = run_steps-IsNumbered initial_state steps initial_state-IsNumbered in
      let state = run_steps doubles policy initial_state steps in
      let last = end_of_stream_windows doubles policy state true in
      NumberedFrom-append 1 state.closed_windows last inv.closed
        (subst (λ n. NumberedFrom n last) inv.next (final_numbers state inv))
