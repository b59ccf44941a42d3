-- ===== src/Windows/Transition/Passes.antt =====
-- libs/windows/pipeline.py: the windows that the passes over the segment ids give, and those of one
-- run over all of a flight's steps.
use s3ntinel.Prelude.{
  ℕ, zero, suc, ◌≡◌, refl, ap, ◌∙◌, false, none, some, Option, List, [], ◌∷◌, ◌++◌, map,
}
use s3ntinel.Windows.Doubles.{Doubles}
use s3ntinel.Windows.Policy.{WindowPolicy}
use s3ntinel.Windows.Transition.{
  WindowStep, initial_state, carry_state, run_steps, end_of_stream_windows, windows_of,
}
use s3ntinel.Windows.Transition.Cuts.{Cuts, HasIds, event_ids, windows_of-Cuts}
use s3ntinel.Windows.Transition.Numbering.{NumberedFrom, windows_of-NumberedFrom}
use s3ntinel.Windows.Transition.Segments.{
  joined, absent, without_gap, is_last, build_window_summaries, build-absent, build-carry,
  build_gap,
}

module _ (doubles : Doubles) (policy : WindowPolicy) where
  open doubles use {Double}

  build-start :
      (segments : List (List WindowStep)) (rest : List (Option (List WindowStep)))
      → build_window_summaries doubles policy none (map some segments ++ rest) ≡ elim segments [
        | [] ↦ build_window_summaries doubles policy none rest
        | first ∷ more ↦
            build_window_summaries doubles policy
              (some (carry_state initial_state))
              (map some (first ∷ more) ++ rest)
      ]
  unfolding build_window_summaries carry_state initial_state
  build-start [] rest = refl
  build-start (steps ∷ segments) rest = refl

  build-leading :
      (m : ℕ) (rest : List (Option (List WindowStep)))
      → build_window_summaries doubles policy none (absent m ++ rest)
        ≡ build_window_summaries doubles policy none rest
  unfolding absent build_window_summaries
  build-leading zero rest = refl
  build-leading (suc m) rest = build-leading m rest

  build-windows_of :
      (segments : List (List WindowStep)) (n : ℕ)
      → build_window_summaries doubles policy none (map some segments ++ absent n)
        ≡ windows_of doubles policy (joined segments)
  unfolding windows_of joined run_steps initial_state end_of_stream_windows
  build-windows_of [] n = build-absent doubles policy n
  build-windows_of (steps ∷ rest) n =
      build-start (steps ∷ rest) (absent n) ∙ build-carry doubles policy steps rest n initial_state

  build_without_gap :
      (m n : ℕ) (segments : List (List WindowStep))
      → build_window_summaries doubles policy none (without_gap m n segments)
        ≡ windows_of doubles policy (joined segments)
  build_without_gap m n segments =
      build-leading m (map some segments ++ absent n) ∙ build-windows_of segments n

  is_last_later :
      (m n : ℕ) (first : List WindowStep) (segments : List (List WindowStep))
      → is_last (without_gap m n (first ∷ segments)) ≡ false
  unfolding absent is_last
  is_last_later zero n first segments = refl
  is_last_later (suc m) n first segments = is_last_later m n first segments

  build_before_gap :
      (before : List (List WindowStep)) (rest : List (Option (List WindowStep)))
      → is_last rest ≡ false
      → build_window_summaries doubles policy none (map some before ++ none ∷ rest)
        ≡ (run_steps doubles policy initial_state (joined before)).closed_windows
          ++ build_window_summaries doubles policy none rest
  unfolding initial_state
  build_before_gap [] rest more =
      unfold build_window_summaries in unfold joined in unfold run_steps in refl
  build_before_gap (steps ∷ before) rest more =
      build-start (steps ∷ before) (none ∷ rest)
      ∙ build_gap doubles policy (steps ∷ before) rest initial_state more

  -- Where the segment ids at which a flight has rows lie together, whatever ids come before and
  -- after them, the passes give the windows that one run over all of the flight's steps gives,
  -- the one that the end of the stream closes included. Where one gap lies between two such
  -- stretches, they give the windows that the steps before the gap close, without the one that
  -- these leave open, and then the windows that one run over the steps after the gap gives.
  pub build-run_steps :
      (m k n : ℕ) (before : List (List WindowStep)) (first : List WindowStep)
      (after : List (List WindowStep))
      → (build_window_summaries doubles policy none (without_gap m n before)
          ≡ windows_of doubles policy (joined before))
        × (build_window_summaries doubles policy none
              (absent m ++ (map some before ++ none ∷ without_gap k n (first ∷ after)))
            ≡ (run_steps doubles policy initial_state (joined before)).closed_windows
              ++ windows_of doubles policy (joined (first ∷ after)))
  build-run_steps m k n before first after = (
    build_without_gap m n before,
    build-leading m _
        ∙ build_before_gap before (without_gap k n (first ∷ after)) (is_last_later k n first after)
        ∙ ap (λ ws. (run_steps doubles policy initial_state (joined before)).closed_windows ++ ws)
            (build_without_gap k n (first ∷ after)),
  )

  -- Where a flight's segment ids lie together and every event has its id, the windows cut the
  -- flight's events, in order and completely, into the runs that the windows' first and last ids
  -- and counts describe.
  pub build-Cuts :
      (m n : ℕ) (segments : List (List WindowStep))
      → HasIds (joined segments)
      → Cuts
          (event_ids (joined segments))
          (build_window_summaries doubles policy none (without_gap m n segments))
  build-Cuts m n segments known =
      rw (build_without_gap m n segments) (windows_of-Cuts doubles policy (joined segments) known)

  -- Where a flight's segment ids lie together, its windows, the one that the end of the stream
  -- closes included, have the ids 1, 2, 3 and so on, in the order in which they close.
  pub build-NumberedFrom :
      (m n : ℕ) (segments : List (List WindowStep))
      → NumberedFrom 1 (build_window_summaries doubles policy none (without_gap m n segments))
  build-NumberedFrom m n segments =
      rw (build_without_gap m n segments) (windows_of-NumberedFrom doubles policy (joined segments))
