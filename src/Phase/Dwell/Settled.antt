-- ===== src/Phase/Dwell/Settled.antt =====
-- libs/phase/decode.py: what enforce_min_dwell leaves.
use s3ntinel.Prelude.{
  ℕ, zero, suc, ◌≤◌, ◌<◌, ◌≡◌, refl, sym, subst, ap, ◌∙◌, ◌==◌, Bool, false, ◌||◌, Option, none,
  some, List, [], ◌∷◌, ◌++◌, arith, length, any, is_some, Bool-cases, inl, inr, coalesce,
}
use s3ntinel.Prelude.Int.{ℤ, pos_part}
use s3ntinel.Windows.Doubles.{Doubles}
use s3ntinel.Phase.Dwell.{
  PhaseRow, PhaseRun, rows_with, phase_runs, nearer_phase, replacement, short_run_replacements,
  apply_phase_run_replacements, dwell_loop, enforce_min_dwell, first_phase,
}
use s3ntinel.Phase.Dwell.Runs.{
  AreRuns, StartsOther, phase_runs-AreRuns, rows_of, rows_of-phase_runs, enforce_min_dwell_on,
}

or_false_left : (a b : Bool) → (a || b) ≡ false → a ≡ false
or_false_left a b e = ground arith

or_false_right : (a b : Bool) → (a || b) ≡ false → b ≡ false
or_false_right a b e = ground arith

module _ (doubles : Doubles) where
  open doubles use {Double}

  -- A run with neighbours on both sides has the limit's length.
  abbrev IsLong : ℕ → Option ℕ → PhaseRun doubles → Option ℕ → Type 0
  IsLong limit none run right = Unit
  IsLong limit (some left) run none = Unit
  IsLong limit (some left) run (some right) = limit ≤ length run.run_costs

  abbrev pub AreLong : ℕ → Option ℕ → List (PhaseRun doubles) → Type 0
  AreLong limit left [] = Unit
  AreLong limit left (run ∷ runs) =
      IsLong limit left run (first_phase doubles runs) × AreLong limit (some run.run_phase_id) runs

  -- Every run of these rows but the first and the last has the limit's length.
  abbrev pub IsSettled : ℕ → List (PhaseRow doubles) → Type 0
  IsSettled limit rows = AreLong limit none (phase_runs doubles rows)

  abbrev Differs : Option ℕ → ℕ → Type 0
  Differs none phase = Unit
  Differs (some p) phase = (p == phase) ≡ false

  nearer_phase-Differs :
      (left right : ℕ) (run : PhaseRun doubles)
      → (left == run.run_phase_id) ≡ false
      → (right == run.run_phase_id) ≡ false
      → (nearer_phase doubles left right run == run.run_phase_id) ≡ false
  unfolding nearer_phase
  nearer_phase-Differs left right run l r = ground arith

  replacement-none :
      (limit : ℕ) (left : Option ℕ) (run : PhaseRun doubles) (right : Option ℕ)
      → Differs left run.run_phase_id
      → Differs right run.run_phase_id
      → is_some (replacement doubles limit left run right) ≡ false
      → IsLong limit left run right
  unfolding replacement
  replacement-none limit none run right l r e = tt
  replacement-none limit (some left) run none l r e = tt
  replacement-none limit (some left) run (some right) l r e =
      ground (arith, nearer_phase-Differs left right run)

  none-replacement :
      (limit : ℕ) (left : Option ℕ) (run : PhaseRun doubles) (right : Option ℕ)
      → IsLong limit left run right
      → replacement doubles limit left run right ≡ none
  unfolding replacement
  none-replacement limit none run right h = refl
  none-replacement limit (some left) run none h = refl
  none-replacement limit (some left) run (some right) h = ground arith

  first_phase-Differs :
      (phase : ℕ) (runs : List (PhaseRun doubles))
      → StartsOther doubles phase runs
      → Differs (first_phase doubles runs) phase
  first_phase-Differs phase [] h = tt
  first_phase-Differs phase (run ∷ runs) h = ground arith

  StartsOther-Differs :
      (phase : ℕ) (run : PhaseRun doubles)
      → (phase == run.run_phase_id) ≡ false
      → Differs (some phase) run.run_phase_id
  StartsOther-Differs phase run h = h

  abbrev LeftDiffers : Option ℕ → List (PhaseRun doubles) → Type 0
  LeftDiffers left [] = Unit
  LeftDiffers left (run ∷ runs) = Differs left run.run_phase_id

  LeftDiffers-StartsOther :
      (phase : ℕ) (runs : List (PhaseRun doubles))
      → StartsOther doubles phase runs
      → LeftDiffers (some phase) runs
  LeftDiffers-StartsOther phase [] h = tt
  LeftDiffers-StartsOther phase (run ∷ runs) h = h

  no_replacements :
      (limit : ℕ) (left : Option ℕ) (runs : List (PhaseRun doubles))
      → AreRuns doubles runs
      → LeftDiffers left runs
      → any is_some (short_run_replacements doubles limit left runs) ≡ false
      → AreLong limit left runs
  unfolding short_run_replacements
  no_replacements limit left [] h l e = tt
  no_replacements limit left (run ∷ runs) h l e = (
    replacement-none limit left run (first_phase doubles runs) l
        (first_phase-Differs run.run_phase_id runs h.0) (or_false_left _ _ e),
    no_replacements limit (some run.run_phase_id) runs h.2
        (LeftDiffers-StartsOther run.run_phase_id runs h.0) (or_false_right _ _ e),
  )

  replacements_none :
      (limit : ℕ) (left : Option ℕ) (runs : List (PhaseRun doubles))
      → AreLong limit left runs
      → any is_some (short_run_replacements doubles limit left runs) ≡ false
  unfolding short_run_replacements
  replacements_none limit left [] h = refl
  replacements_none limit left (run ∷ runs) h =
      rw (none-replacement limit left run (first_phase doubles runs) h.0)
        (replacements_none limit (some run.run_phase_id) runs h.1)

  -- The costs of the rows, which no pass changes.
  abbrev pub costs_of : List (PhaseRow doubles) → List (List Double)
  costs_of [] = []
  costs_of (row ∷ rows) = row.phase_costs ∷ costs_of rows

  costs_of-block :
      (phase : ℕ) (costs : List (List Double)) (rest : List (PhaseRow doubles))
      → costs_of (rows_with doubles phase costs ++ rest) ≡ costs ++ costs_of rest
  costs_of-block phase [] rest = refl
  costs_of-block phase (c ∷ cs) rest = ap (◌∷◌ c) (costs_of-block phase cs rest)

  costs_of-apply :
      (runs : List (PhaseRun doubles)) (reps : List (Option ℕ))
      → costs_of (apply_phase_run_replacements doubles runs reps) ≡ costs_of (rows_of doubles runs)
  unfolding apply_phase_run_replacements rows_of
  costs_of-apply [] reps = refl
  costs_of-apply (run ∷ runs) [] =
      costs_of-block run.run_phase_id run.run_costs (apply_phase_run_replacements doubles runs [])
      ∙ ap (λ rest. run.run_costs ++ rest) (costs_of-apply runs [])
      ∙ sym (costs_of-block run.run_phase_id run.run_costs (rows_of doubles runs))
  costs_of-apply (run ∷ runs) (r ∷ reps) =
      costs_of-block (coalesce r run.run_phase_id) run.run_costs
        (apply_phase_run_replacements doubles runs reps)
      ∙ ap (λ rest. run.run_costs ++ rest) (costs_of-apply runs reps)
      ∙ sym (costs_of-block run.run_phase_id run.run_costs (rows_of doubles runs))

  LeftDiffers-none : (runs : List (PhaseRun doubles)) → LeftDiffers none runs
  LeftDiffers-none [] = tt
  LeftDiffers-none (run ∷ runs) = tt

  some-injective : (xs ys : List (PhaseRow doubles)) → some xs ≡ some ys → xs ≡ ys
  some-injective xs ys e = cc

  dwell_loop-IsSettled :
      (limit fuel : ℕ) (rows out : List (PhaseRow doubles))
      → dwell_loop doubles limit fuel rows ≡ some out
      → IsSettled limit out × (costs_of out ≡ costs_of rows)
  unfolding dwell_loop
  dwell_loop-IsSettled limit zero rows out e = cc
  dwell_loop-IsSettled limit (suc fuel) rows out e =
      let runs = phase_runs doubles rows in
      let reps = short_run_replacements doubles limit none runs in
      let next = apply_phase_run_replacements doubles runs reps in
      elim (Bool-cases (any is_some reps)) [
        | inl more ↦
            let ih = dwell_loop-IsSettled limit fuel next out (sym (rw more refl) ∙ e) in
            (ih.0, ih.1 ∙ costs_of-apply runs reps ∙ ap costs_of (rows_of-phase_runs doubles rows))
        | inr done ↦
            let same = some-injective rows out (sym (rw done refl) ∙ e) in
            (
              subst (IsSettled limit) same (
                  no_replacements limit none runs (phase_runs-AreRuns doubles rows)
                    (LeftDiffers-none runs) done),
              ap costs_of (sym same),
            )
      ]

  -- Rows that are settled are returned as they are, at once.
  dwell_loop-settled :
      (limit fuel : ℕ) (rows : List (PhaseRow doubles))
      → IsSettled limit rows
      → dwell_loop doubles limit (suc fuel) rows ≡ some rows
  unfolding dwell_loop
  dwell_loop-settled limit fuel rows h =
      rw (replacements_none limit none (phase_runs doubles rows) h) refl

  -- Where the plan asks for dwells of two windows or more: rows whose runs but the first and the
  -- last have the limit's length are returned as they are, in one pass; and whatever is returned has
  -- such runs, and the costs of the given rows, in order.
  pub enforce_min_dwell-IsSettled :
      (phase_min_dwell_windows : ℤ) (limit fuel : ℕ) (rows out : List (PhaseRow doubles))
      → 1 < pos_part phase_min_dwell_windows
      → (IsSettled limit rows
          → enforce_min_dwell doubles phase_min_dwell_windows limit (suc fuel) rows ≡ some rows)
        × (enforce_min_dwell doubles phase_min_dwell_windows limit fuel rows ≡ some out
            → IsSettled limit out × (costs_of out ≡ costs_of rows))
  enforce_min_dwell-IsSettled m limit fuel rows out long = (
    λ h.
        enforce_min_dwell_on doubles limit (suc fuel) m rows long
        ∙ dwell_loop-settled limit fuel rows h,
    λ e.
        dwell_loop-IsSettled limit fuel rows out
          (sym (enforce_min_dwell_on doubles limit fuel m rows long) ∙ e),
  )
