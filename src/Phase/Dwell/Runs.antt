-- ===== src/Phase/Dwell/Runs.antt =====
-- libs/phase/decode.py: the runs of equal phase, and the rows that they came from.
use s3ntinel.Prelude.{
  ℕ, ◌≡◌, refl, ap, ◌∙◌, ◌==◌, ==_iff, Bool-cases, inl, inr, false, List, [], ◌∷◌, ◌++◌, arith, ◌<◌,
  max, leb,
}
use s3ntinel.Prelude.Int.{ℤ, pos_part}
use s3ntinel.Windows.Doubles.{Doubles}
use s3ntinel.Phase.Dwell.{
  PhaseRow, PhaseRun, add_row, phase_runs, rows_with, dwell_loop, enforce_min_dwell,
}

on : (n : ℕ) → 1 < n → leb (max n 1) 1 ≡ false
on n h = ground arith

module _ (doubles : Doubles) where
  open doubles use {Double}

  -- No run, or the next run is of another phase.
  abbrev pub StartsOther : ℕ → List (PhaseRun doubles) → Type 0
  StartsOther phase [] = Unit
  StartsOther phase (run ∷ runs) = (phase == run.run_phase_id) ≡ false

  abbrev NonEmpty : List (List Double) → Type 0
  NonEmpty [] = ⊥
  NonEmpty (costs ∷ rest) = Unit

  -- Neighbouring runs differ in their phases, and each holds a row.
  abbrev pub AreRuns : List (PhaseRun doubles) → Type 0
  AreRuns [] = Unit
  AreRuns (run ∷ runs) = StartsOther run.run_phase_id runs × NonEmpty run.run_costs × AreRuns runs

  add_row-AreRuns :
      (row : PhaseRow doubles) (runs : List (PhaseRun doubles))
      → AreRuns runs
      → AreRuns (add_row doubles row runs)
  unfolding add_row
  add_row-AreRuns row [] h = (tt, tt, tt)
  add_row-AreRuns row (run ∷ runs) h =
      elim (Bool-cases (row.phase_id_detected == run.run_phase_id)) [
        | inl e ↦ rw e (h.0, tt, h.2)
        | inr e ↦ rw e (e, tt, h)
      ]

  pub phase_runs-AreRuns : (rows : List (PhaseRow doubles)) → AreRuns (phase_runs doubles rows)
  unfolding phase_runs
  phase_runs-AreRuns [] = tt
  phase_runs-AreRuns (row ∷ rows) =
      add_row-AreRuns row (phase_runs doubles rows) (phase_runs-AreRuns rows)

  add_row-other :
      (phase : ℕ) (costs : List Double) (runs : List (PhaseRun doubles))
      → StartsOther phase runs
      → add_row doubles (record { phase_id_detected = phase; phase_costs = costs }) runs
        ≡ record { run_phase_id = phase; run_costs = costs ∷ [] } ∷ runs
  unfolding add_row
  add_row-other phase costs [] h = refl
  add_row-other phase costs (run ∷ runs) h = rw h

  add_row-same :
      (phase : ℕ) (costs : List Double) (more : List (List Double)) (runs : List (PhaseRun doubles))
      → add_row doubles
          (record { phase_id_detected = phase; phase_costs = costs })
          (record { run_phase_id = phase; run_costs = more } ∷ runs)
        ≡ record { run_phase_id = phase; run_costs = costs ∷ more } ∷ runs
  unfolding add_row
  add_row-same phase costs more runs = ground arith

  pub phase_runs-block :
      (phase : ℕ) (costs : List Double) (more : List (List Double)) (rest : List (PhaseRow doubles))
      → StartsOther phase (phase_runs doubles rest)
      → phase_runs doubles (rows_with doubles phase (costs ∷ more) ++ rest)
        ≡ record { run_phase_id = phase; run_costs = costs ∷ more } ∷ phase_runs doubles rest
  unfolding phase_runs
  phase_runs-block phase costs [] rest h = add_row-other phase costs (phase_runs doubles rest) h
  phase_runs-block phase costs (c ∷ more) rest h =
      ap (add_row doubles (record { phase_id_detected = phase; phase_costs = costs }))
        (phase_runs-block phase c more rest h)
      ∙ add_row-same phase costs (c ∷ more) (phase_runs doubles rest)

  pub phase_runs-nil : (phase : ℕ) → StartsOther phase (phase_runs doubles [])
  unfolding phase_runs
  phase_runs-nil phase = tt

  -- The rows of some runs.
  unfoldable pub rows_of : List (PhaseRun doubles) → List (PhaseRow doubles)
  rows_of [] = []
  rows_of (run ∷ runs) = rows_with doubles run.run_phase_id run.run_costs ++ rows_of runs

  rows_of-add_row :
      (row : PhaseRow doubles) (runs : List (PhaseRun doubles))
      → rows_of (add_row doubles row runs) ≡ row ∷ rows_of runs
  unfolding rows_of add_row
  rows_of-add_row row [] = refl
  rows_of-add_row row (run ∷ runs) = ground (arith, ==_iff row.phase_id_detected run.run_phase_id)

  pub rows_of-phase_runs :
      (rows : List (PhaseRow doubles)) → rows_of (phase_runs doubles rows) ≡ rows
  unfolding phase_runs
  rows_of-phase_runs [] = unfold rows_of in refl
  rows_of-phase_runs (row ∷ rows) =
      rows_of-add_row row (phase_runs doubles rows) ∙ ap (◌∷◌ row) (rows_of-phase_runs rows)

  pub enforce_min_dwell_on :
      (limit fuel : ℕ) (m : ℤ) (rs : List (PhaseRow doubles))
      → 1 < pos_part m
      → enforce_min_dwell doubles m limit fuel rs ≡ dwell_loop doubles limit fuel rs
  unfolding enforce_min_dwell
  enforce_min_dwell_on limit fuel m rs long = rw (on (pos_part m) long) refl
