-- ===== src/Phase/Dwell.antt =====
-- libs/phase/decode.py: enforce_min_dwell and the frames of its loop, for the rows of one flight in
-- the order of their row numbers. A pass leaves a flight with no replacement alone, so the loop over
-- all flights ends when it ends for each.
pub mod Runs
pub mod Settled
pub mod Swaps
use s3ntinel.Prelude.{
  ℕ, zero, suc, ◌*◌, ◌/◌, max, min, ◌==◌, ltb, leb, Bool, false, not, ◌&&◌, Option, none, some,
  List, [], ◌∷◌, ◌++◌, if◌then◌else◌, length, get_elem?, is_some, coalesce, any,
}
use s3ntinel.Prelude.Int.{ℤ, pos_part}
use s3ntinel.Windows.Doubles.{Doubles}

-- `dwell_limit` of libs/phase/fit.py, from the number of windows and of phases of the flight.
unfoldable pub dwell_limit : ℤ → ℕ → ℕ → ℕ
dwell_limit phase_min_dwell_windows flight_window_count effective_phase_count =
    min (max (pos_part phase_min_dwell_windows) 1)
      (max (flight_window_count / max (effective_phase_count * 2) 1) 1)

module _ (doubles : Doubles) where
  open doubles use {Double, add}

  -- The columns that the loop reads. A phase id is not negative: a path that an offset out of range
  -- marks with -1, for which the lookup of its cost raises, is left out.
  pub record PhaseRow : Type 0 where
    pub phase_id_detected : ℕ
    pub phase_costs : List Double

  -- A maximal stretch of rows with one phase, with the costs of its rows.
  pub record PhaseRun : Type 0 where
    pub run_phase_id : ℕ
    pub run_costs : List (List Double)

  unfoldable pub add_row : PhaseRow → List PhaseRun → List PhaseRun
  add_row row [] =
      record { run_phase_id = row.phase_id_detected; run_costs = row.phase_costs ∷ [] } ∷ []
  add_row row (run ∷ runs) =
      if row.phase_id_detected == run.run_phase_id
      then record run { run_costs = row.phase_costs ∷ run.run_costs } ∷ runs
      else record { run_phase_id = row.phase_id_detected; run_costs = row.phase_costs ∷ [] }
        ∷ run
        ∷ runs

  -- `_phase_runs` and `_phase_run_stats`
  unfoldable pub phase_runs : List PhaseRow → List PhaseRun
  unfolding add_row
  phase_runs [] = []
  phase_runs (row ∷ rows) = add_row row (phase_runs rows)

  -- Spark's `sum`: a null counts for nothing, and nothing but nulls sums to null.
  abbrev plus : Option Double → Option Double → Option Double
  plus none b = b
  plus (some a) none = some a
  plus (some a) (some b) = some (add a b)

  abbrev at_most : Option Double → Option Double → Bool
  at_most none b = false
  at_most (some a) none = false
  at_most (some a) (some b) = doubles.leb a b

  -- `left_cost` and `right_cost`
  unfoldable pub total_cost : ℕ → List (List Double) → Option Double
  total_cost phase [] = none
  total_cost phase (costs ∷ rest) = plus (get_elem? costs phase) (total_cost phase rest)

  -- The neighbour that costs no more, the left one first.
  unfoldable pub nearer_phase : ℕ → ℕ → PhaseRun → ℕ
  unfolding total_cost
  nearer_phase left right run =
      if at_most (total_cost left run.run_costs) (total_cost right run.run_costs)
      then left
      else right

  -- `replacement_phase_id` of a run, by its neighbours' phases; none at either end of the flight.
  unfoldable pub replacement : ℕ → Option ℕ → PhaseRun → Option ℕ → Option ℕ
  unfolding nearer_phase
  replacement limit none run right = none
  replacement limit (some left) run none = none
  replacement limit (some left) run (some right) =
      if ltb (length run.run_costs) limit && not (nearer_phase left right run == run.run_phase_id)
      then some (nearer_phase left right run)
      else none

  abbrev pub first_phase : List PhaseRun → Option ℕ
  first_phase [] = none
  first_phase (run ∷ runs) = some run.run_phase_id

  -- `_short_run_replacements`, one entry for each run; `left` is the phase of the run before.
  unfoldable pub short_run_replacements : ℕ → Option ℕ → List PhaseRun → List (Option ℕ)
  unfolding replacement
  short_run_replacements limit left [] = []
  short_run_replacements limit left (run ∷ runs) =
      replacement limit left run (first_phase runs)
      ∷ short_run_replacements limit (some run.run_phase_id) runs

  abbrev pub rows_with : ℕ → List (List Double) → List PhaseRow
  rows_with phase [] = []
  rows_with phase (costs ∷ rest) =
      record { phase_id_detected = phase; phase_costs = costs } ∷ rows_with phase rest

  -- `_apply_phase_run_replacements`
  unfoldable pub apply_phase_run_replacements : List PhaseRun → List (Option ℕ) → List PhaseRow
  apply_phase_run_replacements [] replacements = []
  apply_phase_run_replacements (run ∷ runs) [] =
      rows_with run.run_phase_id run.run_costs ++ apply_phase_run_replacements runs []
  apply_phase_run_replacements (run ∷ runs) (r ∷ rs) =
      rows_with (coalesce r run.run_phase_id) run.run_costs ++ apply_phase_run_replacements runs rs

  -- The `while True` loop; none if the fuel runs out.
  unfoldable pub dwell_loop : ℕ → ℕ → List PhaseRow → Option (List PhaseRow)
  unfolding phase_runs short_run_replacements apply_phase_run_replacements
  dwell_loop limit zero rows = none
  dwell_loop limit (suc fuel) rows =
      let runs = phase_runs rows in
      let replacements = short_run_replacements limit none runs in
      let again = dwell_loop limit fuel (apply_phase_run_replacements runs replacements) in
      if any is_some replacements then again else some rows

  unfoldable pub enforce_min_dwell : ℤ → ℕ → ℕ → List PhaseRow → Option (List PhaseRow)
  unfolding dwell_loop
  enforce_min_dwell phase_min_dwell_windows limit fuel rows =
      if leb (max (pos_part phase_min_dwell_windows) 1) 1
      then some rows
      else dwell_loop limit fuel rows
