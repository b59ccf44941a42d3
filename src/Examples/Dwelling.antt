-- ===== src/Examples/Dwelling.antt =====
-- Short flights through enforce_min_dwell of libs/phase/decode.py.
use s3ntinel.Prelude.{ℕ, suc, ◌≡◌, refl, none, some, List, [], ◌∷◌, ◌++◌, arith}
use s3ntinel.Prelude.Int.{pos}
use s3ntinel.Phase.Dwell.{PhaseRow, dwell_limit, rows_with, nearer_phase, enforce_min_dwell}
use s3ntinel.Phase.Dwell.Settled.{IsSettled, costs_of, enforce_min_dwell-IsSettled}
use s3ntinel.Phase.Dwell.Swaps.{Stretch, four_runs, enforce_min_dwell-diverges}
use s3ntinel.Examples.Inputs.{fixed_point}

abbrev near : List ℕ
near = 0 ∷ 9 ∷ 9 ∷ 0 ∷ []

-- Both of the middle phases fit better than those of the first and the last run.
abbrev middle : List ℕ
middle = 5 ∷ 1 ∷ 1 ∷ 5 ∷ []

abbrev long : Stretch fixed_point
long = record { first = near; more = near ∷ near ∷ near ∷ near ∷ near ∷ near ∷ [] }

abbrev short : Stretch fixed_point
short = record { first = middle; more = [] }

-- Sixteen windows and four phases.
limit_of_flight : dwell_limit (pos 8) 16 4 ≡ 2
unfolding dwell_limit
limit_of_flight = refl

abbrev steady : List (PhaseRow fixed_point)
steady =
    rows_with fixed_point 0 (near ∷ [])
    ++ (rows_with fixed_point 1 (near ∷ near ∷ []) ++ rows_with fixed_point 2 (near ∷ []))

-- The window of the phase 1 goes to its left neighbour, whose phase costs less.
merges :
    enforce_min_dwell fixed_point (pos 8) 2 2 (
      rows_with fixed_point 0 (near ∷ near ∷ [])
      ++ (rows_with fixed_point 1 (near ∷ []) ++ rows_with fixed_point 2 (near ∷ near ∷ [])))
    ≡ some (
        rows_with fixed_point 0 (near ∷ near ∷ near ∷ [])
        ++ rows_with fixed_point 2 (near ∷ near ∷ []))
unfolding enforce_min_dwell
merges = refl

enforce_min_dwell-diverges_example :
    enforce_min_dwell fixed_point
      (pos 8)
      2
      1000
      (four_runs fixed_point long short short long 0 1 2 3)
    ≡ none
unfolding nearer_phase
enforce_min_dwell-diverges_example =
    enforce_min_dwell-diverges fixed_point long short short long 0 1 2 3 2 1000 (pos 8)
      (omega arith) (record { ab = refl; ac = refl; bc = refl; cb = refl; bd = refl; cd = refl })
      (omega arith) (omega arith) refl refl refl refl

enforce_min_dwell-IsSettled_example :
    (IsSettled fixed_point 2 steady
      → enforce_min_dwell fixed_point (pos 8) 2 (suc 0) steady ≡ some steady)
    × (enforce_min_dwell fixed_point (pos 8) 2 0 steady ≡ some steady
        → IsSettled fixed_point 2 steady
          × (costs_of fixed_point steady ≡ costs_of fixed_point steady))
enforce_min_dwell-IsSettled_example =
    enforce_min_dwell-IsSettled fixed_point (pos 8) 2 0 steady steady (omega arith)
