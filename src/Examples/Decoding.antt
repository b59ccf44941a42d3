-- ===== src/Examples/Decoding.antt =====
-- Short flights through the path decoder of libs/phase/decode.py.
use s3ntinel.Prelude.{ℕ, ◌≡◌, refl, none, some, List, [], ◌∷◌, map, arith}
use s3ntinel.Prelude.Int.{pos}
use s3ntinel.Phase.Path.{PhaseTransitionModel, aggregate_column, decode_segments, final_phase_path}
use s3ntinel.Phase.Path.Routes.{IsOrdered}
use s3ntinel.Phase.Path.Best.{IsOptimal, reversed_onto, final_phase_path-IsOptimal}
use s3ntinel.Phase.Path.Passes.{joined, decode_segments-joined}
use s3ntinel.Examples.Inputs.{fixed_point}

fixed_point-IsOrdered : IsOrdered fixed_point
fixed_point-IsOrdered = record {
  leb_refl = λ a. ground arith;
  leb_trans = λ a b c e f. ground arith;
  leb_total = λ a b. ground arith;
  lt-le = λ a b e. ground arith;
  add_mono = λ a b c e. ground arith;
}

abbrev stay_or_next : PhaseTransitionModel fixed_point
stay_or_next = record { allowed_transition_offsets = 0 ∷ 1 ∷ []; base_penalty = 2 }

abbrev opening : List ℕ
opening = 1 ∷ 5 ∷ 9 ∷ []

abbrev cruise : List ℕ
cruise = 6 ∷ 1 ∷ 9 ∷ []

-- The second step goes on to the next phase.
moves :
    final_phase_path fixed_point
      (aggregate_column fixed_point stay_or_next none (opening ∷ cruise ∷ cruise ∷ []))
    ≡ some (pos 0 ∷ pos 1 ∷ pos 1 ∷ [])
unfolding final_phase_path aggregate_column
moves = refl

final_phase_path-IsOptimal_example :
    IsOptimal fixed_point fixed_point-IsOrdered stay_or_next 3
      (reversed_onto (opening ∷ []) (cruise ∷ cruise ∷ []))
      (final_phase_path fixed_point
        (aggregate_column fixed_point stay_or_next none (opening ∷ cruise ∷ cruise ∷ [])))
final_phase_path-IsOptimal_example =
    final_phase_path-IsOptimal fixed_point fixed_point-IsOrdered stay_or_next 3 0 (1 ∷ []) opening
      (cruise ∷ cruise ∷ []) refl (omega arith) refl (refl, (refl, tt))

abbrev parts : List (List (List ℕ))
parts = (opening ∷ cruise ∷ []) ∷ (cruise ∷ []) ∷ []

decode_segments-joined_example :
    (decode_segments fixed_point stay_or_next none (map some parts)
      ≡ aggregate_column fixed_point stay_or_next none (joined parts))
    × (decode_segments fixed_point stay_or_next none (some (opening ∷ []) ∷ none ∷ map some parts)
        ≡ aggregate_column fixed_point stay_or_next none (joined parts))
    × (final_phase_path fixed_point
          (decode_segments fixed_point stay_or_next none (some (opening ∷ []) ∷ none ∷ []))
        ≡ none)
decode_segments-joined_example =
    decode_segments-joined fixed_point stay_or_next (some (opening ∷ []) ∷ []) parts
