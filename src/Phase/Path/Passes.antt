-- ===== src/Phase/Path/Passes.antt =====
-- libs/phase/decode.py: the passes of assign_phases_segmented over a flight's segments.
use s3ntinel.Prelude.{
  ◌≡◌, refl, sym, ap, ◌∙◌, Option, none, some, List, [], ◌∷◌, ◌++◌, map, foldl-append,
}
use s3ntinel.Windows.Doubles.{Doubles}
use s3ntinel.Phase.Path.{
  PhaseTransitionModel, PhaseSequenceState, aggregate_column, decode_segments, final_phase_path,
}

-- The steps of the segments, one after another.
abbrev pub joined {ℓ} : {A : Type ℓ} → List (List A) → List A
joined [] = []
joined (xs ∷ rest) = xs ++ joined rest

module _ (doubles : Doubles) (model : PhaseTransitionModel doubles) where
  open doubles use {Double}

  carried :
      (carry : Option (PhaseSequenceState doubles)) (segments : List (List (List Double)))
      → decode_segments doubles model carry (map some segments)
        ≡ aggregate_column doubles model carry (joined segments)
  unfolding decode_segments aggregate_column
  carried carry [] = refl
  carried carry (steps ∷ rest) =
      carried (aggregate_column doubles model carry steps) rest
      ∙ sym (foldl-append _ carry steps (joined rest))

  forgotten :
      (carry : Option (PhaseSequenceState doubles))
      (before after : List (Option (List (List Double))))
      → decode_segments doubles model carry (before ++ none ∷ after)
        ≡ decode_segments doubles model none after
  unfolding decode_segments
  forgotten carry [] after = refl
  forgotten carry (none ∷ before) after = forgotten none before after
  forgotten carry (some steps ∷ before) after =
      forgotten (aggregate_column doubles model carry steps) before after

  -- The passes over segments that a flight has all of leave what one aggregation over all of its
  -- steps leaves. After a pass without the flight, they leave only what the later steps do, and if
  -- it is the last pass, the flight has no path.
  pub decode_segments-joined :
      (before : List (Option (List (List Double)))) (segments : List (List (List Double)))
      → (decode_segments doubles model none (map some segments)
          ≡ aggregate_column doubles model none (joined segments))
        × (decode_segments doubles model none (before ++ none ∷ map some segments)
            ≡ aggregate_column doubles model none (joined segments))
        × (final_phase_path doubles (decode_segments doubles model none (before ++ none ∷ []))
            ≡ none)
  unfolding final_phase_path decode_segments
  decode_segments-joined before segments = (
    carried none segments,
    forgotten none before (map some segments) ∙ carried none segments,
    ap (final_phase_path doubles) (forgotten none before []),
  )
