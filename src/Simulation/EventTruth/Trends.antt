-- ===== src/Simulation/EventTruth/Trends.antt =====
-- libs/simulation/event_truth.py: which rows of numbers are labelled as slopes.
use s3ntinel.Prelude.{
  ◌+◌, ◌==◌, ◌<◌, ◌≡◌, refl, sym, ap, ◌∙◌, subst, arith, true, false, not, ◌&&◌, Option, none, some,
  List, [], ◌∷◌, String, if◌then◌else◌, Bool-cases, inl, inr,
}
use s3ntinel.Simulation.Coupling.{Signals}
use s3ntinel.Simulation.Coupling.Config.{Objects}
use s3ntinel.Simulation.EventTruth.{
  Slopes, Sign, flat, rising, falling, sign_eq, slope_label, TruthRow, RunState, blank_run,
  clean_value, extended, sign_of, run_step, relabelled, label_runs, label_continuous_rows,
  diffs_from, threshold_of,
}

sign_eq_same : (a b : Sign) → sign_eq a b ≡ true → a ≡ b
sign_eq_same flat flat e = refl
sign_eq_same flat rising e = cc
sign_eq_same flat falling e = cc
sign_eq_same rising flat e = cc
sign_eq_same rising rising e = refl
sign_eq_same rising falling e = cc
sign_eq_same falling flat e = cc
sign_eq_same falling rising e = cc
sign_eq_same falling falling e = refl

module _ (signals : Signals) (objects : Objects signals) (slopes : Slopes signals) where
  open signals use {Double}

  -- The sign of a step between two values: flat below the threshold or where a value is missing.
  abbrev pub sign_between : Double → Option Double → Option Double → Sign
  sign_between threshold none current = flat
  sign_between threshold (some previous) none = flat
  sign_between threshold (some previous) (some current) =
      if objects.ltb (slopes.abs (slopes.sub current previous)) threshold
      then flat
      else sign_of signals objects slopes (slopes.sub current previous)

  -- A slope is labelled at the second of its steps: the one before has its sign, and the one before
  -- that has not.
  abbrev pub trend_label : Sign → Sign → Sign → Option String
  trend_label before last sign =
      if not (sign_eq sign flat) && (sign_eq sign last && not (sign_eq sign before))
      then some (slope_label sign)
      else none

  unfoldable pub label_trends :
      Double
      → Sign
      → Sign
      → Option Double
      → List (TruthRow signals objects slopes)
      → List (TruthRow signals objects slopes)
  label_trends threshold before last previous [] = []
  label_trends threshold before last previous (row ∷ rows) =
      let current = clean_value signals objects slopes row in
      let sign = sign_between threshold previous current in
      relabelled signals objects slopes (trend_label before last sign) row
      ∷ label_trends threshold last sign current rows

  record Tracks (state : RunState signals objects slopes) (before last : Sign) : Type 0 where
    same : state.sign ≡ last
    started : sign_eq last flat ≡ false → 0 < state.length
    single : sign_eq last flat ≡ false → (state.length == 1) ≡ not (sign_eq last before)

  Tracks-blank : (before : Sign) → Tracks (blank_run signals objects slopes) before flat
  Tracks-blank before = record { same = refl; started = λ h. cc; single = λ h. cc }

  extended-Tracks :
      (state : RunState signals objects slopes) (before last sign : Sign) (abs_delta : Double)
      → sign_eq sign flat ≡ false
      → Tracks state before last
      → ((extended signals objects slopes state sign abs_delta).1 ≡ trend_label before last sign)
        × Tracks (extended signals objects slopes state sign abs_delta).0 last sign
  unfolding extended
  extended-Tracks state before last sign abs_delta steep tracks =
      elim (Bool-cases (sign_eq sign state.sign)) [
        | inl e ↦
            let same_sign : sign ≡ last = sign_eq_same sign state.sign e ∙ tracks.same in
            let at_last : sign_eq sign last ≡ true = ap (sign_eq sign) (sym tracks.same) ∙ e in
            let steep_last : sign_eq last flat ≡ false =
              subst (λ t. sign_eq t flat ≡ false) same_sign steep in
            let long = tracks.started steep_last in
            let second : (state.length + 1 == 2) ≡ not (sign_eq sign before) =
              (let t : (state.length + 1 == 2) ≡ (state.length == 1) = ground arith in t)
              ∙ tracks.single steep_last
              ∙ ap (λ t. not (sign_eq t before)) (sym same_sign) in
            (
              rw (e, steep, at_last, second) refl,
              rw e record {
                same = tracks.same ∙ sym same_sign;
                started = λ h. omega arith;
                single = λ h. rw at_last (ground arith);
              },
            )
        | inr e ↦
            let not_last : sign_eq sign last ≡ false = ap (sign_eq sign) (sym tracks.same) ∙ e in
            (
              rw (e, steep, not_last) refl,
              rw e record {
                same = refl;
                started = λ h. omega arith;
                single = λ h. rw not_last refl;
              },
            )
      ]

  sign_of_steep : (delta : Double) → sign_eq (sign_of signals objects slopes delta) flat ≡ false
  sign_of_steep delta = ground arith

  run_step-Tracks :
      (threshold : Double) (state : RunState signals objects slopes) (before last : Sign)
      (previous current : Option Double)
      → Tracks state before last
      → ((run_step signals objects slopes threshold state previous current).1
          ≡ trend_label before last (sign_between threshold previous current))
        × Tracks
            (run_step signals objects slopes threshold state previous current).0
            last
            (sign_between threshold previous current)
  unfolding run_step
  run_step-Tracks threshold state before last none current tracks = (refl, Tracks-blank last)
  run_step-Tracks threshold state before last (some previous) none tracks =
      (refl, Tracks-blank last)
  run_step-Tracks threshold state before last (some previous) (some current) tracks =
      let delta = slopes.sub current previous in
      elim (Bool-cases (objects.ltb (slopes.abs delta) threshold)) [
        | inl small ↦ (rw small refl, rw small (Tracks-blank last))
        | inr large ↦
            let after =
              extended-Tracks state before last (sign_of signals objects slopes delta)
                (slopes.abs delta) (sign_of_steep delta) tracks in
            (rw large after.0, rw large after.1)
      ]

  label_runs-label_trends :
      (threshold : Double) (state : RunState signals objects slopes) (before last : Sign)
      (previous : Option Double) (rows : List (TruthRow signals objects slopes))
      → Tracks state before last
      → label_runs signals objects slopes threshold state previous rows
        ≡ label_trends threshold before last previous rows
  unfolding label_runs label_trends
  label_runs-label_trends threshold state before last previous [] tracks = refl
  label_runs-label_trends threshold state before last previous (row ∷ rows) tracks =
      let current = clean_value signals objects slopes row in
      let (labelled, after) = run_step-Tracks threshold state before last previous current tracks in
      rw labelled (
        ap
          (λ r.
            relabelled signals objects slopes
              (trend_label before last (sign_between threshold previous current)) row
            ∷ r)
          (label_runs-label_trends threshold
            (run_step signals objects slopes threshold state previous current).0 last
            (sign_between threshold previous current) current rows after))

  -- Where two neighbouring rows have numbers, the rows after the first get a slope's label exactly at
  -- the second of the steps of one sign in a row that reach the threshold of all the differences;
  -- the others keep their labels.
  pub label_continuous_rows-label_trends :
      (first : TruthRow signals objects slopes) (rows : List (TruthRow signals objects slopes))
      (diff : Double) (diffs : List Double)
      → diffs_from signals objects slopes (clean_value signals objects slopes first) rows
        ≡ diff ∷ diffs
      → label_continuous_rows signals objects slopes (first ∷ rows)
        ≡ first
          ∷ label_trends
              (threshold_of signals objects slopes (diff ∷ diffs))
              flat
              flat
              (clean_value signals objects slopes first)
              rows
  unfolding label_continuous_rows
  label_continuous_rows-label_trends first rows diff diffs e = rw e (
      ap (λ r. first ∷ r)
        (label_runs-label_trends (threshold_of signals objects slopes (diff ∷ diffs))
          (blank_run signals objects slopes) flat flat (clean_value signals objects slopes first)
          rows (Tracks-blank flat)))
