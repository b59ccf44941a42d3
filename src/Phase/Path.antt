-- ===== src/Phase/Path.antt =====
-- libs/phase/decode.py: the decoding of a flight's phases, PhaseSequenceState and the passes of
-- assign_phases_segmented for one flight. Offsets are not negative. Spark's `element_at` gives null
-- out of range, an operation on a null is null, and a null sorts first. A step has some costs, since
-- it is a group of candidates, and none is null.
pub mod Routes
pub mod Options
pub mod Least
pub mod Best
pub mod Passes
use s3ntinel.Prelude.{
  ℕ, zero, suc, ◌+◌, ◌-◌, ◌==◌, ltb, leb, Bool, true, false, not, ◌&&◌, ◌||◌, Option, none, some,
  List, [], ◌∷◌, ◌++◌, map, foldl, if◌then◌else◌, length, get_elem?, is_some,
}
use s3ntinel.Prelude.Int.{ℤ, pos, negsuc}
use s3ntinel.Windows.Doubles.{Doubles}

abbrev both {ℓ} : {A : Type ℓ} → Option (Option A) → Option A
both none = none
both (some o) = o

-- `F.transform(F.sequence(1, n), f)`, with the indices counted from 0.
unfoldable pub transform {ℓ} : {A : Type ℓ} → (ℕ → A) → ℕ → ℕ → List A
transform f j zero = []
transform f j (suc n) = f j ∷ transform f (j + 1) n

module _ (doubles : Doubles) where
  open doubles use {Double, of_int, add, mul}

  pub record PhaseTransitionModel : Type 0 where
    pub allowed_transition_offsets : List ℕ
    pub base_penalty : Double

  unfoldable pub transition_penalty_for_offset : Double → ℕ → Double
  transition_penalty_for_offset base_penalty offset =
      if offset == 0 then of_int (pos 0) else mul base_penalty (of_int (pos offset))

  pub record PhaseSequenceState : Type 0 where
    pub phase_scores : List (Option Double)
    pub phase_paths : List (Option (List ℤ))

  pub record TransitionOption : Type 0 where
    pub score : Option Double
    pub transition_offset : ℕ
    pub path : Option (List ℤ)

  abbrev pub huge : Double
  huge = of_int (pos 1_000_000_000_000_000_000)

  abbrev pub plus : Option Double → Option Double → Option Double
  plus none b = none
  plus (some a) none = none
  plus (some a) (some b) = some (add a b)

  abbrev extended : Option (List ℤ) → ℕ → Option (List ℤ)
  extended none j = none
  extended (some path) j = some (path ++ pos j ∷ [])

  -- `initial_state`
  unfoldable pub initial_state : List Double → PhaseSequenceState
  unfolding transform
  initial_state phase_costs = record {
    phase_scores = transform (λ j. get_elem? phase_costs j) 0 (length phase_costs);
    phase_paths = transform (λ j. some (pos j ∷ [])) 0 (length phase_costs);
  }

  -- One of the `transition_options`, into the phase j.
  unfoldable pub transition_option :
      PhaseTransitionModel → PhaseSequenceState → List Double → ℕ → ℕ → TransitionOption
  unfolding transition_penalty_for_offset
  transition_option model acc phase_costs j offset =
      if leb offset j
      then record {
        score =
            plus (plus (both (get_elem? acc.phase_scores (j - offset))) (get_elem? phase_costs j))
              (some (transition_penalty_for_offset model.base_penalty offset));
        transition_offset = offset;
        path = extended (both (get_elem? acc.phase_paths (j - offset))) j;
      }
      else record { score = some huge; transition_offset = offset; path = some (negsuc 0 ∷ []) }

  abbrev below : Option Double → Option Double → Bool
  below none none = false
  below none (some b) = true
  below (some a) none = false
  below (some a) (some b) = doubles.ltb a b

  -- The order of the structs: by score, then by offset. Options of one offset are equal.
  unfoldable pub precedes : TransitionOption → TransitionOption → Bool
  precedes a b =
      below a.score b.score
      || (not (below b.score a.score) && ltb a.transition_offset b.transition_offset)

  -- `element_at(array_sort(options), 1)`
  unfoldable pub first_option : TransitionOption → List TransitionOption → TransitionOption
  unfolding precedes
  first_option best [] = best
  first_option best (o ∷ options) = first_option (if precedes o best then o else best) options

  abbrev null_option : TransitionOption
  null_option = record { score = none; transition_offset = 0; path = none }

  abbrev first_of : List TransitionOption → TransitionOption
  first_of [] = null_option
  first_of (o ∷ options) = first_option o options

  unfoldable pub best_transition :
      PhaseTransitionModel → PhaseSequenceState → List Double → ℕ → TransitionOption
  unfolding transition_option first_option
  best_transition model acc phase_costs j =
      first_of (map (transition_option model acc phase_costs j) model.allowed_transition_offsets)

  unfoldable pub updated_state :
      PhaseTransitionModel → PhaseSequenceState → List Double → PhaseSequenceState
  unfolding best_transition transform
  updated_state model acc phase_costs = record {
    phase_scores =
        transform (λ j. (best_transition model acc phase_costs j).score) 0 (length phase_costs);
    phase_paths =
        transform (λ j. (best_transition model acc phase_costs j).path) 0 (length phase_costs);
  }

  -- A step of `aggregate_column`; none stands for an accumulator that is not initialized.
  unfoldable pub advance :
      PhaseTransitionModel → Option PhaseSequenceState → List Double → Option PhaseSequenceState
  unfolding initial_state updated_state
  advance model none phase_costs = some (initial_state phase_costs)
  advance model (some acc) phase_costs = some (updated_state model acc phase_costs)

  unfoldable pub aggregate_column :
      PhaseTransitionModel
      → Option PhaseSequenceState
      → List (List Double)
      → Option PhaseSequenceState
  unfolding advance
  aggregate_column model acc steps = foldl (advance model) acc steps

  -- The passes of `assign_phases_segmented` for one flight, over the segment ids; the carry of a
  -- pass without the flight has no row for it.
  unfoldable pub decode_segments :
      PhaseTransitionModel
      → Option PhaseSequenceState
      → List (Option (List (List Double)))
      → Option PhaseSequenceState
  unfolding aggregate_column
  decode_segments model carry [] = carry
  decode_segments model carry (none ∷ rest) = decode_segments model none rest
  decode_segments model carry (some steps ∷ rest) =
      decode_segments model (aggregate_column model carry steps) rest

  -- The position of the least score that is no null, the first of these, and that score.
  unfoldable pub least_at : List (Option Double) → Option (ℕ × Double)
  least_at [] = none
  least_at (none ∷ scores) = elim (least_at scores) [ none ↦ none | some (i, a) ↦ some (i + 1, a) ]
  least_at (some b ∷ scores) = elim (least_at scores) [
    | none ↦ some (0, b)
    | some (i, a) ↦ some (if doubles.ltb a b then (i + 1, a) else (0, b))
  ]

  -- `phase_path` of `_final_phase_paths`, of the carry of the last pass.
  unfoldable pub final_phase_path : Option PhaseSequenceState → Option (List ℤ)
  unfolding least_at
  final_phase_path none = none
  final_phase_path (some state) = elim (least_at state.phase_scores) [
    | none ↦ none
    | some (i, a) ↦ both (get_elem? state.phase_paths i)
  ]
