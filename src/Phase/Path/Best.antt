-- ===== src/Phase/Path/Best.antt =====
-- libs/phase/decode.py: the decoded paths of a flight, over all of its steps and segment by segment.
use s3ntinel.Prelude.{
  ℕ, ◌<◌, ◌≡◌, refl, sym, subst, ap, ◌∙◌, Option, none, some, List, [], ◌∷◌, length, get_elem?,
  true, ◌⊎◌, arith,
}
use s3ntinel.Prelude.Int.{ℤ}
use s3ntinel.Windows.Doubles.{Doubles}
use s3ntinel.Phase.Path.{
  PhaseTransitionModel, PhaseSequenceState, initial_state, updated_state, aggregate_column,
  least_at, final_phase_path,
}
use s3ntinel.Phase.Path.Routes.{
  IsOrdered, IsBest, Route, IsLost, initial_state-IsBest, length-transform,
}
use s3ntinel.Phase.Path.Least.{all_scores, least_at-IsLeast_nonempty}
use s3ntinel.Phase.Path.Options.{updated_state-IsBest}

-- The steps read, the last one first.
abbrev pub reversed_onto {ℓ} : {A : Type ℓ} → List A → List A → List A
reversed_onto acc [] = acc
reversed_onto acc (x ∷ xs) = reversed_onto (x ∷ acc) xs

module _ (doubles : Doubles) (ordered : IsOrdered doubles)
    (model : PhaseTransitionModel doubles) where
  open doubles use {Double}

  abbrev pub AllOf : ℕ → List (List Double) → Type 0
  AllOf n [] = Unit
  AllOf n (step ∷ steps) = (length step ≡ n) × AllOf n steps

  -- After the steps there is, for each of the n phases, a path that is best.
  pub record Decodes (n : ℕ) (steps : List (List Double))
      (out : Option (PhaseSequenceState doubles)) : Type 0 where
    pub state : PhaseSequenceState doubles
    pub returns : out ≡ some state
    pub size : length state.phase_scores ≡ n
    pub best : (j : ℕ) → j < n → IsBest doubles model steps state j

  length-updated_state :
      (acc : PhaseSequenceState doubles) (step : List Double)
      → length (updated_state doubles model acc step).phase_scores ≡ length step
  unfolding updated_state
  length-updated_state acc step = length-transform _ 0 (length step)

  length-initial_state :
      (step : List Double) → length (initial_state doubles step).phase_scores ≡ length step
  unfolding initial_state
  length-initial_state step = length-transform _ 0 (length step)

  advance-Decodes :
      (n o : ℕ) (offsets : List ℕ) (steps : List (List Double)) (before : List Double)
      (earlier : List (List Double)) (acc : PhaseSequenceState doubles)
      → model.allowed_transition_offsets ≡ o ∷ offsets
      → AllOf n steps
      → length acc.phase_scores ≡ n
      → ((j : ℕ) → j < n → IsBest doubles model (before ∷ earlier) acc j)
      → Decodes n
          (reversed_onto (before ∷ earlier) steps)
          (aggregate_column doubles model (some acc) steps)
  unfolding aggregate_column
  advance-Decodes n o offsets [] before earlier acc e sizes size b = record {
    state = acc;
    returns = refl;
    size = size;
    best = b;
  }
  advance-Decodes n o offsets (step ∷ steps) before earlier acc e sizes size b =
      advance-Decodes n o offsets steps step (before ∷ earlier)
        (updated_state doubles model acc step) e sizes.1 (length-updated_state acc step ∙ sizes.0)
        (λ j h.
          updated_state-IsBest doubles ordered model step before earlier acc
            (λ i k. b i (omega (arith, sizes.0))) j o offsets e (omega (arith, sizes.0)))

  aggregate_column-Decodes :
      (n o : ℕ) (offsets : List ℕ) (step : List Double) (steps : List (List Double))
      → model.allowed_transition_offsets ≡ o ∷ offsets
      → length step ≡ n
      → AllOf n steps
      → Decodes n
          (reversed_onto (step ∷ []) steps)
          (aggregate_column doubles model none (step ∷ steps))
  unfolding aggregate_column
  aggregate_column-Decodes n o offsets step steps e size sizes =
      advance-Decodes n o offsets steps step [] (initial_state doubles step) e sizes
        (length-initial_state step ∙ size)
        (λ j h. initial_state-IsBest doubles model ordered step j (omega arith))

  -- The decoded path of a flight: a route through all of its steps that costs no more than any other
  -- route, to whatever phase, or a path that went through no transition.
  pub record IsOptimal (n : ℕ) (steps : List (List Double)) (out : Option (List ℤ)) : Type 0 where
    pub path : List ℤ
    pub returns : out ≡ some path
    pub phase : ℕ
    pub score : Double
    pub attained : Route doubles model steps phase path score ⊎ IsLost doubles model path
    pub least :
        (k : ℕ) (other : List ℤ) (cost : Double)
        → k < n
        → Route doubles model steps k other cost
        → doubles.leb score cost ≡ true

  final_phase_path-found :
      (state : PhaseSequenceState doubles) (i : ℕ) (t : Double) (path : List ℤ)
      → least_at doubles state.phase_scores ≡ some (i, t)
      → get_elem? state.phase_paths i ≡ some (some path)
      → final_phase_path doubles (some state) ≡ some path
  unfolding final_phase_path
  final_phase_path-found state i t path e f = rw (e, final_phase_path, f) refl

  some-some-injective :
      {a b : Double} → ◌≡◌ {A = Option (Option Double)} (some (some a)) (some (some b)) → a ≡ b
  some-some-injective e = cc

  Decodes-IsOptimal :
      (n : ℕ) (steps : List (List Double)) (out : Option (PhaseSequenceState doubles))
      → 0 < n
      → Decodes n steps out
      → IsOptimal n steps (final_phase_path doubles out)
  Decodes-IsOptimal n steps out h d =
      let scores = d.state.phase_scores in
      let full : (k : ℕ) → k < length scores → (t : Double) × (get_elem? scores k ≡ some (some t)) =
        λ k k_lt.
          ((d.best k (omega (arith, d.size))).score, (d.best k (omega (arith, d.size))).is_score) in
      let l =
        least_at-IsLeast_nonempty doubles ordered scores (omega (arith, d.size))
          (all_scores doubles ordered scores full) in
      let b = d.best l.at (omega (arith, d.size, l.inside)) in
      record {
        path = b.path;
        returns =
            ap (final_phase_path doubles) d.returns
            ∙ final_phase_path-found d.state l.at l.score b.path l.returns b.is_path;
        phase = l.at;
        score = b.score;
        attained = b.attained;
        least = λ k other cost k_lt r.
            let bk = d.best k k_lt in
            ordered.leb_trans b.score bk.score cost
              (subst (λ t. doubles.leb t bk.score ≡ true)
                (some-some-injective (sym l.stands ∙ b.is_score)) (l.least k bk.score bk.is_score))
              (bk.least other cost r);
      }

  -- For steps that all have the same number n of phase costs, n above 0, and a model that allows some
  -- offset, there is a final path. It costs no more than any route through all of the steps, to
  -- whatever phase below n, and it is such a route with that cost, or it starts with the mark -1 of
  -- an offset out of range.
  pub final_phase_path-IsOptimal :
      (n o : ℕ) (offsets : List ℕ) (step : List Double) (steps : List (List Double))
      → model.allowed_transition_offsets ≡ o ∷ offsets
      → 0 < n
      → length step ≡ n
      → AllOf n steps
      → IsOptimal n
          (reversed_onto (step ∷ []) steps)
          (final_phase_path doubles (aggregate_column doubles model none (step ∷ steps)))
  final_phase_path-IsOptimal n o offsets step steps e h size sizes =
      Decodes-IsOptimal n _ _ h (aggregate_column-Decodes n o offsets step steps e size sizes)
