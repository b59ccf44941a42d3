-- ===== src/Phase/Path/Routes.antt =====
-- libs/phase/decode.py: the decoded path of a phase costs no more than any other route to it.
use s3ntinel.Prelude.{
  ℕ, zero, suc, ◌+◌, ◌<◌, ◌≡◌, refl, ap, ◌∙◌, ◌⊎◌, inl, true, not, some, List, [], ◌∷◌, ◌++◌,
  length, get_elem?, arith,
}
use s3ntinel.Prelude.Int.{ℤ, pos, negsuc}
use s3ntinel.Windows.Doubles.{Doubles}
use s3ntinel.Phase.Path.{
  PhaseTransitionModel, PhaseSequenceState, transition_penalty_for_offset, transform, initial_state,
}

-- What the decoder relies on of doubles: they are in a linear order, and addition of a double keeps
-- it, as rounding does where no value is a NaN.
pub record IsOrdered (doubles : Doubles) : Type 0 where
  pub leb_refl : (a : doubles.Double) → doubles.leb a a ≡ true
  pub leb_trans :
      (a b c : doubles.Double)
      → doubles.leb a b ≡ true
      → doubles.leb b c ≡ true
      → doubles.leb a c ≡ true
  pub leb_total : (a b : doubles.Double) → doubles.ltb a b ≡ not (doubles.leb b a)
  pub lt-le : (a b : doubles.Double) → doubles.ltb a b ≡ true → doubles.leb a b ≡ true
  pub add_mono :
      (a b c : doubles.Double)
      → doubles.leb a b ≡ true
      → doubles.leb (doubles.add a c) (doubles.add b c) ≡ true

get_elem?-transform {ℓ} :
    {A : Type ℓ} (f : ℕ → A) (j n i : ℕ) → i < n → get_elem? (transform f j n) i ≡ some (f (j + i))
unfolding transform
get_elem?-transform f j zero i h = absurd (omega arith)
get_elem?-transform f j (suc n) zero h = ap (λ k. some (f k)) (omega arith)
get_elem?-transform f j (suc n) (suc i) h =
    get_elem?-transform f (j + 1) n i (omega arith) ∙ ap (λ k. some (f k)) (omega arith)

pub get_elem?-transform_zero {ℓ} :
    {A : Type ℓ} (f : ℕ → A) (n i : ℕ) → i < n → get_elem? (transform f 0 n) i ≡ some (f i)
get_elem?-transform_zero f n i h =
    get_elem?-transform f 0 n i h ∙ ap (λ k. some (f k)) (omega arith)

pub length-transform {ℓ} : {A : Type ℓ} (f : ℕ → A) (j n : ℕ) → length (transform f j n) ≡ n
unfolding transform
length-transform f j zero = refl
length-transform f j (suc n) = omega (arith, length-transform f (j + 1) n)

abbrev pub Among : ℕ → List ℕ → Type 0
Among x [] = ⊥
Among x (y ∷ ys) = (y ≡ x) ⊎ Among x ys

module _ (doubles : Doubles) (model : PhaseTransitionModel doubles) where
  open doubles use {Double, add}

  -- A route through the steps, the last one first, ending in the phase j: each step goes on by an
  -- allowed offset, and the score sums the costs and the penalties on the way.
  pub data Route : List (List Double) → ℕ → List ℤ → Double → Type 0 where
    start :
        {step : List Double} {j : ℕ} {path : List ℤ} {score : Double}
        → get_elem? step j ≡ some score
        → path ≡ pos j ∷ []
        → Route (step ∷ []) j path score
    go :
        {step before : List Double} {earlier : List (List Double)} {i j : ℕ} {path path' : List ℤ}
        {score cost score' : Double} (offset : ℕ)
        → Route (before ∷ earlier) i path score
        → Among offset model.allowed_transition_offsets
        → j ≡ i + offset
        → get_elem? step j ≡ some cost
        → path' ≡ path ++ pos j ∷ []
        → score'
          ≡ add (add score cost) (transition_penalty_for_offset doubles model.base_penalty offset)
        → Route (step ∷ before ∷ earlier) j path' score'

  -- A path that starts with the mark for no transition.
  abbrev pub IsLost : List ℤ → Type 0
  IsLost [] = ⊥
  IsLost (phase ∷ path) = phase ≡ negsuc 0

  -- What the state holds of the phase j after the steps.
  pub record IsBest (steps : List (List Double)) (state : PhaseSequenceState doubles) (j : ℕ)
      : Type 0 where
    pub score : Double
    pub path : List ℤ
    pub is_score : get_elem? state.phase_scores j ≡ some (some score)
    pub is_path : get_elem? state.phase_paths j ≡ some (some path)
    pub least :
        (other : List ℤ) (cost : Double) → Route steps j other cost → doubles.leb score cost ≡ true
    pub attained : Route steps j path score ⊎ IsLost path

  pub get_some :
      (costs : List Double) (j : ℕ) → j < length costs → (c : Double) × (get_elem? costs j ≡ some c)
  get_some [] j h = absurd (omega arith)
  get_some (c ∷ costs) zero h = (c, refl)
  get_some (c ∷ costs) (suc j) h = get_some costs j (omega arith)

  start_least :
      {step : List Double} {j : ℕ} {path : List ℤ} {cost : Double} (o : IsOrdered doubles)
      (c : Double)
      → get_elem? step j ≡ some c
      → Route (step ∷ []) j path cost
      → doubles.leb c cost ≡ true
  start_least {cost} o c e (start f p) = ground (arith, o.leb_refl c)

  pub initial_state-IsBest :
      (o : IsOrdered doubles) (step : List Double) (j : ℕ)
      → j < length step
      → IsBest (step ∷ []) (initial_state doubles step) j
  unfolding initial_state
  initial_state-IsBest o step j h =
      let c = get_some step j h in
      record {
        score = c.0;
        path = pos j ∷ [];
        is_score = get_elem?-transform_zero (λ k. get_elem? step k) (length step) j h ∙ ap some c.1;
        is_path = get_elem?-transform_zero (λ k. some (pos k ∷ [])) (length step) j h;
        least = λ other cost r. start_least o c.0 c.1 r;
        attained = inl (start c.1 refl);
      }
