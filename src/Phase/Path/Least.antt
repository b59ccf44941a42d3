-- ===== src/Phase/Path/Least.antt =====
-- libs/phase/decode.py: the least of the final scores, as _final_phase_paths finds it.
use s3ntinel.Prelude.{
  ℕ, suc, ◌<◌, ◌≡◌, refl, ap, ◌∙◌, Option, none, some, List, [], ◌∷◌, length, get_elem?, Bool-cases,
  inl, inr, if◌then◌else◌, true, false, zero, ◌+◌, arith,
}
use s3ntinel.Windows.Doubles.{Doubles}
use s3ntinel.Phase.Path.{least_at}
use s3ntinel.Phase.Path.Routes.{IsOrdered}

module _ (doubles : Doubles) (ordered : IsOrdered doubles) where
  open doubles use {Double}

  abbrev pub AllScores : List (Option Double) → Type 0
  AllScores [] = Unit
  AllScores (none ∷ scores) = ⊥
  AllScores (some a ∷ scores) = AllScores scores

  -- Where the least score stands.
  pub record IsLeast (scores : List (Option Double)) (out : Option (ℕ × Double)) : Type 0 where
    pub at : ℕ
    pub score : Double
    pub returns : out ≡ some (at, score)
    pub stands : get_elem? scores at ≡ some (some score)
    pub inside : at < length scores
    pub least :
        (k : ℕ) (other : Double)
        → get_elem? scores k ≡ some (some other)
        → doubles.leb score other ≡ true

  least_at-take :
      (a : Double) (scores : List (Option Double)) (i : ℕ) (t : Double)
      → least_at doubles scores ≡ some (i, t)
      → least_at doubles (some a ∷ scores) ≡ some (if doubles.ltb t a then (i + 1, t) else (0, a))
  unfolding least_at
  least_at-take a scores i t e = rw (e, least_at) refl

  least_at-cons :
      (a : Double) (scores : List (Option Double))
      → IsLeast scores (least_at doubles scores)
      → IsLeast (some a ∷ scores) (least_at doubles (some a ∷ scores))
  least_at-cons a scores rest = elim (Bool-cases (doubles.ltb rest.score a)) [
    | inl e ↦ record {
      at = suc rest.at;
      score = rest.score;
      returns =
          least_at-take a scores rest.at rest.score rest.returns
          ∙ ap (λ b. some (if b then (rest.at + 1, rest.score) else (0, a))) e
          ∙ ap (λ k. some (k, rest.score)) (omega arith);
      stands = rest.stands;
      inside = omega (arith, rest.inside);
      least = lower e;
    }
    | inr e ↦ record {
      at = 0;
      score = a;
      returns =
          least_at-take a scores rest.at rest.score rest.returns
          ∙ ap (λ b. some (if b then (rest.at + 1, rest.score) else (0, a))) e;
      stands = refl;
      inside = omega arith;
      least = stays e;
    }
  ]
    where
      lower :
          doubles.ltb rest.score a ≡ true
          → (k : ℕ) (other : Double) → get_elem? (some a ∷ scores) k ≡ some (some other)
          → doubles.leb rest.score other ≡ true
      lower e zero other f = ground (arith, ordered.lt-le rest.score a)
      lower e (suc k) other f = rest.least k other f

      stays :
          doubles.ltb rest.score a ≡ false
          → (k : ℕ) (other : Double) → get_elem? (some a ∷ scores) k ≡ some (some other)
          → doubles.leb a other ≡ true
      stays e zero other f = ground (arith, ordered.leb_refl a)
      stays e (suc k) other f =
          ordered.leb_trans a rest.score other (ground (arith, ordered.leb_total rest.score a))
            (rest.least k other f)

  least_at-IsLeast :
      (a : Double) (scores : List (Option Double))
      → AllScores scores
      → IsLeast (some a ∷ scores) (least_at doubles (some a ∷ scores))
  unfolding least_at
  least_at-IsLeast a [] h = record {
    at = 0;
    score = a;
    returns = refl;
    stands = refl;
    inside = omega arith;
    least = λ k other. only k other;
  }
    where
      only :
          (k : ℕ) (other : Double)
          → get_elem? (some a ∷ []) k ≡ some (some other)
          → doubles.leb a other ≡ true
      only zero other e = ground (arith, ordered.leb_refl a)
      only (suc k) other e = cc
  least_at-IsLeast a (none ∷ scores) h = absurd h
  least_at-IsLeast a (some b ∷ scores) h =
      least_at-cons a (some b ∷ scores) (least_at-IsLeast b scores h)

  pub all_scores :
      (scores : List (Option Double))
      → ((k : ℕ) → k < length scores → (t : Double) × (get_elem? scores k ≡ some (some t)))
      → AllScores scores
  all_scores [] h = tt
  all_scores (none ∷ scores) h = absurd (no_null (h 0 (omega arith)).1)
    where
      no_null : {t : Double} → ◌≡◌ {A = Option (Option Double)} (some none) (some (some t)) → ⊥
      no_null e = cc
  all_scores (some a ∷ scores) h = all_scores scores (λ k k_lt. h (suc k) (omega arith))

  pub least_at-IsLeast_nonempty :
      (scores : List (Option Double))
      → 0 < length scores
      → AllScores scores
      → IsLeast scores (least_at doubles scores)
  least_at-IsLeast_nonempty [] h a = absurd (omega arith)
  least_at-IsLeast_nonempty (none ∷ scores) h a = absurd a
  least_at-IsLeast_nonempty (some b ∷ scores) h a = least_at-IsLeast b scores a
