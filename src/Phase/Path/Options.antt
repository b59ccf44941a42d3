-- ===== src/Phase/Path/Options.antt =====
-- libs/phase/decode.py: the first of the sorted transition options is the cheapest way into a phase.
use s3ntinel.Prelude.{
  ℕ, ◌-◌, ◌<◌, ◌≡◌, refl, sym, subst, ap, ◌∙◌, ◌⊎◌, inl, inr, leb, leb→le, Bool, true, false,
  Bool-cases, some, List, [], ◌∷◌, ◌++◌, map, if◌then◌else◌, length, get_elem?, arith,
}
use s3ntinel.Prelude.Int.{ℤ, pos, negsuc}
use s3ntinel.Windows.Doubles.{Doubles}
use s3ntinel.Phase.Path.{
  PhaseTransitionModel, PhaseSequenceState, TransitionOption, transition_penalty_for_offset,
  transition_option, precedes, first_option, best_transition, updated_state, huge,
}
use s3ntinel.Phase.Path.Routes.{
  IsOrdered, Among, Route, go, IsLost, IsBest, get_some, get_elem?-transform_zero,
}

module _ (doubles : Doubles) (ordered : IsOrdered doubles)
    (model : PhaseTransitionModel doubles) where
  open doubles use {Double, add}

  abbrev Option' : Type 0
  Option' = TransitionOption doubles

  -- No option with a score scores below r.
  abbrev Bounds : Double → Option' → Type 0
  Bounds r o = (t : Double) → o.score ≡ some t → doubles.leb r t ≡ true

  abbrev HasScore : Option' → Type 0
  HasScore o = (t : Double) × (o.score ≡ some t)

  abbrev All : (Option' → Type 0) → List Option' → Type 0
  All P [] = Unit
  All P (o ∷ os) = P o × All P os

  precedes-le :
      (a b : Option') (s t : Double)
      → a.score ≡ some s
      → b.score ≡ some t
      → precedes doubles a b ≡ true
      → doubles.leb s t ≡ true
  unfolding precedes
  precedes-le a b s t e f h = ground (arith, ordered.lt-le s t, ordered.leb_total t s)

  not-precedes-le :
      (a b : Option') (s t : Double)
      → a.score ≡ some s
      → b.score ≡ some t
      → precedes doubles a b ≡ false
      → doubles.leb t s ≡ true
  unfolding precedes
  not-precedes-le a b s t e f h = ground (arith, ordered.leb_total s t)

  first_option-Bounds :
      (options : List Option') (best : Option') (r : Double)
      → HasScore best
      → All HasScore options
      → (first_option doubles best options).score ≡ some r
      → Bounds r best × All (Bounds r) options
  unfolding first_option
  first_option-Bounds [] best r h hs e = (λ t f. ground (arith, ordered.leb_refl r), tt)
  first_option-Bounds (o ∷ options) best r h hs e = elim (Bool-cases (precedes doubles o best)) [
    | inl p ↦
        let ih =
          first_option-Bounds options o r hs.0 hs.1
            (sym (ap (λ b. (first_option doubles (if b then o else best) options).score) p) ∙ e) in
        (
          λ t f.
              ordered.leb_trans r hs.0.0 t (ih.0 hs.0.0 hs.0.1)
                (precedes-le o best hs.0.0 t hs.0.1 f p),
          (ih.0, ih.1),
        )
    | inr p ↦
        let ih =
          first_option-Bounds options best r h hs.1
            (sym (ap (λ b. (first_option doubles (if b then o else best) options).score) p) ∙ e) in
        (
          ih.0,
          (
            λ t f. ordered.leb_trans r h.0 t (ih.0 h.0 h.1) (not-precedes-le o best t h.0 f h.1 p),
            ih.1,
          ),
        )
  ]

  first_option-keeps :
      (P : Option' → Type 0) (options : List Option') (best : Option')
      → P best
      → All P options
      → P (first_option doubles best options)
  unfolding first_option
  first_option-keeps P [] best h hs = h
  first_option-keeps P (o ∷ options) best h hs =
      first_option-keeps P options _ (pick (precedes doubles o best)) hs.1
    where
      pick : (b : Bool) → P (if b then o else best)
      pick true = hs.0
      pick false = h

  IsLost-append :
      (path : List ℤ) (phase : ℤ)
      → IsLost doubles model path
      → IsLost doubles model (path ++ phase ∷ [])
  IsLost-append [] phase h = absurd h
  IsLost-append (p ∷ path) phase h = h

  module _ (step before : List Double) (earlier : List (List Double))
      (acc : PhaseSequenceState doubles)
      (full : (i : ℕ) → i < length step → IsBest doubles model (before ∷ earlier) acc i) where
    -- An option with a score, whose path is a route of that score or has none.
    record IsGood (j : ℕ) (o : Option') : Type 0 where
      score : Double
      path : List ℤ
      is_score : o.score ≡ some score
      is_path : o.path ≡ some path
      attained :
          Route doubles model (step ∷ before ∷ earlier) j path score ⊎ IsLost doubles model path

    abbrev penalty : ℕ → Double
    penalty offset = transition_penalty_for_offset doubles model.base_penalty offset

    option_score :
        (j offset : ℕ) (b : IsBest doubles model (before ∷ earlier) acc (j - offset)) (c : Double)
        → leb offset j ≡ true
        → get_elem? step j ≡ some c
        → ((transition_option doubles model acc step j offset).score
            ≡ some (add (add b.score c) (penalty offset)))
          × ((transition_option doubles model acc step j offset).path ≡ some (b.path ++ pos j ∷ []))
    unfolding transition_option
    option_score j offset b c h e = (rw (h, b.is_score, e) refl, rw (h, b.is_path) refl)

    lost_option :
        (j offset : ℕ)
        → leb offset j ≡ false
        → IsGood j (transition_option doubles model acc step j offset)
    unfolding transition_option
    lost_option j offset e = record {
      score = huge doubles;
      path = negsuc 0 ∷ [];
      is_score = rw e refl;
      is_path = rw e refl;
      attained = inr refl;
    }

    transition_option-IsGood :
        (j offset : ℕ)
        → j < length step
        → Among offset model.allowed_transition_offsets
        → IsGood j (transition_option doubles model acc step j offset)
    transition_option-IsGood j offset h m = elim (Bool-cases (leb offset j)) [
      | inl e ↦
          let b = full (j - offset) (omega arith) in
          let c = get_some doubles model step j h in
          let o = option_score j offset b c.0 e c.1 in
          record {
            score = add (add b.score c.0) (penalty offset);
            path = b.path ++ pos j ∷ [];
            is_score = o.0;
            is_path = o.1;
            attained = elim b.attained [
              | inl r ↦ inl (go offset r m (omega (arith, leb→le offset j e)) c.1 refl refl)
              | inr lost ↦ inr (IsLost-append b.path (pos j) lost)
            ];
          }
      | inr e ↦ lost_option j offset e
    ]

    abbrev option : ℕ → ℕ → Option'
    option j offset = transition_option doubles model acc step j offset

    abbrev Allowed : List ℕ → Type 0
    Allowed offsets = (x : ℕ) → Among x offsets → Among x model.allowed_transition_offsets

    goods_of :
        (j : ℕ) (offsets : List ℕ)
        → j < length step
        → Allowed offsets
        → All (IsGood j) (map (option j) offsets)
    goods_of j [] h a = tt
    goods_of j (o ∷ offsets) h a =
        (transition_option-IsGood j o h (a o (inl refl)), goods_of j offsets h (λ x m. a x (inr m)))

    scored : (j : ℕ) (options : List Option') → All (IsGood j) options → All HasScore options
    scored j [] h = tt
    scored j (o ∷ options) h = ((h.0.score, h.0.is_score), scored j options h.1)

    Bounds-option :
        (j x : ℕ) (r : Double) (offsets : List ℕ)
        → Among x offsets
        → All (Bounds r) (map (option j) offsets)
        → Bounds r (option j x)
    Bounds-option j x r [] m h = absurd m
    Bounds-option j x r (o ∷ offsets) (inl e) h = subst (λ k. Bounds r (option j k)) e h.0
    Bounds-option j x r (o ∷ offsets) (inr m) h = Bounds-option j x r offsets m h.1

    -- The score of the best option is no more than that of any route by one of the offsets.
    Route-bound :
        (j : ℕ) (r : Double) (other : List ℤ) (cost : Double)
        → ((x : ℕ) → Among x model.allowed_transition_offsets → Bounds r (option j x))
        → Route doubles model (step ∷ before ∷ earlier) j other cost
        → j < length step
        → doubles.leb r cost ≡ true
    Route-bound j r other cost bounds
          (go {i} {path = p} {score} {cost = c} offset route m ej ec ep es) h =
        let i' : i ≡ j - offset = omega arith in
        let b = full (j - offset) (omega arith) in
        let low : doubles.leb b.score score ≡ true =
          b.least p score
            (subst (λ k. Route doubles model (before ∷ earlier) k p score) i' route) in
        let o = option_score j offset b c (ground arith) ec in
        subst (λ t. doubles.leb r t ≡ true) (sym es)
          (ordered.leb_trans r (add (add b.score c) (penalty offset)) _ (bounds offset m _ o.0)
            (ordered.add_mono _ _ (penalty offset) (ordered.add_mono b.score score c low)))

    best_transition_cons :
        (j o : ℕ) (offsets : List ℕ)
        → model.allowed_transition_offsets ≡ o ∷ offsets
        → best_transition doubles model acc step j
          ≡ first_option doubles (option j o) (map (option j) offsets)
    unfolding best_transition
    best_transition_cons j o offsets e = rw e refl

    pub updated_state-IsBest :
        (j o : ℕ) (offsets : List ℕ)
        → model.allowed_transition_offsets ≡ o ∷ offsets
        → j < length step
        → IsBest doubles model (step ∷ before ∷ earlier) (updated_state doubles model acc step) j
    unfolding updated_state
    updated_state-IsBest j o offsets e h =
        let allowed : Allowed (o ∷ offsets) = λ x m. subst (Among x) (sym e) m in
        let good = goods_of j (o ∷ offsets) h allowed in
        let best =
          first_option-keeps (IsGood j) (map (option j) offsets) (option j o) good.0 good.1 in
        let bounds =
          first_option-Bounds (map (option j) offsets) (option j o) best.score
            (good.0.score, good.0.is_score) (scored j (map (option j) offsets) good.1)
            best.is_score in
        let chosen = best_transition_cons j o offsets e in
        record {
          score = best.score;
          path = best.path;
          is_score =
              get_elem?-transform_zero (λ k. (best_transition doubles model acc step k).score)
                (length step) j h
              ∙ ap (λ t. some (t.score)) chosen
              ∙ ap some best.is_score;
          is_path =
              get_elem?-transform_zero (λ k. (best_transition doubles model acc step k).path)
                (length step) j h
              ∙ ap (λ t. some (t.path)) chosen
              ∙ ap some best.is_path;
          least = λ other cost r.
              Route-bound j best.score other cost
                (λ x m. Bounds-option j x best.score (o ∷ offsets) (subst (Among x) e m) bounds) r
                h;
          attained = best.attained;
        }
