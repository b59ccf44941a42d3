-- ===== src/Simulation/Coupling/Effective.antt =====
-- libs/simulation/coupling/runtime.py: what a misbehavior context makes of a transfer.
use s3ntinel.Prelude.{
  ℕ, zero, suc, ◌≡◌, refl, sym, subst, ap, ◌∙◌, inl, inr, Bool, true, false, Option, none, some,
  ◌∷◌, String, str_eq, eq_iff, arith, Bool-cases,
}
use s3ntinel.Prelude.Int.{ℤ, pos, negsuc}
use s3ntinel.Simulation.Coupling.{Signals}
use s3ntinel.Simulation.Coupling.Apply.{TransferConfig, Coupling}
use s3ntinel.Simulation.Coupling.Config.{
  Objects, ◌>>=◌, neg_ℤ, Context, violation_type, inverted_sign, overridden, overridden_config,
  violated_config, at_least_zero, clamped, effective_transfer_config,
}

inverted_sign-neg :
    (signals : Signals) (objects : Objects signals) (sign : ℤ)
    → inverted_sign signals objects sign ≡ neg_ℤ sign
unfolding inverted_sign
inverted_sign-neg signals objects (pos zero) = refl
inverted_sign-neg signals objects (pos (suc n)) = ground arith
inverted_sign-neg signals objects (negsuc n) = ground arith

module _ (signals : Signals) (objects : Objects signals) where
  open signals use {Value, Double}

  -- What a non-empty context gives, by the type of its violation.
  pub record Obeys (coupling : Coupling signals) (context : Context signals objects)
      (config : TransferConfig signals) : Type 0 where
    pub lag : objects.ltb config.lag_seconds (signals.of_int (pos 0)) ≡ false
    pub breaks :
        violation_type signals objects context ≡ "coupling_break" → config.break_coupling ≡ true
    pub only_breaks :
        config.break_coupling ≡ true → violation_type signals objects context ≡ "coupling_break"
    pub inverts :
        violation_type signals objects context ≡ "coupling_inversion"
        → config.sign ≡ neg_ℤ coupling.sign
    pub opens :
        violation_type signals objects context ≡ "phase_context_violation"
        → config.ignore_phase_gate ≡ true

  pub bind-some {ℓ κ} :
      {A : Type ℓ} {B : Type κ} (o : Option A) (f : A → Option B) (b : B)
      → (o >>= f) ≡ some b
      → (a : A) × ((o ≡ some a) × (f a ≡ some b))
  bind-some none f b e = cc
  bind-some (some a) f b e = (a, (refl, e))

  overridden-unbroken :
      (gain : Option Double) (sign : Option ℤ) (lag : Option Double) (ignored : Bool)
      (config : TransferConfig signals)
      → overridden signals objects gain sign lag ignored ≡ some config
      → config.break_coupling ≡ false
  overridden-unbroken none sign lag ignored config e = cc
  overridden-unbroken (some gain) none lag ignored config e = cc
  overridden-unbroken (some gain) (some sign) none ignored config e = cc
  overridden-unbroken (some gain) (some sign) (some lag) ignored config e = ground arith

  pub overridden_config-unbroken :
      (coupling : Coupling signals) (context : Context signals objects)
      (config : TransferConfig signals)
      → overridden_config signals objects coupling context ≡ some config
      → config.break_coupling ≡ false
  unfolding overridden_config
  overridden_config-unbroken coupling context config e = overridden-unbroken _ _ _ _ config e

  violated-broken :
      (violation : String) (coupling : Coupling signals) (context : Context signals objects)
      (time : Option ℕ) (before config : TransferConfig signals)
      → violated_config signals objects violation coupling context time before ≡ some config
      → before.break_coupling ≡ false
      → config.break_coupling ≡ true
      → str_eq violation "coupling_break" ≡ true
  unfolding violated_config
  violated-broken violation coupling context time before config e u h = ground arith

  violated-breaks :
      (coupling : Coupling signals) (context : Context signals objects) (time : Option ℕ)
      (before config : TransferConfig signals)
      → violated_config signals objects "coupling_break" coupling context time before ≡ some config
      → config.break_coupling ≡ true
  unfolding violated_config
  violated-breaks coupling context time before config e = ground arith

  violated-inverts :
      (coupling : Coupling signals) (context : Context signals objects) (time : Option ℕ)
      (before config : TransferConfig signals)
      → violated_config signals objects "coupling_inversion" coupling context time before
        ≡ some config
      → config.sign ≡ neg_ℤ coupling.sign
  unfolding violated_config
  violated-inverts coupling context time before config e =
      ground (arith, inverted_sign-neg signals objects coupling.sign)

  violated-opens :
      (coupling : Coupling signals) (context : Context signals objects) (time : Option ℕ)
      (before config : TransferConfig signals)
      → violated_config signals objects "phase_context_violation" coupling context time before
        ≡ some config
      → config.ignore_phase_gate ≡ true
  unfolding violated_config
  violated-opens coupling context time before config e = ground arith

  at_least_zero-low :
      (a : Double)
      → objects.ltb (signals.of_int (pos 0)) (signals.of_int (pos 0)) ≡ false
      → objects.ltb (at_least_zero signals objects a) (signals.of_int (pos 0)) ≡ false
  at_least_zero-low a h = elim (Bool-cases (objects.ltb a (signals.of_int (pos 0)))) [
    | inl e ↦ rw e h
    | inr e ↦ rw e e
  ]

  -- The configuration under a context that is not empty, where its numbers parse and zero is not
  -- less than itself: its lag is not below zero; it breaks the coupling exactly if the violation
  -- is a coupling break; an inversion negates the coupling's sign; and a violation of the phase
  -- context sets the phase gate aside.
  pub effective_transfer_config-Obeys :
      (coupling : Coupling signals) (entry : String × Option Value)
      (entries : Context signals objects) (time : Option ℕ) (config : TransferConfig signals)
      → objects.ltb (signals.of_int (pos 0)) (signals.of_int (pos 0)) ≡ false
      → effective_transfer_config signals objects coupling (entry ∷ entries) time ≡ some config
      → Obeys coupling (entry ∷ entries) config
  unfolding effective_transfer_config
  effective_transfer_config-Obeys coupling entry entries time config h e =
      let violation = violation_type signals objects (entry ∷ entries) in
      let violated : TransferConfig signals → Option (TransferConfig signals) =
        λ c. violated_config signals objects violation coupling (entry ∷ entries) time c in
      let (before, (e1, f1)) =
        bind-some (overridden_config signals objects coupling (entry ∷ entries))
          (λ c. violated c >>= λ d. some (clamped signals objects d)) config e in
      let (after, (e2, f2)) =
        bind-some (violated before) (λ d. some (clamped signals objects d)) config f1 in
      let same : clamped signals objects after ≡ config = cc in
      let at_label : (label : String)
          → violation ≡ label
          → violated_config signals objects label coupling (entry ∷ entries) time before
            ≡ some after =
        λ label v.
          subst
            (λ l.
              violated_config signals objects l coupling (entry ∷ entries) time before ≡ some after)
            v e2 in
      record {
        lag =
            subst
              (λ (c : TransferConfig signals).
                objects.ltb c.lag_seconds (signals.of_int (pos 0)) ≡ false)
              same (at_least_zero-low after.lag_seconds h);
        breaks = λ v.
            sym (ap (λ (c : TransferConfig signals). c.break_coupling) same)
            ∙ violated-breaks coupling (entry ∷ entries) time before after
                (at_label "coupling_break" v);
        only_breaks = λ b. (eq_iff violation "coupling_break").0 (
            violated-broken violation coupling (entry ∷ entries) time before after e2
              (overridden_config-unbroken coupling (entry ∷ entries) before e1)
              (ap (λ (c : TransferConfig signals). c.break_coupling) same ∙ b));
        inverts = λ v.
            sym (ap (λ (c : TransferConfig signals). c.sign) same)
            ∙ violated-inverts coupling (entry ∷ entries) time before after
                (at_label "coupling_inversion" v);
        opens = λ v.
            sym (ap (λ (c : TransferConfig signals). c.ignore_phase_gate) same)
            ∙ violated-opens coupling (entry ∷ entries) time before after
                (at_label "phase_context_violation" v);
      }
