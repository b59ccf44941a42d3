-- ===== src/Simulation/Flight/Emits.antt =====
-- libs/simulation/flight/runtime.py: how often a parameter's samples become telemetry rows.
use native.Mathlib.Nat.{mod-lt, mod_self, mod-eq_of_lt, mod-add-mod, mod-eq-sub-mod}
use s3ntinel.Prelude.{
  ℕ, ◌+◌, ◌-◌, ◌%◌, ◌==◌, ◌≤◌, ◌<◌, ◌≡◌, refl, sym, ap, ◌∙◌, arith, Bool, true, false, Option, some,
  if◌then◌else◌, Bool-cases, inl, inr, ltb,
}
use mathlib.Core.Option.{some-injective}
use s3ntinel.Prelude.Int.{ℤ, pos}
use s3ntinel.Simulation.Coupling.{Signals}
use s3ntinel.Simulation.Coupling.Config.{Objects}
use s3ntinel.Simulation.Flight.Telemetry.{
  Rates, at_least_one, is_unset, rounded_steps, should_emit_sample,
}

-- The distance from a number to the next multiple.
abbrev to_multiple : ℕ → ℕ → ℕ
to_multiple i k = if i % k == 0 then 0 else k - i % k

to_multiple-bound : (i k : ℕ) → 0 < k → to_multiple i k < k
to_multiple-bound i k h = ground (arith, mod-lt i h)

to_multiple-mod : (i k : ℕ) → 0 < k → (i + to_multiple i k) % k ≡ 0
to_multiple-mod i k h = elim (Bool-cases (i % k == 0)) [
  | inl e ↦ rw e (let n : i + 0 ≡ i = omega arith in rw n (ground arith))
  | inr e ↦ rw e (
      sym (mod-add-mod i k (k - i % k))
      ∙ ap (λ n. n % k) (let n : i % k + (k - i % k) ≡ k = omega (arith, mod-lt i h) in n)
      ∙ mod_self k)
]

multiple_unique : (i k d : ℕ) → 0 < k → d < k → (i + d) % k ≡ 0 → d ≡ to_multiple i k
multiple_unique i k d h below e =
    let r_below : i % k < k = mod-lt i h in
    let at_r : (i % k + d) % k ≡ 0 = mod-add-mod i k d ∙ e in
    elim (Bool-cases (ltb (i % k + d) k)) [
      | inl small ↦
          let s : i % k + d < k = ground arith in
          let same : i % k + d ≡ 0 = sym (mod-eq_of_lt s) ∙ at_r in ground arith
      | inr big ↦
          let b : k ≤ i % k + d = ground arith in
          let s : (i % k + d) - k < k = omega arith in
          let same : (i % k + d) - k ≡ 0 = sym (mod-eq_of_lt s) ∙ sym (mod-eq-sub-mod b) ∙ at_r in
          ground arith
    ]

at_least_one-pos : (steps : ℤ) → 0 < at_least_one steps
at_least_one-pos steps = ground arith

module _ (signals : Signals) (objects : Objects signals) (rates : Rates signals) where
  open signals use {Value, Double}

  abbrev emits : ℕ → Double → Value → Option Bool
  emits step_index dt_seconds value =
      should_emit_sample signals objects rates step_index dt_seconds (some value)

  -- Of `k` steps from `first` on, exactly one emits.
  pub record EmitsOnce (first k : ℕ) (dt_seconds : Double) (value : Value) : Type 0 where
    pub offset : ℕ
    pub inside : offset < k
    pub emitted : emits (first + offset) dt_seconds value ≡ some true
    pub only :
        (other : ℕ)
        → other < k
        → emits (first + other) dt_seconds value ≡ some true
        → other ≡ offset

  emits-every :
      (step_index : ℕ) (dt_seconds : Double) (value : Value) (rate interval : Double) (steps : ℤ)
      → rates.same value (objects.of_text "") ≡ false
      → rates.same value (objects.of_integer (pos 0)) ≡ false
      → rates.same value (signals.of_double (signals.of_int (pos 0))) ≡ false
      → signals.to_double value ≡ some rate
      → rates.leb rate (signals.of_int (pos 0)) ≡ false
      → rates.div
          (signals.of_int (pos 1))
          (signals.mul rate (if objects.ltb dt_seconds rates.nano then rates.nano else dt_seconds))
        ≡ some interval
      → rates.round_int interval ≡ some steps
      → emits step_index dt_seconds value ≡ some (step_index % at_least_one steps == 0)
  unfolding should_emit_sample
  emits-every step_index dt_seconds value rate interval steps t i z d p q r =
      rw (should_emit_sample, is_unset, rounded_steps, t, i, z, d, p, q, r) refl

  -- If a rate is neither the empty text nor zero, parses and is above zero, and one divided by its
  -- product with the time of a step, or with 1e-9 if that is more, rounds to a number of steps, then
  -- of that many consecutive steps, but of one at least, exactly one emits the samples of that
  -- rate.
  pub should_emit_sample-EmitsOnce :
      (first : ℕ) (dt_seconds : Double) (value : Value) (rate interval : Double) (steps : ℤ)
      → rates.same value (objects.of_text "") ≡ false
      → rates.same value (objects.of_integer (pos 0)) ≡ false
      → rates.same value (signals.of_double (signals.of_int (pos 0))) ≡ false
      → signals.to_double value ≡ some rate
      → rates.leb rate (signals.of_int (pos 0)) ≡ false
      → rates.div
          (signals.of_int (pos 1))
          (signals.mul rate (if objects.ltb dt_seconds rates.nano then rates.nano else dt_seconds))
        ≡ some interval
      → rates.round_int interval ≡ some steps
      → EmitsOnce first (at_least_one steps) dt_seconds value
  should_emit_sample-EmitsOnce first dt_seconds value rate interval steps t i z d p q r =
      let k = at_least_one steps in
      let h = at_least_one-pos steps in
      let at_offset : (o : ℕ) → emits (first + o) dt_seconds value ≡ some ((first + o) % k == 0) =
        λ o. emits-every (first + o) dt_seconds value rate interval steps t i z d p q r in
      record {
        offset = to_multiple first k;
        inside = to_multiple-bound first k h;
        emitted =
            at_offset (to_multiple first k)
            ∙ ap some (let m = to_multiple-mod first k h in ground arith);
        only = λ other below e. multiple_unique first k other h below (
            let test : ((first + other) % k == 0) ≡ true =
              some-injective ((first + other) % k == 0) true (sym (at_offset other) ∙ e) in
            ground arith);
      }
