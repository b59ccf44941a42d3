-- ===== src/Simulation/Misbehavior/Targets.antt =====
-- libs/simulation/fault/spec.py: what a window that passes its checks has.
use s3ntinel.Prelude.{
  ◌≡◌, ◌≢◌, sym, subst, ap, ◌∙◌, ◌⊎◌, true, false, Option, none, some, String, str_eq, eq_iff,
  if◌then◌else◌, arith, inl, inr,
}
use s3ntinel.Prelude.Int.{pos, ltb_ℤ}
use s3ntinel.Windows.Doubles.{Doubles}
use s3ntinel.Simulation.Misbehavior.{
  Value, MisbehaviorWindowSpec, ok, undeclared, checks, with_target, no_text,
  recoverability_targets, is_in, observed_recoverability_strength_rank,
  recoverability_target_alignment_status, resolve_window_benchmark_recoverability_target, post_init,
}

-- A text that is there and is not empty.
abbrev pub IsNamed : Option String → Type 0
IsNamed none = ⊥
IsNamed (some t) = str_eq t "" ≡ false

target_rank :
    (t : String)
    → is_in t recoverability_targets ≡ true
    → ltb_ℤ (observed_recoverability_strength_rank (some t)) (pos 0) ≡ false
unfolding observed_recoverability_strength_rank
target_rank t h = ground arith

declared-status :
    (observed : Option String) (t : String)
    → is_in t recoverability_targets ≡ true
    → recoverability_target_alignment_status observed (some t) ≢ undeclared
unfolding recoverability_target_alignment_status
declared-status observed t h e = ground (arith, target_rank t h)

module _ (doubles : Doubles) (printed : Value doubles → String) where
  -- The subject of a window and what its kind requires.
  abbrev pub IsAddressed : MisbehaviorWindowSpec doubles → Type 0
  IsAddressed window =
      ((window.subject_kind ≡ "parameter")
        × IsNamed window.module_id
        × IsNamed window.parameter_name)
      ⊎ ((window.subject_kind ≡ "coupling") × IsNamed window.coupling_id)

  with_target-ok :
      (window v : MisbehaviorWindowSpec doubles) (o : Option String)
      → with_target doubles printed window o ≡ ok v
      → (v ≡ window)
        × ((target : String) → o ≡ some target → is_in target recoverability_targets ≡ true)
  with_target-ok window v none e = (cc, λ target f. cc)
  with_target-ok window v (some t) e = (ground arith, λ target f. ground arith)

  checks-target :
      (window v : MisbehaviorWindowSpec doubles)
      → checks doubles printed window ≡ ok v
      → with_target doubles printed window
          (resolve_window_benchmark_recoverability_target doubles printed window)
        ≡ ok v
  unfolding checks
  checks-target window v e = ground arith

  checks-kind :
      (window v : MisbehaviorWindowSpec doubles)
      → checks doubles printed window ≡ ok v
      → ((str_eq window.subject_kind "parameter" ≡ true)
          × (no_text window.module_id ≡ false)
          × (no_text window.parameter_name ≡ false))
        ⊎ ((str_eq window.subject_kind "coupling" ≡ true) × (no_text window.coupling_id ≡ false))
  unfolding checks
  checks-kind window v e = ground arith

  IsNamed-text : (o : Option String) → no_text o ≡ false → IsNamed o
  IsNamed-text none e = cc
  IsNamed-text (some t) e = e

  checks-IsAddressed :
      (window v : MisbehaviorWindowSpec doubles)
      → checks doubles printed window ≡ ok v
      → IsAddressed window
  checks-IsAddressed window v e = elim (checks-kind window v e) [
    | inl (k, m, p) ↦ inl (
      (eq_iff window.subject_kind "parameter").0 k,
      IsNamed-text window.module_id m,
      IsNamed-text window.parameter_name p,
    )
    | inr (k, c) ↦
        inr ((eq_iff window.subject_kind "coupling").0 k, IsNamed-text window.coupling_id c)
  ]

  -- A window that passes its checks names its subject: a module and a parameter, or a coupling. If
  -- it declares a target, then no observed tier is compared with it as undeclared.
  pub post_init-IsAddressed :
      (given window : MisbehaviorWindowSpec doubles)
      → post_init doubles printed given ≡ ok window
      → IsAddressed window
        × ((observed : Option String) (target : String)
            → resolve_window_benchmark_recoverability_target doubles printed window ≡ some target
            → recoverability_target_alignment_status observed (some target) ≢ undeclared)
  unfolding post_init
  post_init-IsAddressed given window e =
      let normal = record given {
        subject_kind = if str_eq given.subject_kind "" then "parameter" else given.subject_kind;
      } in
      let found =
        with_target-ok normal window
          (resolve_window_benchmark_recoverability_target doubles printed normal)
          (checks-target normal window e) in
      (
        subst IsAddressed (sym found.0) (checks-IsAddressed normal window e),
        λ observed target f. declared-status observed target (
            found.1 target (
              ap (resolve_window_benchmark_recoverability_target doubles printed) (sym found.0)
              ∙ f)),
      )
