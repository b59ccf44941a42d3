-- ===== src/Examples/Misbehaving.antt =====
-- Short misbehavior programs of libs/simulation/fault.
use s3ntinel.Prelude.{◌≡◌, ◌≢◌, refl, Option, none, some, [], ◌∷◌, String}
use s3ntinel.Prelude.Int.{pos}
use s3ntinel.Prelude.Dict.{lookup}
use s3ntinel.Simulation.Misbehavior.{
  Value, text, MisbehaviorWindowSpec, ok, undeclared, missed_target,
  recoverability_target_alignment_status, resolve_window_benchmark_recoverability_target, post_init,
}
use s3ntinel.Simulation.Misbehavior.Context.{misbehavior_defaults, fault_aliases, resolved_context}
use s3ntinel.Simulation.Misbehavior.Labels.{either, labelled, lookup-resolved_context}
use s3ntinel.Simulation.Misbehavior.Program.{context_for_step, coupling_context_for_step}
use s3ntinel.Simulation.Misbehavior.Latest.{
  parameter_entry, names_parameter, names_coupling, last_active, step_context_lem,
}
use s3ntinel.Simulation.Misbehavior.Targets.{IsAddressed, post_init-IsAddressed}
use s3ntinel.Examples.Inputs.{fixed_point}

-- All that is no text prints as one letter.
abbrev letter : Value fixed_point → String
letter value = "x"

abbrev biased : MisbehaviorWindowSpec fixed_point
biased = record {
  start_step = pos 2;
  end_step_exclusive = pos 5;
  context = ("violation_type", text "bias") ∷ [];
  subject_kind = "parameter";
  module_id = some "ecs";
  parameter_name = some "cabin_pressure";
  coupling_id = none;
  metadata = ("benchmark_recoverability_target", text "module_recoverable") ∷ [];
}

abbrev drifting : MisbehaviorWindowSpec fixed_point
drifting = record biased {
  start_step = pos 4;
  end_step_exclusive = pos 8;
  context = ("violation_type", text "drift") ∷ [];
}

label_at :
    lookup "event_misbehavior_label" (resolved_context fixed_point letter biased 1)
    ≡ some (text "threshold")
unfolding resolved_context lookup
label_at = refl

missed :
    recoverability_target_alignment_status (some "undetected") (some "detection_only")
    ≡ missed_target
unfolding recoverability_target_alignment_status
missed = refl

-- Both windows are active at step 4, and the second one is the last.
overlap :
    last_active fixed_point letter
      (names_parameter fixed_point letter "ecs" "cabin_pressure")
      (pos 4)
      1
      (biased ∷ drifting ∷ [])
    ≡ some (resolved_context fixed_point letter drifting 2)
overlap = refl

step_context_lem_example :
    (parameter_entry fixed_point letter "ecs" "cabin_pressure"
        (context_for_step fixed_point letter (biased ∷ drifting ∷ []) (pos 4))
      ≡ last_active fixed_point letter
          (names_parameter fixed_point letter "ecs" "cabin_pressure")
          (pos 4)
          1
          (biased ∷ drifting ∷ []))
    × (lookup "bleed"
          (coupling_context_for_step fixed_point letter (biased ∷ drifting ∷ []) (pos 4))
        ≡ last_active fixed_point letter
            (names_coupling fixed_point letter "bleed")
            (pos 4)
            1
            (biased ∷ drifting ∷ []))
step_context_lem_example =
    step_context_lem fixed_point letter (biased ∷ drifting ∷ []) (pos 4) "ecs" "cabin_pressure"
      "bleed"

lookup-resolved_context_example :
    lookup "violation_type" (resolved_context fixed_point letter biased 1)
    ≡ either (lookup "violation_type" biased.context) (
        either (lookup "violation_type" (misbehavior_defaults fixed_point letter biased 1)) (
          lookup "violation_type"
            (fault_aliases fixed_point letter biased 1 (labelled fixed_point letter biased 1))))
lookup-resolved_context_example =
    lookup-resolved_context fixed_point letter "violation_type" biased 1 refl

passes : post_init fixed_point letter biased ≡ ok biased
unfolding post_init
passes = refl

post_init-IsAddressed_example :
    IsAddressed fixed_point letter biased
    × ((observed : Option String) (target : String)
        → resolve_window_benchmark_recoverability_target fixed_point letter biased ≡ some target
        → recoverability_target_alignment_status observed (some target) ≢ undeclared)
post_init-IsAddressed_example = post_init-IsAddressed fixed_point letter biased biased passes
