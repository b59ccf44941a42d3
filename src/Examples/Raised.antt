-- ===== src/Examples/Raised.antt =====
-- A behavior of Module.step that raises, libs/simulation/module.
use s3ntinel.Prelude.{◌≡◌, ◌↔◌, refl, true, none, some, [], ◌∷◌}
use s3ntinel.Prelude.Dict.{Dict, lookup}
use s3ntinel.Simulation.Module.{Behavior, Parameter, StepInputs}
use s3ntinel.Simulation.Module.Samples.{iter_samples}
use s3ntinel.Simulation.Module.Raises.{SomeRaises, iter_samples-raises_iff}
use s3ntinel.Examples.Coupled.{counts}
use s3ntinel.Examples.Steps.{numbers, pressure, unit}

-- It takes no target value.
abbrev untargeted : Behavior counts numbers
untargeted = record {
  generate = λ name input initial. elim (lookup "target_value" input.context) [
    | none ↦ some []
    | some value ↦ none
  ];
  violate = λ name samples context. some samples;
}

abbrev parameters : Dict (Parameter counts numbers)
parameters = ("pressure", pressure) ∷ ("flow", record pressure { behavior = some untargeted }) ∷ []

abbrev targeted : StepInputs counts numbers
targeted =
    ("flow", record { dt_seconds = 1; latent_state = []; context = ("target_value", some 3) ∷ [] })
    ∷ []

-- The input of "pressure" is missing, and that of "flow" has a target value.
flow_raises : iter_samples counts numbers (unit "ecs") targeted [] [] true parameters ≡ none
unfolding iter_samples
flow_raises = refl

iter_samples-raises_iff_example :
    (iter_samples counts numbers (unit "ecs") targeted [] [] true parameters ≡ none)
    ↔ SomeRaises counts numbers (unit "ecs") targeted [] [] true parameters
iter_samples-raises_iff_example =
    iter_samples-raises_iff counts numbers (unit "ecs") targeted [] [] true parameters
