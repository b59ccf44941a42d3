-- ===== src/Pipelines/Replay.antt =====
-- libs/simulation/replay_report.py: recommend_resume_plan, which stage of a persisted run to resume
-- from so that a target stage is reached.
use s3ntinel.Prelude.{
  ℕ, suc, ◌+◌, ◌-◌, ◌≡◌, refl, ap, ◌∙◌, Bool, true, false, not, ◌&&◌, ◌||◌, Option, none, some,
  List, [], ◌∷◌, ◌++◌, String, arith, str_eq, if◌then◌else◌, take, is_some, inl, inr, Bool-cases,
  subst,
}
use s3ntinel.Pipelines.Plan.{contains, index}

pub record StageReplayReport : Type 0 where
  pub stage_script : String
  pub ready : Bool
  pub suggested_resume_command : Option String

pub record SimulationReplayReport : Type 0 where
  pub ordered_stage_scripts : List String
  pub stage_replays : List StageReplayReport

pub record ReplayResumePlan : Type 0 where
  pub target_stage_script : String
  pub selected_start_stage_script : String
  pub selected_end_stage_script : String
  pub selected_stage_count : ℕ
  -- The command before `--end-stage`, and the end stage that is appended to it.
  pub resume_command : String
  pub appended_end_stage : Option String

-- The RuntimeError of an unknown target stage.
pub data Outcome (A : Type 0) : Type 0 where
  returned : A → Outcome A
  unknown_target_stage : Outcome A

-- `{item.stage_script: item for item in stage_replays if item.ready}.get(stage)`: the last wins.
unfoldable pub replay_by_stage : String → List StageReplayReport → Option StageReplayReport
replay_by_stage stage [] = none
replay_by_stage stage (item ∷ rest) = elim (replay_by_stage stage rest) [
  | some later ↦ some later
  | none ↦ if item.ready && str_eq item.stage_script stage then some item else none
]

-- The loop over the stages up to the target: the last one that can be replayed.
unfoldable pub best_start : List StageReplayReport → Option String → List String → Option String
best_start replays best [] = best
best_start replays best (stage ∷ rest) =
    best_start replays (if is_some (replay_by_stage stage replays) then some stage else best) rest

unfoldable pub plan_from : SimulationReplayReport → String → Option String → Option ReplayResumePlan
plan_from report target none = none
plan_from report target (some start) = elim (replay_by_stage start report.stage_replays) [
  | none ↦ none
  | some replay ↦ elim replay.suggested_resume_command [
    | none ↦ none
    | some command ↦ some (record {
      target_stage_script = target;
      selected_start_stage_script = start;
      selected_end_stage_script = target;
      selected_stage_count =
          index target report.ordered_stage_scripts - index start report.ordered_stage_scripts + 1;
      resume_command = command;
      appended_end_stage = if str_eq target start then none else some target;
    })
  ]
]

unfoldable pub recommend_resume_plan :
    SimulationReplayReport → String → Outcome (Option ReplayResumePlan)
unfolding plan_from best_start
recommend_resume_plan report target =
    let ordered = report.ordered_stage_scripts in
    if not (contains target ordered)
    then unknown_target_stage
    else returned (
        plan_from report target
          (best_start report.stage_replays none (take (suc (index target ordered)) ordered)))

-- Some report of the stage says that it is ready.
unfoldable pub is_ready : List StageReplayReport → String → Bool
is_ready [] stage = false
is_ready (item ∷ rest) stage = (item.ready && str_eq item.stage_script stage) || is_ready rest stage

is_some-replay_by_stage :
    (replays : List StageReplayReport) (stage : String)
    → is_some (replay_by_stage stage replays) ≡ is_ready replays stage
unfolding replay_by_stage is_ready
is_some-replay_by_stage [] stage = refl
is_some-replay_by_stage (item ∷ rest) stage = ground (arith, is_some-replay_by_stage rest stage)

-- The stages after the best start are not ready; with no best start none is.
abbrev pub AllBlocked : List StageReplayReport → List String → Type 0
AllBlocked replays [] = Unit
AllBlocked replays (stage ∷ rest) = (is_ready replays stage ≡ false) × AllBlocked replays rest

pub data IsLatest (replays : List StageReplayReport) (stages : List String) (best : Option String)
    (found : Option String) : Type 0 where
  none_ready : AllBlocked replays stages → found ≡ best → IsLatest replays stages best found
  latest :
      (before after : List String) (stage : String)
      → stages ≡ before ++ stage ∷ after
      → is_ready replays stage ≡ true
      → AllBlocked replays after
      → found ≡ some stage
      → IsLatest replays stages best found

best_start-IsLatest :
    (replays : List StageReplayReport) (stages : List String) (best : Option String)
    → IsLatest replays stages best (best_start replays best stages)
unfolding best_start
best_start-IsLatest replays [] best = none_ready tt refl
best_start-IsLatest replays (stage ∷ rest) best =
    rw (is_some-replay_by_stage replays stage) (
      widen
        (best_start-IsLatest replays rest (if is_ready replays stage then some stage else best)))
  where
    widen :
        {found : Option String}
        → IsLatest replays rest (if is_ready replays stage then some stage else best) found
        → IsLatest replays (stage ∷ rest) best found
    widen (latest before after s e r b f) =
        latest (stage ∷ before) after s (ap (λ l. stage ∷ l) e) r b f
    widen (none_ready b f) = elim (Bool-cases (is_ready replays stage)) [
      | inl yes_ready ↦ latest [] rest stage refl yes_ready b (f ∙ rw yes_ready refl)
      | inr blocked ↦ none_ready (blocked, b) (f ∙ rw blocked refl)
    ]

plan_from-start :
    (report : SimulationReplayReport) (target : String) (best : Option String)
    (plan : ReplayResumePlan)
    → plan_from report target best ≡ some plan
    → (best ≡ some plan.selected_start_stage_script)
      × (plan.selected_end_stage_script ≡ target)
      × (plan.selected_stage_count
          ≡ index target report.ordered_stage_scripts
            - index plan.selected_start_stage_script report.ordered_stage_scripts
            + 1)
unfolding plan_from
plan_from-start report target none plan e = ground arith
plan_from-start report target (some start) plan e = ground arith

recommended_inner :
    (report : SimulationReplayReport) (target : String) (plan : ReplayResumePlan)
    → recommend_resume_plan report target ≡ returned (some plan)
    → plan_from report target (
        best_start report.stage_replays none
          (take (suc (index target report.ordered_stage_scripts)) report.ordered_stage_scripts))
      ≡ some plan
unfolding recommend_resume_plan
recommended_inner report target plan e = ground arith

-- A plan that is recommended ends at the target stage, starts at the latest stage, up to and
-- including the target, that has a ready replay report, and counts the stages from the one index
-- to the other.
pub recommend-IsLatest :
    (report : SimulationReplayReport) (target : String) (plan : ReplayResumePlan)
    → recommend_resume_plan report target ≡ returned (some plan)
    → IsLatest report.stage_replays
        (take (suc (index target report.ordered_stage_scripts)) report.ordered_stage_scripts)
        none
        (some plan.selected_start_stage_script)
      × (plan.selected_end_stage_script ≡ target)
      × (plan.selected_stage_count
          ≡ index target report.ordered_stage_scripts
            - index plan.selected_start_stage_script report.ordered_stage_scripts
            + 1)
recommend-IsLatest report target plan e =
    let stages =
      take (suc (index target report.ordered_stage_scripts)) report.ordered_stage_scripts in
    let best = best_start report.stage_replays none stages in
    let (start, end, count) =
      plan_from-start report target best plan (recommended_inner report target plan e) in
    (
      subst (IsLatest report.stage_replays stages none) start
          (best_start-IsLatest report.stage_replays stages none),
      end,
      count,
    )
