-- ===== src/Examples/Stages.antt =====
-- A stage group, run and resumed: pipelines and libs/simulation/replay_report.py.
use s3ntinel.Prelude.{
  ℕ, ◌+◌, ◌-◌, ◌<◌, ◌≡◌, ◌⊎◌, refl, true, Option, none, some, List, [], ◌∷◌, String, arith, length,
  get_elem?, take, suc, str_eq, if◌then◌else◌, is_some,
}
use s3ntinel.Pipelines.Plan.{
  StageRunPlan, ok, index, index_or, selected_stage_scripts, selected-IsRange, selected_ends,
}
use s3ntinel.Pipelines.Runner.{success, failed, run_stage_group, run_stage_group_outcome}
use s3ntinel.Pipelines.Replay.{
  StageReplayReport, SimulationReplayReport, ReplayResumePlan, returned, recommend_resume_plan,
  replay_by_stage, IsLatest, recommend-IsLatest,
}

abbrev plan : StageRunPlan
plan = record {
  run_name = "fitting";
  pipeline_mode = "full";
  stage_scripts = "00_ingest" ∷ "20_events" ∷ "30_windows" ∷ "40_backbone" ∷ [];
  summary_artifact_path = "reports/summary.json";
  manifest_artifact_path = none;
  tags = [];
}

abbrev middle : List String
middle = "20_events" ∷ "30_windows" ∷ []

middle_selected : selected_stage_scripts plan (some "20_events") (some "30_windows") ≡ ok middle
unfolding selected_stage_scripts
middle_selected = refl

selected-IsRange_example :
    (length middle + index_or (some "20_events") plan.stage_scripts 0
      ≡ index_or (some "30_windows") plan.stage_scripts (length plan.stage_scripts - 1) + 1)
    × (index_or (some "30_windows") plan.stage_scripts (length plan.stage_scripts - 1)
        < length plan.stage_scripts)
    × ((i : ℕ)
        → i < length middle
        → get_elem? middle i
          ≡ get_elem? plan.stage_scripts (index_or (some "20_events") plan.stage_scripts 0 + i))
selected-IsRange_example =
    selected-IsRange plan (some "20_events") (some "30_windows") middle (omega arith)
      middle_selected

selected_ends_example :
    (get_elem? middle 0 ≡ some "20_events")
    × (get_elem? middle (length middle - 1) ≡ some "30_windows")
selected_ends_example =
    selected_ends plan "20_events" "30_windows" middle (omega arith) middle_selected

-- The windows stage raises.
abbrev flaky : String → Option String
flaky stage = if str_eq stage "30_windows" then some "no space left" else none

run_stage_group_outcome_example :
    (let (summary, raised) = run_stage_group flaky plan.stage_scripts middle in
      ((raised ≡ none)
        × (summary.status ≡ success)
        × (summary.completed_stage_count ≡ summary.selected_stage_count)
        × (summary.failed_stage_count ≡ 0))
      ⊎ ((is_some raised ≡ true)
          × (summary.status ≡ failed)
          × (summary.completed_stage_count < summary.selected_stage_count)
          × (summary.failed_stage_count ≡ 1)))
run_stage_group_outcome_example = run_stage_group_outcome flaky plan.stage_scripts middle

abbrev ready : String → StageReplayReport
ready stage = record {
  stage_script = stage;
  ready = true;
  suggested_resume_command = some "resume";
}

abbrev report : SimulationReplayReport
report = record {
  ordered_stage_scripts = plan.stage_scripts;
  stage_replays = ready "00_ingest" ∷ ready "20_events" ∷ ready "40_backbone" ∷ [];
}

abbrev resume_at_events : ReplayResumePlan
resume_at_events = record {
  target_stage_script = "30_windows";
  selected_start_stage_script = "20_events";
  selected_end_stage_script = "30_windows";
  selected_stage_count = 2;
  resume_command = "resume";
  appended_end_stage = some "30_windows";
}

resume_found : recommend_resume_plan report "30_windows" ≡ returned (some resume_at_events)
unfolding recommend_resume_plan replay_by_stage index
resume_found = refl

recommend-IsLatest_example :
    IsLatest report.stage_replays
      (take (suc (index "30_windows" report.ordered_stage_scripts)) report.ordered_stage_scripts)
      none
      (some "20_events")
    × ("30_windows" ≡ resume_at_events.target_stage_script)
    × (resume_at_events.selected_stage_count
        ≡ index "30_windows" report.ordered_stage_scripts
          - index "20_events" report.ordered_stage_scripts
          + 1)
recommend-IsLatest_example = recommend-IsLatest report "30_windows" resume_at_events resume_found
