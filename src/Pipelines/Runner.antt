-- ===== src/Pipelines/Runner.antt =====
-- pipelines/_pipeline_runner.py: the loop of run_stage_group and its summary, and the check of a
-- replay's inputs. A stage script is run by the interpreter: `run` says whether it raises, and
-- with which text. Times, logging and MLflow are left out.
use s3ntinel.Prelude.{
  ℕ, ◌+◌, ◌<◌, ◌≡◌, ◌⊎◌, inl, inr, refl, Bool, true, false, not, Option, none, some, List, [], ◌∷◌,
  ◌++◌, String, arith, if◌then◌else◌, length, is_some,
}

pub data Status : Type 0 where
  success failed : Status

pub record StageExecutionResult : Type 0 where
  pub stage_script : String
  pub status : Status
  pub error : Option String

pub record StageGroupRunSummary : Type 0 where
  pub status : Status
  pub stage_count : ℕ
  pub selected_stage_count : ℕ
  pub completed_stage_count : ℕ
  pub failed_stage_count : ℕ
  pub stages : List StageExecutionResult

-- The outcome of the loop: what was recorded, and the failure that ended it.
pub record LoopResult : Type 0 where
  pub stage_results : List StageExecutionResult
  pub failure : Option String

abbrev pub succeeded : Status → Bool
succeeded success = true
succeeded failed = false

module _ (run : String → Option String) where
  -- The `for` loop: a stage that raises is recorded and ends it.
  unfoldable pub run_stages : List StageExecutionResult → List String → LoopResult
  run_stages stage_results [] = record { stage_results = stage_results; failure = none }
  run_stages stage_results (stage_script ∷ rest) = elim (run stage_script) [
    | none ↦
        run_stages
          (stage_results
            ++ record { stage_script = stage_script; status = success; error = none } ∷ [])
          rest
    | some error ↦ record {
      stage_results =
          stage_results
          ++ record { stage_script = stage_script; status = failed; error = some error } ∷ [];
      failure = some error;
    }
  ]

  -- `sum(1 for item in stage_results if item.status == …)`
  unfoldable pub count_status : Bool → List StageExecutionResult → ℕ
  count_status wanted [] = 0
  count_status wanted (item ∷ rest) =
      (if (if succeeded item.status then wanted else not wanted) then 1 else 0)
      + count_status wanted rest

  unfoldable pub summary_of : List String → List String → LoopResult → StageGroupRunSummary
  unfolding count_status
  summary_of stage_scripts selected result = record {
    status = if is_some result.failure then failed else success;
    stage_count = length stage_scripts;
    selected_stage_count = length selected;
    completed_stage_count = count_status true result.stage_results;
    failed_stage_count = count_status false result.stage_results;
    stages = result.stage_results;
  }

  -- The summary is logged on both paths; a failure is then raised.
  unfoldable pub run_stage_group : List String → List String → StageGroupRunSummary × Option String
  unfolding run_stages summary_of
  run_stage_group stage_scripts selected =
      let result = run_stages [] selected in
      (summary_of stage_scripts selected result, result.failure)

  count-append :
      (wanted : Bool) (xs ys : List StageExecutionResult)
      → count_status wanted (xs ++ ys) ≡ count_status wanted xs + count_status wanted ys
  unfolding count_status
  count-append wanted [] ys = omega arith
  count-append wanted (x ∷ xs) ys = omega (arith, count-append wanted xs ys)

  -- How a loop ends, with its counts: with every stage completed, or with one failed and the
  -- stages before it completed.
  data Ends (before : List StageExecutionResult) (selected : List String) (r : LoopResult)
      : Type 0 where
    all_completed :
        r.failure ≡ none
        → count_status true r.stage_results ≡ count_status true before + length selected
        → count_status false r.stage_results ≡ count_status false before
        → Ends before selected r
    one_failed :
        (error : String)
        → r.failure ≡ some error
        → count_status true r.stage_results < count_status true before + length selected
        → count_status false r.stage_results ≡ count_status false before + 1
        → Ends before selected r

  Ends-later :
      {before : List StageExecutionResult} {rest : List String} {r : LoopResult}
      (stage_script : String)
      → Ends
          (before ++ record { stage_script = stage_script; status = success; error = none } ∷ [])
          rest
          r
      → Ends before (stage_script ∷ rest) r
  unfolding count_status
  Ends-later {before} stage_script (all_completed f c d) =
      all_completed f
        (omega (
          arith,
          count-append true before
              (record { stage_script = stage_script; status = success; error = none } ∷ []),
        ))
        (omega (
          arith,
          count-append false before
              (record { stage_script = stage_script; status = success; error = none } ∷ []),
        ))
  Ends-later {before} stage_script (one_failed error f c d) =
      one_failed error f
        (omega (
          arith,
          count-append true before
              (record { stage_script = stage_script; status = success; error = none } ∷ []),
        ))
        (omega (
          arith,
          count-append false before
              (record { stage_script = stage_script; status = success; error = none } ∷ []),
        ))

  Ends-stopped :
      {before : List StageExecutionResult} {rest : List String} (stage_script error : String)
      → Ends before (stage_script ∷ rest) (record {
        stage_results =
            before
            ++ record { stage_script = stage_script; status = failed; error = some error } ∷ [];
        failure = some error;
      })
  unfolding count_status
  Ends-stopped {before} stage_script error =
      one_failed error refl
        (omega (
          arith,
          count-append true before
              (record { stage_script = stage_script; status = failed; error = some error } ∷ []),
        ))
        (omega (
          arith,
          count-append false before
              (record { stage_script = stage_script; status = failed; error = some error } ∷ []),
        ))

  run_stages-Ends :
      (selected : List String) (before : List StageExecutionResult)
      → Ends before selected (run_stages before selected)
  unfolding run_stages
  run_stages-Ends [] before = all_completed refl (omega arith) refl
  run_stages-Ends (stage_script ∷ rest) before =
      stage_ends (run stage_script) (λ more. run_stages-Ends rest (before ++ more ∷ []))
    where
      stage_ends :
          (outcome : Option String)
          → ((more : StageExecutionResult)
              → Ends (before ++ more ∷ []) rest (run_stages (before ++ more ∷ []) rest))
          → Ends before (stage_script ∷ rest) (elim outcome [
            | none ↦
                run_stages
                  (before
                    ++ record { stage_script = stage_script; status = success; error = none } ∷ [])
                  rest
            | some error ↦ record {
              stage_results =
                  before
                  ++ record { stage_script = stage_script; status = failed; error = some error }
                    ∷ [];
              failure = some error;
            }
          ])
      stage_ends none later = Ends-later stage_script (later _)
      stage_ends (some error) later = Ends-stopped stage_script error

  summary-Ends :
      (stage_scripts selected : List String) (r : LoopResult)
      → Ends [] selected r
      → (let summary = summary_of stage_scripts selected r in
          ((r.failure ≡ none)
            × (summary.status ≡ success)
            × (summary.completed_stage_count ≡ summary.selected_stage_count)
            × (summary.failed_stage_count ≡ 0))
          ⊎ ((is_some r.failure ≡ true)
              × (summary.status ≡ failed)
              × (summary.completed_stage_count < summary.selected_stage_count)
              × (summary.failed_stage_count ≡ 1)))
  unfolding summary_of count_status
  summary-Ends stage_scripts selected r (all_completed f c d) =
      inl (f, ground arith, omega arith, omega arith)
  summary-Ends stage_scripts selected r (one_failed error f c d) =
      inr (ground arith, ground arith, omega arith, omega arith)

  -- A run of a stage group either raises nothing, and its summary has the status success, every
  -- selected stage completed and none failed; or it raises, and its summary has the status failed,
  -- exactly one failed stage and fewer completed stages than were selected.
  pub run_stage_group_outcome :
      (stage_scripts selected : List String)
      → (let (summary, raised) = run_stage_group stage_scripts selected in
          ((raised ≡ none)
            × (summary.status ≡ success)
            × (summary.completed_stage_count ≡ summary.selected_stage_count)
            × (summary.failed_stage_count ≡ 0))
          ⊎ ((is_some raised ≡ true)
              × (summary.status ≡ failed)
              × (summary.completed_stage_count < summary.selected_stage_count)
              × (summary.failed_stage_count ≡ 1)))
  unfolding run_stage_group
  run_stage_group_outcome stage_scripts selected =
      summary-Ends stage_scripts selected (run_stages [] selected) (run_stages-Ends selected [])
