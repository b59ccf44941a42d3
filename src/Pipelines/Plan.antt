-- ===== src/Pipelines/Plan.antt =====
-- pipelines/plans.py: StageRunPlan and the stages that a start and an end select.
use s3ntinel.Prelude.{
  ℕ, zero, suc, ◌+◌, ◌-◌, ◌≤◌, ◌<◌, ◌≡◌, refl, Bool, not, Option, none, some, List, [], ◌∷◌, String,
  arith, str_eq, eq_iff, ltb, if◌then◌else◌, length, take, drop, length-take, length-drop, any,
  get_elem?, ap, ◌∙◌, min, Bool-cases, inl, inr,
}
use s3ntinel.Prelude.Dict.{Dict, insert}

pub record StageRunPlan : Type 0 where
  pub run_name : String
  pub pipeline_mode : String
  pub stage_scripts : List String
  pub summary_artifact_path : String
  pub manifest_artifact_path : Option String
  pub tags : Dict String

pub data PlanError : Type 0 where
  unknown_start unknown_end invalid_range : PlanError

pub data Result (A : Type 0) : Type 0 where
  ok : A → Result A
  err : PlanError → Result A

-- `{"project": …, "pipeline_mode": …, **tags}`
unfoldable pub update : Dict String → Dict String → Dict String
update d [] = d
update d ((k, v) ∷ rest) = update (insert k v d) rest

unfoldable pub resolved_tags : StageRunPlan → Dict String
unfolding update insert
resolved_tags plan =
    update (("project", "S3NTINEL") ∷ ("pipeline_mode", plan.pipeline_mode) ∷ []) plan.tags

abbrev pub contains : String → List String → Bool
contains s xs = any (λ x. str_eq x s) xs

-- `xs.index(s)`; the length where `s` is not in the list, which the caller has excluded.
unfoldable pub index : String → List String → ℕ
index s [] = 0
index s (x ∷ xs) = if str_eq x s then 0 else suc (index s xs)

unfoldable pub known : Option String → List String → Bool
known none scripts = Bool.true
known (some s) scripts = contains s scripts

unfoldable pub index_or : Option String → List String → ℕ → ℕ
unfolding index
index_or none scripts default = default
index_or (some s) scripts default = index s scripts

unfoldable pub selected_stage_scripts :
    StageRunPlan → Option String → Option String → Result (List String)
unfolding known index_or
selected_stage_scripts plan start_stage end_stage =
    let scripts = plan.stage_scripts in
    let start_idx = index_or start_stage scripts 0 in
    let end_idx = index_or end_stage scripts (length scripts - 1) in
    if ltb (length scripts) 1
    then ok []
    else if not (known start_stage scripts)
    then err unknown_start
    else if not (known end_stage scripts)
    then err unknown_end
    else if ltb end_idx start_idx
    then err invalid_range
    else ok (take (end_idx + 1 - start_idx) (drop start_idx scripts))

index-lt : (s : String) (xs : List String) → contains s xs ≡ Bool.true → index s xs < length xs
unfolding index
index-lt s [] h = ground arith
index-lt s (x ∷ xs) h = ground (arith, index-lt s xs)

known-index_or :
    (o : Option String) (xs : List String) (d : ℕ)
    → d < length xs
    → known o xs ≡ Bool.true
    → index_or o xs d < length xs
unfolding known index_or
known-index_or none xs d h k = h
known-index_or (some s) xs d h k = index-lt s xs k

get_elem?-index :
    (s : String) (xs : List String) → contains s xs ≡ Bool.true → get_elem? xs (index s xs) ≡ some s
unfolding index
get_elem?-index s [] h = ground arith
get_elem?-index s (x ∷ xs) h = elim (Bool-cases (str_eq x s)) [
  | inl here ↦ rw here (ap some ((eq_iff x s).0 here))
  | inr later ↦ rw later (get_elem?-index s xs (rw later at h))
]

get_elem?-take : (n i : ℕ) (xs : List String) → i < n → get_elem? (take n xs) i ≡ get_elem? xs i
get_elem?-take zero i xs h = elim h [ ]
get_elem?-take (suc n) i [] h = refl
get_elem?-take (suc n) zero (x ∷ xs) h = refl
get_elem?-take (suc n) (suc i) (x ∷ xs) h = get_elem?-take n i xs (omega arith)

get_elem?-drop : (n i : ℕ) (xs : List String) → get_elem? (drop n xs) i ≡ get_elem? xs (n + i)
get_elem?-drop zero i xs = rw (let e : 0 + i ≡ i = omega arith in e)
get_elem?-drop (suc n) i [] = refl
get_elem?-drop (suc n) i (x ∷ xs) =
    rw (let e : suc n + i ≡ suc (n + i) = omega arith in e) (get_elem?-drop n i xs)

-- What a successful selection says of its bounds.
selected_parts :
    (plan : StageRunPlan) (start_stage end_stage : Option String) (selected : List String)
    → 0 < length plan.stage_scripts
    → selected_stage_scripts plan start_stage end_stage ≡ ok selected
    → (known start_stage plan.stage_scripts ≡ Bool.true)
      × (known end_stage plan.stage_scripts ≡ Bool.true)
      × (index_or start_stage plan.stage_scripts 0
          ≤ index_or end_stage plan.stage_scripts (length plan.stage_scripts - 1))
      × (selected
          ≡ take
              (index_or end_stage plan.stage_scripts (length plan.stage_scripts - 1)
                + 1
                - index_or start_stage plan.stage_scripts 0)
              (drop (index_or start_stage plan.stage_scripts 0) plan.stage_scripts))
unfolding selected_stage_scripts
selected_parts plan start_stage end_stage selected h e = ground arith

-- A selection that succeeds on a plan with stages is the run of consecutive stages of the plan
-- from the start stage, or the first, to the end stage, or the last: its i-th stage is the plan's
-- stage at start index + i, and it holds end index - start index + 1 stages, both indices being
-- those of stages of the plan.
pub selected-IsRange :
    (plan : StageRunPlan) (start_stage end_stage : Option String) (selected : List String)
    → 0 < length plan.stage_scripts
    → selected_stage_scripts plan start_stage end_stage ≡ ok selected
    → (length selected + index_or start_stage plan.stage_scripts 0
        ≡ index_or end_stage plan.stage_scripts (length plan.stage_scripts - 1) + 1)
      × (index_or end_stage plan.stage_scripts (length plan.stage_scripts - 1)
          < length plan.stage_scripts)
      × ((i : ℕ)
          → i < length selected
          → get_elem? selected i
            ≡ get_elem? plan.stage_scripts (index_or start_stage plan.stage_scripts 0 + i))
selected-IsRange plan start_stage end_stage selected h e =
    let scripts = plan.stage_scripts in
    let a = index_or start_stage scripts 0 in
    let b = index_or end_stage scripts (length scripts - 1) in
    let (ks, ke, ordered, taken) = selected_parts plan start_stage end_stage selected h e in
    let bound : b < length scripts =
      known-index_or end_stage scripts (length scripts - 1) (omega arith) ke in
    let size : length selected ≡ min (b + 1 - a) (length scripts - a) =
      ap length taken
      ∙ length-take (b + 1 - a) (drop a scripts)
      ∙ ap (min (b + 1 - a)) (length-drop a scripts) in
    (
      omega arith,
      bound,
      λ i lt.
          ap (λ l. get_elem? l i) taken
          ∙ get_elem?-take (b + 1 - a) i (drop a scripts) (omega arith)
          ∙ get_elem?-drop a i scripts,
    )

-- A start stage and an end stage that are given are the first and the last of the selection.
pub selected_ends :
    (plan : StageRunPlan) (start_stage end_stage : String) (selected : List String)
    → 0 < length plan.stage_scripts
    → selected_stage_scripts plan (some start_stage) (some end_stage) ≡ ok selected
    → (get_elem? selected 0 ≡ some start_stage)
      × (get_elem? selected (length selected - 1) ≡ some end_stage)
unfolding index_or known
selected_ends plan start_stage end_stage selected h e =
    let scripts = plan.stage_scripts in
    let a = index start_stage scripts in
    let b = index end_stage scripts in
    let (ks, ke, ordered, taken) =
      selected_parts plan (some start_stage) (some end_stage) selected h e in
    let (size, bound, at) =
      selected-IsRange plan (some start_stage) (some end_stage) selected h e in
    let e0 : a + 0 ≡ a = omega arith in
    let e1 : a + (length selected - 1) ≡ b = omega arith in
    (
      at 0 (omega arith) ∙ ap (get_elem? scripts) e0 ∙ get_elem?-index start_stage scripts ks,
      at (length selected - 1) (omega arith)
          ∙ ap (get_elem? scripts) e1
          ∙ get_elem?-index end_stage scripts ke,
    )
