-- ===== src/Simulation/Misbehavior.antt =====
-- libs/simulation/fault/spec.py: the windows of a misbehavior program, the checks of a window and
-- the tiers of recoverability. The values of contexts and metadata are None, flags, numbers and
-- texts, and `printed` is Python's `str` of those that are no text. Dictionaries have distinct keys.
pub mod Context
pub mod Program
pub mod Labels
pub mod Latest
pub mod Targets
use s3ntinel.Prelude.{
  ℕ, suc, ◌+◌, ltb, ◌==◌, Bool, true, false, not, ◌&&◌, ◌||◌, Option, none, some, List, [], ◌∷◌,
  String, str_eq, if◌then◌else◌, any, is_some, coalesce,
}
use s3ntinel.Prelude.Int.{ℤ, pos, negsuc, ltb_ℤ}
use s3ntinel.Prelude.Dict.{Dict, lookup}
use s3ntinel.Windows.Doubles.{Doubles}

pub data WindowError : Type 0 where
  unsupported_subject_kind missing_parameter missing_coupling unsupported_target : WindowError

pub data Checked {ℓ} (A : Type ℓ) : Type ℓ where
  ok : A → Checked A
  raised : WindowError → Checked A

abbrev pub recoverability_targets : List String
recoverability_targets =
    "detection_only" ∷ "parameter_visible_only" ∷ "module_recoverable" ∷ "subsystem_recoverable"
    ∷ []

abbrev pub strength_tiers : List String
strength_tiers =
    "undetected" ∷ "detection_only" ∷ "parameter_visible_only" ∷ "subsystem_recoverable"
    ∷ "module_recoverable" ∷ []

abbrev pub is_in : String → List String → Bool
is_in x xs = any (λ y. str_eq y x) xs

-- The index of a tier; the tiers are distinct.
unfoldable pub index_of : ℕ → String → List String → ℤ
index_of i label [] = negsuc 0
index_of i label (tier ∷ tiers) =
    let later = index_of (i + 1) label tiers in if str_eq tier label then pos i else later

-- `None` stands for the empty label.
unfoldable pub observed_recoverability_strength_rank : Option String → ℤ
unfolding index_of
observed_recoverability_strength_rank label = index_of 0 (coalesce label "") strength_tiers

pub data AlignmentStatus : Type 0 where
  undeclared missed_target met_target exceeded_target : AlignmentStatus

unfoldable pub recoverability_target_alignment_status :
    Option String → Option String → AlignmentStatus
unfolding observed_recoverability_strength_rank
recoverability_target_alignment_status observed_tier declared_target =
    let observed_rank = observed_recoverability_strength_rank observed_tier in
    let declared_rank = observed_recoverability_strength_rank declared_target in
    if ltb_ℤ declared_rank (pos 0)
    then undeclared
    else if ltb_ℤ observed_rank declared_rank
    then missed_target
    else if ltb_ℤ declared_rank observed_rank
    then exceeded_target
    else met_target

abbrev pub eligible_targets_by_scope : Dict (List String)
eligible_targets_by_scope =
    ("detection", recoverability_targets)
    ∷ ("parameter", "parameter_visible_only" ∷ "module_recoverable" ∷ "subsystem_recoverable" ∷ [])
    ∷ ("module", "module_recoverable" ∷ [])
    ∷ ("subsystem", "module_recoverable" ∷ "subsystem_recoverable" ∷ [])
    ∷ []

unfoldable pub benchmark_eligible_declared_tiers_for_scope : Option String → List String
unfolding lookup
benchmark_eligible_declared_tiers_for_scope scope =
    coalesce (lookup (coalesce scope "") eligible_targets_by_scope) []

unfoldable pub benchmark_scope_includes_declared_tier : Option String → Option String → Bool
unfolding benchmark_eligible_declared_tiers_for_scope
benchmark_scope_includes_declared_tier scope declared_tier =
    is_in (coalesce declared_tier "") (benchmark_eligible_declared_tiers_for_scope scope)

abbrev pub no_text : Option String → Bool
no_text none = true
no_text (some t) = str_eq t ""

module _ (doubles : Doubles) where
  open doubles use {Double, of_int}

  pub data Value : Type 0 where
    null : Value
    flag : Bool → Value
    number : ℤ → Value
    real : Double → Value
    text : String → Value

  abbrev is_zero : ℤ → Bool
  is_zero (pos n) = n == 0
  is_zero (negsuc n) = false

  -- Python's `bool(value)`
  unfoldable pub truthy : Value → Bool
  truthy null = false
  truthy (flag b) = b
  truthy (number n) = not (is_zero n)
  truthy (real a) = not (doubles.leb a (of_int (pos 0)) && doubles.leb (of_int (pos 0)) a)
  truthy (text t) = not (str_eq t "")

infixr 3 ◌or◌
abbrev pub ◌or◌ : {doubles : Doubles} → Value doubles → Value doubles → Value doubles
◌or◌ {doubles} a b = if truthy doubles a then a else b

module _ (doubles : Doubles) where
  abbrev Value' : Type 0
  Value' = Value doubles

  -- `d.get(key)`
  abbrev pub get : String → Dict Value' → Value'
  get key d = coalesce (lookup key d) null

  pub record MisbehaviorWindowSpec : Type 0 where
    pub start_step : ℤ
    pub end_step_exclusive : ℤ
    pub context : Dict Value'
    pub subject_kind : String
    pub module_id : Option String
    pub parameter_name : Option String
    pub coupling_id : Option String
    pub metadata : Dict Value'

  module _ (printed : Value' → String) where
    -- Python's `str(value)`
    unfoldable pub str_of : Value' → String
    str_of (text t) = t
    str_of null = printed null
    str_of (flag b) = printed (flag b)
    str_of (number n) = printed (number n)
    str_of (real a) = printed (real a)

    -- `None if value is None else str(value) or None`
    unfoldable pub text_or_none : Value' → Option String
    unfolding str_of
    text_or_none null = none
    text_or_none (flag b) = if str_eq (str_of (flag b)) "" then none else some (str_of (flag b))
    text_or_none (number n) =
        if str_eq (str_of (number n)) "" then none else some (str_of (number n))
    text_or_none (real a) = if str_eq (str_of (real a)) "" then none else some (str_of (real a))
    text_or_none (text t) = if str_eq t "" then none else some t

    unfoldable pub resolve_window_fault_window_id : MisbehaviorWindowSpec → Option String
    unfolding text_or_none truthy lookup
    resolve_window_fault_window_id window =
        text_or_none
          (get "fault_window_id" window.metadata or get "misbehavior_window_id" window.metadata)

    unfoldable pub resolve_window_benchmark_recoverability_target :
        MisbehaviorWindowSpec → Option String
    unfolding text_or_none truthy lookup
    resolve_window_benchmark_recoverability_target window = text_or_none (
        get "benchmark_recoverability_target" window.metadata
        or get "benchmark_recoverability_target" window.context)

    unfoldable pub resolve_window_fault_type : MisbehaviorWindowSpec → Option String
    unfolding text_or_none truthy lookup
    resolve_window_fault_type window = text_or_none (
        get "fault_type" window.metadata
        or get "misbehavior_detail_label" window.metadata
        or get "misbehavior_detail_label" window.context
        or get "violation_type" window.context)

    abbrev pub with_target : MisbehaviorWindowSpec → Option String → Checked MisbehaviorWindowSpec
    with_target window none = ok window
    with_target window (some target) =
        if is_in target recoverability_targets then ok window else raised unsupported_target

    unfoldable pub checks : MisbehaviorWindowSpec → Checked MisbehaviorWindowSpec
    unfolding resolve_window_benchmark_recoverability_target
    checks window =
        let kind = window.subject_kind in
        let checked = with_target window (resolve_window_benchmark_recoverability_target window) in
        if not (str_eq kind "parameter") && not (str_eq kind "coupling")
        then raised unsupported_subject_kind
        else if str_eq kind "parameter"
            && (no_text window.module_id || no_text window.parameter_name)
        then raised missing_parameter
        else if not (str_eq kind "parameter") && no_text window.coupling_id
        then raised missing_coupling
        else checked

    -- `__post_init__`, which leaves the window with its subject kind normalised.
    unfoldable pub post_init : MisbehaviorWindowSpec → Checked MisbehaviorWindowSpec
    unfolding checks
    post_init given = checks record given {
      subject_kind = if str_eq given.subject_kind "" then "parameter" else given.subject_kind;
    }
