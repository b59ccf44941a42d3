-- ===== src/Simulation/Misbehavior/Context.antt =====
-- libs/simulation/fault/runtime.py: the context of one active window, _resolved_context.
use Prim.Native.String.{◌++◌ as append}
use s3ntinel.Prelude.{
  ℕ, Bool, true, false, Option, none, some, List, [], ◌∷◌, String, str_eq, if◌then◌else◌, is_some,
  coalesce,
}
use s3ntinel.Prelude.Int.{pos}
use s3ntinel.Prelude.Dict.{Dict, lookup, insert}
use s3ntinel.Windows.Doubles.{Doubles}
use s3ntinel.Simulation.Misbehavior.{
  Value, null, flag, number, real, text, truthy, ◌or◌, get, MisbehaviorWindowSpec, str_of,
}

-- `_EVENT_MISBEHAVIOR_BY_MISBEHAVIOR`
abbrev pub event_misbehavior_by_misbehavior : Dict String
event_misbehavior_by_misbehavior =
    ("bias", "threshold")
    ∷ ("drift", "drift_guard")
    ∷ ("dwell_violation", "dwell_violation")
    ∷ ("illegal_transition", "illegal_transition")
    ∷ ("offset", "threshold")
    ∷ ("oscillation", "oscillation")
    ∷ ("saturation", "threshold")
    ∷ ("state_chatter", "transition")
    ∷ []

-- The texts, with colons between them.
abbrev pub by_colons : String → List String → String
by_colons first [] = first
by_colons first (next ∷ rest) = append first (append ":" (by_colons next rest))

-- `str` of an optional name
abbrev pub name_text : Option String → String
name_text o = coalesce o "None"

module _ (doubles : Doubles) (printed : Value doubles → String) where
  abbrev V : Type 0
  V = Value doubles

  unfoldable pub default_event_misbehavior_label : String → V
  unfolding lookup
  default_event_misbehavior_label label = elim (lookup label event_misbehavior_by_misbehavior) [
    | none ↦ null
    | some found ↦ text found
  ]

  unfoldable pub normalized_window_id : MisbehaviorWindowSpec doubles → ℕ → String
  unfolding truthy lookup str_of
  normalized_window_id window offset =
      let window_id : V =
        get doubles "misbehavior_window_id" window.metadata
        or get doubles "fault_window_id" window.metadata in
      let steps : List String =
        str_of doubles printed (number window.start_step)
        ∷ str_of doubles printed (number window.end_step_exclusive)
        ∷ str_of doubles printed (number (pos offset))
        ∷ [] in
      if truthy doubles window_id
      then str_of doubles printed window_id
      else if str_eq window.subject_kind "coupling"
      then by_colons "coupling" (name_text window.coupling_id ∷ steps)
      else by_colons (name_text window.module_id) (name_text window.parameter_name ∷ steps)

  unfoldable pub misbehavior_family_label : MisbehaviorWindowSpec doubles → String
  unfolding truthy lookup str_of
  misbehavior_family_label window = str_of doubles printed (
      get doubles "misbehavior_family_label" window.metadata
      or get doubles "misbehavior_family_label" window.context
      or get doubles "violation_type" window.context
      or get doubles "fault_type" window.metadata
      or text "")

  unfoldable pub misbehavior_detail_label : MisbehaviorWindowSpec doubles → String
  unfolding truthy lookup str_of misbehavior_family_label
  misbehavior_detail_label window = str_of doubles printed (
      get doubles "misbehavior_detail_label" window.metadata
      or get doubles "misbehavior_detail_label" window.context
      or get doubles "violation_type" window.context
      or get doubles "fault_type" window.metadata
      or text (misbehavior_family_label window)
      or text "")

  unfoldable pub behavior_family_label : MisbehaviorWindowSpec doubles → String
  unfolding truthy lookup str_of
  behavior_family_label window = str_of doubles printed (
      get doubles "behavior_family_label" window.metadata
      or get doubles "fault_family_label" window.metadata
      or get doubles "behavior_family_label" window.context
      or get doubles "fault_family_label" window.context
      or text "")

  unfoldable pub event_misbehavior_label : MisbehaviorWindowSpec doubles → V
  unfolding truthy lookup default_event_misbehavior_label misbehavior_detail_label
  event_misbehavior_label window =
      let given : V =
        get doubles "event_misbehavior_label" window.metadata
        or get doubles "event_misbehavior_label" window.context in
      if truthy doubles given
      then given
      else default_event_misbehavior_label (misbehavior_detail_label window)

  -- `context.setdefault(key, value)`, for each entry in turn
  unfoldable pub set_defaults : List (String × V) → Dict V → Dict V
  unfolding lookup insert
  set_defaults [] context = context
  set_defaults (entry ∷ entries) context =
      set_defaults entries
        (if is_some (lookup entry.0 context) then context else insert entry.0 entry.1 context)

  unfoldable pub misbehavior_defaults : MisbehaviorWindowSpec doubles → ℕ → List (String × V)
  unfolding normalized_window_id misbehavior_family_label misbehavior_detail_label
      event_misbehavior_label
  misbehavior_defaults window offset =
      let family = misbehavior_family_label window in
      ("misbehavior_active", flag true)
      ∷ ("misbehavior_window_id", text (normalized_window_id window offset))
      ∷ ("misbehavior_family_label", text family)
      ∷ ("misbehavior_detail_label", text (misbehavior_detail_label window))
      ∷ ("misbehavior_start_step", number window.start_step)
      ∷ ("misbehavior_end_step_exclusive", number window.end_step_exclusive)
      ∷ ("event_misbehavior_label", event_misbehavior_label window)
      ∷ ("anomaly_type_label", if str_eq family "" then null else text family)
      ∷ []

  abbrev pub is_null : V → Bool
  is_null null = true
  is_null (flag b) = false
  is_null (number n) = false
  is_null (real a) = false
  is_null (text t) = false

  unfoldable pub with_score : MisbehaviorWindowSpec doubles → Dict V → Dict V
  unfolding lookup insert misbehavior_family_label
  with_score window context =
      if str_eq (misbehavior_family_label window) ""
      then context
      else if is_null (get doubles "anomaly_score_label" context)
      then insert "anomaly_score_label" (real (doubles.of_int (pos 1))) context
      else context

  -- The aliases under deprecated names, by the context that holds the others.
  unfoldable pub fault_aliases : MisbehaviorWindowSpec doubles → ℕ → Dict V → List (String × V)
  unfolding truthy lookup normalized_window_id misbehavior_detail_label behavior_family_label
  fault_aliases window offset context =
      (
        "fault_active",
        flag (truthy doubles (coalesce (lookup "misbehavior_active" context) (flag false))),
      )
      ∷ (
        "fault_window_id",
        coalesce (lookup "fault_window_id" window.metadata)
            (text (normalized_window_id window offset)),
      )
      ∷ (
        "fault_type",
        coalesce (lookup "fault_type" window.metadata) (text (misbehavior_detail_label window)),
      )
      ∷ ("fault_family_label", text (behavior_family_label window))
      ∷ ("fault_start_step", number window.start_step)
      ∷ ("fault_end_step_exclusive", number window.end_step_exclusive)
      ∷ []

  unfoldable pub resolved_context : MisbehaviorWindowSpec doubles → ℕ → Dict V
  unfolding set_defaults misbehavior_defaults with_score fault_aliases
  resolved_context window offset =
      let labelled = set_defaults (misbehavior_defaults window offset) window.context in
      let scored = with_score window labelled in
      set_defaults (fault_aliases window offset scored) scored
