-- ===== src/Simulation/Module/Metadata.antt =====
-- libs/simulation/module/runtime.py: the labels of a sample, in iter_samples.
use s3ntinel.Prelude.{
  Bool, true, false, not, ◌&&◌, Option, none, some, List, [], ◌∷◌, String, if◌then◌else◌, coalesce,
  is_some,
}
use s3ntinel.Prelude.Int.{pos}
use s3ntinel.Prelude.Dict.{Dict, lookup, insert, merge}
use s3ntinel.Simulation.Coupling.{Signals}
use s3ntinel.Simulation.Coupling.Apply.{Port}
use s3ntinel.Simulation.Coupling.Config.{Objects, Context, get, holds, text_or_empty}
use s3ntinel.Simulation.Module.{BehaviorSample, Parameter, Module}

module _ (signals : Signals) (objects : Objects signals) where
  open signals use {Value, Double}

  abbrev pub Fields : Type 0
  Fields = Context signals objects

  infixr 3 ◌or◌
  abbrev ◌or◌ : Option Value → Option Value → Option Value
  a or b = if holds signals objects a then a else b

  abbrev pub filled : Fields → Bool
  filled [] = false
  filled (entry ∷ entries) = true

  -- `value.get(name, value.get(other, False))`, as a test
  abbrev pub flagged : String → String → Fields → Bool
  flagged name other fields =
      holds signals objects (coalesce (lookup name fields) (coalesce (lookup other fields) none))

  -- `_active_coupling_metadata_for_parameter`, with the first nominal metadata found so far.
  unfoldable pub coupling_metadata : Dict (Port signals) → List String → Fields → Fields
  unfolding lookup
  coupling_metadata ports [] nominal = nominal
  coupling_metadata ports (name ∷ names) nominal =
      let rest : Fields → Fields = λ found. coupling_metadata ports names found in
      elim (lookup name ports) [
        | none ↦ rest nominal
        | some port ↦
            if flagged "misbehavior_active" "fault_active" port.metadata
            then port.metadata
            else rest (
                if holds signals objects (get signals objects "coupling_id" port.metadata)
                  && not (filled nominal)
                then port.metadata
                else nominal)
      ]

  abbrev pub of_text : String → Option Value
  of_text t = some (objects.of_text t)

  abbrev pub of_flag : Bool → Option Value
  of_flag b = some (objects.of_flag b)

  abbrev of_name : Option String → Option Value
  of_name none = none
  of_name (some t) = of_text t

  abbrev pub zero_score : Option Value
  zero_score = some (signals.of_double (signals.of_int (pos 0)))

  -- `str(value)`
  abbrev str : Option Value → String
  str none = "None"
  str (some value) = objects.str_of value

  -- `value or ""` as a text
  abbrev pub label : Option Value → Option Value
  label value = of_text (text_or_empty signals objects value)

  -- `metadata.setdefault(key, value)`, for each entry in turn
  unfoldable pub set_missing : Dict (Option Value) → Fields → Fields
  unfolding lookup insert
  set_missing [] fields = fields
  set_missing (entry ∷ entries) fields =
      set_missing entries
        (if is_some (lookup entry.0 fields) then fields else insert entry.0 entry.1 fields)

  abbrev pub identity_of : Module signals objects → Parameter signals objects → Fields
  identity_of self parameter =
      ("system_id", of_text self.system_id)
      ∷ ("subsystem_id", of_text self.subsystem_id)
      ∷ ("module_id", of_text self.id)
      ∷ ("behavior_family_label", of_name parameter.behavior_family_label)
      ∷ ("parameter_datatype_label", of_text parameter.datatype_label)
      ∷ ("unit", of_text parameter.unit)
      ∷ ("rate_hz", parameter.sampling_rate_hz)
      ∷ []

  -- The labels that a parameter's own misbehavior gives a sample.
  unfoldable pub fault_labels : Parameter signals objects → Fields → Fields → Fields
  unfolding lookup
  fault_labels parameter fault fields =
      let from : String → Option Value = λ key. get signals objects key fault in
      let active = filled fault in
      let applied = holds signals objects (get signals objects "misbehavior_applied" fields) in
      let family : Option Value =
        get signals objects "misbehavior_family_label" fields
        or from "misbehavior_family_label"
        or from "violation_type" in
      let detail : Option Value =
        get signals objects "misbehavior_detail_label" fields
        or from "misbehavior_detail_label"
        or from "violation_type"
        or family in
      let window : Option Value =
        get signals objects "misbehavior_window_id" fields
        or from "misbehavior_window_id"
        or from "fault_window_id" in
      ("misbehavior_active", of_flag active)
      ∷ ("misbehavior_applied", of_flag applied)
      ∷ ("misbehavior_family_label", label family)
      ∷ ("misbehavior_detail_label", label detail)
      ∷ ("misbehavior_window_id", label window)
      ∷ (
        "event_misbehavior_label",
        if applied then label (from "event_misbehavior_label") else of_text "",
      )
      ∷ ("anomaly_type_label", if applied then label (from "anomaly_type_label") else of_text "")
      ∷ ("anomaly_score_label", if applied then from "anomaly_score_label" else zero_score)
      ∷ ("fault_active", of_flag active)
      ∷ ("fault_applied", of_flag applied)
      ∷ (
        "fault_family_label",
        of_text (
            if active
            then str (from "fault_family_label" or of_name parameter.behavior_family_label)
            else ""),
      )
      ∷ (
        "fault_type",
        of_text (if active then str (from "fault_type" or from "violation_type" or detail) else ""),
      )
      ∷ ("fault_window_id", of_text (if active then str (from "fault_window_id") else ""))
      ∷ []

  -- The labels that the metadata of an active coupling gives a sample in their place.
  unfoldable pub coupling_labels : Fields → Fields
  unfolding lookup
  coupling_labels fields =
      let from : String → Option Value = λ key. label (get signals objects key fields) in
      ("misbehavior_active", of_flag true)
      ∷ ("misbehavior_applied", of_flag true)
      ∷ ("misbehavior_family_label", from "misbehavior_family_label")
      ∷ ("misbehavior_detail_label", from "misbehavior_detail_label")
      ∷ ("misbehavior_window_id", from "misbehavior_window_id")
      ∷ ("event_misbehavior_label", from "event_misbehavior_label")
      ∷ ("anomaly_type_label", from "anomaly_type_label")
      ∷ ("anomaly_score_label", coalesce (lookup "anomaly_score_label" fields) zero_score)
      ∷ ("fault_active", of_flag true)
      ∷ ("fault_applied", of_flag true)
      ∷ ("fault_family_label", from "fault_family_label")
      ∷ ("fault_type", from "fault_type")
      ∷ ("fault_window_id", from "fault_window_id")
      ∷ []

  -- Whether the sample's own misbehavior was applied, and whether its coupling's is active.
  abbrev pub was_applied : BehaviorSample signals objects → Bool
  was_applied sample =
      holds signals objects (get signals objects "misbehavior_applied" sample.metadata)

  abbrev pub coupling_is_active : Fields → Bool
  coupling_is_active fields = flagged "misbehavior_active" "fault_active" fields

  -- The metadata of a sample.
  unfoldable pub sample_metadata :
      Module signals objects
      → Parameter signals objects
      → Fields
      → BehaviorSample signals objects
      → Fields
  unfolding lookup insert merge set_missing fault_labels coupling_metadata coupling_labels
  sample_metadata self parameter fault sample =
      let coupled = coupling_metadata self.input_ports parameter.input_port_names [] in
      let identified = set_missing (identity_of self parameter) sample.metadata in
      let labelled = merge identified (fault_labels parameter fault sample.metadata) in
      let named =
        insert "coupling_id_label" (label (get signals objects "coupling_id" coupled)) labelled in
      if coupling_is_active coupled && not (was_applied sample)
      then merge named (coupling_labels coupled)
      else named
