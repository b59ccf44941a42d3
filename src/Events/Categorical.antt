-- ===== src/Events/Categorical.antt =====
-- libs/events/categorical.py: the step of the fold over the samples of one categorical parameter.
-- A nullable column is an `Option`; timestamps are milliseconds since the epoch.
pub mod Outline
pub mod Segments
pub mod Passes
use Prim.Native.String.{◌++◌ as append}
use s3ntinel.Prelude.{
  ℕ, Bool, true, false, not, ◌&&◌, ◌||◌, Option, none, some, List, [], ◌∷◌, ◌++◌, String, str_eq,
  if◌then◌else◌, is_some, coalesce, any,
}
use s3ntinel.Prelude.Int.{ℤ, pos, sub_ℕ}
use s3ntinel.Windows.Doubles.{Doubles}

pub data DwellBucket : Type 0 where
  lt_1s from_1s_to_5s from_5s_to_30s gte_30s : DwellBucket

-- The events that the step may emit, with the payload of each.
pub data DetectedEvent (Double : Type 0) : Type 0 where
  state_enter : (at : ℕ) (to_state : String) → DetectedEvent Double
  state_exit :
      (at : ℕ) (from_state to_state : String) (dwell : Option Double) → DetectedEvent Double
  dropped : (at : ℕ) (from_state : String) → DetectedEvent Double
  dwell_bucket :
      (at : ℕ) (state : String) (dwell : Double) (bucket : DwellBucket) → DetectedEvent Double
  transition : (at : ℕ) (from_state to_state : String) (dwell : Double) → DetectedEvent Double
  dwell_violation :
      (at : ℕ) (from_state to_state : String) (dwell min_dwell : Double) → DetectedEvent Double
  illegal_transition : (at : ℕ) (from_state to_state : String) → DetectedEvent Double
  dwell_guard : (at : ℕ) (state : String) (dwell max_dwell : Double) → DetectedEvent Double

-- A row of `steps`. A sample is missing exactly if it has no state, so `is_missing` is the null.
pub record Sample : Type 0 where
  pub timestamp_utc : ℕ
  pub current_state : Option String

pub record SequenceState (Double : Type 0) : Type 0 where
  pub last_state : Option String
  pub last_state_ts : Option ℕ
  pub last_dwell_guard_ts : Option ℕ
  pub missing : Bool
  pub emitted_events : List (DetectedEvent Double)

unfoldable pub initial_state : {Double : Type 0} → SequenceState Double
initial_state = record {
  last_state = none;
  last_state_ts = none;
  last_dwell_guard_ts = none;
  missing = false;
  emitted_events = [];
}

unfoldable pub carry_state : {Double : Type 0} → SequenceState Double → SequenceState Double
carry_state state = record state { emitted_events = [] }

module _ (doubles : Doubles) where
  open doubles use {Double, of_int, div, leb}

  pub record CategoricalDetectorConfig : Type 0 where
    pub min_dwell_seconds : Double
    pub max_dwell_seconds : Double
    pub emit_state_enter : Bool
    pub emit_state_exit : Bool
    pub emit_dwell_bucket : Bool
    pub illegal_transitions : List (String × String)

  -- Milliseconds as seconds; `dwell_seconds` of a state with no start is 0.
  unfoldable pub seconds_since : ℕ → ℕ → Double
  seconds_since now before = div (of_int (sub_ℕ now before)) (of_int (pos 1000))

  unfoldable pub dwell_seconds : SequenceState Double → Sample → Double
  unfolding seconds_since
  dwell_seconds acc step = elim acc.last_state_ts [
    | none ↦ of_int (pos 0)
    | some before ↦ seconds_since step.timestamp_utc before
  ]

  -- `a < b` for doubles that are no NaN.
  abbrev lt_double : Double → Double → Bool
  lt_double a b = not (leb b a)

  unfoldable pub bucket_of : Double → DwellBucket
  bucket_of dwell =
      if lt_double dwell (of_int (pos 1))
      then lt_1s
      else if lt_double dwell (of_int (pos 5))
      then from_1s_to_5s
      else if lt_double dwell (of_int (pos 30))
      then from_5s_to_30s
      else gte_30s

  -- The key of a transition: its states joined by U+0001.
  abbrev joined_key : String → String → String
  joined_key from_state to_state = append from_state (append "\u{1}" to_state)

  unfoldable pub is_illegal : CategoricalDetectorConfig → String → String → Bool
  is_illegal config from_state to_state =
      any (λ pair. str_eq (joined_key pair.0 pair.1) (joined_key from_state to_state))
        config.illegal_transitions

  unfoldable pub guard_is_due : CategoricalDetectorConfig → SequenceState Double → Sample → Bool
  unfolding seconds_since dwell_seconds
  guard_is_due config acc step =
      lt_double (of_int (pos 0)) config.max_dwell_seconds
      && leb config.max_dwell_seconds (dwell_seconds acc step)
      && elim acc.last_dwell_guard_ts [
        | none ↦ true
        | some guarded ↦ leb config.max_dwell_seconds (seconds_since step.timestamp_utc guarded)
      ]

  abbrev when : Bool → DetectedEvent Double → List (DetectedEvent Double)
  when true event = event ∷ []
  when false event = []

  -- What a step emits when a sample goes missing, when a state comes up, when it changes, and when
  -- it stays.
  unfoldable pub missing_events :
      CategoricalDetectorConfig → SequenceState Double → Sample → List (DetectedEvent Double)
  missing_events config acc step =
      elim acc.last_state [
        | none ↦ []
        | some old ↦ when config.emit_state_exit (state_exit step.timestamp_utc old "missing" none)
      ]
      ++ dropped step.timestamp_utc (coalesce acc.last_state "none") ∷ []

  unfoldable pub enter_events :
      CategoricalDetectorConfig → Sample → String → List (DetectedEvent Double)
  enter_events config step now = when config.emit_state_enter (state_enter step.timestamp_utc now)

  unfoldable pub transition_events :
      CategoricalDetectorConfig
      → SequenceState Double
      → Sample
      → String
      → String
      → List (DetectedEvent Double)
  unfolding dwell_seconds bucket_of is_illegal
  transition_events config acc step old now =
      let at = step.timestamp_utc in
      let dwell = dwell_seconds acc step in
      when config.emit_state_exit (state_exit at old now (some dwell))
      ++ (when config.emit_dwell_bucket (dwell_bucket at old dwell (bucket_of dwell))
          ++ (transition at old now dwell
              ∷ (when
                    (lt_double (of_int (pos 0)) config.min_dwell_seconds
                      && lt_double dwell config.min_dwell_seconds)
                    (dwell_violation at old now dwell config.min_dwell_seconds)
                  ++ when (is_illegal config old now) (illegal_transition at old now))))

  -- What the step emits, by the sample's state and the state before it.
  unfoldable pub emitted_by_step :
      CategoricalDetectorConfig
      → SequenceState Double
      → Sample
      → Option String
      → Option String
      → List (DetectedEvent Double)
  unfolding missing_events enter_events transition_events guard_is_due
  emitted_by_step config acc step none old =
      if acc.missing then [] else missing_events config acc step
  emitted_by_step config acc step (some now) none = enter_events config step now
  emitted_by_step config acc step (some now) (some old) =
      if acc.missing
      then enter_events config step now
      else if not (str_eq now old)
      then transition_events config acc step old now
      else when (guard_is_due config acc step)
          (dwell_guard step.timestamp_utc now (dwell_seconds acc step) config.max_dwell_seconds)

  -- The state comes up from null or from a missing sample, or it changes.
  unfoldable pub is_new_state : SequenceState Double → Option String → Option String → Bool
  is_new_state acc none old = false
  is_new_state acc (some now) none = true
  is_new_state acc (some now) (some old) = acc.missing || not (str_eq now old)

  unfoldable pub state_after_step :
      CategoricalDetectorConfig → SequenceState Double → Sample → SequenceState Double
  unfolding emitted_by_step is_new_state
  state_after_step config acc step =
      let now = step.current_state in
      let current_missing = not (is_some now) in
      let fresh = is_new_state acc now acc.last_state in
      record {
        last_state = now;
        last_state_ts =
            if current_missing || fresh then some step.timestamp_utc else acc.last_state_ts;
        last_dwell_guard_ts =
            if current_missing
            then some step.timestamp_utc
            else if fresh
            then none
            else if guard_is_due config acc step
            then some step.timestamp_utc
            else acc.last_dwell_guard_ts;
        missing = current_missing;
        emitted_events = acc.emitted_events ++ emitted_by_step config acc step now acc.last_state;
      }

  unfoldable pub run_samples :
      CategoricalDetectorConfig → SequenceState Double → List Sample → SequenceState Double
  run_samples config acc [] = acc
  run_samples config acc (step ∷ steps) =
      run_samples config (state_after_step config acc step) steps
