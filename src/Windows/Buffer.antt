-- ===== src/Windows/Buffer.antt =====
-- libs/windows/buffer.py: WindowSensorBuffer, the value that each sensor was last seen with.
use s3ntinel.Prelude.{
  ℕ, ◌≡◌, refl, ◌∙◌, arith, Option, none, some, List, [], ◌∷◌, foldl, String, str_eq, if◌then◌else◌,
}
use s3ntinel.Prelude.Dict.{Dict, lookup, insert, lookup-insert}

-- What `event.get(key)` meets: no such key, or a value that may be None.
pub data Entry (A : Type 0) : Type 0 where
  missing : Entry A
  held : Option A → Entry A

-- The keys of an event that the buffer reads, its values as `str` gives them. A timestamp that is not a datetime is None here.
pub record DetectedEventRow : Type 0 where
  pub timestamp_utc : Entry ℕ
  pub ts : Entry ℕ
  pub parameter_name : Entry String
  pub sensor : Entry String
  pub event_type_detected : Entry String
  pub payload : Option (Dict (Option String))

pub record Seen : Type 0 where
  pub sensor : String
  pub timestamp_utc : ℕ
  pub value : String

pub record WindowSensorBuffer : Type 0 where
  pub last_seen : Dict Seen

-- `str(value)`
abbrev pub str : Option String → String
str none = "None"
str (some text) = text

-- `event.get(key, default)`
abbrev pub get : {A : Type 0} → Entry A → Option A → Option A
get missing default = default
get (held value) default = value

-- `payload.get(key)`, with a missing key and a None alike
abbrev field : String → Dict (Option String) → Option String
field key payload = elim (lookup key payload) [ none ↦ none | some value ↦ value ]

abbrev or_else : Option String → String → String
or_else none other = other
or_else (some text) other = text

unfoldable pub event_value : DetectedEventRow → String
event_value event =
    let kind = str (get event.event_type_detected (some "unknown")) in
    elim event.payload [
      | none ↦ kind
      | some payload ↦
          or_else (field "to" payload)
            (or_else (field "value" payload) (or_else (field "state" payload) kind))
    ]

unfoldable pub update : WindowSensorBuffer → Seen → WindowSensorBuffer
update buffer entry = record { last_seen = insert entry.sensor entry buffer.last_seen }

-- What `ingest_event` returns.
unfoldable pub accepted : DetectedEventRow → Option Seen
unfolding event_value
accepted event = elim (get event.timestamp_utc (get event.ts none)) [
  | none ↦ none
  | some at ↦
      let name = str (get event.parameter_name (get event.sensor (some ""))) in
      if str_eq name ""
      then none
      else some (record { sensor = name; timestamp_utc = at; value = event_value event })
]

-- What it leaves.
unfoldable keep : WindowSensorBuffer → Option Seen → WindowSensorBuffer
unfolding update
keep buffer none = buffer
keep buffer (some entry) = update buffer entry

unfoldable pub ingest_event : WindowSensorBuffer → DetectedEventRow → WindowSensorBuffer
unfolding accepted keep
ingest_event buffer event = keep buffer (accepted event)

-- The keys of `last_seen` are distinct, so the copy keeps its order.
unfoldable pub snapshot : Dict Seen → Dict String
snapshot [] = []
snapshot (item ∷ others) = (item.0, (item.1).value) ∷ snapshot others

-- The value of an optional entry.
abbrev value_of : Option Seen → Option String
value_of none = none
value_of (some entry) = some entry.value

lookup-snapshot :
    (asked : String) (d : Dict Seen) → lookup asked (snapshot d) ≡ value_of (lookup asked d)
unfolding lookup snapshot
lookup-snapshot asked [] = refl
lookup-snapshot asked (entry ∷ others) = ground (arith, lookup-snapshot asked others)

-- The values that the events bring the sensor, in order.
abbrev with_value : String → Option Seen → List String → List String
with_value asked none after = after
with_value asked (some entry) after =
    if str_eq entry.sensor asked then entry.value ∷ after else after

unfoldable pub values_for : String → List DetectedEventRow → List String
values_for asked [] = []
values_for asked (event ∷ later) = with_value asked (accepted event) (values_for asked later)

abbrev pub last_or : Option String → List String → Option String
last_or before [] = before
last_or before (text ∷ later) = last_or (some text) later

unfoldable pub shown : WindowSensorBuffer → String → Option String
unfolding snapshot
shown buffer asked = lookup asked (snapshot buffer.last_seen)

shown-keep :
    (asked : String) (buffer : WindowSensorBuffer) (entry : Option Seen) (after : List String)
    → last_or (shown (keep buffer entry) asked) after
      ≡ last_or (shown buffer asked) (with_value asked entry after)
unfolding shown keep update
shown-keep asked buffer none after = refl
shown-keep asked buffer (some entry) after = grind (
  arith,
  lookup-snapshot asked (insert entry.sensor entry buffer.last_seen),
  lookup-snapshot asked buffer.last_seen,
  lookup-insert asked entry.sensor entry buffer.last_seen,
)

-- After any list of events, the buffer's snapshot shows for each sensor the value of the last
-- accepted event that names it, and what it showed before if none does.
pub shown-ingest_events :
    (asked : String) (buffer : WindowSensorBuffer) (events : List DetectedEventRow)
    → shown (foldl ingest_event buffer events) asked
      ≡ last_or (shown buffer asked) (values_for asked events)
unfolding values_for ingest_event
shown-ingest_events asked buffer [] = refl
shown-ingest_events asked buffer (event ∷ later) =
    shown-ingest_events asked (ingest_event buffer event) later
    ∙ shown-keep asked buffer (accepted event) (values_for asked later)
