-- ===== src/Examples/Sensors.antt =====
-- A short run of libs/windows/buffer.py.
use s3ntinel.Prelude.{ℕ, ◌≡◌, refl, none, some, List, [], ◌∷◌, foldl, String}
use s3ntinel.Prelude.Dict.{insert, lookup}
use s3ntinel.Windows.Buffer.{
  DetectedEventRow, WindowSensorBuffer, missing, held, accepted, ingest_event, snapshot, shown,
  last_or, values_for, shown-ingest_events,
}

abbrev event : ℕ → String → String → DetectedEventRow
event at name value = record {
  timestamp_utc = held (some at);
  ts = missing;
  parameter_name = held (some name);
  sensor = missing;
  event_type_detected = held (some "transition");
  payload = some (("to", some value) ∷ []);
}

abbrev empty_buffer : WindowSensorBuffer
empty_buffer = record { last_seen = [] }

abbrev events : List DetectedEventRow
events =
    event 10 "gear" "down"
    ∷ event 20 "flaps" "15"
    ∷ event 30 "gear" "up"
    ∷ record (event 40 "flaps" "30") { timestamp_utc = held none }
    ∷ record (event 50 "apu" "on") { payload = none }
    ∷ []

shown_values :
    snapshot (foldl ingest_event empty_buffer events).last_seen
    ≡ ("gear", "up") ∷ ("flaps", "15") ∷ ("apu", "transition") ∷ []
unfolding ingest_event snapshot insert lookup
shown_values = refl

no_name : accepted (record (event 10 "gear" "down") { parameter_name = held (some "") }) ≡ none
unfolding accepted
no_name = refl

-- A name that is None is the text None.
null_name :
    values_for "None" (record (event 10 "gear" "down") { parameter_name = held none } ∷ [])
    ≡ "down" ∷ []
unfolding values_for accepted lookup
null_name = refl

shown-ingest_events_example :
    shown (foldl ingest_event empty_buffer events) "gear"
    ≡ last_or (shown empty_buffer "gear") (values_for "gear" events)
shown-ingest_events_example = shown-ingest_events "gear" empty_buffer events
