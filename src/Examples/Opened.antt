-- ===== src/Examples/Opened.antt =====
-- A window of libs/windows/window.py that ingests events.
use s3ntinel.Prelude.{◌≡◌, refl, true, some, none, List, [], ◌∷◌, foldl}
use s3ntinel.Prelude.Dict.{lookup}
use s3ntinel.Windows.Buffer.{DetectedEventRow, missing, held}
use s3ntinel.Windows.Window.{open_window, ingest_window_event, Tallies, ingest_window_event-Tallies}

abbrev spike : DetectedEventRow
spike = record {
  timestamp_utc = held (some 1200);
  ts = missing;
  parameter_name = held (some "egt");
  sensor = missing;
  event_type_detected = held (some " spike ");
  payload = none;
}

abbrev timeless : DetectedEventRow
timeless = record spike { timestamp_utc = held none }

abbrev blank : DetectedEventRow
blank = record spike { event_type_detected = held (some "  ") }

abbrev events : List DetectedEventRow
events = spike ∷ timeless ∷ blank ∷ spike ∷ []

-- An event with no time and one with a blank type are left out.
counts_two :
    lookup "spike" (foldl ingest_window_event (open_window 1000 true) events).event_type_counts
    ≡ some 2
unfolding ingest_window_event open_window lookup
counts_two = refl

ingest_window_event-Tallies_example :
    Tallies
      (open_window 1000 true)
      events
      (foldl ingest_window_event (open_window 1000 true) events)
ingest_window_event-Tallies_example = ingest_window_event-Tallies (open_window 1000 true) events
