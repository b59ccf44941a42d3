-- ===== src/Windows/Window.antt =====
-- libs/windows/window.py: the object Window, its events and its counts. `copy` gives equal data.
use s3ntinel.Prelude.{
  ℕ, ◌+◌, ◌≡◌, refl, sym, ap, ◌∙◌, Bool, true, false, not, ◌&&◌, Option, none, some, List, [], ◌∷◌,
  ◌++◌, foldl, String, str_eq, eq_iff, if◌then◌else◌, coalesce, is_some, select, length, arith,
  append_assoc, append-nil, Bool-cases, inl, inr, Option-cases,
}
use s3ntinel.Prelude.Dict.{Dict, lookup, insert, lookup-insert}
use s3ntinel.Prelude.Text.{strip}
use s3ntinel.Windows.Buffer.{WindowSensorBuffer, DetectedEventRow, get, str, ingest_event}

pub record Window : Type 0 where
  pub t_start : ℕ
  pub t_end : ℕ
  pub event_count : ℕ
  pub sensor_buffer : WindowSensorBuffer
  pub event_type_counts : Dict ℕ
  pub window_events : Option (List DetectedEventRow)

-- `Window.open`
unfoldable pub open_window : ℕ → Bool → Window
open_window ts include_window_events = record {
  t_start = ts;
  t_end = ts;
  event_count = 0;
  sensor_buffer = record { last_seen = [] };
  event_type_counts = [];
  window_events = if include_window_events then some [] else none;
}

-- The time and the type of an event that is counted.
unfoldable pub counted : DetectedEventRow → Option (ℕ × String)
unfolding strip
counted event =
    let kind = strip (str (get event.event_type_detected (some ""))) in
    elim (get event.timestamp_utc (get event.ts none)) [
      | none ↦ none
      | some at ↦ if str_eq kind "" then none else some (at, kind)
    ]

abbrev pub logged :
    Option (List DetectedEventRow) → List DetectedEventRow → Option (List DetectedEventRow)
logged none new = none
logged (some events) new = some (events ++ new)

unfoldable pub ingest_counted : Window → DetectedEventRow → Option (ℕ × String) → Window
unfolding ingest_event lookup insert
ingest_counted window event none = window
ingest_counted window event (some (at, kind)) = record {
  t_start = window.t_start;
  t_end = at;
  event_count = window.event_count + 1;
  sensor_buffer = ingest_event window.sensor_buffer event;
  event_type_counts =
      insert kind (coalesce (lookup kind window.event_type_counts) 0 + 1) window.event_type_counts;
  window_events = logged window.window_events (event ∷ []);
}

-- `Window.ingest_event`
unfoldable pub ingest_window_event : Window → DetectedEventRow → Window
unfolding ingest_counted counted
ingest_window_event window event = ingest_counted window event (counted event)

unfoldable pub clone_capped : Window → ℕ → Window
clone_capped window t_end = record window { t_end = t_end }

-- An event has a time if either of its time columns is there.
abbrev pub time_of : DetectedEventRow → Option ℕ
time_of event = get event.timestamp_utc (get event.ts none)

-- The type of an event, stripped; an event without one has the empty type.
abbrev pub type_of : DetectedEventRow → String
type_of event = strip (str (get event.event_type_detected (some "")))

-- An event is to be counted if it has a time and its type is not empty.
abbrev pub is_counted : DetectedEventRow → Bool
is_counted event = is_some (time_of event) && not (str_eq (type_of event) "")

abbrev pub counts_as : String → DetectedEventRow → Bool
counts_as kind event = is_counted event && str_eq (type_of event) kind

-- The time of the last event that is to be counted.
unfoldable pub last_stamp : ℕ → List DetectedEventRow → ℕ
last_stamp t [] = t
last_stamp t (event ∷ events) =
    last_stamp (if is_counted event then coalesce (time_of event) t else t) events

-- What a window holds after events.
pub record Tallies (before : Window) (events : List DetectedEventRow) (after : Window)
    : Type 0 where
  pub count : after.event_count ≡ before.event_count + length (select is_counted events)
  pub types :
      (kind : String)
      → coalesce (lookup kind after.event_type_counts) 0
        ≡ coalesce (lookup kind before.event_type_counts) 0
          + length (select (counts_as kind) events)
  pub log : after.window_events ≡ logged before.window_events (select is_counted events)
  pub ends : after.t_end ≡ last_stamp before.t_end events
  pub starts : after.t_start ≡ before.t_start

logged-logged :
    (o : Option (List DetectedEventRow)) (a b : List DetectedEventRow)
    → logged (logged o a) b ≡ logged o (a ++ b)
logged-logged none a b = refl
logged-logged (some l) a b = rw append_assoc refl

logged-nil : (o : Option (List DetectedEventRow)) → o ≡ logged o []
logged-nil none = refl
logged-nil (some l) = ap some (sym (append-nil l))

-- The events that `counted` returns a value for, and that value.
data IsRead (event : DetectedEventRow) : Option (ℕ × String) → Type 0 where
  passed_over : is_counted event ≡ false → IsRead event none
  read :
      (at : ℕ)
      → time_of event ≡ some at
      → is_counted event ≡ true
      → IsRead event (some (at, type_of event))

counted-IsRead : (event : DetectedEventRow) → IsRead event (counted event)
unfolding counted
counted-IsRead event = elim (Option-cases (time_of event)) [
  | inl none_at ↦ rw (none_at, counted) (passed_over (rw none_at refl))
  | inr (at, e) ↦ elim (Bool-cases (str_eq (type_of event) "")) [
    | inl blank ↦ rw (e, blank, counted) (passed_over (rw (e, blank) refl))
    | inr filled ↦ rw (e, filled, counted) (read at e (rw (e, filled) refl))
  ]
]

ingest_step :
    (window : Window) (event : DetectedEventRow) (c : Option (ℕ × String))
    → IsRead event c
    → Tallies window (event ∷ []) (ingest_counted window event c)
unfolding ingest_counted last_stamp
ingest_step window event _ (passed_over e) = record {
  count = rw e (omega arith);
  types = λ kind. rw e (omega arith);
  log = rw e (logged-nil window.window_events);
  ends = rw e refl;
  starts = refl;
}
ingest_step window event _ (read at t e) = record {
  count = rw e (omega arith);
  types = λ kind. rw e (
      let name = type_of event in
      ground (
        arith,
        eq_iff name kind,
        lookup-insert kind name (coalesce (lookup name window.event_type_counts) 0 + 1)
            window.event_type_counts,
      ));
  log = rw e refl;
  ends = rw (e, t) refl;
  starts = refl;
}

length-select_cons :
    (p : DetectedEventRow → Bool) (event : DetectedEventRow) (events : List DetectedEventRow)
    → length (select p (event ∷ [])) + length (select p events) ≡ length (select p (event ∷ events))
length-select_cons p event events = ground arith

select_cons :
    (p : DetectedEventRow → Bool) (event : DetectedEventRow) (events : List DetectedEventRow)
    → select p (event ∷ []) ++ select p events ≡ select p (event ∷ events)
select_cons p event events = elim (Bool-cases (p event)) [ inl e ↦ rw e refl | inr e ↦ rw e refl ]

-- Events ingested in turn add to a window's count, to the count of each type and to its log of
-- events exactly those that have a time and a type; the window ends at the last one's time.
pub ingest_window_event-Tallies :
    (window : Window) (events : List DetectedEventRow)
    → Tallies window events (foldl ingest_window_event window events)
unfolding ingest_window_event last_stamp
ingest_window_event-Tallies window [] = record {
  count = omega arith;
  types = λ kind. omega arith;
  log = logged-nil window.window_events;
  ends = refl;
  starts = refl;
}
ingest_window_event-Tallies window (event ∷ events) =
    let one = ingest_step window event (counted event) (counted-IsRead event) in
    let rest = ingest_window_event-Tallies (ingest_window_event window event) events in
    record {
      count = omega (arith, one.count, rest.count, length-select_cons is_counted event events);
      types = λ kind. omega (
        arith,
        one.types kind,
        rest.types kind,
        length-select_cons (counts_as kind) event events,
      );
      log =
          rest.log
          ∙ ap (λ o. logged o (select is_counted events)) one.log
          ∙ logged-logged window.window_events _ _
          ∙ ap (logged window.window_events) (select_cons is_counted event events);
      ends = rest.ends ∙ ap (λ t. last_stamp t events) one.ends;
      starts = rest.starts ∙ one.starts;
    }
