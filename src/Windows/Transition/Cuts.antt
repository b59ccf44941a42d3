-- ===== src/Windows/Transition/Cuts.antt =====
-- Which events each window of libs/windows/pipeline.py holds.
use s3ntinel.Prelude.{
  ℕ, ◌≡◌, ◌<◌, refl, true, false, Bool, Option, some, none, List, [], ◌∷◌, ◌++◌, arith, length,
  length-append, append-nil, append_assoc, coalesce, if◌then◌else◌, ap, subst, inl, inr, Bool-cases,
  Option-cases,
}
use s3ntinel.Windows.Doubles.{Doubles}
use s3ntinel.Windows.Policy.{WindowPolicy, end_of_stream}
use s3ntinel.Windows.Transition.{
  WindowStep, OpenWindowState, no_window, WindowSummary, SegmentState, initial_state, has_event,
  preclosed, postclosed, postclose_condition, working_window, state_after_step, run_steps,
  window_summary, end_of_stream_windows, windows_of, preclose_reason, preclose_t_end,
  keep_existing_open,
}

-- The ids of the events among the steps, in their order.
abbrev pub event_id : WindowStep → ℕ
event_id step = coalesce step.event_seq_id 0

unfoldable pub event_ids_of : WindowStep → List ℕ
event_ids_of step = if has_event step then event_id step ∷ [] else []

unfoldable pub event_ids : List WindowStep → List ℕ
event_ids [] = []
event_ids (step ∷ steps) = event_ids_of step ++ event_ids steps

-- A step with an event has the event's id.
abbrev pub HasIds : List WindowStep → Type 0
HasIds [] = Unit
HasIds (step ∷ steps) =
    (has_event step ≡ true → step.event_seq_id ≡ some (event_id step)) × HasIds steps

abbrev pub first? : List ℕ → Option ℕ
first? [] = none
first? (x ∷ xs) = some x

abbrev pub last? : List ℕ → Option ℕ
last? [] = none
last? (x ∷ []) = some x
last? (x ∷ y ∷ xs) = last? (y ∷ xs)

-- The range and the count of a window are those of a run of events.
pub record IsRun (ids : List ℕ) (start end : Option ℕ) (count : ℕ) : Type 0 where
  pub counted : count ≡ length ids
  pub starts : 0 < count → start ≡ first? ids
  pub ends : end ≡ last? ids

-- The windows cut the events, in order and with none left over, into runs.
pub data Cuts {D : Type 0} : List ℕ → List (WindowSummary D) → Type 0 where
  none_left : Cuts [] []
  cut :
      {rest : List ℕ} {ws : List (WindowSummary D)} (run : List ℕ) (w : WindowSummary D)
      → IsRun run w.start_event_seq_id w.end_event_seq_id w.event_count
      → Cuts rest ws
      → Cuts (run ++ rest) (w ∷ ws)

Cuts-append :
    {D : Type 0} {xs ys : List ℕ} {ws vs : List (WindowSummary D)}
    → Cuts xs ws
    → Cuts ys vs
    → Cuts (xs ++ ys) (ws ++ vs)
Cuts-append none_left c = c
Cuts-append (cut {rest} run w r b) c = rw append_assoc (cut run w r (Cuts-append b c))

Cuts-one :
    {D : Type 0} (ids : List ℕ) (w : WindowSummary D)
    → IsRun ids w.start_event_seq_id w.end_event_seq_id w.event_count
    → Cuts ids (w ∷ [])
Cuts-one ids w r = rw append-nil at (cut ids w r none_left)

last?-snoc : (xs : List ℕ) (x : ℕ) → last? (xs ++ x ∷ []) ≡ some x
last?-snoc [] x = refl
last?-snoc (y ∷ []) x = refl
last?-snoc (y ∷ z ∷ xs) x = last?-snoc (z ∷ xs) x

first?-snoc : (xs : List ℕ) (x : ℕ) → 0 < length xs → first? (xs ++ x ∷ []) ≡ first? xs
first?-snoc [] x h = elim h [ ]
first?-snoc (y ∷ xs) x h = refl

abbrev OpenRun : List ℕ → OpenWindowState → Type 0
OpenRun ids o = IsRun ids o.start_event_seq_id o.end_event_seq_id o.event_count

nil_of_length : (ids : List ℕ) → 0 ≡ length ids → [] ≡ ids
nil_of_length [] h = refl
nil_of_length (x ∷ xs) h = absurd (omega arith)

module _ (doubles : Doubles) (policy : WindowPolicy) where
  open doubles use {Double}

  -- The events so far are those of the closed windows and then those of the open one.
  record Holds (ids : List ℕ) (state : SegmentState Double) : Type 0 where
    closed_ids : List ℕ
    open_ids : List ℕ
    split : ids ≡ closed_ids ++ open_ids
    cuts : Cuts closed_ids state.closed_windows
    opened : OpenRun open_ids state.open_state
    shut : state.has_open_window ≡ false → state.open_state ≡ no_window

  module _ (acc : SegmentState Double) (step : WindowStep) where
    abbrev kept : Bool
    kept = keep_existing_open doubles policy acc step

    working_window-starts :
        (ids : List ℕ)
        → (has_event step ≡ true → step.event_seq_id ≡ some (event_id step))
        → kept ≡ true
        → OpenRun ids acc.open_state
        → 0 < (working_window doubles policy acc step).event_count
        → (working_window doubles policy acc step).start_event_seq_id
          ≡ first? (ids ++ event_ids_of step)
    unfolding working_window event_ids_of
    working_window-starts [] known keep run = ground arith
    working_window-starts (x ∷ xs) known keep run = ground arith

    working_window-kept :
        (ids : List ℕ)
        → (has_event step ≡ true → step.event_seq_id ≡ some (event_id step))
        → kept ≡ true
        → OpenRun ids acc.open_state
        → OpenRun (ids ++ event_ids_of step) (working_window doubles policy acc step)
    unfolding working_window event_ids_of
    working_window-kept ids known keep run = record {
      counted = ground (arith, length-append ids (event_id step ∷ []), append-nil ids);
      starts = working_window-starts ids known keep run;
      ends = ground (arith, last?-snoc ids (event_id step), append-nil ids);
    }

    working_window-fresh :
        (has_event step ≡ true → step.event_seq_id ≡ some (event_id step))
        → kept ≡ false
        → OpenRun (event_ids_of step) (working_window doubles policy acc step)
    unfolding working_window event_ids_of
    working_window-fresh known fresh = record {
      counted = ground arith;
      starts = ground arith;
      ends = ground arith;
    }

    preclosed-kept : kept ≡ true → preclosed doubles policy acc step ≡ []
    unfolding preclosed keep_existing_open
    preclosed-kept keep = ground arith

    preclosed-none : acc.has_open_window ≡ false → preclosed doubles policy acc step ≡ []
    unfolding preclosed
    preclosed-none closed = ground arith

    preclosed-some :
        (ids : List ℕ)
        → kept ≡ false
        → OpenRun ids acc.open_state
        → acc.has_open_window ≡ true
        → (w : WindowSummary Double) × (preclosed doubles policy acc step ≡ w ∷ [])
          × IsRun ids w.start_event_seq_id w.end_event_seq_id w.event_count
    unfolding preclosed keep_existing_open
    preclosed-some ids fresh run opened =
        elim (Option-cases (preclose_reason doubles policy acc step)) [
          | inl absent ↦ absurd (ground (arith, absent))
          | inr (reason, e) ↦ (
            window_summary doubles policy acc.open_state (preclose_t_end doubles policy acc step)
                reason,
            ground arith,
            run,
          )
        ]

    preclosed-fresh :
        (ids : List ℕ)
        → kept ≡ false
        → OpenRun ids acc.open_state
        → (acc.has_open_window ≡ false → acc.open_state ≡ no_window)
        → Cuts ids (preclosed doubles policy acc step)
    preclosed-fresh ids fresh run shut = elim (Bool-cases acc.has_open_window) [
      | inl opened ↦ let (w, e, r) = preclosed-some ids fresh run opened in rw e (Cuts-one ids w r)
      | inr closed ↦ rw (preclosed-none closed) (
          subst (λ l. Cuts {D = Double} l []) (nil_of_length ids (ground (arith, shut closed)))
            none_left)
    ]

    -- The run that the step closes early, and the run that goes on.
    taken_in :
        (ids : List ℕ)
        → (has_event step ≡ true → step.event_seq_id ≡ some (event_id step))
        → OpenRun ids acc.open_state
        → (acc.has_open_window ≡ false → acc.open_state ≡ no_window)
        → (early late : List ℕ) × (early ++ late ≡ ids ++ event_ids_of step)
          × Cuts early (preclosed doubles policy acc step)
          × OpenRun late (working_window doubles policy acc step)
    taken_in ids known run shut = elim (Bool-cases kept) [
      | inl keep ↦ (
        [],
        ids ++ event_ids_of step,
        refl,
        rw (preclosed-kept keep) none_left,
        working_window-kept ids known keep run,
      )
      | inr fresh ↦ (
        ids,
        event_ids_of step,
        refl,
        preclosed-fresh ids fresh run shut,
        working_window-fresh known fresh,
      )
    ]

    postclosed-Cuts :
        (ids : List ℕ)
        → OpenRun ids (working_window doubles policy acc step)
        → (done left : List ℕ) × (done ++ left ≡ ids)
          × Cuts done (postclosed doubles policy acc step)
          × OpenRun left (state_after_step doubles policy acc step).open_state
    unfolding state_after_step
    postclosed-Cuts ids run = elim (Bool-cases (postclose_condition doubles policy acc step)) [
      | inl closes ↦ (
        ids,
        [],
        append-nil ids,
        rw closes (Cuts-one ids _ run),
        rw closes (record { counted = refl; starts = λ h. refl; ends = refl }),
      )
      | inr stays ↦ ([], ids, refl, rw stays none_left, rw stays run)
    ]

  state_after_step-Holds :
      {ids : List ℕ} (acc : SegmentState Double) (step : WindowStep)
      → (has_event step ≡ true → step.event_seq_id ≡ some (event_id step))
      → Holds ids acc
      → Holds (ids ++ event_ids_of step) (state_after_step doubles policy acc step)
  unfolding state_after_step
  state_after_step-Holds {ids} acc step known h =
      let (early, late, e, cuts, run) = taken_in acc step h.open_ids known h.opened h.shut in
      let (done, left, e', cuts', run') = postclosed-Cuts acc step late run in
      record {
        closed_ids = h.closed_ids ++ (early ++ done);
        open_ids = left;
        split = simp (h.split, append_assoc, e', e);
        cuts = Cuts-append h.cuts (Cuts-append cuts cuts');
        opened = run';
        shut = ground arith;
      }

  run_steps-Holds :
      (acc : SegmentState Double) (steps : List WindowStep) {ids : List ℕ}
      → HasIds steps
      → Holds ids acc
      → Holds (ids ++ event_ids steps) (run_steps doubles policy acc steps)
  unfolding run_steps event_ids
  run_steps-Holds acc [] {ids} known h = rw (append-nil ids) h
  run_steps-Holds acc (step ∷ steps) {ids} known h = rw (← append_assoc) (
      run_steps-Holds (state_after_step doubles policy acc step) steps known.1
        (state_after_step-Holds acc step known.0 h))

  initial_state-Holds : Holds [] initial_state
  unfolding initial_state
  initial_state-Holds = record {
    closed_ids = [];
    open_ids = [];
    split = refl;
    cuts = none_left;
    opened = record { counted = refl; starts = λ h. refl; ends = refl };
    shut = λ e. refl;
  }

  end_of_stream-none :
      (state : SegmentState Double)
      → state.open_state.event_count ≡ 0
      → end_of_stream_windows doubles policy state true ≡ []
  unfolding end_of_stream_windows
  end_of_stream-none state h = ground arith

  end_of_stream-some :
      (state : SegmentState Double)
      → state.has_open_window ≡ true
      → 0 < state.open_state.event_count
      → end_of_stream_windows doubles policy state true
        ≡ window_summary doubles policy state.open_state state.open_state.t_end end_of_stream ∷ []
  unfolding end_of_stream_windows
  end_of_stream-some state o h = ground arith

  end_of_stream-Cuts :
      (ids : List ℕ) (state : SegmentState Double)
      → OpenRun ids state.open_state
      → (state.has_open_window ≡ false → state.open_state ≡ no_window)
      → Cuts ids (end_of_stream_windows doubles policy state true)
  unfolding window_summary
  end_of_stream-Cuts [] state run shut = rw (end_of_stream-none state run.counted) none_left
  end_of_stream-Cuts (x ∷ xs) state run shut = elim (Bool-cases state.has_open_window) [
    | inl opened ↦ rw (end_of_stream-some state opened (omega (arith, run.counted))) (
        Cuts-one (x ∷ xs)
          (window_summary doubles policy state.open_state state.open_state.t_end end_of_stream) run)
    | inr closed ↦
        absurd
          (omega (arith, run.counted, ap (λ (o : OpenWindowState). o.event_count) (shut closed)))
  ]

  -- If every step that has an event carries its id, the windows of one segment cut its events, in
  -- order and with none left over, into runs: each window's count is the length of its run, its
  -- end id the last of the run, and its start id the first, unless it holds no event.
  pub windows_of-Cuts :
      (steps : List WindowStep)
      → HasIds steps
      → Cuts (event_ids steps) (windows_of doubles policy steps)
  unfolding windows_of
  windows_of-Cuts steps known =
      let h = run_steps-Holds initial_state steps known initial_state-Holds in
      let state = run_steps doubles policy initial_state steps in
      rw h.split (Cuts-append h.cuts (end_of_stream-Cuts h.open_ids state h.opened h.shut))
