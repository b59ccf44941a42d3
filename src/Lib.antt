-- ===== src/Lib.antt =====
-- S3NTINEL turns aircraft telemetry into calibrated anomaly scores. Its pipelines profile the
-- parameters, detect events, cut each flight's events into windows, fit a structure and phases,
-- and score the windows; a simulator drives the same pipelines with flights of known truth. Most
-- kernels are folds over one ordered stream for each flight or parameter, run segment by segment
-- with a carried state.
--
-- Which file models what:
--   Windows.Policy: libs/windows/window.py, WindowPolicy and WindowClosureBudgetPolicy, under the
--     names of their methods (should_close_budget and budget_close_reason for the budget's own).
--   Windows.Buffer: libs/windows/buffer.py, WindowSensorBuffer. `accepted` is what ingest_event
--     returns, and ingest_event what it leaves.
--   Windows.Window: libs/windows/window.py, the object Window and what it counts of its events;
--     ingest_window_event is its ingest_event and open_window its open.
--   Windows.Transition: libs/windows/pipeline.py, AdaptiveWindowTransition. The parts of
--     state_after_step_column are functions of their own and run_steps is the fold. Segments is
--     _build_window_summaries for one flight, pass by pass over the segment ids; windows_of is the
--     run over all steps at once, with Numbering and Cuts, that Passes compares the passes with.
--   Events.Categorical: libs/events/categorical.py, the step of the detector's fold, with Outline
--     (what it emits) and Segments (the passes over segment ids, `build`) below it.
--     Passes joins it to the segments of a plan.
--   Sequence.Plan: libs/spark_sequence/plan.py, SegmentedSequencePlan for the rows of one key, with
--     the proofs in Ascending, Segments and Bounds.
--   Phase.Dwell: libs/phase/decode.py, enforce_min_dwell and the frames of its loop, with Runs,
--     Settled and Swaps; the flight's limit is that of libs/phase/fit.py.
--   Phase.Path: libs/phase/decode.py, the path decoder: PhaseSequenceState, the passes of
--     assign_phases_segmented for one flight and _final_phase_paths. Routes says what a path may
--     be, Options, Least and Best prove the decoder against it, and Passes is about the carry.
--   Graph.Components: libs/graph/hierarchy.py, _connected_components_from_edges, as
--     connected_components; Roots (find), Union and Unites (union), Connected (the loop over the
--     edges), Groups, Once and Partition hold the proofs.
--   Pipelines.Plan, Pipelines.Runner: pipelines/plans.py and pipelines/_pipeline_runner.py.
--   Pipelines.Replay: libs/simulation/replay_report.py, recommend_resume_plan.
--   Simulation.Phase: libs/simulation/phase/runtime.py, with phase/spec.py and phase/catalog.py.
--   Simulation.Misbehavior: libs/simulation/fault/spec.py, the windows and their checks, with
--     Targets; its children Context and Program are libs/simulation/fault/runtime.py, with Labels
--     and Latest.
--   Simulation.Coupling, with Gates, Apply and Config: libs/simulation/coupling/runtime.py. Apply is
--     Coupling.apply under a given transfer configuration, with the proofs in Delivery. Config is
--     the configuration under a misbehavior and, as apply_coupling, Coupling.apply whole, with the
--     proofs in Effective and Severed.
--   Simulation.Module: libs/simulation/module/runtime.py, with parameter/runtime.py and
--     port/runtime.py: a step's inputs and latent state, Metadata and Samples the labels and the
--     samples, Step Module.step. Outline and Keeps are about what a step does not change, Keys,
--     Returns and Total about when it raises nothing, Raises about when its sampling raises, Latents
--     and Labels about values and labels.
--   Simulation.Aircraft: libs/simulation/aircraft/runtime.py, system/runtime.py and
--     subsystem/runtime.py, with Shape and Total; Spec is AircraftSpec.validate of
--     aircraft/spec.py, with Distinct and Valid.
--   Simulation.Flight: libs/simulation/flight/runtime.py with flight/spec.py, and the envelopes of
--     libs/simulation/phase/runtime.py: the inputs of a step; Step is Flight.step and iter_ticks,
--     Telemetry the rows of a tick, over the interpreter's arithmetic, Rates. Keeps, Named,
--     Envelopes and Total are about what its steps keep and when they raise nothing, Emits about
--     the rate of rows.
--   Simulation.EventTruth: libs/simulation/event_truth.py, the event labels of one parameter's rows,
--     with Trends.
--   Prelude: tests, lists, integers and dictionaries. Examples: tests and concrete runs.
--
-- Conventions. A nullable column is an Option, and a comparison with null holds for no row. Times
-- are numbers of milliseconds (microseconds in Simulation.Coupling) since the epoch. A duration is
-- an integer and may be negative. Doubles are a parameter, Windows.Doubles, with no law assumed
-- but in Phase.Path, which takes a linear order that addition keeps, IsOrdered; Examples.Inputs
-- gives a concrete one in fixed point. In the simulator the objects of Python, doubles among them,
-- are parameters with their conversions, Signals and Objects; where bounds are proved, no double
-- is less than itself. In a step of the simulator None stands for a raise, which also leaves what
-- was written before it. A stage script is a function that returns the text of what it raises.
-- Every loop recurs on the list that the source walks or on the number of its rounds, but the
-- `while True` of enforce_min_dwell, which takes fuel and for which no fuel is enough on some
-- inputs, and the loops of find, for which fuel above the number of edges is enough, since no rank
-- exceeds that number.
--
-- Not modelled: Spark's joins and ordering, which give each fold its ordered steps; the budget
-- boundary steps; logging, MLflow and files; the numerical fits; how the simulator's objects are
-- built from their specs; and its behaviours, which are parameters of its modules and may raise.
pub mod Prelude
pub mod Windows
pub mod Events
pub mod Pipelines
pub mod Sequence
pub mod Phase
pub mod Graph
pub mod Simulation
pub mod Examples
