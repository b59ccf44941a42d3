-- ===== src/Pipelines.antt =====
-- pipelines: the plan of a stage group and its runner; libs/simulation/replay_report.py: where a
-- run may be resumed.
pub mod Plan
pub mod Runner
pub mod Replay
