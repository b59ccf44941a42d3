-- ===== src/Sequence.antt =====
-- libs/spark_sequence: the segmentation of long ordered streams, plan.py.
pub mod Plan
pub mod Ascending
pub mod Segments
pub mod Bounds
