-- ===== src/Phase.antt =====
-- libs/phase: the decoding of phases, decode.py.
pub mod Path
pub mod Dwell
