-- ===== src/Windows.antt =====
-- libs/windows: the closure policy (window.py), the per-window value objects (buffer.py, window.py)
-- and the fold that cuts a flight's ordered event stream into windows (pipeline.py).
pub mod Doubles
pub mod Buffer
pub mod Window
pub mod Policy
pub mod Transition
