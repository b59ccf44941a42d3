-- ===== src/Events.antt =====
-- libs/events: the detector of categorical transitions.
pub mod Categorical
