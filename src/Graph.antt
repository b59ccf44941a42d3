-- ===== src/Graph.antt =====
-- libs/graph: the discovery of subsystems, hierarchy.py.
pub mod Components
