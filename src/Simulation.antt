-- ===== src/Simulation.antt =====
-- libs/simulation: the phase program of a flight, its misbehavior program, the couplings between
-- modules, the modules, and the steps of an aircraft and of a flight.
pub mod Phase
pub mod Misbehavior
pub mod Coupling
pub mod Module
pub mod Aircraft
pub mod Flight
pub mod EventTruth
