-- ===== src/Examples.antt =====
-- Concrete runs of the modelled code: the tests, and the theorems at inputs that meet their
-- hypotheses.
pub mod Inputs
mod Windowing
mod Sensors
mod Opened
mod Detection
mod Segmenting
mod Decoding
mod Dwelling
mod Grouping
mod Stages
mod Flights
mod Misbehaving
pub mod Coupled
pub mod Steps
pub mod Raised
mod Ticks
mod Specs
mod Truth
