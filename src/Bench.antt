-- ===== src/Bench.antt =====
-- The measuring tools of src/bench: how they drive a run, and the reports that they compute from what
-- it has left behind.
pub mod Act
pub mod Latency
pub mod Scenario
pub mod Skew
pub mod Chaos
pub mod Analytics
pub mod Sweep
mod Examples
