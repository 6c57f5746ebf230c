-- ===== src/Examples.antt =====
-- Runs of the modelled code on small concrete inputs.
pub mod Runtime
pub mod Inputs
pub mod Jobs
pub mod Weights
pub mod Allocated
pub mod Pipeline
pub mod Trees
pub mod Gate
pub mod Witnesses
