-- ===== src/Examples.antt =====
-- Concrete inputs, on which the code is run and the theorems are applied.
pub mod Fixed
pub mod Round
pub mod RoundWitness
pub mod Stores
pub mod Proposals
pub mod Simulated
pub mod Reported
pub mod Replayed
pub mod Published
pub mod Populated
pub mod Forecasts
pub mod Retried
pub mod Districts
