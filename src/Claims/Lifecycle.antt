-- ===== src/Claims/Lifecycle.antt =====
-- What holds of the claim tables between two operations, and that every operation keeps it.
pub mod Rows
mod Inversion
mod Runs
mod PartialRecovery
mod Resolution
mod Creation
pub mod Reachable
pub mod Outcomes
