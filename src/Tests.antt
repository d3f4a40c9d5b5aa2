-- ===== src/Tests.antt =====
-- Concrete runs, at which the theorems are applied.
mod Inputs
mod Rules
mod Governance
mod Tightening
mod Evaluation
mod Payment
mod Claim
mod Report
mod Ledger
mod Cascade
mod Rate
mod Encoding
mod Work
mod Moves
mod Messages
