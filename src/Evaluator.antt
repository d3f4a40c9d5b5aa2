-- ===== src/Evaluator.antt =====
-- The evaluator (src/modules/evaluator): facts of an invoice, the gates, the scores and the scorecard.
pub mod Invoice
pub mod FactBundle
pub mod Evaluate
pub mod Gates
pub mod Outcome
pub mod Order
pub mod Scorecard
pub mod Totals
pub mod RateVariance
pub mod StandardGates
pub mod Certified
