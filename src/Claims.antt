-- ===== src/Claims.antt =====
-- Claims against carriers (src/modules/claims): a claim is opened from an accepted dispute, recoveries
-- are recorded against it, and it is resolved once. Amounts are the `numeric(18,4)` columns, whose text
-- always reads as a decimal, so the model holds the decimal.
pub mod Status
pub mod Validation
pub mod Findings
pub mod Store
pub mod Lifecycle
pub mod Buckets
pub mod Reports
