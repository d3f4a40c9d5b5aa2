-- ===== src/Payments.antt =====
-- The payment gate (src/modules/payments): what is decided about paying an audited invoice.
pub mod Compose
pub mod Decisions
pub mod Ledger
pub mod Gate
pub mod Retry
pub mod ShortPay
