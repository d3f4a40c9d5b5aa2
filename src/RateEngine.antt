-- ===== src/RateEngine.antt =====
-- The rate engine (src/modules/rate-engine).
pub mod Variance
pub mod Direction
