-- ===== src/Rubric.antt =====
-- Rubrics (src/modules/rubric-resolver): the hand-authored STANDARD and CONTRACT tiers, the
-- resolution of a cascade of tiers, and the prover of tightened criteria.
pub mod Standard
pub mod Agreement
pub mod Cascade
pub mod Resolution
pub mod Tighten
