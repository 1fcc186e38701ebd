-- ===== src/Planning.antt =====
-- system/core/planning: the validator of plans.
pub mod Plans
