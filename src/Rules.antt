-- ===== src/Rules.antt =====
-- engine/rules: the store of detection rules and their profiles.
pub mod Engine
pub mod Invariant
mod Tests
