-- ===== src/Ecs.antt =====
-- collectors/common: events in the Elastic Common Schema.
pub mod Normalizer
pub mod Kept
pub mod Flows
mod Tests
