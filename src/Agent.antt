-- ===== src/Agent.antt =====
-- xdr/agent: the core of the endpoint agent.
pub mod Conversion
pub mod Core
pub mod Delivery
mod Tests
