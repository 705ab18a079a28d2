-- ===== src/Correlation.antt =====
-- engine/correlation: rules, the state kept for each rule and aggregation key, and alerts.
pub mod Conditions
pub mod Engine
pub mod Expiry
pub mod Invariant
pub mod Threshold
pub mod Below
pub mod Cleanup
pub mod Accounting
mod Tests
