-- ===== src/Sigma.antt =====
-- engine/rules: the compiler of Sigma rules.
pub mod Lines
pub mod Compiler
pub mod Matching
pub mod Words
pub mod RoundTrip
mod Tests
