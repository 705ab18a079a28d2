-- ===== src/Codecs.antt =====
-- crypto/src/crypto_utils.cpp: the codecs of bytes.
pub mod Base64
pub mod Hex
pub mod Symbols
pub mod RoundTrip
pub mod Url
mod Tests
