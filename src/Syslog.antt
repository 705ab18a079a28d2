-- ===== src/Syslog.antt =====
-- collectors/syslog: the parser of RFC 5424 and RFC 3164 messages.
pub mod Lexer
pub mod Parser
pub mod Priority
pub mod Refusal
pub mod Tokens
pub mod RoundTrip
pub mod Structured
pub mod Elements
pub mod Bsd
mod Tests
