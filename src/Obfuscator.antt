-- ===== src/Obfuscator.antt =====
-- The two wire formats that hide a stream among TLS records:
-- src/fptn-protocol-lib/https/obfuscator.
pub mod Wire
pub mod Tls
pub mod Tls2
pub mod Detector
mod Tests
