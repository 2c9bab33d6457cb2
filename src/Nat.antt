-- ===== src/Nat.antt =====
-- The server's address translation: src/fptn-server/nat.
pub mod Connection
pub mod Multiplexer
pub mod Table
mod Tests
