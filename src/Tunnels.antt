-- ===== src/Tunnels.antt =====
-- The client's side of the tunnel, src/fptn-protocol-lib/connection: the strategies that keep
-- WebSocket clients, and the manager above them.
pub mod Parallel
pub mod Mimicry
pub mod Manager
