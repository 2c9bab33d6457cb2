-- ===== src/Network.antt =====
-- Addresses and the pools they are drawn from: src/common/network.
pub mod Address
pub mod Ipv4Generator
pub mod Ipv6Generator
pub mod Ipv6Utils
mod Tests
