-- ===== src/Network.antt =====
-- src/network: the bit buffer and the packet format that stands on it.
pub mod Buffer
pub mod Packet
mod Tests
