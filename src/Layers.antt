-- ===== src/Layers.antt =====
-- The protocol layers.
mod Tests
pub mod Udp
pub mod Vlan
