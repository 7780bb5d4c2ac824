-- ===== src/Utils.antt =====
-- utils: checksums, frame check sequences and fragmentation.
mod Tests
pub mod Checksum
pub mod Fcs
pub mod Fragmentation
