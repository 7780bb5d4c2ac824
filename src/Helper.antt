-- ===== src/Helper.antt =====
-- helper: the options of the headers.
mod Tests
pub mod IpOptions
pub mod TcpOptions
