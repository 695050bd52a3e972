-- ===== src/Net.antt =====
-- The network stack: src/net.
pub mod Ip
pub mod Segment
pub mod Tcp
