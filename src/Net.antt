-- ===== src/Net.antt =====
-- src/net: what is asked of the network.
pub mod Bitcoin
pub mod Detect
