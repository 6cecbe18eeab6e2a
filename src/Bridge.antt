-- ===== src/Bridge.antt =====
-- host/src/bridge.rs.
pub mod Wait
pub mod Mac
