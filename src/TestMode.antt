-- ===== src/TestMode.antt =====
-- host/src/test_mode.rs: the parts of the test mode that do not drive the network stack.
pub mod Channel
pub mod Exchange
pub mod LogFrame
pub mod Ending
pub mod Download
pub mod Bandwidth
pub mod Ping
