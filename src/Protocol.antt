-- ===== src/Protocol.antt =====
-- The request protocol between the host's `wifi_exchange` (host/src/serial_transport.rs and
-- host/src/nusb_transport.rs) and a server of the firmware, over a link that keeps the order of
-- messages and may lose any of them. `Defs.Service` is what the client relies on.
pub mod Defs
mod Queue
pub mod Invariant
mod Serving
pub mod Steps
pub mod Services
pub mod ExactlyOnce
pub mod Client
pub mod Turns
pub mod HostTx
pub mod Receiving
pub mod EndToEnd
pub mod HostRx
