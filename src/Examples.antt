-- ===== src/Examples.antt =====
-- The theorems at concrete inputs, for the parts of the program.
mod Firmware
mod Protocol
mod Wait
mod Host
mod Target
mod Device
mod EndToEnd
mod Nusb
mod Report
mod Download
mod Main
pub mod HostTx
mod Ping
mod Routes
mod HostRx
mod Startup
mod Entry
