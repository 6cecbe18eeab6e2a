-- ===== src/Firmware.antt =====
-- firmware-c3/src/bin/main.rs and firmware-s3/src/bin/main.rs: the tasks of the firmware.
pub mod TxServer
pub mod RxServer
pub mod Bridge
pub mod S3
pub mod SerialTx
pub mod Startup
pub mod Build
pub mod Device
pub mod Receiver
