-- ===== src/Examples/Startup.antt =====
-- A start of the firmware, and the serial number of firmware-s3/src/bin/main.rs.
use lamella.Base.{true, List, [], ◌∷◌, ◌≡◌, arith}
use lamella.Firmware.Startup.{
  Event, radio, usb, look, connected, disconnected, connect_failed, startup_run, new_startup,
}
use lamella.Firmware.Startup.Opening.{Looked, startup_run-Looked}
use lamella.Firmware.Startup.Serial.{read_hex, serial_string, read_hex-serial_string}

-- A first attempt to connect fails; the interface becomes active only after the radio is lost again.
abbrev a_start : List Event
a_start =
    radio connect_failed ∷ look ∷ radio connected ∷ look ∷ radio disconnected ∷ usb true ∷ look ∷ []

startup_run-Looked_example : Looked a_start (startup_run a_start new_startup).gate
startup_run-Looked_example = startup_run-Looked a_start

read_hex-serial_string_example :
    read_hex 0 (serial_string 0x12345678_ABCDEF00) ≡ 0x12345678_ABCDEF00
read_hex-serial_string_example = read_hex-serial_string 0x12345678_ABCDEF00 (omega arith)
