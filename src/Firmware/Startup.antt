-- ===== src/Firmware/Startup.antt =====
-- firmware-c3/src/bin/main.rs and firmware-s3/src/bin/main.rs: `wifi_connection`, and what
-- `wifi_bridge` waits for before its loop. What the radio, the USB driver and the host do is an
-- argument.
pub mod Opening
pub mod Serial
use lamella.Base.{Bool, true, false, if◌then◌else◌, List, [], ◌∷◌}

-- What `connect_async` gives, and the end of a connection, where `wifi_connection` waits for it.
pub data Radio : Type 0 where
  connected : Radio
  disconnected : Radio
  connect_failed : Radio

-- Where `wifi_connection` waits, with `WIFI_CONNECTED`.
pub record Connection : Type 0 where
  pub is_up : Bool
  pub wifi_connected : Bool

abbrev pub new_connection : Connection
new_connection = record { is_up = false; wifi_connected = false }

-- What cannot happen where the task waits is passed over.
abbrev pub on_radio : (is_up : Bool) → Radio → Connection → Connection
on_radio false connected c = record { is_up = true; wifi_connected = true }
on_radio false connect_failed c = record c { wifi_connected = false }
on_radio false disconnected c = c
on_radio true disconnected c = record { is_up = false; wifi_connected = false }
on_radio true connected c = c
on_radio true connect_failed c = c

unfoldable pub wifi_connection : List Radio → Connection → Connection
wifi_connection [] c = c
wifi_connection (event ∷ rest) c = wifi_connection rest (on_radio c.is_up event c)

-- Where `wifi_bridge` is before its loop: it looks at `WIFI_CONNECTED` every 100 ms, then at the
-- state of the interface.
pub data Gate : Type 0 where
  no_wifi : Gate
  no_usb : Gate
  open_gate : Gate

-- Something happens at the radio, the interface becomes active or inactive, or the bridge looks.
pub data Event : Type 0 where
  radio : Radio → Event
  usb : (is_active : Bool) → Event
  look : Event

pub record Startup : Type 0 where
  pub connection : Connection
  pub is_active : Bool
  pub gate : Gate

abbrev pub new_startup : Startup
new_startup = record { connection = new_connection; is_active = false; gate = no_wifi }

abbrev pub on_look : Gate → Startup → Startup
on_look no_wifi s = if s.connection.wifi_connected then record s { gate = no_usb } else s
on_look no_usb s = if s.is_active then record s { gate = open_gate } else s
on_look open_gate s = s

unfoldable pub startup_step : Event → Startup → Startup
startup_step (radio r) s = record s { connection = on_radio s.connection.is_up r s.connection }
startup_step (usb is_active) s = record s { is_active = is_active }
startup_step look s = on_look s.gate s

unfoldable pub startup_run : List Event → Startup → Startup
unfolding startup_step
startup_run [] s = s
startup_run (event ∷ rest) s = startup_run rest (startup_step event s)
