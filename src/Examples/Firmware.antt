-- ===== src/Examples/Firmware.antt =====
-- Runs of the WiFi bridge of firmware-c3/src/bin/main.rs.
use lamella.Base.{List, [], ◌∷◌, ◌++◌, ◌≡◌}
use lamella.Icd.{WifiFrame}
use lamella.Firmware.Bridge.{
  Event, tx_token, rx_buffer, host_frame, host_pull, wifi_bridge, new_bridge,
}
use lamella.Firmware.Bridge.Frames.{toward_host, received, wifi_bridge-toward_host}
use lamella.Firmware.Bridge.Radio.{toward_radio, taken, wifi_bridge-toward_radio}
use lamella.Firmware.Bridge.Counts.{Inv, wifi_bridge-Inv}

abbrev outgoing_frame : WifiFrame
outgoing_frame = record { bytes = 1 ∷ 2 ∷ [] }

-- A host frame is taken; a received one comes while it waits for a token; the host pulls.
abbrev events : List Event
events =
    host_frame outgoing_frame
    ∷ rx_buffer (7 ∷ 8 ∷ [])
    ∷ tx_token
    ∷ rx_buffer (9 ∷ [])
    ∷ host_pull
    ∷ []

wifi_bridge-toward_host_example :
    toward_host (wifi_bridge events new_bridge)
    ≡ toward_host new_bridge ++ received events new_bridge
wifi_bridge-toward_host_example = wifi_bridge-toward_host events new_bridge

wifi_bridge-toward_radio_example :
    toward_radio (wifi_bridge events new_bridge)
    ≡ toward_radio new_bridge ++ taken events new_bridge
wifi_bridge-toward_radio_example = wifi_bridge-toward_radio events new_bridge

wifi_bridge-Inv_example : Inv (wifi_bridge events new_bridge)
wifi_bridge-Inv_example = wifi_bridge-Inv events
