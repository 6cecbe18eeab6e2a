-- ===== src/Examples/Device.antt =====
-- Runs of the two tasks of firmware-c3/src/bin/main.rs that hand a frame to the radio.
use lamella.Base.{◌+◌, ◌≤◌, List, [], ◌∷◌, ◌++◌, ◌≡◌, refl}
use lamella.Icd.{WifiTxRequest}
use lamella.Firmware.TxServer.{new_tx_server, wifi_tx_server}
use lamella.Firmware.Device.{
  idle, DeviceEvent, request, hand_over, take_frame, wake, take_completion, token, buffer,
  device_run, new_device,
}
use lamella.Firmware.Device.Handover.{oldest_first, all_ok}
use lamella.Firmware.Device.Completion.{AtMostOneMore, device_refines, device_answers_accepted}
use lamella.Firmware.Device.Progress.{turn, device_completes}

abbrev a_request : WifiTxRequest
a_request = record {
  transaction = record { session = 7; id = 0 };
  frame = record { bytes = 1 ∷ 2 ∷ [] };
}

-- A frame is received while the host's frame waits for a token, and the request comes twice.
abbrev a_run : List DeviceEvent
a_run =
    request a_request
    ∷ hand_over
    ∷ take_frame
    ∷ wake (buffer (7 ∷ 8 ∷ []))
    ∷ wake token
    ∷ take_completion
    ∷ request a_request
    ∷ []

device_refines_example :
    (wifi_tx_server (all_ok (device_run a_run new_device).answered) new_tx_server
      ≡ ((device_run a_run new_device).server, (device_run a_run new_device).responses))
    × ((device_run a_run new_device).bridge.transmitted
        ≡ oldest_first (device_run a_run new_device).server.handed)
unfolding device_run
device_refines_example = device_refines a_run refl

abbrev half_run : List DeviceEvent
half_run = request a_request ∷ hand_over ∷ take_frame ∷ []

device_answers_accepted_example :
    let d = device_run half_run new_device in
    AtMostOneMore (oldest_first d.server.handed) d.bridge.transmitted
    × (d.received ≤ d.bridge.completions)
    × (d.bridge.completions ≤ d.received + 1)
device_answers_accepted_example = device_answers_accepted half_run

device_completes_example :
    ((device_run turn (device_run half_run new_device)).phase ≡ idle)
    × ((device_run turn (device_run half_run new_device)).responses
        ≡ (device_run half_run new_device).responses
          ++ record { transaction = a_request.transaction } ∷ [])
unfolding device_run
device_completes_example = device_completes half_run a_request refl
