-- ===== src/Firmware/Device.antt =====
-- firmware-c3/src/bin/main.rs: `wifi_tx_server` and `wifi_bridge` as two tasks that interleave. The
-- server hands a frame over by `HOST_TO_WIFI_CHANNEL` and awaits `WIFI_TX_COMPLETE_CHANNEL`, which
-- both hold one item.
pub mod Passing
pub mod Handover
pub mod Steps
pub mod Completion
pub mod Progress
use lamella.Base.{ℕ, ◌+◌, Option, none, some, List, [], ◌∷◌, ◌++◌, if◌then◌else◌, ltb}
use lamella.Icd.{WifiFrame, WifiTxRequest, WifiTxResponse}
use lamella.Firmware.TxServer.{TxServer, new_tx_server, is_last}
use lamella.Firmware.Bridge.{
  Mode, bridging, transmitting, transmitting_kept, queueing, serving_tx, Bridge, new_bridge, Event,
  tx_token, rx_buffer, host_frame, host_pull, ready_to_send, step,
}

-- Where `wifi_tx_server` waits: for a request, for room in the channel, for the completion.
pub data Phase : Type 0 where
  idle : Phase
  sending : WifiTxRequest → Phase
  awaiting : WifiTxRequest → Phase

-- The two tasks and the channel between them. `received` counts the completions that the server has
-- taken, `answered` holds the requests that it has answered, and `responses` the responses, all with
-- the oldest first.
pub record Device : Type 0 where
  pub phase : Phase
  pub server : TxServer
  pub host_to_wifi : Option WifiFrame
  pub bridge : Bridge
  pub received : ℕ
  pub answered : List WifiTxRequest
  pub responses : List WifiTxResponse

abbrev pub new_device : Device
new_device = record {
  phase = idle;
  server = new_tx_server;
  host_to_wifi = none;
  bridge = new_bridge;
  received = 0;
  answered = [];
  responses = [];
}

-- What wakes the bridge, other than a host frame.
pub data Waking : Type 0 where
  token : Waking
  buffer : List ℕ → Waking
  pulled : Waking
  room : Waking

abbrev pub event_of : Waking → Event
event_of token = tx_token
event_of (buffer bytes) = rx_buffer bytes
event_of pulled = host_pull
event_of room = ready_to_send

-- A request arrives; the server's send or receive goes through; the bridge takes the frame in the
-- channel; anything else wakes the bridge. What cannot happen yet is passed over.
pub data DeviceEvent : Type 0 where
  request : WifiTxRequest → DeviceEvent
  hand_over : DeviceEvent
  take_frame : DeviceEvent
  wake : Waking → DeviceEvent
  take_completion : DeviceEvent

-- `send_tx_response`, and the loop goes on.
abbrev pub respond : WifiTxRequest → Device → Device
respond q d = record d {
  phase = idle;
  answered = d.answered ++ q ∷ [];
  responses = d.responses ++ record { transaction = q.transaction } ∷ [];
}

abbrev pub on_request : Phase → WifiTxRequest → Device → Device
on_request idle q d =
    if is_last d.server.last_completed q.transaction
    then respond q d
    else record d { phase = sending q }
on_request (sending p) q d = d
on_request (awaiting p) q d = d

-- `HOST_TO_WIFI_CHANNEL.send(request.t.frame).await`.
abbrev pub on_hand_over : Phase → Option WifiFrame → Device → Device
on_hand_over idle slot d = d
on_hand_over (sending q) none d = record d { phase = awaiting q; host_to_wifi = some q.frame }
on_hand_over (sending q) (some frame) d = d
on_hand_over (awaiting q) slot d = d

-- `WIFI_TX_COMPLETE_CHANNEL.receive().await`, and what follows.
abbrev pub on_completion : Phase → Device → Device
on_completion idle d = d
on_completion (sending q) d = d
on_completion (awaiting q) d =
    if ltb d.received d.bridge.completions
    then respond q (record d {
      received = d.received + 1;
      server = record { last_completed = some q.transaction; handed = q.frame ∷ d.server.handed };
    })
    else d

-- `HOST_TO_WIFI_CHANNEL.receive()`, where the bridge asks for it.
abbrev pub on_take : Mode → Option WifiFrame → Device → Device
on_take mode none d = d
on_take bridging (some frame) d = record d {
  host_to_wifi = none;
  bridge = step (host_frame frame) d.bridge;
}
on_take (queueing kept n) (some frame) d = record d {
  host_to_wifi = none;
  bridge = step (host_frame frame) d.bridge;
}
on_take (transmitting f n) (some frame) d = d
on_take (transmitting_kept f n kept) (some frame) d = d
on_take (serving_tx f kept n) (some frame) d = d

unfoldable pub device_step : DeviceEvent → Device → Device
unfolding step
device_step (request q) d = on_request d.phase q d
device_step hand_over d = on_hand_over d.phase d.host_to_wifi d
device_step take_frame d = on_take d.bridge.mode d.host_to_wifi d
device_step (wake w) d = record d { bridge = step (event_of w) d.bridge }
device_step take_completion d = on_completion d.phase d

unfoldable pub device_run : List DeviceEvent → Device → Device
unfolding device_step
device_run [] d = d
device_run (event ∷ rest) d = device_run rest (device_step event d)
