-- ===== src/Firmware/Bridge.antt =====
-- firmware-c3/src/bin/main.rs: `wifi_bridge` and the functions that it calls, `transmit_to_wifi`,
-- `transmit_only_to_wifi` and `queue_wifi_frame_while_serving_tx`, which move frames between the
-- radio and the two servers. The task is a state machine over what happens where it waits; what it
-- does not ask for there (a token, a buffer, a host frame) is passed over and offered again later.
pub mod Frames
pub mod Radio
pub mod Counts
use lamella.Base.{ℕ, ◌+◌, Option, none, some, List, [], ◌∷◌, ◌++◌, if◌then◌else◌, ltb, length}
use lamella.Icd.{u32, WifiFrame, frame_of_slice}

-- `static WIFI_TO_HOST_CHANNEL: Channel<CsMutex, WifiFrame, 64>`.
abbrev pub wifi_to_host_capacity : ℕ
wifi_to_host_capacity = 64

-- Where the task waits, with the local variables that are live there.
pub data Mode : Type 0 where
  -- The `select` of `wifi_bridge`.
  bridging : Mode
  -- The poll of `transmit_to_wifi`.
  transmitting : (tx_frame : WifiFrame) (received_while_waiting : ℕ) → Mode
  -- `transmit_only_to_wifi`, called by `transmit_to_wifi` with a received frame kept back.
  transmitting_kept : (tx_frame : WifiFrame) (received_while_waiting : ℕ) (kept : WifiFrame) → Mode
  -- The `select` of `queue_wifi_frame_while_serving_tx`.
  queueing : (frame : WifiFrame) (host_frames_transmitted : ℕ) → Mode
  -- `transmit_only_to_wifi`, called by `queue_wifi_frame_while_serving_tx`.
  serving_tx : (outgoing : WifiFrame) (frame : WifiFrame) (host_frames_transmitted : ℕ) → Mode

-- The task's counters, the channel to the host, and what the task has done: the frames that
-- `wifi_rx_server` has taken from the channel, the frames that the radio has accepted, all with the
-- oldest first, and the number of completions sent by `WIFI_TX_COMPLETE_CHANNEL`.
pub record Bridge : Type 0 where
  pub mode : Mode
  pub wifi_rx_count : ℕ  -- u32
  pub host_rx_count : ℕ  -- u32
  pub wifi_tx_ok : ℕ  -- u32
  pub to_host : List WifiFrame
  pub pulled : List WifiFrame
  pub transmitted : List WifiFrame
  pub completions : ℕ

abbrev pub new_bridge : Bridge
new_bridge = record {
  mode = bridging;
  wifi_rx_count = 0;
  host_rx_count = 0;
  wifi_tx_ok = 0;
  to_host = [];
  pulled = [];
  transmitted = [];
  completions = 0;
}

-- A transmit token of the radio, a buffer that it received, a frame in `HOST_TO_WIFI_CHANNEL`,
-- `wifi_rx_server` taking a frame from `WIFI_TO_HOST_CHANNEL`, or `poll_ready_to_send` of that
-- channel waking the task.
pub data Event : Type 0 where
  tx_token : Event
  rx_buffer : List ℕ → Event
  host_frame : WifiFrame → Event
  host_pull : Event
  ready_to_send : Event

-- `Channel::try_send`: `none` is `Err(TrySendError::Full(frame))`.
unfoldable pub try_send : WifiFrame → List WifiFrame → Option (List WifiFrame)
try_send frame queue =
    if ltb (length queue) wifi_to_host_capacity then some (queue ++ frame ∷ []) else none

abbrev pub pull_from : List WifiFrame → Bridge → Bridge
pull_from [] b = b
pull_from (frame ∷ queue) b = record b { to_host = queue; pulled = b.pulled ++ frame ∷ [] }

abbrev pub pull : Bridge → Bridge
pull b = pull_from b.to_host b

-- The token is consumed with the frame.
abbrev pub transmit : WifiFrame → Bridge → Bridge
transmit frame b = record b { transmitted = b.transmitted ++ frame ∷ [] }

-- `WIFI_TX_COMPLETE_CHANNEL.send(..)`.
abbrev pub complete : Bridge → Bridge
complete b = record b { completions = b.completions + 1 }

-- The head of the loop of `queue_wifi_frame_while_serving_tx`; on success it returns to
-- `wifi_bridge`, which adds the host frames transmitted to its counters.
abbrev pub queue_on : WifiFrame → ℕ → Option (List WifiFrame) → Bridge → Bridge
queue_on frame n none b = record b { mode = queueing frame n }
queue_on frame n (some queue) b = record b {
  mode = bridging;
  to_host = queue;
  host_rx_count = u32 (b.host_rx_count + n);
  wifi_tx_ok = u32 (b.wifi_tx_ok + n);
}

unfoldable pub queue_wifi_frame_while_serving_tx : WifiFrame → ℕ → Bridge → Bridge
unfolding try_send
queue_wifi_frame_while_serving_tx frame n b = queue_on frame n (try_send frame b.to_host) b

-- `transmit_to_wifi` has received a buffer, which fits a frame or does not.
abbrev pub keep_on : WifiFrame → ℕ → WifiFrame → Option (List WifiFrame) → Bridge → Bridge
keep_on tx_frame n frame none b = record b { mode = transmitting_kept tx_frame n frame }
keep_on tx_frame n frame (some queue) b = record b {
  mode = transmitting tx_frame n;
  to_host = queue;
}

abbrev pub receive_while_transmitting : WifiFrame → ℕ → Option WifiFrame → Bridge → Bridge
receive_while_transmitting tx_frame n none b = b
receive_while_transmitting tx_frame n (some frame) b =
    keep_on tx_frame (u32 (n + 1)) frame (try_send frame b.to_host) b

-- `wifi_bridge` has received a buffer.
abbrev pub receive_while_bridging : Option WifiFrame → Bridge → Bridge
receive_while_bridging none b = b
receive_while_bridging (some frame) b = queue_wifi_frame_while_serving_tx frame 0 b

-- What `wifi_bridge` does when `transmit_to_wifi` returns: the counters and the completion.
abbrev pub transmitted_to_wifi : WifiFrame → ℕ → Bridge → Bridge
transmitted_to_wifi tx_frame received b = complete (
    transmit tx_frame (record b {
      wifi_rx_count = u32 (b.wifi_rx_count + received);
      wifi_tx_ok = u32 (b.wifi_tx_ok + 1);
    }))

unfoldable pub step_in : Mode → Event → Bridge → Bridge
unfolding queue_wifi_frame_while_serving_tx try_send frame_of_slice
step_in _ host_pull b = pull b
step_in (queueing frame n) ready_to_send b = queue_wifi_frame_while_serving_tx frame n b
step_in bridging ready_to_send b = b
step_in (transmitting tx_frame n) ready_to_send b = b
step_in (transmitting_kept tx_frame n kept) ready_to_send b = b
step_in (serving_tx outgoing frame n) ready_to_send b = b
step_in bridging (host_frame frame) b = record b {
  mode = transmitting frame 0;
  host_rx_count = u32 (b.host_rx_count + 1);
}
step_in bridging (rx_buffer bytes) b =
    receive_while_bridging (frame_of_slice bytes)
      (record b { wifi_rx_count = u32 (b.wifi_rx_count + 1) })
step_in bridging tx_token b = b
step_in (transmitting tx_frame n) tx_token b = record (transmitted_to_wifi tx_frame n b) {
  mode = bridging;
}
step_in (transmitting tx_frame n) (rx_buffer bytes) b =
    receive_while_transmitting tx_frame n (frame_of_slice bytes) b
step_in (transmitting tx_frame n) (host_frame frame) b = b
step_in (transmitting_kept tx_frame n kept) tx_token b =
    queue_wifi_frame_while_serving_tx kept 0 (transmitted_to_wifi tx_frame n b)
step_in (transmitting_kept tx_frame n kept) (rx_buffer bytes) b = b
step_in (transmitting_kept tx_frame n kept) (host_frame frame) b = b
step_in (queueing frame n) (host_frame outgoing) b = record b { mode = serving_tx outgoing frame n }
step_in (queueing frame n) tx_token b = b
step_in (queueing frame n) (rx_buffer bytes) b = b
step_in (serving_tx outgoing frame n) tx_token b =
    queue_wifi_frame_while_serving_tx frame (u32 (n + 1)) (complete (transmit outgoing b))
step_in (serving_tx outgoing frame n) (rx_buffer bytes) b = b
step_in (serving_tx outgoing frame n) (host_frame other) b = b

unfoldable pub step : Event → Bridge → Bridge
unfolding step_in
step event b = step_in b.mode event b

unfoldable pub wifi_bridge : List Event → Bridge → Bridge
unfolding step
wifi_bridge [] b = b
wifi_bridge (event ∷ rest) b = wifi_bridge rest (step event b)
