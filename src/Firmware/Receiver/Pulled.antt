-- ===== src/Firmware/Receiver/Pulled.antt =====
-- firmware-c3/src/bin/main.rs: the frames that polls have taken from the bridge's channel.
use lamella.Base.{
  ℕ, ◌+◌, Option, none, some, List, [], ◌∷◌, ◌++◌, ◌≡◌, inl, inr, refl, ◌∙◌, append-nil,
}
use lamella.Icd.{u32, WifiFrame, frame_of_slice}
use lamella.Firmware.Bridge.{
  Mode, bridging, transmitting, transmitting_kept, queueing, serving_tx, Bridge, Event, tx_token,
  rx_buffer, host_frame, host_pull, ready_to_send, queue_wifi_frame_while_serving_tx, step_in, step,
  wifi_bridge, complete, transmitted_to_wifi, transmit, pull_from, receive_while_bridging,
  receive_while_transmitting,
}
use lamella.Firmware.Bridge.Frames.{try_send-cases, list_of}
use lamella.Firmware.Receiver.{no_pulls, head}

queue-pulled :
    (frame : WifiFrame) (n : ℕ) (b : Bridge)
    → (queue_wifi_frame_while_serving_tx frame n b).pulled ≡ b.pulled
unfolding queue_wifi_frame_while_serving_tx
queue-pulled frame n b = elim (try_send-cases frame b.to_host) [
  | inl full ↦ rw full
  | inr sent ↦ rw sent
]

receive_bridging-pulled :
    (o : Option WifiFrame) (b : Bridge) → (receive_while_bridging o b).pulled ≡ b.pulled
receive_bridging-pulled none b = refl
receive_bridging-pulled (some f) b = queue-pulled f 0 b

receive_transmitting-pulled :
    (t : WifiFrame) (n : ℕ) (o : Option WifiFrame) (b : Bridge)
    → (receive_while_transmitting t n o b).pulled ≡ b.pulled
receive_transmitting-pulled t n none b = refl
receive_transmitting-pulled t n (some f) b = elim (try_send-cases f b.to_host) [
  | inl full ↦ rw full
  | inr sent ↦ rw sent
]

buffer-pulled :
    (mode : Mode) (bytes : List ℕ) (b : Bridge)
    → (step_in mode (rx_buffer bytes) b).pulled ≡ b.pulled
unfolding step_in
buffer-pulled bridging bytes b = receive_bridging-pulled (frame_of_slice bytes) _
buffer-pulled (transmitting t n) bytes b = receive_transmitting-pulled t n (frame_of_slice bytes) b
buffer-pulled (transmitting_kept t n k) bytes b = refl
buffer-pulled (queueing f n) bytes b = refl
buffer-pulled (serving_tx g f n) bytes b = refl

token-pulled : (mode : Mode) (b : Bridge) → (step_in mode tx_token b).pulled ≡ b.pulled
unfolding step_in
token-pulled bridging b = refl
token-pulled (transmitting t n) b = refl
token-pulled (transmitting_kept t n k) b = queue-pulled k 0 (transmitted_to_wifi t n b)
token-pulled (queueing f n) b = refl
token-pulled (serving_tx g f n) b = queue-pulled f (u32 (n + 1)) (complete (transmit g b))

host_frame-pulled :
    (mode : Mode) (f : WifiFrame) (b : Bridge) → (step_in mode (host_frame f) b).pulled ≡ b.pulled
unfolding step_in
host_frame-pulled bridging f b = refl
host_frame-pulled (transmitting t n) f b = refl
host_frame-pulled (transmitting_kept t n k) f b = refl
host_frame-pulled (queueing g n) f b = refl
host_frame-pulled (serving_tx g k n) f b = refl

ready-pulled : (mode : Mode) (b : Bridge) → (step_in mode ready_to_send b).pulled ≡ b.pulled
unfolding step_in
ready-pulled bridging b = refl
ready-pulled (transmitting t n) b = refl
ready-pulled (transmitting_kept t n k) b = refl
ready-pulled (queueing f n) b = queue-pulled f n b
ready-pulled (serving_tx g f n) b = refl

pub no_pulls-pulled :
    (events : List Event) (b : Bridge) → (wifi_bridge (no_pulls events) b).pulled ≡ b.pulled
unfolding wifi_bridge step
no_pulls-pulled [] b = refl
no_pulls-pulled (host_pull ∷ rest) b = no_pulls-pulled rest b
no_pulls-pulled (tx_token ∷ rest) b = no_pulls-pulled rest (step tx_token b) ∙ token-pulled b.mode b
no_pulls-pulled (rx_buffer bytes ∷ rest) b =
    no_pulls-pulled rest (step (rx_buffer bytes) b) ∙ buffer-pulled b.mode bytes b
no_pulls-pulled (host_frame f ∷ rest) b =
    no_pulls-pulled rest (step (host_frame f) b) ∙ host_frame-pulled b.mode f b
no_pulls-pulled (ready_to_send ∷ rest) b =
    no_pulls-pulled rest (step ready_to_send b) ∙ ready-pulled b.mode b

pull_from-pulled :
    (l : List WifiFrame) (b : Bridge) → (pull_from l b).pulled ≡ b.pulled ++ list_of (head l)
pull_from-pulled [] b = simp append-nil
pull_from-pulled (f ∷ l) b = refl

-- A pull takes the oldest frame of the channel, if there is one.
pub host_pull-pulled :
    (b : Bridge) → (step host_pull b).pulled ≡ b.pulled ++ list_of (head b.to_host)
unfolding step step_in
host_pull-pulled b = pull_from-pulled b.to_host b
