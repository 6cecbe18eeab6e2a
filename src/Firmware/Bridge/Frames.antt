-- ===== src/Firmware/Bridge/Frames.antt =====
-- firmware-c3/src/bin/main.rs: the frames that `wifi_bridge` receives, on their way to the host.
use lamella.Base.{
  ℕ, ◌+◌, Option, none, some, List, [], ◌∷◌, ◌++◌, ◌≡◌, refl, ◌∙◌, ap, arith, append_assoc,
  append-nil, ◌⊎◌, inl, inr,
}
use lamella.Icd.{u32, WifiFrame, frame_of_slice}
use lamella.Firmware.Bridge.{
  Mode, bridging, transmitting, transmitting_kept, queueing, serving_tx, Bridge, Event, tx_token,
  rx_buffer, host_frame, host_pull, ready_to_send, try_send, queue_wifi_frame_while_serving_tx,
  step_in, step, wifi_bridge, keep_on, complete, transmitted_to_wifi, transmit, pull_from,
  receive_while_bridging, receive_while_transmitting,
}

-- A received frame that the task holds back until the channel has room.
abbrev pub held : Mode → List WifiFrame
held bridging = []
held (transmitting _ _) = []
held (transmitting_kept _ _ kept) = kept ∷ []
held (queueing frame _) = frame ∷ []
held (serving_tx _ frame _) = frame ∷ []

abbrev pub list_of : Option WifiFrame → List WifiFrame
list_of none = []
list_of (some frame) = frame ∷ []

-- The frame that an event brings in from the radio: a buffer that fits, where the task receives.
abbrev pub received_in : Mode → Event → List WifiFrame
received_in bridging (rx_buffer bytes) = list_of (frame_of_slice bytes)
received_in (transmitting _ _) (rx_buffer bytes) = list_of (frame_of_slice bytes)
received_in _ _ = []

pub received : List Event → Bridge → List WifiFrame
received [] b = []
received (event ∷ rest) b = received_in b.mode event ++ received rest (step event b)

-- All frames on their way to the host or there, in order.
abbrev pub toward_host : Bridge → List WifiFrame
toward_host b = b.pulled ++ (b.to_host ++ held b.mode)

ruleset lists = (append-nil, append_assoc)

pub try_send-cases :
    (frame : WifiFrame) (queue : List WifiFrame)
    → (try_send frame queue ≡ none) ⊎ (try_send frame queue ≡ some (queue ++ frame ∷ []))
unfolding try_send
try_send-cases frame queue = ground arith

queue-toward_host :
    (frame : WifiFrame) (n : ℕ) (b : Bridge)
    → toward_host (queue_wifi_frame_while_serving_tx frame n b)
      ≡ b.pulled ++ (b.to_host ++ frame ∷ [])
unfolding queue_wifi_frame_while_serving_tx
queue-toward_host frame n b = elim (try_send-cases frame b.to_host) [
  | inl full ↦ rw full
  | inr room ↦ rw room (simp lists)
]

keep-toward_host :
    (tx_frame : WifiFrame) (n : ℕ) (frame : WifiFrame) (b : Bridge)
    → toward_host (keep_on tx_frame n frame (try_send frame b.to_host) b)
      ≡ b.pulled ++ (b.to_host ++ frame ∷ [])
keep-toward_host tx_frame n frame b = elim (try_send-cases frame b.to_host) [
  | inl full ↦ rw full
  | inr room ↦ rw room (simp lists)
]

pull_from-toward_host :
    (l : List WifiFrame) (b : Bridge)
    → toward_host (pull_from l (record b { to_host = l })) ≡ toward_host (record b { to_host = l })
pull_from-toward_host [] b = refl
pull_from-toward_host (f ∷ l) b = simp lists

receive_bridging-toward_host :
    (o : Option WifiFrame) (b : Bridge)
    → toward_host (receive_while_bridging o (record b { mode = bridging }))
      ≡ toward_host (record b { mode = bridging }) ++ list_of o
receive_bridging-toward_host none b = simp lists
receive_bridging-toward_host (some frame) b =
    queue-toward_host frame 0 (record b { mode = bridging }) ∙ simp lists

receive_transmitting-toward_host :
    (tx_frame : WifiFrame) (n : ℕ) (o : Option WifiFrame) (b : Bridge)
    → toward_host
        (receive_while_transmitting tx_frame n o (record b { mode = transmitting tx_frame n }))
      ≡ toward_host (record b { mode = transmitting tx_frame n }) ++ list_of o
receive_transmitting-toward_host tx_frame n none b = simp lists
receive_transmitting-toward_host tx_frame n (some frame) b =
    keep-toward_host tx_frame (u32 (n + 1)) frame (record b { mode = transmitting tx_frame n })
    ∙ simp lists

-- One step, from each place where the task waits.
step_in-toward_host :
    (mode : Mode) (event : Event) (b : Bridge)
    → toward_host (step_in mode event (record b { mode = mode }))
      ≡ toward_host (record b { mode = mode }) ++ received_in mode event
unfolding step_in
step_in-toward_host (queueing f n) ready_to_send b =
    queue-toward_host f n (record b { mode = queueing f n }) ∙ simp lists
step_in-toward_host bridging ready_to_send b = simp lists
step_in-toward_host (transmitting t n) ready_to_send b = simp lists
step_in-toward_host (transmitting_kept t n k) ready_to_send b = simp lists
step_in-toward_host (serving_tx g f n) ready_to_send b = simp lists
step_in-toward_host bridging host_pull b =
    pull_from-toward_host b.to_host (record b { mode = bridging }) ∙ simp lists
step_in-toward_host bridging (host_frame frame) b = simp lists
step_in-toward_host bridging (rx_buffer bytes) b =
    receive_bridging-toward_host (frame_of_slice bytes)
      (record b { wifi_rx_count = u32 (b.wifi_rx_count + 1) })
step_in-toward_host bridging tx_token b = simp lists
step_in-toward_host (transmitting t n) host_pull b =
    pull_from-toward_host b.to_host (record b { mode = transmitting t n }) ∙ simp lists
step_in-toward_host (transmitting t n) (host_frame frame) b = simp lists
step_in-toward_host (transmitting t n) (rx_buffer bytes) b =
    receive_transmitting-toward_host t n (frame_of_slice bytes) b
step_in-toward_host (transmitting t n) tx_token b = simp lists
step_in-toward_host (transmitting_kept t n k) host_pull b =
    pull_from-toward_host b.to_host (record b { mode = transmitting_kept t n k }) ∙ simp lists
step_in-toward_host (transmitting_kept t n k) (host_frame frame) b = simp lists
step_in-toward_host (transmitting_kept t n k) (rx_buffer bytes) b = simp lists
step_in-toward_host (transmitting_kept t n k) tx_token b =
    queue-toward_host k 0 (transmitted_to_wifi t n (record b { mode = transmitting_kept t n k }))
    ∙ simp lists
step_in-toward_host (queueing f n) host_pull b =
    pull_from-toward_host b.to_host (record b { mode = queueing f n }) ∙ simp lists
step_in-toward_host (queueing f n) (host_frame frame) b = simp lists
step_in-toward_host (queueing f n) (rx_buffer bytes) b = simp lists
step_in-toward_host (queueing f n) tx_token b = simp lists
step_in-toward_host (serving_tx g f n) host_pull b =
    pull_from-toward_host b.to_host (record b { mode = serving_tx g f n }) ∙ simp lists
step_in-toward_host (serving_tx g f n) (host_frame frame) b = simp lists
step_in-toward_host (serving_tx g f n) (rx_buffer bytes) b = simp lists
step_in-toward_host (serving_tx g f n) tx_token b =
    queue-toward_host f (u32 (n + 1)) (complete (transmit g (record b { mode = serving_tx g f n })))
    ∙ simp lists

pub host_pull-toward_host : (b : Bridge) → toward_host (step host_pull b) ≡ toward_host b
unfolding step step_in
host_pull-toward_host b = pull_from-toward_host b.to_host b

-- Over any run, the frames that `wifi_rx_server` took, then those in the channel, then the one held
-- back, are what they were before with the received frames behind them: the bridge drops, repeats
-- and reorders no received frame that fits, however full the channel is.
pub wifi_bridge-toward_host :
    (events : List Event) (b : Bridge)
    → toward_host (wifi_bridge events b) ≡ toward_host b ++ received events b
unfolding wifi_bridge received step
wifi_bridge-toward_host [] b = simp lists
wifi_bridge-toward_host (event ∷ rest) b =
    wifi_bridge-toward_host rest (step event b)
    ∙ ap (λ l. l ++ received rest (step event b)) (step_in-toward_host b.mode event b)
    ∙ append_assoc (toward_host b) (received_in b.mode event) (received rest (step event b))
