-- ===== src/Firmware/Bridge/Radio.antt =====
-- firmware-c3/src/bin/main.rs: the host's frames that `wifi_bridge` takes, on their way to the radio.
use lamella.Base.{
  ℕ, ◌+◌, Option, none, some, List, [], ◌∷◌, ◌++◌, ◌≡◌, refl, ◌∙◌, ap, append_assoc, append-nil,
  inl, inr,
}
use lamella.Icd.{u32, WifiFrame, frame_of_slice}
use lamella.Firmware.Bridge.{
  Mode, bridging, transmitting, transmitting_kept, queueing, serving_tx, Bridge, Event, tx_token,
  rx_buffer, host_frame, host_pull, ready_to_send, try_send, queue_wifi_frame_while_serving_tx,
  step_in, step, wifi_bridge, keep_on, complete, transmitted_to_wifi, transmit, pull_from,
  receive_while_bridging, receive_while_transmitting,
}
use lamella.Firmware.Bridge.Frames.{try_send-cases}

-- A host frame that the task has taken and not yet transmitted.
abbrev pub outgoing : Mode → List WifiFrame
outgoing bridging = []
outgoing (transmitting tx_frame _) = tx_frame ∷ []
outgoing (transmitting_kept tx_frame _ _) = tx_frame ∷ []
outgoing (queueing _ _) = []
outgoing (serving_tx tx_frame _ _) = tx_frame ∷ []

-- The frame that an event brings in from the host, where the task takes one.
abbrev pub taken_in : Mode → Event → List WifiFrame
taken_in bridging (host_frame frame) = frame ∷ []
taken_in (queueing _ _) (host_frame frame) = frame ∷ []
taken_in _ _ = []

pub taken : List Event → Bridge → List WifiFrame
taken [] b = []
taken (event ∷ rest) b = taken_in b.mode event ++ taken rest (step event b)

-- All frames accepted by the radio or on their way there, in order.
abbrev pub toward_radio : Bridge → List WifiFrame
toward_radio b = b.transmitted ++ outgoing b.mode

ruleset lists = (append-nil, append_assoc)

queue-toward_radio :
    (frame : WifiFrame) (n : ℕ) (b : Bridge)
    → toward_radio (queue_wifi_frame_while_serving_tx frame n b) ≡ b.transmitted
unfolding queue_wifi_frame_while_serving_tx
queue-toward_radio frame n b = elim (try_send-cases frame b.to_host) [
  | inl full ↦ rw full (simp lists)
  | inr room ↦ rw room (simp lists)
]

keep-toward_radio :
    (tx_frame : WifiFrame) (n : ℕ) (frame : WifiFrame) (b : Bridge)
    → toward_radio (keep_on tx_frame n frame (try_send frame b.to_host) b)
      ≡ b.transmitted ++ tx_frame ∷ []
keep-toward_radio tx_frame n frame b = elim (try_send-cases frame b.to_host) [
  | inl full ↦ rw full
  | inr room ↦ rw room
]

pull_from-toward_radio :
    (l : List WifiFrame) (b : Bridge) → toward_radio (pull_from l b) ≡ toward_radio b
pull_from-toward_radio [] b = refl
pull_from-toward_radio (f ∷ l) b = refl

receive_bridging-toward_radio :
    (o : Option WifiFrame) (b : Bridge)
    → toward_radio (receive_while_bridging o (record b { mode = bridging })) ≡ b.transmitted
receive_bridging-toward_radio none b = simp lists
receive_bridging-toward_radio (some frame) b =
    queue-toward_radio frame 0 (record b { mode = bridging })

receive_transmitting-toward_radio :
    (tx_frame : WifiFrame) (n : ℕ) (o : Option WifiFrame) (b : Bridge)
    → toward_radio
        (receive_while_transmitting tx_frame n o (record b { mode = transmitting tx_frame n }))
      ≡ b.transmitted ++ tx_frame ∷ []
receive_transmitting-toward_radio tx_frame n none b = refl
receive_transmitting-toward_radio tx_frame n (some frame) b =
    keep-toward_radio tx_frame (u32 (n + 1)) frame (record b { mode = transmitting tx_frame n })

step_in-toward_radio :
    (mode : Mode) (event : Event) (b : Bridge)
    → toward_radio (step_in mode event (record b { mode = mode }))
      ≡ toward_radio (record b { mode = mode }) ++ taken_in mode event
unfolding step_in
step_in-toward_radio (queueing f n) ready_to_send b =
    queue-toward_radio f n (record b { mode = queueing f n }) ∙ simp lists
step_in-toward_radio bridging ready_to_send b = simp lists
step_in-toward_radio (transmitting t n) ready_to_send b = simp lists
step_in-toward_radio (transmitting_kept t n k) ready_to_send b = simp lists
step_in-toward_radio (serving_tx g f n) ready_to_send b = simp lists
step_in-toward_radio bridging host_pull b =
    pull_from-toward_radio b.to_host (record b { mode = bridging }) ∙ simp lists
step_in-toward_radio bridging (host_frame frame) b = simp lists
step_in-toward_radio bridging (rx_buffer bytes) b =
    receive_bridging-toward_radio (frame_of_slice bytes)
      (record b { wifi_rx_count = u32 (b.wifi_rx_count + 1) })
    ∙ simp lists
step_in-toward_radio bridging tx_token b = simp lists
step_in-toward_radio (transmitting t n) host_pull b =
    pull_from-toward_radio b.to_host (record b { mode = transmitting t n }) ∙ simp lists
step_in-toward_radio (transmitting t n) (host_frame frame) b = simp lists
step_in-toward_radio (transmitting t n) (rx_buffer bytes) b =
    receive_transmitting-toward_radio t n (frame_of_slice bytes) b ∙ simp lists
step_in-toward_radio (transmitting t n) tx_token b = simp lists
step_in-toward_radio (transmitting_kept t n k) host_pull b =
    pull_from-toward_radio b.to_host (record b { mode = transmitting_kept t n k }) ∙ simp lists
step_in-toward_radio (transmitting_kept t n k) (host_frame frame) b = simp lists
step_in-toward_radio (transmitting_kept t n k) (rx_buffer bytes) b = simp lists
step_in-toward_radio (transmitting_kept t n k) tx_token b =
    queue-toward_radio k 0 (transmitted_to_wifi t n (record b { mode = transmitting_kept t n k }))
    ∙ simp lists
step_in-toward_radio (queueing f n) host_pull b =
    pull_from-toward_radio b.to_host (record b { mode = queueing f n }) ∙ simp lists
step_in-toward_radio (queueing f n) (host_frame frame) b = simp lists
step_in-toward_radio (queueing f n) (rx_buffer bytes) b = simp lists
step_in-toward_radio (queueing f n) tx_token b = simp lists
step_in-toward_radio (serving_tx g f n) host_pull b =
    pull_from-toward_radio b.to_host (record b { mode = serving_tx g f n }) ∙ simp lists
step_in-toward_radio (serving_tx g f n) (host_frame frame) b = simp lists
step_in-toward_radio (serving_tx g f n) (rx_buffer bytes) b = simp lists
step_in-toward_radio (serving_tx g f n) tx_token b =
    queue-toward_radio f (u32 (n + 1))
      (complete (transmit g (record b { mode = serving_tx g f n })))
    ∙ simp lists

-- Over any run, the frames that the radio accepted, and the one under way to it, are what they were
-- before with the host's frames behind them, in the order in which the task took them.
pub wifi_bridge-toward_radio :
    (events : List Event) (b : Bridge)
    → toward_radio (wifi_bridge events b) ≡ toward_radio b ++ taken events b
unfolding wifi_bridge taken step
wifi_bridge-toward_radio [] b = simp lists
wifi_bridge-toward_radio (event ∷ rest) b =
    wifi_bridge-toward_radio rest (step event b)
    ∙ ap (λ l. l ++ taken rest (step event b)) (step_in-toward_radio b.mode event b)
    ∙ append_assoc (toward_radio b) (taken_in b.mode event) (taken rest (step event b))
