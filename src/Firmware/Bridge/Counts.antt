-- ===== src/Firmware/Bridge/Counts.antt =====
-- firmware-c3/src/bin/main.rs: the channel, the completions and the counters of `wifi_bridge`.
use lamella.Base.{
  ℕ, ◌+◌, ◌≤◌, Option, none, some, List, [], ◌∷◌, ◌≡◌, refl, arith, length, length-append,
}
use lamella.Icd.{u32, WifiFrame, frame_of_slice}
use lamella.Firmware.Bridge.{
  Mode, bridging, transmitting, transmitting_kept, queueing, serving_tx, Bridge, Event, tx_token,
  rx_buffer, host_frame, host_pull, ready_to_send, try_send, pull_from,
  queue_wifi_frame_while_serving_tx, receive_while_bridging, receive_while_transmitting,
  transmitted_to_wifi, complete, transmit, step_in, step, wifi_bridge, wifi_to_host_capacity,
  new_bridge,
}

-- The counters, for `done` frames transmitted so far.
abbrev pub Counted : Mode → ℕ → ℕ → ℕ → Type 0
Counted bridging host_rx tx_ok done = (host_rx ≡ u32 done) × (tx_ok ≡ u32 done)
Counted (transmitting _ _) host_rx tx_ok done = (host_rx ≡ u32 (done + 1)) × (tx_ok ≡ u32 done)
Counted (transmitting_kept _ _ _) host_rx tx_ok done =
    (host_rx ≡ u32 (done + 1)) × (tx_ok ≡ u32 done)
Counted (queueing _ n) host_rx tx_ok done =
    (u32 (host_rx + n) ≡ u32 done) × (u32 (tx_ok + n) ≡ u32 done)
Counted (serving_tx _ _ n) host_rx tx_ok done =
    (u32 (host_rx + n) ≡ u32 done) × (u32 (tx_ok + n) ≡ u32 done)

pub record Inv (b : Bridge) : Type 0 where
  pub bounded : length b.to_host ≤ wifi_to_host_capacity
  pub completed : b.completions ≡ length b.transmitted
  pub counted : Counted b.mode b.host_rx_count b.wifi_tx_ok b.completions

queue-Inv :
    (frame : WifiFrame) (n : ℕ) (b : Bridge)
    → length b.to_host ≤ wifi_to_host_capacity
    → b.completions ≡ length b.transmitted
    → u32 (b.host_rx_count + n) ≡ u32 b.completions
    → u32 (b.wifi_tx_ok + n) ≡ u32 b.completions
    → Inv (queue_wifi_frame_while_serving_tx frame n b)
unfolding queue_wifi_frame_while_serving_tx
queue-Inv frame n b bound done rx ok = ground (arith, length-append b.to_host (frame ∷ []))

pull-Inv :
    (l : List WifiFrame) (b : Bridge)
    → Inv (record b { to_host = l })
    → Inv (pull_from l (record b { to_host = l }))
pull-Inv [] b i = i
pull-Inv (f ∷ l) b i = record {
  bounded = omega (arith, i.bounded);
  completed = i.completed;
  counted = i.counted;
}

receive_bridging-Inv :
    (o : Option WifiFrame) (b : Bridge)
    → b.mode ≡ bridging
    → Inv b
    → Inv (receive_while_bridging o b)
receive_bridging-Inv none b e i = i
receive_bridging-Inv (some frame) b e i =
    queue-Inv frame 0 b i.bounded i.completed (ground arith) (ground arith)

receive_transmitting-Inv :
    (tx_frame : WifiFrame) (n : ℕ) (o : Option WifiFrame) (b : Bridge)
    → b.mode ≡ transmitting tx_frame n
    → Inv b
    → Inv (receive_while_transmitting tx_frame n o b)
unfolding try_send
receive_transmitting-Inv tx_frame n none b e i = i
receive_transmitting-Inv tx_frame n (some frame) b e i =
    ground (arith, length-append b.to_host (frame ∷ []))

step_in-Inv :
    (mode : Mode) (event : Event) (b : Bridge)
    → Inv (record b { mode = mode })
    → Inv (step_in mode event (record b { mode = mode }))
unfolding step_in
step_in-Inv (queueing f n) ready_to_send b i =
    queue-Inv f n (record b { mode = queueing f n }) i.bounded i.completed i.counted.0 i.counted.1
step_in-Inv bridging ready_to_send b i = i
step_in-Inv (transmitting t n) ready_to_send b i = i
step_in-Inv (transmitting_kept t n k) ready_to_send b i = i
step_in-Inv (serving_tx g f n) ready_to_send b i = i
step_in-Inv bridging host_pull b i = pull-Inv b.to_host (record b { mode = bridging }) i
step_in-Inv bridging (host_frame frame) b i = ground arith
step_in-Inv bridging (rx_buffer bytes) b i =
    receive_bridging-Inv (frame_of_slice bytes)
      (record b { mode = bridging; wifi_rx_count = u32 (b.wifi_rx_count + 1) }) refl
      (record { bounded = i.bounded; completed = i.completed; counted = i.counted })
step_in-Inv bridging tx_token b i = i
step_in-Inv (transmitting t n) host_pull b i =
    pull-Inv b.to_host (record b { mode = transmitting t n }) i
step_in-Inv (transmitting t n) (rx_buffer bytes) b i =
    receive_transmitting-Inv t n (frame_of_slice bytes) (record b { mode = transmitting t n }) refl
      i
step_in-Inv (transmitting t n) tx_token b i = ground (arith, length-append b.transmitted (t ∷ []))
step_in-Inv (transmitting t n) (host_frame frame) b i = i
step_in-Inv (transmitting_kept t n k) host_pull b i =
    pull-Inv b.to_host (record b { mode = transmitting_kept t n k }) i
step_in-Inv (transmitting_kept t n k) tx_token b i =
    queue-Inv k 0 (transmitted_to_wifi t n (record b { mode = transmitting_kept t n k })) i.bounded
      (ground (arith, length-append b.transmitted (t ∷ []))) (ground arith) (ground arith)
step_in-Inv (transmitting_kept t n k) (rx_buffer bytes) b i = i
step_in-Inv (transmitting_kept t n k) (host_frame frame) b i = i
step_in-Inv (queueing f n) host_pull b i = pull-Inv b.to_host (record b { mode = queueing f n }) i
step_in-Inv (queueing f n) (host_frame frame) b i = record {
  bounded = i.bounded;
  completed = i.completed;
  counted = i.counted;
}
step_in-Inv (queueing f n) (rx_buffer bytes) b i = i
step_in-Inv (queueing f n) tx_token b i = i
step_in-Inv (serving_tx g f n) host_pull b i =
    pull-Inv b.to_host (record b { mode = serving_tx g f n }) i
step_in-Inv (serving_tx g f n) tx_token b i =
    queue-Inv f (u32 (n + 1)) (complete (transmit g (record b { mode = serving_tx g f n })))
      i.bounded (ground (arith, length-append b.transmitted (g ∷ []))) (ground arith) (ground arith)
step_in-Inv (serving_tx g f n) (rx_buffer bytes) b i = i
step_in-Inv (serving_tx g f n) (host_frame frame) b i = i

pub step-Inv : (event : Event) (b : Bridge) → Inv b → Inv (step event b)
unfolding step
step-Inv event b i = step_in-Inv b.mode event b i

wifi_bridge-Inv-from : (events : List Event) (b : Bridge) → Inv b → Inv (wifi_bridge events b)
unfolding wifi_bridge
wifi_bridge-Inv-from [] b i = i
wifi_bridge-Inv-from (event ∷ rest) b i =
    wifi_bridge-Inv-from rest (step event b) (step-Inv event b i)

-- From its start, after any events, the channel to the host holds at most its capacity, exactly one
-- completion was sent for each frame that the radio accepted, and the counters of host frames and
-- of transmitted frames agree with that number modulo 2 ^ 32, as far as the place where the task
-- waits has brought them up to date.
pub wifi_bridge-Inv : (events : List Event) → Inv (wifi_bridge events new_bridge)
wifi_bridge-Inv events = wifi_bridge-Inv-from events new_bridge (omega arith)
