-- ===== src/Firmware/Device/Passing.antt =====
-- firmware-c3/src/bin/main.rs: what one step of `wifi_bridge` does with the host's frame.
use lamella.Base.{ℕ, ◌+◌, Option, none, some, List, [], ◌∷◌, ◌++◌, ◌≡◌, ◌⊎◌, inl, inr, refl}
use lamella.Icd.{u32, WifiFrame, frame_of_slice}
use lamella.Firmware.Bridge.{
  Mode, bridging, transmitting, transmitting_kept, queueing, serving_tx, Bridge, tx_token,
  queue_wifi_frame_while_serving_tx, step_in, step, complete, transmitted_to_wifi, transmit,
  pull_from, receive_while_bridging, receive_while_transmitting,
}
use lamella.Firmware.Bridge.Frames.{try_send-cases}
use lamella.Firmware.Bridge.Radio.{outgoing}
use lamella.Firmware.Device.{Waking, token, buffer, pulled, room, event_of}

-- The frame under way stays where it was, or the radio accepts it.
abbrev pub Passes : Mode → List WifiFrame → Bridge → Type 0
Passes mode transmitted c =
    ((c.transmitted ≡ transmitted) × (outgoing c.mode ≡ outgoing mode))
    ⊎ ((f : WifiFrame) × (outgoing mode ≡ f ∷ [])
        × (outgoing c.mode ≡ [])
        × (c.transmitted ≡ transmitted ++ f ∷ []))

queue-Quiet :
    (frame : WifiFrame) (n : ℕ) (b : Bridge)
    → ((queue_wifi_frame_while_serving_tx frame n b).transmitted ≡ b.transmitted)
      × (outgoing (queue_wifi_frame_while_serving_tx frame n b).mode ≡ [])
unfolding queue_wifi_frame_while_serving_tx
queue-Quiet frame n b = elim (try_send-cases frame b.to_host) [
  | inl full ↦ rw full (refl, refl)
  | inr sent ↦ rw sent (refl, refl)
]

pull_from-Passes : (l : List WifiFrame) (b : Bridge) → Passes b.mode b.transmitted (pull_from l b)
pull_from-Passes [] b = inl (refl, refl)
pull_from-Passes (f ∷ l) b = inl (refl, refl)

receive_bridging-Passes :
    (o : Option WifiFrame) (b : Bridge)
    → Passes bridging b.transmitted (receive_while_bridging o (record b { mode = bridging }))
receive_bridging-Passes none b = inl (refl, refl)
receive_bridging-Passes (some f) b = inl (queue-Quiet f 0 (record b { mode = bridging }))

receive_transmitting-Passes :
    (t : WifiFrame) (n : ℕ) (o : Option WifiFrame) (b : Bridge)
    → Passes
        (transmitting t n)
        b.transmitted
        (receive_while_transmitting t n o (record b { mode = transmitting t n }))
receive_transmitting-Passes t n none b = inl (refl, refl)
receive_transmitting-Passes t n (some f) b = elim (try_send-cases f b.to_host) [
  | inl full ↦ rw full (inl (refl, refl))
  | inr sent ↦ rw sent (inl (refl, refl))
]

step_in-Passes :
    (mode : Mode) (w : Waking) (b : Bridge)
    → Passes mode b.transmitted (step_in mode (event_of w) (record b { mode = mode }))
unfolding step_in
step_in-Passes mode pulled b = pull_from-Passes b.to_host (record b { mode = mode })
step_in-Passes bridging token b = inl (refl, refl)
step_in-Passes bridging (buffer bytes) b =
    receive_bridging-Passes (frame_of_slice bytes)
      (record b { wifi_rx_count = u32 (b.wifi_rx_count + 1) })
step_in-Passes bridging room b = inl (refl, refl)
step_in-Passes (transmitting t n) token b = inr (t, refl, refl, refl)
step_in-Passes (transmitting t n) (buffer bytes) b =
    receive_transmitting-Passes t n (frame_of_slice bytes) b
step_in-Passes (transmitting t n) room b = inl (refl, refl)
step_in-Passes (transmitting_kept t n k) token b =
    let c = transmitted_to_wifi t n (record b { mode = transmitting_kept t n k }) in
    inr (t, refl, (queue-Quiet k 0 c).1, (queue-Quiet k 0 c).0)
step_in-Passes (transmitting_kept t n k) (buffer bytes) b = inl (refl, refl)
step_in-Passes (transmitting_kept t n k) room b = inl (refl, refl)
step_in-Passes (queueing f n) token b = inl (refl, refl)
step_in-Passes (queueing f n) (buffer bytes) b = inl (refl, refl)
step_in-Passes (queueing f n) room b = inl (queue-Quiet f n (record b { mode = queueing f n }))
step_in-Passes (serving_tx g f n) token b =
    let c = complete (transmit g (record b { mode = serving_tx g f n })) in
    inr (g, refl, (queue-Quiet f (u32 (n + 1)) c).1, (queue-Quiet f (u32 (n + 1)) c).0)
step_in-Passes (serving_tx g f n) (buffer bytes) b = inl (refl, refl)
step_in-Passes (serving_tx g f n) room b = inl (refl, refl)

pub step-Passes : (w : Waking) (b : Bridge) → Passes b.mode b.transmitted (step (event_of w) b)
unfolding step
step-Passes w b = step_in-Passes b.mode w b

-- A token is all that a frame under way waits for.
token_in :
    (mode : Mode) (b : Bridge) (f : WifiFrame)
    → outgoing mode ≡ f ∷ []
    → outgoing (step_in mode tx_token (record b { mode = mode })).mode ≡ []
unfolding step_in
token_in bridging b f e = refl
token_in (transmitting t n) b f e = refl
token_in (transmitting_kept t n k) b f e =
    (queue-Quiet k 0 (transmitted_to_wifi t n (record b { mode = transmitting_kept t n k }))).1
token_in (queueing k n) b f e = refl
token_in (serving_tx g k n) b f e =
    (queue-Quiet k (u32 (n + 1)) (complete (transmit g (record b { mode = serving_tx g k n })))).1

pub step_token :
    (b : Bridge) (f : WifiFrame) → outgoing b.mode ≡ f ∷ [] → outgoing (step tx_token b).mode ≡ []
unfolding step
step_token b f e = token_in b.mode b f e
