-- ===== src/TestMode/Channel.antt =====
-- host/src/test_mode.rs: `ChannelDevice`, the network stack's device over two queues.
use lamella.Base.{ℕ, zero, suc, Bool, Option, none, some, List, [], ◌∷◌, ◌++◌, if◌then◌else◌}

-- The queue of received frames, the frames sent with the oldest first, and the MTU.
pub record ChannelDevice : Type 0 where
  pub rx_queue : List (List ℕ)
  pub tx_sent : List (List ℕ)
  pub mtu : ℕ

unfoldable pub new_device : List (List ℕ) → ℕ → ChannelDevice
new_device rx_queue mtu = record { rx_queue = rx_queue; tx_sent = []; mtu = mtu }

-- The receive token holds the frame.
abbrev pub pop_front : List (List ℕ) → ChannelDevice → Option (List ℕ × ChannelDevice)
pop_front [] device = none
pop_front (frame ∷ queue) device = some (frame, record device { rx_queue = queue })

unfoldable pub receive : ChannelDevice → Option (List ℕ × ChannelDevice)
receive device = pop_front device.rx_queue device

abbrev pub zeros : ℕ → List ℕ
zeros zero = []
zeros (suc n) = 0 ∷ zeros n

-- `ChannelTxToken::consume`: `fill` writes the buffer, and the channel may be closed.
unfoldable pub consume_tx :
    {R : Type 0} → Bool → ℕ → (List ℕ → List ℕ × R) → ChannelDevice → R × ChannelDevice
consume_tx is_open len fill device =
    let (buffer, result) = fill (zeros len) in
    (result, if is_open then record device { tx_sent = device.tx_sent ++ buffer ∷ [] } else device)
