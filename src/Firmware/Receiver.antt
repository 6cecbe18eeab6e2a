-- ===== src/Firmware/Receiver.antt =====
-- firmware-c3/src/bin/main.rs: `wifi_rx_server` and `wifi_bridge`, which share
-- `WIFI_TO_HOST_CHANNEL`: a poll takes its frame from the bridge's channel, and the bridge runs while
-- the poll waits.
pub mod Pulled
use lamella.Base.{Bool, true, false, Option, none, some, List, [], ◌∷◌, ◌++◌, if◌then◌else◌}
use lamella.Icd.{WifiFrame, WifiRxRequest, WifiRxResponse, same_transaction}
use lamella.Firmware.RxServer.{RxServer, serve_rx}
use lamella.Firmware.Bridge.{
  Bridge, new_bridge, Event, tx_token, rx_buffer, host_frame, host_pull, ready_to_send, step,
  wifi_bridge,
}
use lamella.Firmware.Bridge.Frames.{received}

-- The server's variable, what its polls have taken, the newest first, the bridge with the channel,
-- and the frames that the bridge has received, the oldest first.
pub record Receiver : Type 0 where
  pub cached_response : Option WifiRxResponse
  pub taken : List (Option WifiFrame)
  pub bridge : Bridge
  pub heard : List WifiFrame

abbrev pub new_receiver : Receiver
new_receiver = record { cached_response = none; taken = []; bridge = new_bridge; heard = [] }

abbrev pub rx_server : Receiver → RxServer
rx_server s = record {
  cached_response = s.cached_response;
  queue = s.bridge.to_host;
  taken = s.taken;
}

-- What happens at the bridge, apart from a poll.
abbrev pub no_pulls : List Event → List Event
no_pulls [] = []
no_pulls (host_pull ∷ rest) = no_pulls rest
no_pulls (tx_token ∷ rest) = tx_token ∷ no_pulls rest
no_pulls (rx_buffer bytes ∷ rest) = rx_buffer bytes ∷ no_pulls rest
no_pulls (host_frame frame ∷ rest) = host_frame frame ∷ no_pulls rest
no_pulls (ready_to_send ∷ rest) = ready_to_send ∷ no_pulls rest

unfoldable pub listen : List Event → Receiver → Receiver
listen events s = record s {
  bridge = wifi_bridge (no_pulls events) s.bridge;
  heard = s.heard ++ received (no_pulls events) s.bridge;
}

-- A poll on an empty channel waits for 2 ms, in which `wait` happens at the bridge.
abbrev pub waited : List Event → List WifiFrame → Receiver → Receiver
waited wait [] s = listen wait s
waited wait (frame ∷ queue) s = s

abbrev pub head : List WifiFrame → Option WifiFrame
head [] = none
head (frame ∷ queue) = some frame

abbrev pub repeats : Option WifiRxResponse → WifiRxRequest → Bool
repeats none q = false
repeats (some r) q = same_transaction r.transaction q.transaction

abbrev pub answer_poll : List Event → WifiRxRequest → Receiver → Receiver × WifiRxResponse
answer_poll wait q s =
    let s1 = waited wait s.bridge.to_host s in
    let (rx, response) = serve_rx (head s1.bridge.to_host) q (rx_server s) in
    (
      record s1 {
        cached_response = rx.cached_response;
        taken = rx.taken;
        bridge = step host_pull s1.bridge;
      },
      response,
    )

unfoldable pub serve_poll : List Event → WifiRxRequest → Receiver → Receiver × WifiRxResponse
unfolding serve_rx listen
serve_poll wait q s =
    if repeats s.cached_response q
    then (s, (serve_rx none q (rx_server s)).1)
    else answer_poll wait q s
