-- ===== src/Examples/EndToEnd.antt =====
-- A poll of the host that brings a frame from the radio: it is repeated, and the server answers both.
use lamella.Base.{none, List, [], ◌∷◌, ◌++◌, ◌≡◌, refl, arith}
use lamella.Icd.{WifiRxRequest, WifiRxResponse}
use lamella.Firmware.RxServer.{serve_rx}
use lamella.Firmware.Bridge.{Event, rx_buffer}
use lamella.Firmware.Bridge.Frames.{held}
use lamella.Firmware.Receiver.{Receiver, new_receiver, listen, serve_poll}
use lamella.Protocol.Defs.{System, Reach, start, later, begin, send, background, serve_one, accept}
use lamella.Protocol.Receiving.{receiver_service}
use lamella.Protocol.EndToEnd.{arrived, radio_to_host}
use lamella.Protocol.ExactlyOnce.{initial, delivered}

abbrev poll : WifiRxRequest
poll = record { transaction = record { session = 11; id = 0 } }

-- Two frames come; the first poll takes one of them.
abbrev heard_events : List Event
heard_events = rx_buffer (5 ∷ []) ∷ rx_buffer (6 ∷ []) ∷ []

abbrev served : Receiver × WifiRxResponse
served = serve_poll [] poll (listen heard_events new_receiver)

abbrev end : System WifiRxRequest WifiRxResponse Receiver
end = record {
  next = 1;
  current = none;
  begun = poll ∷ [];
  results = (poll, served.1) ∷ [];
  requests = [];
  responses = (serve_poll [] poll served.0).1 ∷ [];
  server = (serve_poll [] poll served.0).0;
}

end-Reach : Reach receiver_service 11 (initial new_receiver) end
unfolding serve_poll serve_rx listen
end-Reach =
    later
      (later
        (later
          (later
            (later (later (later start (begin poll refl refl)) (send poll refl)) (send poll refl))
            (background (listen heard_events new_receiver) (heard_events, refl)))
          (serve_one [] poll (poll ∷ []) refl))
        (serve_one [] poll [] refl))
      (accept poll served.1 ((serve_poll [] poll served.0).1 ∷ []) refl refl refl)

radio_to_host_example :
    arrived (delivered end.results) ++ (end.server.bridge.to_host ++ held end.server.bridge.mode)
    ≡ end.server.heard
radio_to_host_example = radio_to_host 11 end end-Reach (omega arith) refl
