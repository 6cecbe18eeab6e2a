-- ===== src/Examples/HostRx.antt =====
-- A pass of the host's loop whose poll brings a frame from the radio to the TAP device.
use lamella.Base.{inl, List, [], ◌∷◌, ◌++◌, ◌≡◌, refl, ok, arith}
use lamella.Icd.{WifiRxRequest}
use lamella.Bridge.Wait.{primary_ready, await_endpoint_response}
use lamella.Exchange.{Request, send_request, request_loop}
use lamella.Exchange.Rounds.{exchange_round, tx_part, rx_part, exchange_rounds}
use lamella.NusbTransport.{nusb_link}
use lamella.Transports.{nusb_link-IsQuiet}
use lamella.Firmware.RxServer.{serve_rx}
use lamella.Firmware.Bridge.{Event, rx_buffer, wifi_bridge}
use lamella.Firmware.Bridge.Frames.{held}
use lamella.Firmware.Receiver.{new_receiver, listen, serve_poll}
use lamella.Firmware.Device.Handover.{oldest_first}
use lamella.Protocol.Defs.{serve_one, background}
use lamella.Protocol.Client.{accepted, here, and_step, carry}
use lamella.Protocol.Client.Loop.{last_pass}
use lamella.Protocol.ExactlyOnce.{initial}
use lamella.Protocol.Turns.{begun_with, skipped}
use lamella.Protocol.HostRx.{RxSystem, RxPlays, no_rounds, one_round, radio_to_tap}
use lamella.Examples.HostTx.{peer, a_pass, new_exchange, rx_response}

abbrev poll : WifiRxRequest
poll = record { transaction = record { session = 7; id = 1 } }

-- Two frames come from the radio; the poll takes the first.
abbrev heard_events : List Event
heard_events = rx_buffer (5 ∷ 6 ∷ []) ∷ rx_buffer (8 ∷ []) ∷ []

abbrev listening : RxSystem
listening = skipped (record (initial new_receiver) { server = listen heard_events new_receiver })

abbrev began : RxSystem
began = begun_with poll listening

abbrev served : RxSystem
served = record began { responses = rx_response ∷ []; server = (serve_poll [] poll began.server).0 }

abbrev response_read : RxSystem
response_read = record served { responses = [] }

abbrev end : RxSystem
end = accepted poll rx_response response_read

plays : RxPlays nusb_link 7 new_exchange (initial new_receiver) (a_pass ∷ []) end
unfolding request_loop exchange_round tx_part rx_part await_endpoint_response send_request serve_rx
    serve_poll listen wifi_bridge
plays =
    one_round a_pass rx_response
      (record {
        between = record (initial new_receiver) { server = listen heard_events new_receiver };
        env = and_step here (background (listen heard_events new_receiver) (heard_events, refl)) tt;
        skips = refl;
      })
      (record {
        between = listening;
        env = here;
        over = response_read;
        played = last_pass _ (record {
          before = [];
          now = 9;
          last = primary_ready (ok rx_response);
          split = refl;
          waits = refl;
          handed = (peer, Request.rx poll) ∷ [];
          hands = refl;
          between = served;
          env = and_step (carry here poll (peer, inl refl)) (serve_one [] poll [] refl) tt;
          reads = ([], refl, refl);
        });
        ended = refl;
        accepts = refl;
      })
      refl tt (no_rounds here)

radio_to_tap_example :
    oldest_first (exchange_rounds nusb_link 7 (a_pass ∷ []) new_exchange).0.to_tap
      ++ (end.server.bridge.to_host ++ held end.server.bridge.mode)
    ≡ end.server.heard
radio_to_tap_example =
    radio_to_tap nusb_link nusb_link-IsQuiet 7 new_exchange (a_pass ∷ []) end refl refl plays
      (omega arith)
