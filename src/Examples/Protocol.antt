-- ===== src/Examples/Protocol.antt =====
-- A transaction in each direction: a request that is sent twice, of which the server answers both,
-- and the host accepts the first response.
use lamella.Base.{none, some, List, [], ◌∷◌, ◌≡◌, ◌⊎◌, refl, arith}
use lamella.Icd.{
  WifiFrame, WifiTransaction, WifiTxRequest, WifiTxResponse, WifiRxRequest, WifiRxResponse,
}
use lamella.Firmware.TxServer.{TxServer, new_tx_server, serve_tx}
use lamella.Firmware.RxServer.{RxServer, new_rx_server, serve_rx}
use lamella.Protocol.Defs.{System, Reach, start, later, begin, send, serve_one, accept}
use lamella.Protocol.Services.{tx_service, rx_service}
use lamella.Protocol.ExactlyOnce.{initial, frames_of, tx_exactly_once, tx_at_most_once}

abbrev a_frame : WifiFrame
a_frame = record { bytes = 5 ∷ [] }

abbrev first : WifiTransaction
first = record { session = 11; id = 0 }

abbrev tx_request : WifiTxRequest
tx_request = record { transaction = first; frame = a_frame }

abbrev tx_end : System WifiTxRequest WifiTxResponse TxServer
tx_end = record {
  next = 1;
  current = none;
  begun = tx_request ∷ [];
  results = (tx_request, record { transaction = first }) ∷ [];
  requests = [];
  responses = record { transaction = first } ∷ [];
  server = record { last_completed = some first; handed = a_frame ∷ [] };
}

tx-Reach : Reach tx_service 11 (initial new_tx_server) tx_end
unfolding serve_tx
tx-Reach =
    later
      (later
        (later
          (later (later (later start (begin tx_request refl refl)) (send tx_request refl))
            (send tx_request refl))
          (serve_one tt tx_request (tx_request ∷ []) refl))
        (serve_one tt tx_request [] refl))
      (accept tx_request (record { transaction = first }) (record { transaction = first } ∷ []) refl
        refl refl)

tx_exactly_once_example : tx_end.server.handed ≡ frames_of tx_end.begun
tx_exactly_once_example = tx_exactly_once 11 tx_end tx-Reach (omega arith) refl

tx_at_most_once_example :
    (tx_end.server.handed ≡ frames_of tx_end.begun)
    ⊎ ((q : WifiTxRequest) × (older : List WifiTxRequest) × (tx_end.begun ≡ q ∷ older)
        × (tx_end.server.handed ≡ frames_of older))
tx_at_most_once_example = tx_at_most_once 11 tx_end tx-Reach (omega arith)

abbrev rx_request : WifiRxRequest
rx_request = record { transaction = first }

abbrev rx_response : WifiRxResponse
rx_response = record { transaction = first; frame = some a_frame }

abbrev rx_end : System WifiRxRequest WifiRxResponse RxServer
rx_end = record {
  next = 1;
  current = none;
  begun = rx_request ∷ [];
  results = (rx_request, rx_response) ∷ [];
  requests = [];
  responses = rx_response ∷ [];
  server = record { cached_response = some rx_response; queue = []; taken = some a_frame ∷ [] };
}

rx-Reach : Reach rx_service 11 (initial new_rx_server) rx_end
unfolding serve_rx
rx-Reach =
    later
      (later
        (later
          (later (later (later start (begin rx_request refl refl)) (send rx_request refl))
            (send rx_request refl))
          (serve_one (some a_frame) rx_request (rx_request ∷ []) refl))
        (serve_one none rx_request [] refl))
      (accept rx_request rx_response (rx_response ∷ []) refl refl refl)
