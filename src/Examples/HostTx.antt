-- ===== src/Examples/HostTx.antt =====
-- A pass of the host's loop that hands a frame over, and then polls.
use lamella.Base.{ℕ, some, [], ◌∷◌, ok}
use lamella.Icd.{WifiFrame, WifiTxResponse, WifiRxResponse, WifiTxRequest}
use lamella.Bridge.Wait.{primary_ready}
use lamella.Exchange.{Address, Exchange}
use lamella.Exchange.Rounds.{Round}
use lamella.Faults.{default_injector}
use lamella.Metrics.{default_metrics}
use lamella.Firmware.TxServer.{new_tx_server}
use lamella.Protocol.Client.{accepted}
use lamella.Protocol.ExactlyOnce.{initial}
use lamella.Protocol.Turns.{begun_with, skipped}
use lamella.Protocol.HostTx.{TxSystem}

abbrev pub peer : Address
peer = record { network_id = 1; node_id = 2; port_id = 0 }

abbrev pub a_frame : WifiFrame
a_frame = record { bytes = 5 ∷ 6 ∷ [] }

abbrev pub new_exchange : Exchange
new_exchange = record {
  next_transaction_id = 0;
  metrics = default_metrics;
  fault_injector = default_injector;
  requests = [];
  to_tap = [];
}

abbrev tx_response : WifiTxResponse
tx_response = record { transaction = record { session = 7; id = 0 } }

abbrev pub rx_response : WifiRxResponse
rx_response = record { transaction = record { session = 7; id = 1 }; frame = some a_frame }

abbrev pub a_pass : Round ℕ
a_pass = record {
  queued = some a_frame;
  tx_attempts = record { peer = peer; schedule = (5, primary_ready (ok tx_response)) ∷ [] } ∷ [];
  rx_attempts = record { peer = peer; schedule = (9, primary_ready (ok rx_response)) ∷ [] } ∷ [];
  tap_send = ok 2;
}

abbrev request : WifiTxRequest
request = record { transaction = record { session = 7; id = 0 }; frame = a_frame }

-- The request is sent; it is served; the response is read.

abbrev began : TxSystem
began = begun_with request (initial new_tx_server)

abbrev sent : TxSystem
sent = record began { requests = request ∷ [] }

abbrev served : TxSystem
served = record began {
  responses = tx_response ∷ [];
  server = record { last_completed = some tx_response.transaction; handed = a_frame ∷ [] };
}

abbrev response_read : TxSystem
response_read = record served { responses = [] }

abbrev end : TxSystem
end = skipped (accepted request tx_response response_read)
