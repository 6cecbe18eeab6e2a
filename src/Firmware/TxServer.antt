-- ===== src/Firmware/TxServer.antt =====
-- firmware-c3/src/bin/main.rs: `wifi_tx_server`, which takes one host frame at a time, and
-- `send_tx_response`.
use lamella.Base.{
  Bool, true, false, Option, none, some, List, [], ◌∷◌, Result, ok, err, if◌then◌else◌, not,
}
use lamella.Icd.{WifiFrame, WifiTransaction, WifiTxRequest, WifiTxResponse, same_transaction}

-- The task's variable, and the frames that it has handed to the WiFi bridge by
-- `HOST_TO_WIFI_CHANNEL` and whose completion it has awaited, the newest first.
pub record TxServer : Type 0 where
  pub last_completed : Option WifiTransaction
  pub handed : List WifiFrame

abbrev pub new_tx_server : TxServer
new_tx_server = record { last_completed = none; handed = [] }

-- `last_completed == Some(transaction)`.
abbrev pub is_last : Option WifiTransaction → WifiTransaction → Bool
is_last none transaction = false
is_last (some last) transaction = same_transaction last transaction

-- A request that is received: the frame is handed over unless its transaction was the last
-- completed, and in both cases the response is sent.
unfoldable pub serve_tx : WifiTxRequest → TxServer → TxServer × WifiTxResponse
serve_tx request server =
    let transaction = request.transaction in
    (
      if not (is_last server.last_completed transaction)
          then record { last_completed = some transaction; handed = request.frame ∷ server.handed }
          else server,
      record { transaction = transaction },
    )

-- The loop of the task, over what `recv_manual` returns: the responses, in the order of sending.
unfoldable pub wifi_tx_server :
    {E : Type 0} → List (Result WifiTxRequest E) → TxServer → TxServer × List WifiTxResponse
unfolding serve_tx
wifi_tx_server [] server = (server, [])
wifi_tx_server (err e ∷ rest) server = wifi_tx_server rest server
wifi_tx_server (ok request ∷ rest) server =
    let (server', response) = serve_tx request server in
    let (last, responses) = wifi_tx_server rest server' in (last, response ∷ responses)

-- What `STACK.send_ty` returns.
pub data SendResult : Type 0 where
  sent interface_full failed : SendResult

-- `true`: the response was sent; `false`: given up; `none`: still waiting for room in the queue.
unfoldable pub send_tx_response : List SendResult → Option Bool
send_tx_response [] = none
send_tx_response (sent ∷ rest) = some true
send_tx_response (interface_full ∷ rest) = send_tx_response rest
send_tx_response (failed ∷ rest) = some false
