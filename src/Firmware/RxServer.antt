-- ===== src/Firmware/RxServer.antt =====
-- firmware-c3/src/bin/main.rs: `wifi_rx_server`, which answers the host's polls for WiFi frames.
use lamella.Base.{Option, none, some, List, [], ◌∷◌, if◌then◌else◌}
use lamella.Icd.{WifiFrame, WifiRxRequest, WifiRxResponse, same_transaction}

-- The task's variable, the frames in `WIFI_TO_HOST_CHANNEL`, the oldest first, and what each new
-- poll has taken from it, the newest first.
pub record RxServer : Type 0 where
  pub cached_response : Option WifiRxResponse
  pub queue : List WifiFrame
  pub taken : List (Option WifiFrame)

abbrev pub new_rx_server : RxServer
new_rx_server = record { cached_response = none; queue = []; taken = [] }

-- `try_receive`, then `select(receive, Timer::after(2 ms))`: `arrival` is the frame that comes into
-- the empty queue before the timer, if one does.
abbrev pub next_frame : Option WifiFrame → List WifiFrame → Option WifiFrame
next_frame arrival [] = arrival
next_frame arrival (frame ∷ queue) = some frame

abbrev pub tail : List WifiFrame → List WifiFrame
tail [] = []
tail (frame ∷ queue) = queue

abbrev pub answer_new : Option WifiFrame → WifiRxRequest → RxServer → RxServer × WifiRxResponse
answer_new arrival request server =
    let response : WifiRxResponse = record {
      transaction = request.transaction;
      frame = next_frame arrival server.queue;
    } in
    (
      record {
        cached_response = some response;
        queue = tail server.queue;
        taken = response.frame ∷ server.taken;
      },
      response,
    )

abbrev pub answer_cached :
    Option WifiRxResponse → Option WifiFrame → WifiRxRequest → RxServer → RxServer × WifiRxResponse
answer_cached none arrival request server = answer_new arrival request server
answer_cached (some response) arrival request server =
    if same_transaction response.transaction request.transaction
    then (server, response)
    else answer_new arrival request server

-- The closure that `hdl.serve` runs for one request.
unfoldable pub serve_rx : Option WifiFrame → WifiRxRequest → RxServer → RxServer × WifiRxResponse
serve_rx arrival request server = answer_cached server.cached_response arrival request server
