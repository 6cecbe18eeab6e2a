-- ===== src/Exchange/Rounds.antt =====
-- host/src/serial_transport.rs and host/src/nusb_transport.rs: one pass of the loop of
-- `wifi_exchange`: hand over a queued TAP frame, then poll for a WiFi frame.
use lamella.Base.{ℕ, ◌+◌, Option, none, some, List, [], ◌∷◌, Result, ok, err}
use lamella.Icd.{u32, WifiFrame, WifiTransaction, WifiTxResponse, WifiRxResponse}
use lamella.Metrics.{
  record_tx_retry, record_rx_retry, record_tx_stall, record_rx_stall, record_tap_tx,
  record_tap_error,
}
use lamella.Exchange.{
  Request, Exchange, count, Progress, done, stopped, panicked, waiting, Kind, Link, Attempt,
  request_loop,
}

abbrev pub tx_kind : Kind WifiTxResponse
tx_kind = record {
  direction = "WiFi TX";
  backup_direction = "WiFi TX backup";
  record_retry = record_tx_retry;
  record_stall = record_tx_stall;
  transaction_of = λ r. r.transaction;
}

abbrev pub rx_kind : Kind WifiRxResponse
rx_kind = record {
  direction = "WiFi RX";
  backup_direction = "WiFi RX backup";
  record_retry = record_rx_retry;
  record_stall = record_rx_stall;
  transaction_of = λ r. r.transaction;
}

-- What the world does in one pass: `tap_rx.try_recv()`, what becomes of the requests, and the
-- result of `tap_device.send`, if there is a frame to write.
pub record Round (E : Type 0) : Type 0 where
  pub queued : Option WifiFrame
  pub tx_attempts : List (Attempt WifiTxResponse E)
  pub rx_attempts : List (Attempt WifiRxResponse E)
  pub tap_send : Result ℕ E

-- A `return` of the task ends what follows.
abbrev pub and_then :
    {A B : Type 0}
    → (A → Exchange → Exchange × Progress B)
    → Exchange × Progress A
    → Exchange × Progress B
and_then f (x, done a) = f a x
and_then f (x, stopped) = (x, stopped)
and_then f (x, panicked) = (x, panicked)
and_then f (x, waiting) = (x, waiting)

abbrev pub next_transaction : ℕ → Exchange → WifiTransaction
next_transaction session x = record { session = session; id = x.next_transaction_id }

abbrev pub take_id : Exchange → Exchange
take_id x = record x { next_transaction_id = u32 (x.next_transaction_id + 1) }

-- `if let Some(frame) = response.frame { match tap_device.send(&frame.data).await { .. } }`
unfoldable pub write_tap : {E : Type 0} → Result ℕ E → Option WifiFrame → Exchange → Exchange
write_tap tap_send none x = x
write_tap (ok bytes) (some frame) x =
    count (record_tap_tx bytes) (record x { to_tap = frame ∷ x.to_tap })
write_tap (err e) (some frame) x = count record_tap_error x

abbrev pub tx_request : ℕ → WifiFrame → Exchange → Request
tx_request session frame x =
    Request.tx (record { transaction = next_transaction session x; frame = frame })

abbrev pub rx_request : ℕ → Exchange → Request
rx_request session x = Request.rx (record { transaction = next_transaction session x })

module _ {E : Type 0} (link : Link) (session : ℕ) where
  unfoldable pub tx_exchange :
      WifiFrame → List (Attempt WifiTxResponse E) → Exchange → Exchange × Progress WifiTxResponse
  tx_exchange frame attempts x =
      request_loop link tx_kind (next_transaction session x) (tx_request session frame x) attempts
        (take_id x)

  unfoldable pub rx_exchange :
      List (Attempt WifiRxResponse E) → Exchange → Exchange × Progress WifiRxResponse
  rx_exchange attempts x =
      request_loop link rx_kind (next_transaction session x) (rx_request session x) attempts
        (take_id x)

  unfoldable pub rx_part : Round E → Exchange → Exchange × Progress (Unit {0})
  unfolding write_tap rx_exchange
  rx_part round x =
      and_then (λ response x'. (write_tap round.tap_send response.frame x', done tt))
        (rx_exchange round.rx_attempts x)

  unfoldable pub tx_part : Option WifiFrame → Round E → Exchange → Exchange × Progress (Unit {0})
  unfolding tx_exchange
  tx_part none round x = (x, done tt)
  tx_part (some frame) round x =
      and_then (λ response x'. (x', done tt)) (tx_exchange frame round.tx_attempts x)

  unfoldable pub exchange_round : Round E → Exchange → Exchange × Progress (Unit {0})
  unfolding tx_part rx_part
  exchange_round round x = and_then (λ _ x'. rx_part round x') (tx_part round.queued round x)

  unfoldable pub exchange_rounds : List (Round E) → Exchange → Exchange × Progress (Unit {0})
  unfolding exchange_round
  exchange_rounds [] x = (x, waiting)
  exchange_rounds (round ∷ rest) x =
      and_then (λ _ x'. exchange_rounds rest x') (exchange_round round x)
