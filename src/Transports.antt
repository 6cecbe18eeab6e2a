-- ===== src/Transports.antt =====
-- host/src/serial_transport.rs and host/src/nusb_transport.rs: the two exchange tasks with their own
-- links.
use lamella.Base.{ℕ, ◌+◌, Option, none, some, List, [], ◌∷◌, ◌≡◌, ◌≢◌, refl}
use lamella.Icd.{u32, WifiFrame, WifiTxResponse, WifiRxResponse}
use lamella.Metrics.{record_recovery_timeout}
use lamella.Exchange.{Exchange, Progress, done, stopped, panicked, waiting, Attempt}
use lamella.Exchange.Retry.{request_loop_calm}
use lamella.Exchange.Rounds.{
  Round, and_then, tx_part, rx_part, tx_exchange, rx_exchange, exchange_rounds, tx_request,
  rx_request, next_transaction, take_id, tx_kind, rx_kind, write_tap,
}
use lamella.Exchange.Delivery.{IsQuiet, Repeated, tx_exchange-sends, rx_part-delivers, written}
use lamella.SerialTransport.{serial_link}
use lamella.NusbTransport.{nusb_link, nusb_wifi_exchange}

pub serial_link-IsQuiet : IsQuiet serial_link
serial_link-IsQuiet = record {
  drop_requests = λ d x. refl;
  drop_frames = λ d x. refl;
  drop_ids = λ d x. refl;
  recovery_counts = λ retry stall d x. ((λ m. record_recovery_timeout (stall d (retry m))), refl);
}

pub nusb_link-IsQuiet : IsQuiet nusb_link
nusb_link-IsQuiet = record {
  drop_requests = λ d x. refl;
  drop_frames = λ d x. refl;
  drop_ids = λ d x. refl;
  recovery_counts = λ retry stall d x. ((λ m. m), refl);
}

-- On the serial transport, handing over one frame sends nothing but copies of one request, which
-- holds the frame and the next transaction id, writes nothing to the TAP device, and takes one id,
-- with wrap-around; so fault injection, backups, retries and recovery reuse one transaction.
pub serial_tx-sends :
    {E : Type 0} (session : ℕ) (x : Exchange) (frame : WifiFrame)
    (attempts : List (Attempt WifiTxResponse E))
    → let y = (tx_exchange serial_link session frame attempts x).0 in
      Repeated (tx_request session frame x) x.requests y.requests
      × (y.to_tap ≡ x.to_tap)
      × (y.next_transaction_id ≡ u32 (x.next_transaction_id + 1))
serial_tx-sends session x frame attempts =
    tx_exchange-sends serial_link serial_link-IsQuiet session x frame attempts

-- On the USB transport a finished poll has accepted a response to its own transaction, and wrote
-- that response's frame to the TAP device, once if there is one and the device took it, and nothing
-- else.
pub nusb_rx-delivers :
    {E : Type 0} (session : ℕ) (x : Exchange) (round : Round E)
    → (rx_part nusb_link session round x).1 ≡ done tt
    → (r : WifiRxResponse) × ((rx_exchange nusb_link session round.rx_attempts x).1 ≡ done r)
      × (r.transaction ≡ next_transaction session x)
      × ((rx_part nusb_link session round x).0.to_tap ≡ written round.tap_send r.frame x.to_tap)
nusb_rx-delivers session x round h = rx_part-delivers nusb_link nusb_link-IsQuiet session x round h

-- On the serial transport a finished poll has accepted a response to its own transaction, and wrote
-- that response's frame to the TAP device, once if there is one and the device took it, and nothing
-- else.
pub serial_rx-delivers :
    {E : Type 0} (session : ℕ) (x : Exchange) (round : Round E)
    → (rx_part serial_link session round x).1 ≡ done tt
    → (r : WifiRxResponse) × ((rx_exchange serial_link session round.rx_attempts x).1 ≡ done r)
      × (r.transaction ≡ next_transaction session x)
      × ((rx_part serial_link session round x).0.to_tap ≡ written round.tap_send r.frame x.to_tap)
serial_rx-delivers session x round h =
    rx_part-delivers serial_link serial_link-IsQuiet session x round h

and_then_calm :
    {A B : Type 0} (f : A → Exchange → Exchange × Progress B) (p : Exchange × Progress A)
    → ((a : A) (x : Exchange) → (f a x).1 ≢ panicked)
    → p.1 ≢ panicked
    → (and_then f p).1 ≢ panicked
and_then_calm f (x, done a) calm h e = calm a x e
and_then_calm f (x, stopped) calm h e = cc
and_then_calm f (x, panicked) calm h e = h refl
and_then_calm f (x, waiting) calm h e = cc

module _ {E : Type 0} (session : ℕ) where
  tx_part_calm :
      (frame : Option WifiFrame) (round : Round E) (x : Exchange)
      → (tx_part nusb_link session frame round x).1 ≢ panicked
  unfolding tx_part tx_exchange
  tx_part_calm none round x e = cc
  tx_part_calm (some frame) round x e =
      and_then_calm (λ response x'. (x', done tt))
        (tx_exchange nusb_link session frame round.tx_attempts x) (λ a y e'. cc)
        (request_loop_calm nusb_link tx_kind (next_transaction session x)
          (tx_request session frame x) refl round.tx_attempts (take_id x))
        e

  rx_part_calm : (round : Round E) (x : Exchange) → (rx_part nusb_link session round x).1 ≢ panicked
  unfolding rx_part rx_exchange
  rx_part_calm round x =
      and_then_calm (λ response x'. (write_tap round.tap_send response.frame x', done tt))
        (rx_exchange nusb_link session round.rx_attempts x) (λ a y e. cc)
        (request_loop_calm nusb_link rx_kind (next_transaction session x) (rx_request session x)
          refl round.rx_attempts (take_id x))

  rounds_calm :
      (rounds : List (Round E)) (x : Exchange)
      → (exchange_rounds nusb_link session rounds x).1 ≢ panicked
  unfolding exchange_rounds
  rounds_calm [] x e = cc
  rounds_calm (round ∷ rest) x e =
      and_then_calm (λ _ x'. exchange_rounds nusb_link session rest x') _
        (λ _ x'. rounds_calm rest x')
        (and_then_calm (λ _ x'. rx_part nusb_link session round x') _
          (λ _ x'. rx_part_calm round x') (tx_part_calm round.queued round x))
        e

-- The `unreachable!` of the USB transport's exchange task is not reached, in any number of passes
-- and whatever becomes of the requests.
pub nusb_wifi_exchange_calm :
    {E : Type 0} (nanos process_id : ℕ) (rounds : List (Round E)) (x : Exchange)
    → (nusb_wifi_exchange nanos process_id rounds x).1 ≢ panicked
unfolding nusb_wifi_exchange
nusb_wifi_exchange_calm nanos process_id rounds x = rounds_calm _ rounds _
