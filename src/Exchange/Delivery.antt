-- ===== src/Exchange/Delivery.antt =====
-- host/src/serial_transport.rs and host/src/nusb_transport.rs: what one pass of `wifi_exchange`
-- sends, and what it delivers to the TAP device.
use Prim.Native.String.{String}
use lamella.Base.{
  ℕ, ◌+◌, Option, none, some, List, ◌∷◌, ◌≡◌, refl, Result, ok, err, Bool-cases, inl, inr, sym,
  subst, ◌∙◌, ap,
}
use lamella.Icd.{u32, WifiFrame, WifiTransaction, WifiTxResponse, WifiRxResponse}
use lamella.Metrics.{BridgeMetrics}
use lamella.Exchange.{
  Address, Request, Exchange, count, Progress, done, stopped, panicked, waiting, Kind, Link,
  Attempt, send_request, request_loop,
}
use lamella.Exchange.Retry.{request_loop-keeps, request_loop-accepts}
use lamella.Exchange.Rounds.{
  tx_kind, rx_kind, tx_request, rx_request, next_transaction, take_id, tx_exchange, rx_exchange,
  write_tap, rx_part, Round, and_then,
}

-- Fault injection and giving up touch neither the requests, nor the frames, nor the counter of ids.
pub record IsQuiet (link : Link) : Type 0 where
  pub drop_requests : (d : String) (x : Exchange) → (link.should_drop d x).0.requests ≡ x.requests
  pub drop_frames : (d : String) (x : Exchange) → (link.should_drop d x).0.to_tap ≡ x.to_tap
  pub drop_ids :
      (d : String) (x : Exchange)
      → (link.should_drop d x).0.next_transaction_id ≡ x.next_transaction_id
  pub recovery_counts :
      (retry : BridgeMetrics → BridgeMetrics) (stall : ℕ → BridgeMetrics → BridgeMetrics) (d : ℕ)
      (x : Exchange)
      → (f : BridgeMetrics → BridgeMetrics) × (link.on_recovery retry stall d x ≡ count f x)

-- `now` is `old` with copies of `request` before it, each to some address.
pub data Repeated (request : Request) (old : List (Address × Request))
    : List (Address × Request) → Type 0 where
  none_sent : Repeated request old old
  one_sent :
      {l : List (Address × Request)} (peer : Address)
      → Repeated request old l
      → Repeated request old ((peer, request) ∷ l)

-- What the retry loop leaves of the state that it was started in.
pub record Kept (request : Request) (x y : Exchange) : Type 0 where
  pub sent : Repeated request x.requests y.requests
  pub frames : y.to_tap ≡ x.to_tap
  pub ids : y.next_transaction_id ≡ x.next_transaction_id

module _ (link : Link) (quiet : IsQuiet link) (request : Request) (x : Exchange) where
  send_request-Kept :
      (direction : String) (peer : Address) (y : Exchange)
      → Kept request x y
      → Kept request x (send_request link direction peer request y).0
  unfolding send_request
  send_request-Kept direction peer y k = elim (Bool-cases (link.should_drop direction y).1) [
    | inl drop ↦ rw drop dropped
    | inr keep ↦
        rw keep
          (record { sent = one_sent peer dropped.sent; frames = dropped.frames; ids = dropped.ids })
  ]
    where
      dropped : Kept request x (link.should_drop direction y).0
      dropped = record {
        sent = subst (Repeated request x.requests) (sym (quiet.drop_requests direction y)) k.sent;
        frames = quiet.drop_frames direction y ∙ k.frames;
        ids = quiet.drop_ids direction y ∙ k.ids;
      }

  pub request_loop-Kept :
      {T E : Type 0} (kind : Kind T) (transaction : WifiTransaction) (attempts : List (Attempt T E))
      → Kept request x (request_loop link kind transaction request attempts x).0
  request_loop-Kept kind transaction attempts =
      request_loop-keeps link kind transaction request (Kept request x) send_request-Kept
        (λ f y k. record { sent = k.sent; frames = k.frames; ids = k.ids })
        (λ d y k.
          let (f, e) = quiet.recovery_counts kind.record_retry kind.record_stall d y in
          subst (Kept request x) (sym e) (record { sent = k.sent; frames = k.frames; ids = k.ids }))
        attempts x (record { sent = none_sent; frames = refl; ids = refl })

module _ {E : Type 0} (link : Link) (quiet : IsQuiet link) (session : ℕ) (x : Exchange) where
  -- Handing over one frame sends nothing but copies of one request, which holds the frame and the
  -- next transaction id. It writes nothing to the TAP device and takes one id, with wrap-around.
  pub tx_exchange-sends :
      (frame : WifiFrame) (attempts : List (Attempt WifiTxResponse E))
      → let y = (tx_exchange link session frame attempts x).0 in
        Repeated (tx_request session frame x) x.requests y.requests
        × (y.to_tap ≡ x.to_tap)
        × (y.next_transaction_id ≡ u32 (x.next_transaction_id + 1))
  unfolding tx_exchange
  tx_exchange-sends frame attempts =
      let k : Kept (tx_request session frame x) (take_id x)
          (tx_exchange link session frame attempts x).0 =
        request_loop-Kept link quiet _ (take_id x) tx_kind (next_transaction session x) attempts in
      (k.sent, k.frames, k.ids)

  -- The same of a poll for a frame; and a response that ends it answers this poll's transaction.
  pub rx_exchange-sends :
      (attempts : List (Attempt WifiRxResponse E))
      → let y = (rx_exchange link session attempts x).0 in
        Repeated (rx_request session x) x.requests y.requests
        × (y.to_tap ≡ x.to_tap)
        × (y.next_transaction_id ≡ u32 (x.next_transaction_id + 1))
  unfolding rx_exchange
  rx_exchange-sends attempts =
      let k : Kept (rx_request session x) (take_id x) (rx_exchange link session attempts x).0 =
        request_loop-Kept link quiet _ (take_id x) rx_kind (next_transaction session x) attempts in
      (k.sent, k.frames, k.ids)

-- The frames written to the TAP device after a response with `frame`.
abbrev pub written : {E : Type 0} → Result ℕ E → Option WifiFrame → List WifiFrame → List WifiFrame
written tap_send none frames = frames
written (ok _) (some frame) frames = frame ∷ frames
written (err _) (some frame) frames = frames

write_tap-written :
    {E : Type 0} (tap_send : Result ℕ E) (f : Option WifiFrame) (x : Exchange)
    → (write_tap tap_send f x).to_tap ≡ written tap_send f x.to_tap
unfolding write_tap
write_tap-written tap_send none x = refl
write_tap-written (ok b) (some f) x = refl
write_tap-written (err e) (some f) x = refl

module _ {E : Type 0} (link : Link) (quiet : IsQuiet link) (session : ℕ) (x : Exchange) where
  rx_part-delivers-from :
      (round : Round E) (y : Exchange) (p : Progress WifiRxResponse)
      → y.to_tap ≡ x.to_tap
      → ((r : WifiRxResponse) → p ≡ done r → r.transaction ≡ next_transaction session x)
      → (and_then (λ response x'. (write_tap round.tap_send response.frame x', done tt)) (y, p)).1
        ≡ done tt
      → (r : WifiRxResponse) × (p ≡ done r)
        × (r.transaction ≡ next_transaction session x)
        × ((and_then {B = Unit {0}}
              (λ response x'. (write_tap round.tap_send response.frame x', done tt))
              (y, p)).0.to_tap
            ≡ written round.tap_send r.frame x.to_tap)
  rx_part-delivers-from round y (done r) e own h = (
    r,
    refl,
    own r refl,
    write_tap-written round.tap_send r.frame y ∙ ap (written round.tap_send r.frame) e,
  )
  rx_part-delivers-from round y stopped e own h = cc
  rx_part-delivers-from round y panicked e own h = cc
  rx_part-delivers-from round y waiting e own h = cc

  -- A poll that is finished has accepted a response to its own transaction, and has written that
  -- response's frame to the TAP device: once if there is one and the device took it, and nothing else.
  pub rx_part-delivers :
      (round : Round E)
      → (rx_part link session round x).1 ≡ done tt
      → (r : WifiRxResponse) × ((rx_exchange link session round.rx_attempts x).1 ≡ done r)
        × (r.transaction ≡ next_transaction session x)
        × ((rx_part link session round x).0.to_tap ≡ written round.tap_send r.frame x.to_tap)
  unfolding rx_part
  rx_part-delivers round h =
      rx_part-delivers-from round (rx_exchange link session round.rx_attempts x).0
        (rx_exchange link session round.rx_attempts x).1
        (rx_exchange-sends link quiet session x round.rx_attempts).1 (λ r e. accepted r e) h
    where
      accepted :
          (r : WifiRxResponse)
          → (rx_exchange link session round.rx_attempts x).1 ≡ done r
          → r.transaction ≡ next_transaction session x
      accepted r e =
          request_loop-accepts link rx_kind (next_transaction session x) (rx_request session x)
            round.rx_attempts (take_id x) r e
