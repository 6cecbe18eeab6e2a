-- ===== src/TestMode/Exchange/Passes.antt =====
-- host/src/test_mode.rs: what a pass of the exchange task accepts and delivers.
use lamella.Base.{
  ℕ, Option, none, some, List, [], ◌∷◌, ◌++◌, ok, err, ◌≡◌, ◌⊎◌, refl, arith, ap, ◌∙◌, append-nil,
}
use lamella.Icd.{WifiFrame, WifiTransaction, WifiRxResponse, same_transaction_iff}
use lamella.Exchange.{Request, Progress, done, stopped, panicked, waiting}
use lamella.TestMode.Exchange.{
  Wait, answered, timed_out, cancelled, TestBridge, ask, request_until, Pass, chain,
  transaction_now, take_id, queue_response, poll_queued,
}

-- One of the requests was answered with `r`.
abbrev pub WasAnswered : {T E : Type 0} → T → List (Wait T E) → Type 0
WasAnswered r [] = ⊥
WasAnswered r (cancelled ∷ rest) = ⊥
WasAnswered r (timed_out ∷ rest) = WasAnswered r rest
WasAnswered r (answered (err e) ∷ rest) = WasAnswered r rest
WasAnswered r (answered (ok v) ∷ rest) = (r ≡ v) ⊎ WasAnswered r rest

module _ {T E : Type 0} (transaction_of : T → WifiTransaction) (transaction : WifiTransaction)
    (request : Request) where
  pub request_until-accepts :
      (waits : List (Wait T E)) (b : TestBridge) (r : T)
      → (request_until transaction_of transaction request waits b).1 ≡ done r
      → WasAnswered r waits × (transaction_of r ≡ transaction)
  unfolding request_until
  request_until-accepts [] b r h = ground arith
  request_until-accepts (cancelled ∷ rest) b r h = ground arith
  request_until-accepts (timed_out ∷ rest) b r h = request_until-accepts rest (ask request b) r h
  request_until-accepts (answered (err e) ∷ rest) b r h =
      request_until-accepts rest (ask request b) r h
  request_until-accepts (answered (ok v) ∷ rest) b r h = ground (
    arith,
    same_transaction_iff (transaction_of v) transaction,
    request_until-accepts rest (ask request b) r,
  )

  request_until-rx_queue :
      (waits : List (Wait T E)) (b : TestBridge)
      → (request_until transaction_of transaction request waits b).0.rx_queue ≡ b.rx_queue
  unfolding request_until
  request_until-rx_queue [] b = refl
  request_until-rx_queue (cancelled ∷ rest) b = refl
  request_until-rx_queue (timed_out ∷ rest) b = request_until-rx_queue rest (ask request b)
  request_until-rx_queue (answered (err e) ∷ rest) b = request_until-rx_queue rest (ask request b)
  request_until-rx_queue (answered (ok v) ∷ rest) b =
      ground (arith, request_until-rx_queue rest (ask request b))

abbrev pub bytes_of : Option WifiFrame → List (List ℕ)
bytes_of none = []
bytes_of (some frame) = frame.bytes ∷ []

queue_response-rx_queue :
    (frame : Option WifiFrame) (b : TestBridge)
    → (queue_response frame b).rx_queue ≡ b.rx_queue ++ bytes_of frame
unfolding queue_response
queue_response-rx_queue none b = simp append-nil
queue_response-rx_queue (some frame) b = refl

module _ {E : Type 0} (session : ℕ) (b : TestBridge) (pass : Pass E) where
  poll_queued-delivers-from :
      (y : TestBridge) (p : Progress WifiRxResponse)
      → y.rx_queue ≡ b.rx_queue
      → ((r : WifiRxResponse)
          → p ≡ done r
          → WasAnswered r pass.rx_waits × (r.transaction ≡ transaction_now session b))
      → (chain {B = Unit {0}} (λ response b'. (queue_response response.frame b', done tt)) (y, p)).1
        ≡ done tt
      → (r : WifiRxResponse) × WasAnswered r pass.rx_waits
        × (r.transaction ≡ transaction_now session b)
        × ((chain {B = Unit {0}}
              (λ response b'. (queue_response response.frame b', done tt))
              (y, p)).0.rx_queue
            ≡ b.rx_queue ++ bytes_of r.frame)
  poll_queued-delivers-from y (done r) e own h = (
    r,
    (own r refl).0,
    (own r refl).1,
    queue_response-rx_queue r.frame y ∙ ap (λ q. q ++ bytes_of r.frame) e,
  )
  poll_queued-delivers-from y stopped e own h = cc
  poll_queued-delivers-from y panicked e own h = cc
  poll_queued-delivers-from y waiting e own h = cc

  -- A finished poll of the test mode accepted a response that one of its requests got and that
  -- answers the poll's own transaction, and appended its frame, if it has one, to the queue of the
  -- network stack, and nothing else.
  pub poll_queued-delivers :
      (poll_queued session pass b).1 ≡ done tt
      → (r : WifiRxResponse) × WasAnswered r pass.rx_waits
        × (r.transaction ≡ transaction_now session b)
        × ((poll_queued session pass b).0.rx_queue ≡ b.rx_queue ++ bytes_of r.frame)
  unfolding poll_queued
  poll_queued-delivers h =
      poll_queued-delivers-from _ _
        (request_until-rx_queue (λ (r : WifiRxResponse). r.transaction) (transaction_now session b)
          _ pass.rx_waits (take_id b))
        (λ r e.
          request_until-accepts (λ (r : WifiRxResponse). r.transaction) (transaction_now session b)
            _ pass.rx_waits (take_id b) r e)
        h
