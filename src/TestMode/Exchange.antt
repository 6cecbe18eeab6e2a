-- ===== src/TestMode/Exchange.antt =====
-- host/src/test_mode.rs: the exchange task of `bridge_ergot_to_smoltcp_serial` and of
-- `bridge_ergot_to_smoltcp_nusb`, which have the same text. Unlike `wifi_exchange` it repeats a
-- request after 250 ms, without a backup.
pub mod Passes
use lamella.Base.{
  ℕ, ◌+◌, Option, none, some, List, [], ◌∷◌, ◌++◌, Result, ok, err, if◌then◌else◌, ltb,
}
use lamella.Duration.{as_millis}
use lamella.Icd.{
  u32, u64, WifiFrame, frame_of_slice, WifiTransaction, WifiTxRequest, WifiTxResponse,
  WifiRxRequest, WifiRxResponse, same_transaction,
}
use lamella.Exchange.{Request, Progress, done, stopped, waiting}

-- The `select!` around one request.
pub data Wait (T E : Type 0) : Type 0 where
  answered : Result T E → Wait T E
  timed_out : Wait T E
  cancelled : Wait T E

-- The shared counters, the frames for the network stack with the oldest first, and the requests
-- made, the newest first.
pub record TestBridge : Type 0 where
  pub next_transaction_id : ℕ  -- u32
  pub tx_count : ℕ  -- u64
  pub rx_count : ℕ  -- u64
  pub tx_blocked_ms : ℕ  -- u64
  pub rx_queue : List (List ℕ)
  pub requests : List Request

abbrev pub ask : Request → TestBridge → TestBridge
ask request b = record b { requests = request ∷ b.requests }

module _ {T E : Type 0} (transaction_of : T → WifiTransaction) (transaction : WifiTransaction)
    (request : Request) where
  -- The loop around one request.
  unfoldable pub request_until : List (Wait T E) → TestBridge → TestBridge × Progress T
  request_until [] b = (b, waiting)
  request_until (cancelled ∷ rest) b = (ask request b, stopped)
  request_until (timed_out ∷ rest) b = request_until rest (ask request b)
  request_until (answered (err e) ∷ rest) b = request_until rest (ask request b)
  request_until (answered (ok response) ∷ rest) b =
      let again = request_until rest (ask request b) in
      if same_transaction (transaction_of response) transaction
      then (ask request b, done response)
      else again

-- What the world does in one pass: a frame of the network stack, the waits of both requests, and
-- the time that the first of them took.
pub record Pass (E : Type 0) : Type 0 where
  pub frame : Option (List ℕ)
  pub tx_waits : List (Wait WifiTxResponse E)
  pub elapsed : ℕ
  pub rx_waits : List (Wait WifiRxResponse E)

abbrev pub chain :
    {A B : Type 0}
    → (A → TestBridge → TestBridge × Progress B)
    → TestBridge × Progress A
    → TestBridge × Progress B
chain f (b, done a) = f a b
chain f (b, stopped) = (b, stopped)
chain f (b, Progress.panicked) = (b, Progress.panicked)
chain f (b, waiting) = (b, waiting)

abbrev pub transaction_now : ℕ → TestBridge → WifiTransaction
transaction_now session b = record { session = session; id = b.next_transaction_id }

abbrev pub take_id : TestBridge → TestBridge
take_id b = record b { next_transaction_id = u32 (b.next_transaction_id + 1) }

-- `if elapsed_ms > 10 { .. }`
abbrev pub count_blocked : ℕ → TestBridge → TestBridge
count_blocked elapsed b =
    let elapsed_ms : ℕ = u64 (as_millis elapsed) in
    if ltb 10 elapsed_ms then record b { tx_blocked_ms = u64 (b.tx_blocked_ms + elapsed_ms) } else b

-- A frame in the response goes to the network stack.
unfoldable pub queue_response : Option WifiFrame → TestBridge → TestBridge
queue_response none b = b
queue_response (some frame) b = record b {
  rx_count = u64 (b.rx_count + 1);
  rx_queue = b.rx_queue ++ frame.bytes ∷ [];
}

module _ {E : Type 0} (session : ℕ) where
  -- A frame that fits is sent; one that does not is only counted.
  unfoldable pub send_fitting :
      Option WifiFrame → Pass E → TestBridge → TestBridge × Progress (Unit {0})
  unfolding request_until
  send_fitting none pass b = (b, done tt)
  send_fitting (some frame) pass b =
      chain (λ response b'. (count_blocked pass.elapsed b', done tt))
        (request_until (λ r. r.transaction) (transaction_now session b)
          (Request.tx (record { transaction = transaction_now session b; frame = frame }))
          pass.tx_waits (take_id b))

  unfoldable pub send_queued :
      Option (List ℕ) → Pass E → TestBridge → TestBridge × Progress (Unit {0})
  unfolding send_fitting frame_of_slice
  send_queued none pass b = (b, done tt)
  send_queued (some bytes) pass b =
      send_fitting (frame_of_slice bytes) pass (record b { tx_count = u64 (b.tx_count + 1) })

  unfoldable pub poll_queued : Pass E → TestBridge → TestBridge × Progress (Unit {0})
  unfolding request_until queue_response
  poll_queued pass b =
      chain (λ response b'. (queue_response response.frame b', done tt))
        (request_until (λ r. r.transaction) (transaction_now session b)
          (Request.rx (record { transaction = transaction_now session b })) pass.rx_waits
          (take_id b))

  unfoldable pub bridge_ergot_to_smoltcp_serial :
      List (Pass E) → TestBridge → TestBridge × Progress (Unit {0})
  unfolding send_queued poll_queued
  bridge_ergot_to_smoltcp_serial [] b = (b, waiting)
  bridge_ergot_to_smoltcp_serial (pass ∷ rest) b =
      chain (λ _ b'. bridge_ergot_to_smoltcp_serial rest b')
        (chain (λ _ b'. poll_queued pass b') (send_queued pass.frame pass b))

-- The text of the function for the USB transport is the same.
unfoldable pub bridge_ergot_to_smoltcp_nusb :
    {E : Type 0} → ℕ → List (Pass E) → TestBridge → TestBridge × Progress (Unit {0})
unfolding bridge_ergot_to_smoltcp_serial
bridge_ergot_to_smoltcp_nusb = bridge_ergot_to_smoltcp_serial
