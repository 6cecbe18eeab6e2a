-- ===== src/Exchange.antt =====
-- What `wifi_exchange` of host/src/serial_transport.rs and of host/src/nusb_transport.rs share: the
-- state of the task, and the retry loop around one request. The two files write the loop out four
-- times, for each transport and direction; they differ in what the `Link` and the `Kind` below say.
use Prim.Native.String.{String}
use lamella.Base.{
  ℕ, zero, suc, Bool, Option, none, some, List, [], ◌∷◌, if◌then◌else◌, Result, ok, err,
}
use lamella.Icd.{WifiFrame, WifiTransaction, WifiTxRequest, WifiRxRequest, same_transaction}
use lamella.Metrics.{BridgeMetrics, record_endpoint_error, record_response_mismatch}
use lamella.Faults.{EndpointFaultInjector}
use lamella.Bridge.Wait.{
  EndpointWaitResult, EndpointWaitOutcome, completed, recovery_required, cancelled, Response,
  requested, never, Schedule, await_endpoint_response,
}
pub mod Retry
pub mod Rounds
pub mod Delivery
pub mod Passes

-- `ergot::Address`.
pub record Address : Type 0 where
  pub network_id : ℕ  -- u16
  pub node_id : ℕ  -- u8
  pub port_id : ℕ  -- u8

pub data Request : Type 0 where
  tx : WifiTxRequest → Request
  rx : WifiRxRequest → Request

-- The task's variables, and what it does to the world: the requests that it handed to Ergot and the
-- frames that it wrote to the TAP device, the newest first.
pub record Exchange : Type 0 where
  pub next_transaction_id : ℕ  -- u32
  pub metrics : BridgeMetrics
  pub fault_injector : EndpointFaultInjector
  pub requests : List (Address × Request)
  pub to_tap : List WifiFrame

abbrev pub count : (BridgeMetrics → BridgeMetrics) → Exchange → Exchange
count f x = record x { metrics = f x.metrics }

-- How the loop goes on: with a response, or by a `return` of the task, or by a panic, or not yet.
pub data Progress (T : Type 0) : Type 0 where
  done : T → Progress T
  stopped : Progress T
  panicked : Progress T
  waiting : Progress T

-- What differs between the directions.
pub record Kind (T : Type 0) : Type 0 where
  pub direction : String
  pub backup_direction : String
  pub record_retry : BridgeMetrics → BridgeMetrics
  pub record_stall : ℕ → BridgeMetrics → BridgeMetrics
  pub transaction_of : T → WifiTransaction

-- What differs between the transports: which requests are dropped by fault injection, and what
-- follows when the recovery timeout has passed.
pub record Link : Type 0 where
  pub should_drop : String → Exchange → Exchange × Bool
  pub recovery_timeout : Option ℕ
  pub on_recovery :
      (BridgeMetrics → BridgeMetrics)
      → (ℕ → BridgeMetrics → BridgeMetrics)
      → ℕ
      → Exchange
      → Exchange
  pub recovery_panics : Bool

-- One pass of the loop: the peer's address then, and what becomes of the request and its backup.
pub record Attempt (T E : Type 0) : Type 0 where
  pub peer : Address
  pub schedule : Schedule T E

-- `request::<Endpoint>(peer, &request, None)`, unless the request is dropped.
unfoldable pub send_request : Link → String → Address → Request → Exchange → Exchange × Response
send_request link direction peer request x =
    let (x', dropped) = link.should_drop direction x in
    if dropped
    then (x', never)
    else (record x' { requests = (peer, request) ∷ x'.requests }, requested)

-- `for _ in 0..wait.discarded_errors { metrics.record_endpoint_error(); }`
abbrev pub count_errors : ℕ → BridgeMetrics → BridgeMetrics
count_errors zero m = m
count_errors (suc n) m = count_errors n (record_endpoint_error m)

abbrev pub count_stall :
    (ℕ → BridgeMetrics → BridgeMetrics) → Option ℕ → BridgeMetrics → BridgeMetrics
count_stall record_stall none m = m
count_stall record_stall (some duration) m = record_stall duration m

-- What is counted of a completed wait, whatever its result.
unfoldable pub account :
    {T E : Type 0} → Kind T → EndpointWaitResult T E → BridgeMetrics → BridgeMetrics
account kind wait m =
    let m1 : BridgeMetrics = if wait.backup_sent then kind.record_retry m else m in
    count_stall kind.record_stall wait.stalled_for (count_errors wait.discarded_errors m1)

module _ {T E : Type 0} (link : Link) (kind : Kind T) (transaction : WifiTransaction)
    (request : Request) where
  -- `match wait.result`. `again` is the next pass of the loop.
  unfoldable pub handle_result :
      (Exchange → Exchange × Progress T) → Exchange → Result T E → Exchange × Progress T
  handle_result again x (ok response) =
      if same_transaction (kind.transaction_of response) transaction
      then (x, done response)
      else again (count (λ m. record_response_mismatch (kind.record_retry m)) x)
  handle_result again x (err e) = again (count (λ m. record_endpoint_error (kind.record_retry m)) x)

  -- `match bridge::await_endpoint_response(..).await`.
  unfoldable pub after_wait :
      (Exchange → Exchange × Progress T)
      → Exchange
      → Option (EndpointWaitOutcome T E)
      → Exchange × Progress T
  unfolding handle_result
  after_wait again x none = (x, waiting)
  after_wait again x (some cancelled) = (x, stopped)
  after_wait again x (some (recovery_required stalled_for)) = (
    link.on_recovery kind.record_retry kind.record_stall stalled_for x,
    if link.recovery_panics then panicked else stopped,
  )
  after_wait again x (some (completed wait)) =
      handle_result again (count (account kind wait) x) wait.result

  unfoldable pub request_loop : List (Attempt T E) → Exchange → Exchange × Progress T
  unfolding after_wait
  request_loop [] x = (x, waiting)
  request_loop (attempt ∷ rest) x =
      let (x1, response) = send_request link kind.direction attempt.peer request x in
      let (x2, outcome) =
        await_endpoint_response response
          (send_request link kind.backup_direction attempt.peer request) link.recovery_timeout
          attempt.schedule x1 in
      after_wait (request_loop rest) x2 outcome
