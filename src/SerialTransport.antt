-- ===== src/SerialTransport.antt =====
-- host/src/serial_transport.rs: the tasks of the serial transport.
use Prim.Native.String.{String}
use Prim.Native.Nat.{bit_xor}
pub mod HotPlug
pub mod Entry
pub mod Target
use lamella.Base.{ℕ, ◌+◌, ◌*◌, ◌/◌, ◌^◌, ◌-◌, Bool, false, some, List}
use lamella.Duration.{from_secs}
use lamella.Icd.{u64}
use lamella.Metrics.{BridgeMetrics, record_recovery_timeout}
use lamella.Faults.{should_drop}
use lamella.Exchange.{Exchange, count, Progress, Link}
use lamella.Exchange.Rounds.{Round, exchange_rounds}

abbrev pub endpoint_recovery_timeout : ℕ
endpoint_recovery_timeout = from_secs 5

abbrev pub inject_fault : String → Exchange → Exchange × Bool
inject_fault direction x =
    let (injector, dropped) = should_drop direction x.fault_injector in
    (record x { fault_injector = injector }, dropped)

-- The branch `EndpointWaitOutcome::RecoveryRequired`, which recycles the transport.
abbrev pub recycle :
    (BridgeMetrics → BridgeMetrics) → (ℕ → BridgeMetrics → BridgeMetrics) → ℕ → Exchange → Exchange
recycle record_retry record_stall stalled_for =
    count (λ m. record_recovery_timeout (record_stall stalled_for (record_retry m)))

abbrev pub serial_link : Link
serial_link = record {
  should_drop = inject_fault;
  recovery_timeout = some endpoint_recovery_timeout;
  on_recovery = recycle;
  recovery_panics = false;
}

-- `u64::rotate_left`.
abbrev pub rotate_left : ℕ → ℕ → ℕ
rotate_left x n = u64 (x * 2 ^ n) + x / 2 ^ (64 - n)

-- The clock's nanoseconds and the process id are the environment's.
unfoldable pub serial_session_id : ℕ → ℕ → ℕ
serial_session_id nanos process_id = bit_xor (u64 nanos) (rotate_left process_id 32)

-- The task, for what the world does in each pass of its loop.
unfoldable pub wifi_exchange :
    {E : Type 0} → ℕ → ℕ → List (Round E) → Exchange → Exchange × Progress (Unit {0})
unfolding exchange_rounds serial_session_id
wifi_exchange nanos process_id rounds x =
    exchange_rounds serial_link (serial_session_id nanos process_id) rounds
      (record x { next_transaction_id = 0 })
