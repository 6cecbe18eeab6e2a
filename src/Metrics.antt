-- ===== src/Metrics.antt =====
-- host/src/metrics.rs: the cumulative counters of the bridge. Each is an `AtomicU64`, which wraps.
pub mod Stalls
pub mod Report
use lamella.Base.{ℕ, ◌+◌, ltb, if◌then◌else◌}
use lamella.Duration.{as_millis}
use lamella.Icd.{u64}

pub record BridgeMetrics : Type 0 where
  pub tap_rx_frames : ℕ
  pub tap_rx_bytes : ℕ
  pub tap_tx_frames : ℕ
  pub tap_tx_bytes : ℕ
  pub tx_retries : ℕ
  pub rx_retries : ℕ
  pub tx_stalls : ℕ
  pub tx_stall_ms : ℕ
  pub tx_stall_max_ms : ℕ
  pub rx_stalls : ℕ
  pub rx_stall_ms : ℕ
  pub rx_stall_max_ms : ℕ
  pub endpoint_errors : ℕ
  pub response_mismatches : ℕ
  pub tap_errors : ℕ
  pub reconnects : ℕ
  pub recovery_timeouts : ℕ

-- `#[derive(Default)]`.
abbrev pub default_metrics : BridgeMetrics
default_metrics = record {
  tap_rx_frames = 0;
  tap_rx_bytes = 0;
  tap_tx_frames = 0;
  tap_tx_bytes = 0;
  tx_retries = 0;
  rx_retries = 0;
  tx_stalls = 0;
  tx_stall_ms = 0;
  tx_stall_max_ms = 0;
  rx_stalls = 0;
  rx_stall_ms = 0;
  rx_stall_max_ms = 0;
  endpoint_errors = 0;
  response_mismatches = 0;
  tap_errors = 0;
  reconnects = 0;
  recovery_timeouts = 0;
}

-- `AtomicU64::fetch_add` and `AtomicU64::fetch_max`.
abbrev pub fetch_add : ℕ → ℕ → ℕ
fetch_add counter n = u64 (counter + n)

abbrev pub fetch_max : ℕ → ℕ → ℕ
fetch_max counter n = if ltb counter n then n else counter

unfoldable pub record_tap_rx : ℕ → BridgeMetrics → BridgeMetrics
record_tap_rx bytes m = record m {
  tap_rx_frames = fetch_add m.tap_rx_frames 1;
  tap_rx_bytes = fetch_add m.tap_rx_bytes (u64 bytes);
}

unfoldable pub record_tap_tx : ℕ → BridgeMetrics → BridgeMetrics
record_tap_tx bytes m = record m {
  tap_tx_frames = fetch_add m.tap_tx_frames 1;
  tap_tx_bytes = fetch_add m.tap_tx_bytes (u64 bytes);
}

unfoldable pub record_tx_retry : BridgeMetrics → BridgeMetrics
record_tx_retry m = record m { tx_retries = fetch_add m.tx_retries 1 }

unfoldable pub record_rx_retry : BridgeMetrics → BridgeMetrics
record_rx_retry m = record m { rx_retries = fetch_add m.rx_retries 1 }

unfoldable pub record_tx_stall : ℕ → BridgeMetrics → BridgeMetrics
record_tx_stall duration m =
    let millis : ℕ = u64 (as_millis duration) in
    record m {
      tx_stalls = fetch_add m.tx_stalls 1;
      tx_stall_ms = fetch_add m.tx_stall_ms millis;
      tx_stall_max_ms = fetch_max m.tx_stall_max_ms millis;
    }

unfoldable pub record_rx_stall : ℕ → BridgeMetrics → BridgeMetrics
record_rx_stall duration m =
    let millis : ℕ = u64 (as_millis duration) in
    record m {
      rx_stalls = fetch_add m.rx_stalls 1;
      rx_stall_ms = fetch_add m.rx_stall_ms millis;
      rx_stall_max_ms = fetch_max m.rx_stall_max_ms millis;
    }

unfoldable pub record_endpoint_error : BridgeMetrics → BridgeMetrics
record_endpoint_error m = record m { endpoint_errors = fetch_add m.endpoint_errors 1 }

unfoldable pub record_response_mismatch : BridgeMetrics → BridgeMetrics
record_response_mismatch m = record m { response_mismatches = fetch_add m.response_mismatches 1 }

unfoldable pub record_tap_error : BridgeMetrics → BridgeMetrics
record_tap_error m = record m { tap_errors = fetch_add m.tap_errors 1 }

unfoldable pub record_reconnect : BridgeMetrics → BridgeMetrics
record_reconnect m = record m { reconnects = fetch_add m.reconnects 1 }

unfoldable pub record_recovery_timeout : BridgeMetrics → BridgeMetrics
record_recovery_timeout m = record m { recovery_timeouts = fetch_add m.recovery_timeouts 1 }
