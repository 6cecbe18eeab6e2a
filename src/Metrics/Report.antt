-- ===== src/Metrics/Report.antt =====
-- host/src/metrics.rs: `snapshot`, `emit` and `report`. A line of the metrics file is its list of keys
-- and values; the clock and the file system are arguments.
pub mod Lines
use Prim.Native.String.{String}
use lamella.Base.{ℕ, Bool, true, false, Option, none, some, List, [], ◌∷◌, ◌++◌, Result, ok, err}
use lamella.Duration.{as_secs}
use lamella.Metrics.{BridgeMetrics}

pub data Value : Type 0 where
  number : ℕ → Value
  flag : Bool → Value

abbrev pub Line : Type 0
Line = List (String × Value)

-- A snapshot has the fields of the counters.
unfoldable pub snapshot : BridgeMetrics → BridgeMetrics
snapshot m = record {
  tap_rx_frames = m.tap_rx_frames;
  tap_rx_bytes = m.tap_rx_bytes;
  tap_tx_frames = m.tap_tx_frames;
  tap_tx_bytes = m.tap_tx_bytes;
  tx_retries = m.tx_retries;
  rx_retries = m.rx_retries;
  tx_stalls = m.tx_stalls;
  tx_stall_ms = m.tx_stall_ms;
  tx_stall_max_ms = m.tx_stall_max_ms;
  rx_stalls = m.rx_stalls;
  rx_stall_ms = m.rx_stall_ms;
  rx_stall_max_ms = m.rx_stall_max_ms;
  endpoint_errors = m.endpoint_errors;
  response_mismatches = m.response_mismatches;
  tap_errors = m.tap_errors;
  reconnects = m.reconnects;
  recovery_timeouts = m.recovery_timeouts;
}

unfoldable pub json_line : ℕ → ℕ → Bool → BridgeMetrics → Line
json_line timestamp uptime final_report stats =
    ("timestamp", number timestamp)
    ∷ ("uptime_seconds", number (as_secs uptime))
    ∷ ("final", flag final_report)
    ∷ ("tap_to_wifi_frames", number stats.tap_rx_frames)
    ∷ ("tap_to_wifi_bytes", number stats.tap_rx_bytes)
    ∷ ("wifi_to_tap_frames", number stats.tap_tx_frames)
    ∷ ("wifi_to_tap_bytes", number stats.tap_tx_bytes)
    ∷ ("tx_retries", number stats.tx_retries)
    ∷ ("rx_retries", number stats.rx_retries)
    ∷ ("tx_stalls", number stats.tx_stalls)
    ∷ ("tx_stall_ms", number stats.tx_stall_ms)
    ∷ ("tx_stall_max_ms", number stats.tx_stall_max_ms)
    ∷ ("rx_stalls", number stats.rx_stalls)
    ∷ ("rx_stall_ms", number stats.rx_stall_ms)
    ∷ ("rx_stall_max_ms", number stats.rx_stall_max_ms)
    ∷ ("endpoint_errors", number stats.endpoint_errors)
    ∷ ("response_mismatches", number stats.response_mismatches)
    ∷ ("tap_errors", number stats.tap_errors)
    ∷ ("reconnects", number stats.reconnects)
    ∷ ("recovery_timeouts", number stats.recovery_timeouts)
    ∷ []

-- The time since the start and since 1970, and how the metrics file's directory and the file can be
-- used: `create_dir_all`, if the path has a parent, then `open` and `write_all`.
pub record Moment (E : Type 0) : Type 0 where
  pub uptime : ℕ
  pub timestamp : ℕ
  pub directory : Option (Result (Unit {0}) E)
  pub opened : Result (Unit {0}) E
  pub written : Result (Unit {0}) E

abbrev pub write_line : {E : Type 0} → Moment E → Line → List Line → List Line
write_line w line file = elim w.opened [
  | err e ↦ file
  | ok _ ↦ elim w.written [ err e ↦ file | ok _ ↦ file ++ line ∷ [] ]
]

abbrev pub in_directory :
    {E : Type 0} → Option (Result (Unit {0}) E) → Moment E → Line → List Line → List Line
in_directory none w line file = write_line w line file
in_directory (some (ok _)) w line file = write_line w line file
in_directory (some (err e)) w line file = file

-- `output` tells whether there is a metrics file; a line is written whole or not at all.
unfoldable pub emit : {E : Type 0} → Bool → Moment E → Bool → BridgeMetrics → List Line → List Line
unfolding snapshot json_line
emit false w final_report m file = file
emit true w final_report m file =
    in_directory w.directory w (json_line w.timestamp w.uptime final_report (snapshot m)) file

-- A tick of the interval, or the cancellation, with the counters then.
pub data Report (E : Type 0) : Type 0 where
  tick : Moment E → BridgeMetrics → Report E
  cancelled : Moment E → BridgeMetrics → Report E

-- The loop: the file, and whether the task has returned.
unfoldable pub report : {E : Type 0} → Bool → List (Report E) → List Line → List Line × Bool
unfolding emit
report output [] file = (file, false)
report output (tick w m ∷ rest) file = report output rest (emit output w false m file)
report output (cancelled w m ∷ rest) file = (emit output w true m file, true)
