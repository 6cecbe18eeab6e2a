-- ===== src/NusbTransport.antt =====
-- host/src/nusb_transport.rs: the tasks of the USB bulk transport.
use Prim.Native.String.{String}
use Prim.Native.Nat.{bit_xor}
use lamella.Base.{ℕ, Bool, true, false, Option, none, List}
use lamella.Icd.{u64}
use lamella.Metrics.{BridgeMetrics}
use lamella.Exchange.{Exchange, Progress, Link}
use lamella.Exchange.Rounds.{Round, exchange_rounds}
use lamella.SerialTransport.{rotate_left}
use lamella.TapReader
use lamella.TapReader.{TapEvent, Reader}
pub mod Completion
pub mod Devices
pub mod Run
pub mod TestRun

-- No fault injection, no recovery timeout: that branch is `unreachable!`.
abbrev pub nusb_link : Link
nusb_link = record {
  should_drop = λ direction x. (x, false);
  recovery_timeout = none;
  on_recovery = λ record_retry record_stall stalled_for x. x;
  recovery_panics = true;
}

unfoldable pub nusb_session_id : ℕ → ℕ → ℕ
nusb_session_id nanos process_id = bit_xor (u64 nanos) (rotate_left process_id 32)

-- The peer's address is read anew for each attempt, so it stands in the attempts.
unfoldable pub nusb_wifi_exchange :
    {E : Type 0} → ℕ → ℕ → List (Round E) → Exchange → Exchange × Progress (Unit {0})
unfolding exchange_rounds nusb_session_id
nusb_wifi_exchange nanos process_id rounds x =
    exchange_rounds nusb_link (nusb_session_id nanos process_id) rounds
      (record x { next_transaction_id = 0 })

-- The text of `tap_reader` is that of the serial transport.
unfoldable pub nusb_tap_reader : {E : Type 0} → List (TapEvent E) → Reader → Reader × Bool
unfolding TapReader.tap_reader
nusb_tap_reader = TapReader.tap_reader
