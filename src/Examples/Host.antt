-- ===== src/Examples/Host.antt =====
-- Runs of the tasks of host/src/serial_transport.rs, nusb_transport.rs, test_mode.rs and
-- system_network.rs, and of the counters of metrics.rs.
use lamella.Base.{
  ap, inl, ℕ, ◌+◌, suc, zero, false, Option, none, some, List, [], ◌∷◌, ◌++◌, Result, ok, err, ◌≡◌,
  ◌≢◌, refl, arith,
}
use Prim.Native.Nat.{min}
use lamella.Icd.{u32, WifiFrame, WifiTxResponse, WifiRxResponse}
use lamella.Bridge.Wait.{
  primary_ready, backup_ready, warning_due, await_endpoint_response, await_either, settle_backup,
  await_primary,
}
use lamella.Bridge.Mac.{IoError, query_mac_with_retry_serial, query_mac_with_retry_nusb}
use lamella.Bridge.Mac.Retries.{Decides, query_mac-Decides}
use lamella.Metrics.{default_metrics}
use lamella.Metrics.Stalls.{
  Stall, record_stalls, Tallied, tx_tally, rx_tally, no_stalls, record_stalls-Tallied,
}
use lamella.Faults.{EndpointFaultInjector, EndpointFaultDirection}
use lamella.Faults.Budget.{
  Sent, tx_sent, tx_backup, rx_sent, rx_backup, labels, drops, matching, drops_lem,
}
use lamella.Exchange.{Address, Exchange, Attempt, done, panicked, send_request, request_loop}
use lamella.Exchange.Rounds.{rx_kind, Round, tx_request, rx_request, tx_exchange}
use lamella.Exchange.Delivery.{Repeated}
use lamella.SerialTransport.{serial_link}
use lamella.NusbTransport.{nusb_link, nusb_wifi_exchange}
use lamella.NusbTransport.Completion.{request_loop_completes}
use lamella.Transports.{serial_tx-sends, nusb_wifi_exchange_calm}
use lamella.TapReader.{TapEvent, read, taken, Reader, tap_reader}
use lamella.TapReader.Frames.{frames_read, tap_reader-queued}
use lamella.TestMode.Exchange.{TestBridge, answered, timed_out, Pass, transaction_now, poll_queued}
use lamella.TestMode.Exchange.Passes.{WasAnswered, bytes_of, poll_queued-delivers}
use lamella.TestMode.LogFrame.{log_frame}
use lamella.TestMode.LogFrame.Bounds.{Found, log_frame-Found}
use lamella.SerialTransport.HotPlug.{Event, no_mac, ready, new_hotplug, run_with_hotplug}
use lamella.SerialTransport.HotPlug.Sessions.{Inv, run_with_hotplug-Inv}
use lamella.SerialTransport.HotPlug.Interfaces.{
  usable, left_by, Agree, StillRegistered, run_with_hotplug-usable,
}
use lamella.SystemNetwork.{World, found, run}
use lamella.SystemNetwork.Cleanup.{Cleaned, run-Cleaned}

abbrev a_frame : WifiFrame
a_frame = record { bytes = 5 ∷ 6 ∷ [] }

abbrev exchange : Exchange
exchange = record {
  next_transaction_id = 3;
  metrics = default_metrics;
  fault_injector = record { remaining = 0; direction = EndpointFaultDirection.any };
  requests = [];
  to_tap = [];
}

abbrev peer : Address
peer = record { network_id = 1; node_id = 2; port_id = 0 }

abbrev tx_attempts : List (Attempt WifiTxResponse ℕ)
tx_attempts =
    record {
      peer = peer;
      schedule =
          (9, primary_ready (ok (record { transaction = record { session = 1; id = 3 } }))) ∷ [];
    }
    ∷ []

abbrev stale : WifiRxResponse
stale = record { transaction = record { session = 1; id = 2 }; frame = none }

abbrev fresh : WifiRxResponse
fresh = record { transaction = record { session = 1; id = 3 }; frame = some a_frame }

-- A stale response, then the right one.
abbrev rx_attempts : List (Attempt WifiRxResponse ℕ)
rx_attempts =
    record { peer = peer; schedule = (9, primary_ready (ok stale)) ∷ [] }
    ∷ record { peer = peer; schedule = (12, primary_ready (ok fresh)) ∷ [] }
    ∷ []

abbrev a_round : Round ℕ
a_round = record { queued = none; tx_attempts = []; rx_attempts = rx_attempts; tap_send = ok 2 }

serial_tx-sends_example :
    let y = (tx_exchange serial_link 1 a_frame tx_attempts exchange).0 in
    Repeated (tx_request 1 a_frame exchange) [] y.requests
    × (y.to_tap ≡ [])
    × (y.next_transaction_id ≡ u32 (3 + 1))
serial_tx-sends_example = serial_tx-sends 1 exchange a_frame tx_attempts

nusb_wifi_exchange_calm_example : (nusb_wifi_exchange 1000 77 (a_round ∷ []) exchange).1 ≢ panicked
nusb_wifi_exchange_calm_example = nusb_wifi_exchange_calm 1000 77 (a_round ∷ []) exchange

abbrev events : List (TapEvent ℕ)
events = read (ok (5 ∷ 6 ∷ [])) taken ∷ read (err 1) taken ∷ read (ok []) taken ∷ []

abbrev reader : Reader
reader = record { metrics = default_metrics; queued = [] }

tap_reader-queued_example : (tap_reader events reader).0.queued ≡ [] ++ frames_read events
tap_reader-queued_example = tap_reader-queued events reader

abbrev injector : EndpointFaultInjector
injector = record { remaining = 1; direction = EndpointFaultDirection.rx }

abbrev sent : List Sent
sent = tx_sent ∷ rx_sent ∷ rx_backup ∷ tx_backup ∷ []

drops_lem_example :
    drops (labels sent) injector ≡ min injector.remaining (matching injector.direction sent)
drops_lem_example = drops_lem sent injector

-- The second attempt gets the address.
abbrev query : ℕ → Option (Result (List ℕ) IoError)
query (suc zero) = none
query zero = none
query (suc (suc n)) = some (ok (1 ∷ 2 ∷ 3 ∷ 4 ∷ 5 ∷ 6 ∷ []))

query_mac-Decides_example :
    Decides query 3 1 none (query_mac_with_retry_serial query)
    × (query_mac_with_retry_nusb query ≡ query_mac_with_retry_serial query)
query_mac-Decides_example = query_mac-Decides query

abbrev stalls : List Stall
stalls = Stall.tx 5000000 ∷ Stall.rx 7000000 ∷ Stall.tx 2000000 ∷ []

record_stalls-Tallied_example :
    Tallied
      (tx_tally stalls no_stalls)
      (rx_tally stalls no_stalls)
      (record_stalls stalls default_metrics)
record_stalls-Tallied_example = record_stalls-Tallied stalls (omega arith)

abbrev test_bridge : TestBridge
test_bridge = record {
  next_transaction_id = 3;
  tx_count = 0;
  rx_count = 0;
  tx_blocked_ms = 0;
  rx_queue = [];
  requests = [];
}

abbrev pass : Pass ℕ
pass = record {
  frame = none;
  tx_waits = [];
  elapsed = 0;
  rx_waits = timed_out ∷ answered (ok stale) ∷ answered (ok fresh) ∷ [];
}

poll_queued-delivers_example :
    (r : WifiRxResponse) × WasAnswered r pass.rx_waits
    × (r.transaction ≡ transaction_now 1 test_bridge)
    × ((poll_queued 1 pass test_bridge).0.rx_queue ≡ [] ++ bytes_of r.frame)
unfolding poll_queued
poll_queued-delivers_example = poll_queued-delivers 1 test_bridge pass refl

log_frame-Found_example : Found (log_frame 1 (0 ∷ 1 ∷ 2 ∷ []))
log_frame-Found_example = log_frame-Found 1 (0 ∷ 1 ∷ 2 ∷ [])

-- The activation is cancelled, and the profile cannot be removed.
abbrev world : World ℕ
world = record {
  tap = found;
  cancelled_after_wait = false;
  status_result = ok tt;
  add_result = ok tt;
  modify_result = ok tt;
  activation = none;
  show_result = ok tt;
  delete_result = err 2;
}

run-Cleaned_example : Cleaned world (run world)
run-Cleaned_example = run-Cleaned world

-- A device without a MAC address, and two sessions.
abbrev hotplug_events : List (Event ℕ)
hotplug_events =
    no_mac 4 ∷ ready 1 (1 ∷ 2 ∷ []) (ok tt) false ∷ ready 4 (1 ∷ 2 ∷ []) (err 3) false ∷ []

run_with_hotplug-Inv_example : Inv (run_with_hotplug hotplug_events new_hotplug).0
run_with_hotplug-Inv_example = run_with_hotplug-Inv ℕ hotplug_events

run_with_hotplug-usable_example :
    Agree
      (run_with_hotplug (usable hotplug_events) new_hotplug)
      (run_with_hotplug hotplug_events new_hotplug)
    × StillRegistered (left_by hotplug_events []) (run_with_hotplug hotplug_events new_hotplug)
run_with_hotplug-usable_example = run_with_hotplug-usable hotplug_events

-- A stale response; then the backup is sent and fails, and the response to the first request comes.
abbrev last_attempt : Attempt WifiRxResponse ℕ
last_attempt = record {
  peer = peer;
  schedule =
      (250_000_000, warning_due)
      ∷ (250_000_007, backup_ready (err 1))
      ∷ (300_000_000, primary_ready (ok fresh))
      ∷ [];
}

request_loop_completes_example :
    (request_loop nusb_link rx_kind fresh.transaction
      (rx_request 1 exchange)
      (record { peer = peer; schedule = (9, primary_ready (ok stale)) ∷ [] } ∷ last_attempt ∷ [])
      exchange).1
    ≡ done fresh
unfolding await_endpoint_response await_either settle_backup await_primary send_request
request_loop_completes_example =
    request_loop_completes rx_kind fresh.transaction (rx_request 1 exchange)
      (record { peer = peer; schedule = (9, primary_ready (ok stale)) ∷ [] } ∷ []) last_attempt
      fresh exchange ((λ x e. omega (arith, ap (λ t. t.id) e)), tt)
      (record {
        before = (250_000_000, warning_due) ∷ (250_000_007, backup_ready (err 1)) ∷ [];
        at = 300_000_000;
        rest = [];
        waits = λ x. refl;
        way = inl (tt, refl);
      })
      refl
