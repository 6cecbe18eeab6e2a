-- ===== src/NusbTransport/Run.antt =====
-- host/src/nusb_transport.rs: `run`, which waits for a device, bridges it, and follows it when it is
-- plugged in again. A cancellation stands between two passes of a loop; what one in the middle of a
-- pass leaves undone is lost with the program.
pub mod Routes
use lamella.Base.{
  ℕ, ◌==◌, Bool, true, false, if◌then◌else◌, Option, none, some, List, [], ◌∷◌, Result, ok, err,
}
use lamella.Bridge.Mac.{IoError}
use lamella.Exchange.{Address}
use lamella.Metrics.{BridgeMetrics, record_reconnect}
use lamella.NusbTransport.Devices.{UsbDevice, reconcile_and_register_devices}

-- One pass of a loop: the devices on the bus, what Ergot says of new ones, and what comes of the MAC
-- query and the address of an interface.
pub record Pass (A E F : Type 0) : Type 0 where
  pub listing : Result (List (UsbDevice A)) E
  pub find_new : List A → List (A × Result ℕ F)
  pub mac : ℕ → Result (List ℕ) IoError
  pub peer : ℕ → Result Address IoError

-- How the first loop ends: with an interface and its MAC address, by a cancellation, or not yet.
pub data Search : Type 0 where
  connected : (interface_id : ℕ) (mac : List ℕ) → Search
  shut_down : Search
  searching : Search

-- The route, which `peer_tx` publishes, and the metrics.
pub record Route : Type 0 where
  pub peer : Address
  pub metrics : BridgeMetrics

-- How `run` ends, or what it has come to.
pub data Outcome : Type 0 where
  waiting : Outcome
  returned : Result (Unit {0}) IoError → Outcome
  bridging : (peer : Address) → BridgeMetrics → Outcome

-- `registered.first()`: only the first new interface is asked.
abbrev pub first_of :
    {A : Type 0} → (ℕ → Result (List ℕ) IoError) → List (ℕ × A) → Option (ℕ × List ℕ)
first_of mac [] = none
first_of mac ((iface, info) ∷ rest) = elim (mac iface) [
  | ok address ↦ some (iface, address)
  | err e ↦ none
]

abbrev pub search_on :
    {A : Type 0} → Option (ℕ × List ℕ) → List A × Search → List A → List A × Search
search_on none rest seen = rest
search_on (some (iface, mac)) rest seen = (seen, connected iface mac)

abbrev pub update : Result (List ℕ) IoError → Result Address IoError → Route → Route
update (err e) peer r = r
update (ok mac) (err e) r = r
update (ok mac) (ok peer) r = record { peer = peer; metrics = record_reconnect r.metrics }

abbrev pub watched : Route × Bool → Outcome
watched (r, true) = returned (ok tt)
watched (r, false) = bridging r.peer r.metrics

module _ {A : Type 0} (same : A → A → Bool) {E F : Type 0} where
  -- The first loop; `none` is the cancellation.
  unfoldable pub search : List (Option (Pass A E F)) → List A → List A × Search
  unfolding reconcile_and_register_devices
  search [] seen = (seen, searching)
  search (none ∷ rest) seen = (seen, shut_down)
  search (some pass ∷ rest) seen =
      let (seen', registered) =
        reconcile_and_register_devices same pass.listing pass.find_new seen in
      search_on (first_of pass.mac registered) (search rest seen') seen'

  -- The loop over the interfaces that are registered in a pass. A changed MAC address is only logged.
  unfoldable pub follow : ℕ → Pass A E F → List (ℕ × A) → Route → Route
  follow interface_id pass [] r = r
  follow interface_id pass ((iface, info) ∷ rest) r =
      follow interface_id pass rest
        (if iface == interface_id then r else update (pass.mac iface) (pass.peer iface) r)

  -- The second loop; `true`: it was cancelled.
  unfoldable pub watch : ℕ → List (Option (Pass A E F)) → List A → Route → Route × Bool
  unfolding follow reconcile_and_register_devices
  watch interface_id [] seen r = (r, false)
  watch interface_id (none ∷ rest) seen r = (r, true)
  watch interface_id (some pass ∷ rest) seen r =
      let (seen', registered) =
        reconcile_and_register_devices same pass.listing pass.find_new seen in
      watch interface_id rest seen' (follow interface_id pass registered r)

  abbrev pub bridge_on :
      ℕ
      → Result Address IoError
      → Result (Unit {0}) IoError
      → List (Option (Pass A E F))
      → List A
      → BridgeMetrics
      → Outcome
  bridge_on interface_id (err e) tap passes seen m = returned (err e)
  bridge_on interface_id (ok peer) (err e) passes seen m = returned (err e)
  bridge_on interface_id (ok peer) (ok _) passes seen m =
      watched (watch interface_id passes seen (record { peer = peer; metrics = m }))

  abbrev pub run_on :
      List A × Search
      → (ℕ → Result Address IoError)
      → Result (Unit {0}) IoError
      → List (Option (Pass A E F))
      → BridgeMetrics
      → Outcome
  run_on (seen, searching) peer tap passes m = waiting
  run_on (seen, shut_down) peer tap passes m = returned (ok tt)
  run_on (seen, connected interface_id mac) peer tap passes m =
      bridge_on interface_id (peer interface_id) tap passes seen m

  -- `nusb_peer_address`, `create_tap_interface` and the passes of both loops are arguments.
  unfoldable pub nusb_run :
      List (Option (Pass A E F))
      → (ℕ → Result Address IoError)
      → Result (Unit {0}) IoError
      → List (Option (Pass A E F))
      → BridgeMetrics
      → Outcome
  unfolding search watch
  nusb_run before peer tap after m = run_on (search before []) peer tap after m
