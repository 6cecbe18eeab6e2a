-- ===== src/SerialTransport/HotPlug.antt =====
-- host/src/serial_transport.rs: `run_with_hotplug`, which waits for a device, bridges it, and waits
-- again when it is gone. What comes of each device is an argument; a TAP device is the MAC address
-- that it was created with.
pub mod Sessions
pub mod Interfaces
use lamella.Base.{
  ℕ, ◌==◌, Bool, true, false, Option, none, some, List, [], ◌∷◌, Result, ok, err, if◌then◌else◌,
}
use lamella.Metrics.{BridgeMetrics, default_metrics, record_reconnect}

-- What the loop meets: a cancellation while it waits, or a device that is found. The result of
-- `create_tap_interface` counts only where the function is called; `cancelled` tells whether the
-- session was ended by the cancellation of the whole program.
pub data Event (E : Type 0) : Type 0 where
  shutdown : Event E
  not_registered : Event E
  no_mac : (interface_id : ℕ) → Event E
  no_peer : (interface_id : ℕ) (mac : List ℕ) → Event E
  ready : (interface_id : ℕ) (mac : List ℕ) (tap : Result (Unit {0}) E) (cancelled : Bool) → Event E

-- The local variables and the metrics, the TAP devices created, the TAP device of each session, and
-- the interfaces that are registered, each with the stack of its own device; the newest first.
pub record HotPlug : Type 0 where
  pub expected_mac : Option (List ℕ)
  pub tap_device : Option (List ℕ)
  pub connected_once : Bool
  pub metrics : BridgeMetrics
  pub created : List (List ℕ)
  pub bridged : List (List ℕ)
  pub registered : List ℕ

abbrev pub new_hotplug : HotPlug
new_hotplug = record {
  expected_mac = none;
  tap_device = none;
  connected_once = false;
  metrics = default_metrics;
  created = [];
  bridged = [];
  registered = [];
}

-- The state, and the function's result if it has returned.
abbrev pub Outcome : Type 0 → Type 0
Outcome E = HotPlug × Option (Result (Unit {0}) E)

abbrev pub register : ℕ → HotPlug → HotPlug
register interface_id h = record h { registered = interface_id ∷ h.registered }

-- `deregister_serial_interface` on the newest stack.
unfoldable pub without : ℕ → List ℕ → List ℕ
without interface_id [] = []
without interface_id (x ∷ rest) =
    let on = without interface_id rest in if x == interface_id then rest else x ∷ on

-- `if let Some(ref tap) = tap_device { .. }`, after which the interface is deregistered.
unfoldable pub bridge_session : {E : Type 0} → Option (List ℕ) → ℕ → Bool → HotPlug → Outcome E
unfolding without
bridge_session none interface_id cancelled h = (h, none)
bridge_session (some tap) interface_id cancelled h = (
  record h {
    connected_once = true;
    metrics = if h.connected_once then record_reconnect h.metrics else h.metrics;
    bridged = tap ∷ h.bridged;
    registered = without interface_id h.registered;
  },
  if cancelled then some (ok tt) else none,
)

-- The MAC address and the peer are known. A changed address is logged, no more.
unfoldable pub with_mac :
    {E : Type 0} → Option (List ℕ) → ℕ → List ℕ → Result (Unit {0}) E → Bool → HotPlug → Outcome E
unfolding bridge_session
with_mac (some expected) interface_id mac tap cancelled h =
    bridge_session h.tap_device interface_id cancelled h
with_mac none interface_id mac (err e) cancelled h =
    (record h { expected_mac = some mac }, some (err e))
with_mac none interface_id mac (ok _) cancelled h =
    bridge_session (some mac) interface_id cancelled
      (record h { expected_mac = some mac; tap_device = some mac; created = mac ∷ h.created })

-- Where the MAC address or the peer is not known, the interface stays registered.
unfoldable pub hotplug_step : {E : Type 0} → Event E → HotPlug → Outcome E
unfolding with_mac
hotplug_step shutdown h = (h, some (ok tt))
hotplug_step not_registered h = (h, none)
hotplug_step (no_mac interface_id) h = (register interface_id h, none)
hotplug_step (no_peer interface_id mac) h = (register interface_id h, none)
hotplug_step (ready interface_id mac tap cancelled) h =
    with_mac h.expected_mac interface_id mac tap cancelled (register interface_id h)

abbrev pub go_on : {E : Type 0} → (HotPlug → Outcome E) → Outcome E → Outcome E
go_on rest (h, none) = rest h
go_on rest (h, some result) = (h, some result)

unfoldable pub run_with_hotplug : {E : Type 0} → List (Event E) → HotPlug → Outcome E
unfolding hotplug_step
run_with_hotplug [] h = (h, none)
run_with_hotplug (event ∷ rest) h = go_on (run_with_hotplug rest) (hotplug_step event h)
