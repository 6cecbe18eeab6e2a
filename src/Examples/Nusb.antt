-- ===== src/Examples/Nusb.antt =====
-- Devices that come and go on the USB bus, as host/src/nusb_transport.rs sees them.
use lamella.Base.{
  ℕ, Bool, true, ◌==◌, some, List, [], ◌∷◌, ◌≡◌, Result, ok, err, arith, ◌⊎◌, ◌↔◌, In,
}
use lamella.Bridge.Mac.{IoError}
use lamella.Exchange.{Address}
use lamella.Metrics.{default_metrics}
use lamella.NusbTransport.Devices.{
  Interface, UsbDevice, current_device_infos, still_connected, reconcile_and_register_devices,
}
use lamella.NusbTransport.Devices.Seen.{MayBeConnected, Registers, In-reconcile}
use lamella.NusbTransport.Run.{Pass, Route}

abbrev ergot : Interface
ergot = record { class = 0xFF; subclass = 0xCA; protocol = 0x7D; interface_string = some "ergot" }

abbrev device : ℕ → UsbDevice ℕ
device info = record { interfaces = ergot ∷ []; info = info }

abbrev same_info : ℕ → ℕ → Bool
same_info x y = x == y

same_info_iff : (x y : ℕ) → (same_info x y ≡ true) ↔ (x ≡ y)
same_info_iff x y = ground arith

-- Device 1 has gone; of the new ones 3 and 4, only 3 can be registered.
abbrev bus : Result (List (UsbDevice ℕ)) ℕ
bus = ok (device 2 ∷ device 3 ∷ device 4 ∷ [])

abbrev news : List ℕ → List (ℕ × Result ℕ ℕ)
news known = (3, ok 7) ∷ (4, err 0) ∷ []

In-reconcile_example :
    In {A = ℕ} 3 (reconcile_and_register_devices same_info bus news (1 ∷ 2 ∷ [])).0 ↔ (
      (MayBeConnected same_info same_info_iff 3 bus × In {A = ℕ} 3 (1 ∷ 2 ∷ []))
      ⊎ Registers same_info same_info_iff 3
          (news (still_connected same_info (current_device_infos same_info bus) (1 ∷ 2 ∷ []))))
In-reconcile_example = In-reconcile same_info same_info_iff 3 bus news (1 ∷ 2 ∷ [])

abbrev address : ℕ → Result Address IoError
address iface = ok (record { network_id = iface; node_id = 2; port_id = 0 })

abbrev back_again : Pass ℕ ℕ ℕ
back_again = record { listing = bus; find_new = news; mac = λ iface. ok (1 ∷ []); peer = address }

abbrev first_route : Route
first_route = record {
  peer = record { network_id = 1; node_id = 2; port_id = 0 };
  metrics = default_metrics;
}
