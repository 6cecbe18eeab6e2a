-- ===== src/NusbTransport/Run/Routes.antt =====
-- host/src/nusb_transport.rs: the route of the bridge against the interfaces that came up.
use lamella.Base.{
  ℕ, ◌+◌, ◌==◌, Bool, if◌then◌else◌, Option, none, some, List, [], ◌∷◌, ◌++◌, Result, ok, err, ◌≡◌,
  length,
}
use lamella.Icd.{u64}
use lamella.Bridge.Mac.{IoError}
use lamella.Exchange.{Address}
use lamella.NusbTransport.Devices.{reconcile_and_register_devices}
use lamella.NusbTransport.Run.{Pass, Route}

-- The address of an interface that answers the MAC query and has one.
abbrev pub route : Result (List ℕ) IoError → Result Address IoError → List Address
route (err e) peer = []
route (ok mac) (err e) = []
route (ok mac) (ok peer) = peer ∷ []

abbrev pub latest : Address → List Address → Address
latest peer [] = peer
latest peer (p ∷ rest) = latest p rest

-- Following some addresses: the last of them, and a reconnect for each.
abbrev pub Follows : List Address → Route → Route → Type 0
Follows l r s =
    (s.peer ≡ latest r.peer l) × (u64 s.metrics.reconnects ≡ u64 (r.metrics.reconnects + length l))

module _ {A : Type 0} (same : A → A → Bool) {E F : Type 0} (interface_id : ℕ) where
  -- The addresses of the interfaces of a pass, other than that of the first connection.
  abbrev pub routes_in : Pass A E F → List (ℕ × A) → List Address
  routes_in pass [] = []
  routes_in pass ((iface, info) ∷ rest) =
      (if iface == interface_id then [] else route (pass.mac iface) (pass.peer iface))
      ++ routes_in pass rest

  -- All of them, until the cancellation.
  pub routes : List (Option (Pass A E F)) → List A → List Address
  routes [] seen = []
  routes (none ∷ rest) seen = []
  routes (some pass ∷ rest) seen =
      let (seen', registered) =
        reconcile_and_register_devices same pass.listing pass.find_new seen in
      routes_in pass registered ++ routes rest seen'
