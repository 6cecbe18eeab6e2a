-- ===== src/Examples/Routes.antt =====
-- host/src/system_network.rs: `report_wireguard_routes` with one interface.
use lamella.Base.{ℕ, some, true, false, List, [], ◌∷◌, ◌++◌, ◌≡◌, refl, ok}
use lamella.SystemNetwork.Routes.{
  show_interfaces, show_endpoints, show_fwmark, route_get, WireGuard, report_wireguard_routes,
}

abbrev wg0 : List ℕ
wg0 = b'w' ∷ b'g' ∷ b'0' ∷ []

-- A line with a key and an endpoint.
abbrev line : List ℕ → List ℕ
line endpoint = b'k' ∷ b'=' ∷ 9 ∷ endpoint ++ 10 ∷ []

abbrev a_host : WireGuard (Unit {0})
a_host = record {
  interfaces = ok wg0;
  endpoints = λ interface.
      ok (line (b'a' ∷ b':' ∷ b'1' ∷ []) ++ line (b'[' ∷ b':' ∷ b':' ∷ b']' ∷ b':' ∷ b'1' ∷ []));
  fwmark = λ interface. ok (b'7' ∷ []);
}

both_endpoints :
    report_wireguard_routes a_host
    ≡ show_interfaces
      ∷ show_endpoints wg0
      ∷ show_fwmark wg0
      ∷ route_get false (b'a' ∷ []) (some (b'7' ∷ []))
      ∷ route_get true (b':' ∷ b':' ∷ []) (some (b'7' ∷ []))
      ∷ []
unfolding report_wireguard_routes
both_endpoints = refl
