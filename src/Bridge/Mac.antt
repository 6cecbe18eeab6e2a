-- ===== src/Bridge/Mac.antt =====
-- host/src/bridge.rs: the MAC query with its retries, and the peer's address; host/src/main.rs: the
-- constants of the query.
pub mod Retries
use lamella.Base.{ℕ, zero, suc, ◌+◌, Option, none, some, List, Result, ok, err, ◌>>=◌}
use lamella.Exchange.{Address}

-- `io::Error`, by the kinds that the code makes.
pub data IoError : Type 0 where
  timed_out not_connected other : IoError

abbrev pub esp32_node_id : ℕ
esp32_node_id = 2

abbrev pub mac_query_retries : ℕ
mac_query_retries = 3

-- Ergot's `InterfaceState`: active, or any other state.
pub data InterfaceState : Type 0 where
  active : (net_id node_id : ℕ) → InterfaceState
  inactive : InterfaceState

abbrev pub active_net : Option InterfaceState → Option ℕ
active_net (some (active net_id node_id)) = some net_id
active_net (some inactive) = none
active_net none = none

abbrev pub address_on : Option ℕ → Result Address IoError
address_on none = err not_connected
address_on (some net_id) = ok (record { network_id = net_id; node_id = esp32_node_id; port_id = 0 })

-- `stack.manage_profile(|im| im.interface_state(interface_id))` is the argument.
unfoldable pub serial_peer_address : Option InterfaceState → Result Address IoError
serial_peer_address state = address_on (active_net state)

unfoldable pub nusb_peer_address : Option InterfaceState → Result Address IoError
nusb_peer_address state = address_on (active_net state)

-- What one request of the MAC gives: Ergot's answer.
abbrev pub to_io : {A E : Type 0} → Result A E → Result A IoError
to_io (ok a) = ok a
to_io (err e) = err other

unfoldable pub query_mac_for_interface_serial :
    {E : Type 0} → Option InterfaceState → (Address → Result (List ℕ) E) → Result (List ℕ) IoError
unfolding serial_peer_address
query_mac_for_interface_serial state request =
    serial_peer_address state >>= λ address. to_io (request address)

unfoldable pub query_mac_for_interface_nusb :
    {E : Type 0} → Option InterfaceState → (Address → Result (List ℕ) E) → Result (List ℕ) IoError
unfolding nusb_peer_address
query_mac_for_interface_nusb state request =
    nusb_peer_address state >>= λ address. to_io (request address)

-- `last_err.unwrap_or_else(..)`.
abbrev pub last_or_other : Option IoError → IoError
last_or_other none = other
last_or_other (some e) = e

-- The loop from `attempt` on, with the attempts left. An attempt gives a result within the timeout,
-- or `none`.
unfoldable pub query_mac_from :
    (ℕ → Option (Result (List ℕ) IoError)) → ℕ → ℕ → Option IoError → Result (List ℕ) IoError
query_mac_from query zero attempt last_err = err (last_or_other last_err)
query_mac_from query (suc left) attempt last_err = elim (query attempt) [
  | some (ok mac) ↦ ok mac
  | some (err e) ↦ query_mac_from query left (attempt + 1) (some e)
  | none ↦ query_mac_from query left (attempt + 1) (some timed_out)
]

unfoldable pub query_mac_with_retry_serial :
    (ℕ → Option (Result (List ℕ) IoError)) → Result (List ℕ) IoError
unfolding query_mac_from
query_mac_with_retry_serial query = query_mac_from query mac_query_retries 1 none

unfoldable pub query_mac_with_retry_nusb :
    (ℕ → Option (Result (List ℕ) IoError)) → Result (List ℕ) IoError
unfolding query_mac_from
query_mac_with_retry_nusb query = query_mac_from query mac_query_retries 1 none
