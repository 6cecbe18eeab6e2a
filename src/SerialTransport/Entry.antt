-- ===== src/SerialTransport/Entry.antt =====
-- host/src/serial_transport.rs: `run` with `run_with_port`, `run_test_mode`, and the search for a device
-- in /dev/serial/by-id. Texts are the lists of their bytes; what opening the port and asking the
-- device give is an argument.
pub mod Found
use lamella.Base.{
  ℕ, ◌==◌, Bool, true, false, ◌&&◌, ◌||◌, if◌then◌else◌, Option, none, some, List, [], ◌∷◌, Result,
  ok, err, ◌>>=◌,
}
use lamella.Bridge.Mac.{IoError}
use lamella.Exchange.{Address}
use lamella.Main.{TapError}
use lamella.SerialTransport.Target.{TargetError, Server, http_target, bandwidth_target}

-- `str::contains`.
abbrev pub starts_with : List ℕ → List ℕ → Bool
starts_with [] s = true
starts_with (x ∷ pattern) [] = false
starts_with (x ∷ pattern) (y ∷ s) = x == y && starts_with pattern s

unfoldable pub contains : List ℕ → List ℕ → Bool
contains pattern [] = starts_with pattern []
contains pattern (y ∷ s) = starts_with pattern (y ∷ s) || contains pattern s

-- An entry of the directory that could be read: its name and its path.
pub record Entry : Type 0 where
  pub name : List ℕ
  pub path : List ℕ

-- The loop over the entries; `flatten` leaves out those that could not be read.
unfoldable pub first_match : List ℕ → List (Option Entry) → Option (List ℕ)
unfolding contains
first_match pattern [] = none
first_match pattern (none ∷ rest) = first_match pattern rest
first_match pattern (some entry ∷ rest) =
    let on = first_match pattern rest in if contains pattern entry.name then some entry.path else on

-- Whether the directory is there, and `read_dir`.
pub record Directory (E : Type 0) : Type 0 where
  pub is_there : Bool
  pub entries : Result (List (Option Entry)) E

abbrev pub match_in : {E : Type 0} → List ℕ → Result (List (Option Entry)) E → Option (List ℕ)
match_in pattern (err e) = none
match_in pattern (ok entries) = first_match pattern entries

unfoldable pub find_device_by_id : {E : Type 0} → List ℕ → Directory E → Option (List ℕ)
unfolding first_match
find_device_by_id pattern by_id = if by_id.is_there then match_in pattern by_id.entries else none

pub data RunError : Type 0 where
  no_port_given not_registered exchange_ended : RunError
  failed : IoError → RunError
  no_tap : TapError → RunError
  bad_target : TargetError → RunError

abbrev pub or_failed : {A : Type 0} → Result A IoError → Result A RunError
or_failed (ok a) = ok a
or_failed (err e) = err (failed e)

-- What comes of a port: the id of its interface, and for that the MAC address and the peer.
pub record Port (E : Type 0) : Type 0 where
  pub registered : Result ℕ E
  pub mac : ℕ → Result (List ℕ) IoError
  pub peer : ℕ → Result Address IoError

pub record Connected : Type 0 where
  pub interface_id : ℕ
  pub expected_mac : List ℕ
  pub peer : Address

abbrev pub or_not_registered : {E : Type 0} → Result ℕ E → Result ℕ RunError
or_not_registered (ok id) = ok id
or_not_registered (err e) = err not_registered

-- The beginning of `run_with_port` and of `run_test_mode_with_port`.
abbrev pub connect : {E : Type 0} → Port E → Result Connected RunError
connect port = or_not_registered port.registered >>= λ id. or_failed (port.mac id) >>= λ mac.
    or_failed (port.peer id) >>= λ peer.
    ok (record { interface_id = id; expected_mac = mac; peer = peer })

-- What `run_with_port` does, in order.
pub data Act : Type 0 where
  create_tap : List ℕ → Act
  start_session : Address → Act
  cancel_session : Act
  deregister : ℕ → Act

abbrev pub run_session :
    Connected → Result (Unit {0}) TapError → Bool → Result (Unit {0}) RunError × List Act
run_session c (err e) ended = (err (no_tap e), create_tap c.expected_mac ∷ [])
run_session c (ok _) ended = (
  if ended then err exchange_ended else ok tt,
  create_tap c.expected_mac
      ∷ start_session c.peer
      ∷ cancel_session
      ∷ deregister c.interface_id
      ∷ [],
)

abbrev pub run_connected :
    Result Connected RunError
    → Result (Unit {0}) TapError
    → Bool
    → Result (Unit {0}) RunError × List Act
run_connected (err e) tap ended = (err e, [])
run_connected (ok c) tap ended = run_session c tap ended

-- `ended`: the exchange ended before the program was cancelled.
unfoldable pub run_with_port :
    {E : Type 0}
    → Port E
    → Result (Unit {0}) TapError
    → Bool
    → Result (Unit {0}) RunError × List Act
run_with_port port tap ended = run_connected (connect port) tap ended

-- `match (port, by_id)`, for `run` and `run_test_mode`.
unfoldable pub choose_port :
    {A : Type 0}
    → Option (List ℕ)
    → Option (List ℕ)
    → (List ℕ → A)
    → (List ℕ → A)
    → (RunError → A)
    → A
choose_port (some port) by_id direct search fail = direct port
choose_port none (some pattern) direct search fail = search pattern
choose_port none none direct search fail = fail no_port_given

-- The test that `run_test_mode_with_port` runs; `run_http_download_test` and the others follow.
pub data Test : Type 0 where
  http_download : Server → (path : List ℕ) → Test
  udp_bandwidth : Server → Test
  smoltcp_stack : Test

abbrev pub or_bad_target : {A : Type 0} → Result A TargetError → (A → Test) → Result Test RunError
or_bad_target (ok a) test = ok (test a)
or_bad_target (err e) test = err (bad_target e)

module _ (parse_u8 parse_u16 : List ℕ → Option ℕ) where
  abbrev pub choose_test : Option (List ℕ) → Option (List ℕ) → Result Test RunError
  choose_test (some target) bandwidth =
      or_bad_target (http_target parse_u8 parse_u16 target)
        (λ (server, path). http_download server path)
  choose_test none (some target) =
      or_bad_target (bandwidth_target parse_u8 parse_u16 target) udp_bandwidth
  choose_test none none = ok smoltcp_stack

  unfoldable pub run_test_mode_with_port :
      {E : Type 0} → Port E → Option (List ℕ) → Option (List ℕ) → Result Test RunError
  run_test_mode_with_port port http bandwidth = connect port >>= λ c. choose_test http bandwidth

-- The loop of `run_test_mode` that waits for a device: `none` is the cancellation, and the result the
-- port, `some none` that it was cancelled.
unfoldable pub wait_for_device :
    {E : Type 0} → List ℕ → List (Option (Directory E)) → Option (Option (List ℕ))
unfolding find_device_by_id
wait_for_device pattern [] = none
wait_for_device pattern (none ∷ rest) = some none
wait_for_device pattern (some by_id ∷ rest) =
    let on = wait_for_device pattern rest in
    elim (find_device_by_id pattern by_id) [ none ↦ on | some path ↦ some (some path) ]
