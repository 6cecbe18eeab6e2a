-- ===== src/Examples/Entry.antt =====
-- A search of host/src/serial_transport.rs, and a run of host/src/main.rs.
use lamella.Base.{ℕ, true, false, none, some, List, [], ◌∷◌, ◌≡◌, ◌⊎◌, ◌↔◌, Result, ok, err}
use lamella.SerialTransport.Entry.{Entry, Directory, find_device_by_id}
use lamella.SerialTransport.Entry.Found.{IsFirst, listed, find_device_by_id-IsFirst}
use lamella.Main.Program.{Cli, nusb, Run, Joined, joined, transport_run, main, main-Fails}

abbrev an_entry : List ℕ → Entry
an_entry name = record { name = name; path = b'/' ∷ name }

-- One entry cannot be read; "usb" stands in the last name.
abbrev by_id : Directory ℕ
by_id = record {
  is_there = true;
  entries = ok (
      some (an_entry (b't' ∷ b't' ∷ b'y' ∷ []))
      ∷ none
      ∷ some (an_entry (b'a' ∷ b'u' ∷ b's' ∷ b'b' ∷ b'0' ∷ []))
      ∷ []);
}

find_device_by_id-IsFirst_example :
    IsFirst
      (b'u' ∷ b's' ∷ b'b' ∷ [])
      (listed by_id)
      (find_device_by_id (b'u' ∷ b's' ∷ b'b' ∷ []) by_id)
find_device_by_id-IsFirst_example = find_device_by_id-IsFirst (b'u' ∷ b's' ∷ b'b' ∷ []) by_id

abbrev cli : Cli
cli = record {
  transport = nusb;
  test = false;
  bandwidth = none;
  http = none;
  system_network = true;
  route_metric = 5;
  metrics_file = none;
}

abbrev runs : Run → Result (Unit {0}) ℕ
runs r = ok tt

abbrev network_runs : ℕ → Joined ℕ
network_runs metric = joined (err metric)

main-Fails_example : (main cli runs network_runs ≡ err 5) ↔ (
    (runs (transport_run nusb cli) ≡ err 5)
    ⊎ ((runs (transport_run nusb cli) ≡ ok tt)
        × (cli.system_network ≡ true)
        × (network_runs cli.route_metric ≡ joined (err 5))))
main-Fails_example = main-Fails cli runs network_runs 5
