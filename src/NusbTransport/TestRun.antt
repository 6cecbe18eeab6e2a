-- ===== src/NusbTransport/TestRun.antt =====
-- host/src/nusb_transport.rs: `run_test_mode`, up to the test that it runs. Its wait for a device is the
-- first loop of `run`.
use lamella.Base.{ℕ, Bool, Option, none, some, List, [], Result, ok, err}
use lamella.Bridge.Mac.{IoError}
use lamella.Exchange.{Address}
use lamella.NusbTransport.Run.{Pass, Search, connected, shut_down, searching, search}
use lamella.SerialTransport.Target.{TargetError, Server, bandwidth_target}

-- What has come of the test mode: it waits, it has returned before a test, or it runs one, which
-- gets the address of the device for the exchange task, and its MAC address.
pub data TestRun : Type 0 where
  waiting : TestRun
  shut_down_before : TestRun
  no_peer : IoError → TestRun
  bad_target : TargetError → TestRun
  tcp_bandwidth : (peer : Address) → (mac : List ℕ) → Server → TestRun
  smoltcp_stack : (peer : Address) → (mac : List ℕ) → TestRun

abbrev pub on_target : Address → List ℕ → Result Server TargetError → TestRun
on_target peer mac (err e) = bad_target e
on_target peer mac (ok server) = tcp_bandwidth peer mac server

module _ (parse_u8 parse_u16 : List ℕ → Option ℕ) where
  abbrev pub test_for : Address → List ℕ → Option (List ℕ) → TestRun
  test_for peer mac none = smoltcp_stack peer mac
  test_for peer mac (some target) = on_target peer mac (bandwidth_target parse_u8 parse_u16 target)

  abbrev pub on_peer : List ℕ → Option (List ℕ) → Result Address IoError → TestRun
  on_peer mac bandwidth (err e) = no_peer e
  on_peer mac bandwidth (ok peer) = test_for peer mac bandwidth

  abbrev pub on_search : Search → Option (List ℕ) → (ℕ → Result Address IoError) → TestRun
  on_search searching bandwidth peer = waiting
  on_search shut_down bandwidth peer = shut_down_before
  on_search (connected interface_id mac) bandwidth peer = on_peer mac bandwidth (peer interface_id)

  -- The target of the download is not used.
  unfoldable pub nusb_test_mode :
      {A : Type 0} {E F : Type 0}
      → (A → A → Bool)
      → List (Option (Pass A E F))
      → (ℕ → Result Address IoError)
      → (bandwidth http : Option (List ℕ)) → TestRun
  unfolding search
  nusb_test_mode same passes peer bandwidth http =
      on_search (search same passes []).1 bandwidth peer
