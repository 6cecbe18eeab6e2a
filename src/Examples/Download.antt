-- ===== src/Examples/Download.antt =====
-- A download and the bandwidth tests of host/src/test_mode.rs: its blank line comes in two chunks.
use lamella.Base.{none, true, false, some, List, [], ◌∷◌, ℕ, Option, Bool, All}
use lamella.TestMode.Download.{HttpPass, configured, run_http_download_test, new_http}
use lamella.TestMode.Bandwidth.{UdpPass, TcpPass}
use lamella.TestMode.Bandwidth.Counting.{packets}
use lamella.TestMode.Download.Counting.{Counts, stream, download-Counts}
use lamella.TestMode.Download.Ends.{EndsAfter, IsEphemeral, download-EndsAfter}

abbrev a_pass : Option (List ℕ) → Bool → HttpPass
a_pass received open_still = record {
  signals = record {
    dhcp = some configured;
    millis = 1_700_000_000_123;
    connects = true;
    is_active = true;
    may_recv = true;
  };
  may_send = true;
  sends = true;
  received = received;
  may_recv_after = open_still;
  is_established = open_still;
  now = 9;
}

-- "OK\r\n\r", then "\nabc" and the end of the connection.
abbrev passes : List (Option HttpPass)
passes =
    some (a_pass (some (79 ∷ 75 ∷ 13 ∷ 10 ∷ 13 ∷ [])) true)
    ∷ some (a_pass (some (10 ∷ 97 ∷ 98 ∷ 99 ∷ [])) false)
    ∷ []

download-Counts_example :
    Counts (stream passes (new_http 0)) (run_http_download_test passes (new_http 0)).0
download-Counts_example = download-Counts passes 0

download-EndsAfter_example :
    EndsAfter (stream passes (new_http 0)) (run_http_download_test passes (new_http 0)).1
    × All IsEphemeral (run_http_download_test passes (new_http 0)).0.connection.local_ports
download-EndsAfter_example = download-EndsAfter passes 0

-- A packet of 1400 bytes, then none for six seconds.
abbrev udp_passes : List (Option UdpPass)
udp_passes =
    some (udp_pass_at (some (1400, 3) ∷ none ∷ []) 4) ∷ some (udp_pass_at [] 6_000_000_009) ∷ []
  where
    udp_pass_at : List (Option (ℕ × ℕ)) → ℕ → UdpPass
    udp_pass_at l now = record {
      dhcp = some configured;
      can_send = true;
      sends = true;
      packets = l;
      now = now;
    }

abbrev tcp_passes : List (Option TcpPass)
tcp_passes = some (tcp_pass_with (some 512) true) ∷ some (tcp_pass_with (some 0) false) ∷ []
  where
    tcp_pass_with : Option ℕ → Bool → TcpPass
    tcp_pass_with len open_still = record {
      signals = (a_pass none true).signals;
      len = len;
      may_recv_after = open_still;
      is_established = open_still;
      now = 9;
    }
