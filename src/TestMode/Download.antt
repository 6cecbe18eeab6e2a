-- ===== src/TestMode/Download.antt =====
-- host/src/test_mode.rs: `run_http_download_test` and `run_tcp_bandwidth_test`. What the sockets of
-- smoltcp and the clock answer in each pass of the loop is an argument; what is only logged is left
-- out.
pub mod Blank
pub mod Counting
pub mod Ends
use lamella.Base.{
  ℕ, ◌+◌, ◌-◌, ◌%◌, ◌^◌, Bool, true, false, ◌&&◌, not, if◌then◌else◌, Option, none, some, List, [],
  ◌∷◌, ◌++◌, length, ltb,
}
use lamella.Duration.{from_secs}
use lamella.Icd.{u64}
use lamella.TestMode.Ending.{Ending, running, cancelled, conclude_test, unless_over}
use lamella.TestMode.Download.Blank.{header_end}

pub data DhcpEvent : Type 0 where
  configured : DhcpEvent
  deconfigured : DhcpEvent

-- `local_ports` are those that `connect` was called with, the newest first.
pub record Connection : Type 0 where
  pub got_ip : Bool
  pub tcp_started : Bool
  pub tcp_connected : Bool
  pub local_ports : List ℕ

abbrev pub new_connection : Connection
new_connection = record {
  got_ip = false;
  tcp_started = false;
  tcp_connected = false;
  local_ports = [];
}

-- The event of the DHCP socket, the milliseconds since 1970, whether `connect` succeeds, and
-- `is_active` and `may_recv` of the TCP socket.
pub record Signals : Type 0 where
  pub dhcp : Option DhcpEvent
  pub millis : ℕ
  pub connects : Bool
  pub is_active : Bool
  pub may_recv : Bool

abbrev pub check_dhcp : Option DhcpEvent → Bool → Bool
check_dhcp none got_ip = got_ip
check_dhcp (some configured) got_ip = true
check_dhcp (some deconfigured) got_ip = false

-- `49152 + (millis % 16384) as u16`.
abbrev pub local_port : ℕ → ℕ
local_port millis = (49152 + millis % 16384) % 2 ^ 16

abbrev pub start_tcp : Signals → Connection → Connection
start_tcp p c =
    if c.got_ip && not c.tcp_started
    then record c { tcp_started = p.connects; local_ports = local_port p.millis ∷ c.local_ports }
    else c

abbrev pub check_connected : Signals → Connection → Connection
check_connected p c =
    if (c.tcp_started && not c.tcp_connected) && (p.is_active && p.may_recv)
    then record c { tcp_connected = true }
    else c

unfoldable pub connect_tcp : Signals → Connection → Connection
connect_tcp p c = check_connected p (start_tcp p (record c { got_ip = check_dhcp p.dhcp c.got_ip }))

-- One pass: `may_send`, what `send_slice` and `recv` return, the latter with the bytes that its
-- closure gets, then `may_recv` once more, whether the state is `Established`, and the time.
pub record HttpPass : Type 0 where
  pub signals : Signals
  pub may_send : Bool
  pub sends : Bool
  pub received : Option (List ℕ)
  pub may_recv_after : Bool
  pub is_established : Bool
  pub now : ℕ

-- The variables of the loop; `total_bytes` and `body_bytes` are u64.
pub record Http : Type 0 where
  pub connection : Connection
  pub http_request_sent : Bool
  pub headers_done : Bool
  pub total_bytes : ℕ
  pub body_bytes : ℕ
  pub start_time : Option ℕ
  pub last_report : ℕ
  pub header_buf : List ℕ

abbrev pub new_http : ℕ → Http
new_http now = record {
  connection = new_connection;
  http_request_sent = false;
  headers_done = false;
  total_bytes = 0;
  body_bytes = 0;
  start_time = none;
  last_report = now;
  header_buf = [];
}

abbrev pub send_request : HttpPass → Http → Http
send_request p s =
    if (s.connection.tcp_connected && not s.http_request_sent) && (p.may_send && p.sends)
    then record s { http_request_sent = true; start_time = some p.now }
    else s

-- `headers_done` and `body_bytes` after the search for the end of the headers.
abbrev pub headers_at : Option ℕ → Http → Http
headers_at none s = s
headers_at (some pos) s = record s {
  headers_done = true;
  body_bytes = u64 (s.body_bytes + (length s.header_buf - (pos + 4)));
}

abbrev pub search_headers : Http → Http
search_headers s = headers_at (header_end s.header_buf) s

abbrev pub on_bytes : (headers_done : Bool) → List ℕ → Http → Http
on_bytes false chunk s = search_headers (record s { header_buf = s.header_buf ++ chunk })
on_bytes true chunk s = record s { body_bytes = u64 (s.body_bytes + length chunk) }

-- The closure of `recv`.
abbrev pub on_data : List ℕ → Http → Http
on_data chunk s = record (on_bytes s.headers_done chunk s) {
  total_bytes = u64 (s.total_bytes + length chunk);
}

-- The bytes that the closure gets in a pass, if it is called.
abbrev pub chunk_in : HttpPass → Http → Option (List ℕ)
chunk_in p s = if s.http_request_sent && p.signals.may_recv then p.received else none

abbrev pub on_chunk : Option (List ℕ) → Http → Http
on_chunk none s = s
on_chunk (some chunk) s = on_data chunk s

-- A pass up to `recv`.
unfoldable pub prepare : HttpPass → Http → Http
unfolding connect_tcp
prepare p s = send_request p (record s { connection = connect_tcp p.signals s.connection })

-- The rest of a pass: is the connection closed, is a report due?
unfoldable pub conclude : HttpPass → Http → Http × Ending
conclude p s =
    conclude_test (s.http_request_sent && s.headers_done)
      (not p.may_recv_after && not p.is_established) (ltb (from_secs 2) (p.now - s.last_report))
      s.start_time p.now s (record s { last_report = p.now })

unfoldable pub http_pass : HttpPass → Http → Http × Ending
unfolding prepare conclude
http_pass p s = let t = prepare p s in conclude p (on_chunk (chunk_in p t) t)

-- The passes of the loop; `none`: the test is cancelled.
unfoldable pub run_http_download_test : List (Option HttpPass) → Http → Http × Ending
unfolding http_pass
run_http_download_test [] s = (s, running)
run_http_download_test (none ∷ rest) s = (s, cancelled)
run_http_download_test (some p ∷ rest) s =
    let after = http_pass p s in unless_over (run_http_download_test rest after.0) after
