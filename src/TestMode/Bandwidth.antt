-- ===== src/TestMode/Bandwidth.antt =====
-- host/src/test_mode.rs: `run_tcp_bandwidth_test` and `run_udp_bandwidth_test`, over what the sockets
-- of smoltcp and the clock answer.
pub mod Counting
pub mod Lengths
use lamella.Base.{
  ℕ, ◌+◌, ◌-◌, Bool, true, false, ◌&&◌, not, if◌then◌else◌, Option, none, some, List, [], ◌∷◌, ltb,
}
use lamella.Duration.{from_secs}
use lamella.Icd.{u64}
use lamella.TestMode.Ending.{Ending, running, cancelled, conclude_test, unless_over}
use lamella.TestMode.Download.{
  Signals, Connection, new_connection, connect_tcp, DhcpEvent, check_dhcp,
}

-- One pass of the TCP test: `len` is what `recv` returns, `none` an error.
pub record TcpPass : Type 0 where
  pub signals : Signals
  pub len : Option ℕ
  pub may_recv_after : Bool
  pub is_established : Bool
  pub now : ℕ

pub record Tcp : Type 0 where
  pub connection : Connection
  pub total_bytes : ℕ
  pub start_time : Option ℕ
  pub last_report : ℕ

abbrev pub new_tcp : ℕ → Tcp
new_tcp now = record {
  connection = new_connection;
  total_bytes = 0;
  start_time = none;
  last_report = now;
}

-- A pass up to `recv`; the time is taken when the connection is there.
unfoldable pub connect : TcpPass → Tcp → Tcp
unfolding connect_tcp
connect p s =
    let c = connect_tcp p.signals s.connection in
    record s {
      connection = c;
      start_time =
          if c.tcp_connected && not s.connection.tcp_connected then some p.now else s.start_time;
    }

abbrev pub len_in : TcpPass → Tcp → Option ℕ
len_in p s = if s.connection.tcp_connected && p.signals.may_recv then p.len else none

abbrev pub on_len : Option ℕ → Tcp → Tcp
on_len none s = s
on_len (some len) s = if ltb 0 len then record s { total_bytes = u64 (s.total_bytes + len) } else s

unfoldable pub conclude_tcp : TcpPass → Tcp → Tcp × Ending
conclude_tcp p s =
    conclude_test s.connection.tcp_connected (not p.may_recv_after && not p.is_established)
      (ltb (from_secs 2) (p.now - s.last_report)) s.start_time p.now s
      (record s { last_report = p.now })

unfoldable pub tcp_pass : TcpPass → Tcp → Tcp × Ending
unfolding connect conclude_tcp
tcp_pass p s = let t = connect p s in conclude_tcp p (on_len (len_in p t) t)

unfoldable pub run_tcp_bandwidth_test : List (Option TcpPass) → Tcp → Tcp × Ending
unfolding tcp_pass
run_tcp_bandwidth_test [] s = (s, running)
run_tcp_bandwidth_test (none ∷ rest) s = (s, cancelled)
run_tcp_bandwidth_test (some p ∷ rest) s =
    let after = tcp_pass p s in unless_over (run_tcp_bandwidth_test rest after.0) after

-- One pass of the UDP test: whether the trigger can be sent and is, and what `recv` returns while
-- `can_recv` holds: the length and the time of a packet, or an error, which ends the loop.
pub record UdpPass : Type 0 where
  pub dhcp : Option DhcpEvent
  pub can_send : Bool
  pub sends : Bool
  pub packets : List (Option (ℕ × ℕ))
  pub now : ℕ

pub record Udp : Type 0 where
  pub got_ip : Bool
  pub sent_trigger : Bool
  pub total_bytes : ℕ
  pub total_packets : ℕ
  pub start_time : Option ℕ
  pub last_report : ℕ
  pub last_packet_time : ℕ

abbrev pub new_udp : ℕ → Udp
new_udp now = record {
  got_ip = false;
  sent_trigger = false;
  total_bytes = 0;
  total_packets = 0;
  start_time = none;
  last_report = now;
  last_packet_time = now;
}

unfoldable pub send_trigger : UdpPass → Udp → Udp
send_trigger p s =
    let got_ip = check_dhcp p.dhcp s.got_ip in
    if (got_ip && not s.sent_trigger) && (p.can_send && p.sends)
    then record s {
      got_ip = got_ip;
      sent_trigger = true;
      start_time = some p.now;
      last_packet_time = p.now;
    }
    else record s { got_ip = got_ip }

-- `while udp_socket.can_recv()`.
unfoldable pub receive_packets : List (Option (ℕ × ℕ)) → Udp → Udp
receive_packets [] s = s
receive_packets (none ∷ rest) s = s
receive_packets (some (len, at) ∷ rest) s = receive_packets rest (record s {
  total_bytes = u64 (s.total_bytes + len);
  total_packets = u64 (s.total_packets + 1);
  last_packet_time = at;
})

unfoldable pub conclude_udp : UdpPass → Udp → Udp × Ending
conclude_udp p s =
    conclude_test (s.sent_trigger && ltb 0 s.total_packets)
      (ltb (from_secs 5) (p.now - s.last_packet_time)) (ltb (from_secs 2) (p.now - s.last_report))
      s.start_time p.now s (record s { last_report = p.now })

abbrev pub packets_in : UdpPass → Udp → List (Option (ℕ × ℕ))
packets_in p s = if s.sent_trigger then p.packets else []

unfoldable pub udp_pass : UdpPass → Udp → Udp × Ending
unfolding send_trigger receive_packets conclude_udp
udp_pass p s = let t = send_trigger p s in conclude_udp p (receive_packets (packets_in p t) t)

unfoldable pub run_udp_bandwidth_test : List (Option UdpPass) → Udp → Udp × Ending
unfolding udp_pass
run_udp_bandwidth_test [] s = (s, running)
run_udp_bandwidth_test (none ∷ rest) s = (s, cancelled)
run_udp_bandwidth_test (some p ∷ rest) s =
    let after = udp_pass p s in unless_over (run_udp_bandwidth_test rest after.0) after
