-- ===== src/TestMode/Ping.antt =====
-- host/src/test_mode.rs: `run_smoltcp_stack`, which pings the gateway, the DNS servers and two more
-- addresses, over what the sockets of smoltcp and the clock answer.
pub mod Pace
use lamella.Base.{
  ℕ, ◌+◌, ◌-◌, ◌%◌, ◌^◌, Bool, true, false, ◌&&◌, ◌||◌, not, if◌then◌else◌, Option, none, some,
  List, [], ◌∷◌, ◌++◌, Result, ok, err, ◌>>=◌, length, leb, ltb, get_elem?,
}
use lamella.Duration.{from_secs}
use lamella.SerialTransport.Target.{Ipv4Address}

-- `dhcpv4::Config`, less the address, which is only passed on.
pub record DhcpConfig : Type 0 where
  pub router : Option Ipv4Address
  pub dns_servers : List Ipv4Address

pub data DhcpEvent : Type 0 where
  configured : DhcpConfig → DhcpEvent
  deconfigured : DhcpEvent

-- A pass of the loop: what the sockets answer, and the time. `address_added` and `route_added` are the
-- results of the calls that are unwrapped.
pub record Pass (E : Type 0) : Type 0 where
  pub dhcp : Option DhcpEvent
  pub address_added : Bool
  pub route_added : Bool
  pub now : ℕ
  pub can_send : Bool
  pub send_slice : Result (Unit {0}) E
  pub can_recv : Bool
  pub recv : Result (List ℕ) E

-- A ping that was sent.
pub record Ping : Type 0 where
  pub seq_no : ℕ
  pub target : Ipv4Address
  pub at : ℕ

-- The variables of the loop, and the pings sent, the newest first.
pub record Pinger : Type 0 where
  pub got_ip : Bool
  pub ping_targets : List Ipv4Address
  pub ping_seq : ℕ
  pub last_ping_time : ℕ
  pub awaiting_pong : Bool
  pub sent : List Ping

abbrev pub new_pinger : ℕ → Pinger
new_pinger start = record {
  got_ip = false;
  ping_targets = [];
  ping_seq = 0;
  last_ping_time = start;
  awaiting_pong = false;
  sent = [];
}

-- Where the code panics.
pub data Panic : Type 0 where
  on_address on_route out_of_bounds : Panic

abbrev pub ping_interval : ℕ
ping_interval = from_secs 1

abbrev pub well_known : List Ipv4Address
well_known = record { a = 8; b = 8; c = 8; d = 8 } ∷ record { a = 1; b = 1; c = 1; d = 1 } ∷ []

abbrev pub router_of : Option Ipv4Address → List Ipv4Address
router_of none = []
router_of (some router) = router ∷ []

abbrev pub route_of : Option Ipv4Address → Bool → Bool
route_of none added = true
route_of (some router) added = added

-- The targets of an earlier configuration stay in the list.
abbrev pub on_dhcp : {E : Type 0} → Option DhcpEvent → Pass E → Pinger → Result Pinger Panic
on_dhcp none pass p = ok p
on_dhcp (some deconfigured) pass p = ok (record p { got_ip = false })
on_dhcp (some (configured config)) pass p =
    if not pass.address_added
    then err on_address
    else if not (route_of config.router pass.route_added)
    then err on_route
    else ok (record p {
      got_ip = true;
      ping_targets =
          p.ping_targets ++ (router_of config.router ++ (config.dns_servers ++ well_known));
    })

abbrev pub sent_to : {E : Type 0} → Result (Unit {0}) E → Ipv4Address → ℕ → Pinger → Pinger
sent_to (err e) target now p = p
sent_to (ok _) target now p = record p {
  awaiting_pong = true;
  last_ping_time = now;
  sent = record { seq_no = p.ping_seq; target = target; at = now } ∷ p.sent;
}

abbrev pub ping_to : {E : Type 0} → Option Ipv4Address → Pass E → Pinger → Result Pinger Panic
ping_to none pass p = err out_of_bounds
ping_to (some target) pass p =
    ok (if pass.can_send then sent_to pass.send_slice target pass.now p else p)

unfoldable pub send_ping : {E : Type 0} → Pass E → Pinger → Result Pinger Panic
send_ping pass p =
    if leb ping_interval (pass.now - p.last_ping_time) && not p.awaiting_pong
    then ping_to (get_elem? p.ping_targets (p.ping_seq % length p.ping_targets)) pass p
    else ok p

-- `ping_seq.wrapping_add(1)`, after a reply or in vain.
abbrev pub next_ping : Pinger → Pinger
next_ping p = record p { awaiting_pong = false; ping_seq = (p.ping_seq + 1) % 2 ^ 16 }

module _ (is_echo_reply : List ℕ → Bool) where
  -- The sequence number of the reply is only logged.
  abbrev pub on_reply : {E : Type 0} → Result (List ℕ) E → Pinger → Pinger
  on_reply (err e) p = p
  on_reply (ok payload) p =
      if leb 8 (length payload) && is_echo_reply payload then next_ping p else p

  unfoldable pub receive_pong : {E : Type 0} → Pass E → Pinger → Pinger
  receive_pong pass p = if pass.can_recv then on_reply pass.recv p else p

  unfoldable pub time_out : ℕ → Pinger → Pinger
  time_out now p =
      if p.awaiting_pong && ltb (from_secs 3) (now - p.last_ping_time) then next_ping p else p

  unfoldable pub ping_logic : {E : Type 0} → Pass E → Pinger → Result Pinger Panic
  unfolding send_ping receive_pong time_out
  ping_logic pass p =
      if p.got_ip && leb 1 (length p.ping_targets)
      then (send_ping pass p >>= λ p1. ok (time_out pass.now (receive_pong pass p1)))
      else ok p

  unfoldable pub stack_pass : {E : Type 0} → Pass E → Pinger → Result Pinger Panic
  unfolding ping_logic
  stack_pass pass p = on_dhcp pass.dhcp pass p >>= λ p1. ping_logic pass p1

  -- `none` is the cancellation, which ends the loop, as the end of the list ends what is looked at.
  unfoldable pub run_smoltcp_stack :
      {E : Type 0} → List (Option (Pass E)) → Pinger → Result Pinger Panic
  unfolding stack_pass
  run_smoltcp_stack [] p = ok p
  run_smoltcp_stack (none ∷ rest) p = ok p
  run_smoltcp_stack (some pass ∷ rest) p = stack_pass pass p >>= λ p1. run_smoltcp_stack rest p1
