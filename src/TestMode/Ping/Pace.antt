-- ===== src/TestMode/Ping/Pace.antt =====
-- host/src/test_mode.rs: when `run_smoltcp_stack` pings, and whom.
use lamella.Base.{
  ℕ, ◌+◌, ◌-◌, ◌%◌, ◌≤◌, Bool, true, false, ◌&&◌, not, if◌then◌else◌, Option, none, some, List, [],
  ◌∷◌, ◌++◌, ◌≡◌, refl, subst, Result, ok, err, ◌>>=◌, length, leb, ltb, All, In, In-append,
  In-get_elem?, Bool-cases, inl, inr, both_true, leb→le, arith,
}
use lamella.Duration.{from_secs}
use lamella.SerialTransport.Target.{Ipv4Address}
use lamella.TestMode.Ping.{
  DhcpEvent, configured, deconfigured, Pass, Ping, Pinger, new_pinger, Panic, ping_interval,
  well_known, router_of, route_of, on_dhcp, sent_to, send_ping, next_ping, on_reply, receive_pong,
  time_out, ping_logic, stack_pass, run_smoltcp_stack,
}

-- When the newest ping was sent, or the loop began.
abbrev pub last_at : ℕ → List Ping → ℕ
last_at start [] = start
last_at start (x ∷ rest) = x.at

-- There is at least the interval between a ping and the next, and before the first.
abbrev pub IsSpaced : ℕ → List Ping → Type 0
IsSpaced start [] = Unit
IsSpaced start (x ∷ rest) = (last_at start rest + ping_interval ≤ x.at) × IsSpaced start rest

abbrev pub IsNewest : ℕ → List Ping → Type 0
IsNewest seq [] = ⊥
IsNewest seq (x ∷ rest) = x.seq_no ≡ seq

-- The pings are spaced, went to targets, and one that is awaited is the newest, with the current number.
pub record IsPaced (start : ℕ) (p : Pinger) : Type 0 where
  pub last : p.last_ping_time ≡ last_at start p.sent
  pub spaced : IsSpaced start p.sent
  pub to_targets : All (λ x. In x.target p.ping_targets) p.sent
  pub awaited : p.awaiting_pong ≡ true → IsNewest p.ping_seq p.sent

abbrev pub IsFine : ℕ → Result Pinger Panic → Type 0
IsFine start (err e) = ⊥
IsFine start (ok p) = IsPaced start p

-- The interface has taken what it was given in this pass.
abbrev pub Applies : {E : Type 0} → Option (Pass E) → Type 0
Applies none = Unit
Applies (some pass) = (pass.address_added ≡ true) × (pass.route_added ≡ true)

and_then-IsFine :
    (start : ℕ) (r : Result Pinger Panic) (next : Pinger → Result Pinger Panic)
    → ((p : Pinger) → IsPaced start p → IsFine start (next p))
    → IsFine start r
    → IsFine start (r >>= next)
and_then-IsFine start (err e) next keeps h = absurd h
and_then-IsFine start (ok p) next keeps h = keeps p h

next_ping-IsPaced : (start : ℕ) (p : Pinger) → IsPaced start p → IsPaced start (next_ping p)
next_ping-IsPaced start p h = record {
  last = h.last;
  spaced = h.spaced;
  to_targets = h.to_targets;
  awaited = λ e. cc;
}

if_next-IsPaced :
    (start : ℕ) (b : Bool) (p : Pinger)
    → IsPaced start p
    → IsPaced start (if b then next_ping p else p)
if_next-IsPaced start true p h = next_ping-IsPaced start p h
if_next-IsPaced start false p h = h

more_targets :
    (old new : List Ipv4Address) (pings : List Ping)
    → All (λ x. In x.target old) pings
    → All (λ x. In x.target (old ++ new)) pings
more_targets old new [] h = tt
more_targets old new (x ∷ rest) h = (In-append x.target old new h.0, more_targets old new rest h.1)

route_of_added : (router : Option Ipv4Address) (b : Bool) → b ≡ true → route_of router b ≡ true
route_of_added none b h = refl
route_of_added (some router) b h = h

module _ {E : Type 0} (start : ℕ) (pass : Pass E) where
  on_dhcp-IsFine :
      (event : Option DhcpEvent) (p : Pinger)
      → Applies (some pass)
      → IsPaced start p
      → IsFine start (on_dhcp event pass p)
  on_dhcp-IsFine none p a h = h
  on_dhcp-IsFine (some deconfigured) p a h = record {
    last = h.last;
    spaced = h.spaced;
    to_targets = h.to_targets;
    awaited = h.awaited;
  }
  on_dhcp-IsFine (some (configured config)) p (address, route) h = rw address (
      rw (route_of_added config.router pass.route_added route) (record {
        last = h.last;
        spaced = h.spaced;
        to_targets =
            more_targets p.ping_targets
              (router_of config.router ++ (config.dns_servers ++ well_known)) p.sent h.to_targets;
        awaited = h.awaited;
      }))

  sent_to-IsPaced :
      (result : Result (Unit {0}) E) (target : Ipv4Address) (p : Pinger)
      → In target p.ping_targets
      → p.last_ping_time + ping_interval ≤ pass.now
      → IsPaced start p
      → IsPaced start (sent_to result target pass.now p)
  sent_to-IsPaced (err e) target p t late h = h
  sent_to-IsPaced (ok _) target p t late h = record {
    last = refl;
    spaced = (subst (λ n. n + ping_interval ≤ pass.now) h.last late, h.spaced);
    to_targets = (t, h.to_targets);
    awaited = λ e. refl;
  }

  if_sent-IsPaced :
      (b : Bool) (target : Ipv4Address) (p : Pinger)
      → In target p.ping_targets
      → p.last_ping_time + ping_interval ≤ pass.now
      → IsPaced start p
      → IsPaced start (if b then sent_to pass.send_slice target pass.now p else p)
  if_sent-IsPaced true target p t late h = sent_to-IsPaced pass.send_slice target p t late h
  if_sent-IsPaced false target p t late h = h

  interval_over :
      (now last : ℕ) → leb ping_interval (now - last) ≡ true → last + ping_interval ≤ now
  interval_over now last h = omega (arith, leb→le ping_interval (now - last) h)

  send_ping-IsFine :
      (p : Pinger) → 1 ≤ length p.ping_targets → IsPaced start p → IsFine start (send_ping pass p)
  unfolding send_ping
  send_ping-IsFine p some_target h =
      elim (Bool-cases (leb ping_interval (pass.now - p.last_ping_time) && not p.awaiting_pong)) [
        | inl e ↦
            let (target, found, t) =
              In-get_elem? p.ping_targets (p.ping_seq % length p.ping_targets) (omega arith) in
            let late =
              interval_over pass.now p.last_ping_time
                (both_true (leb ping_interval (pass.now - p.last_ping_time)) (not p.awaiting_pong)
                  e).0 in
            rw e (rw found (if_sent-IsPaced pass.can_send target p t late h))
        | inr e ↦ rw e h
      ]

  module _ (is_echo_reply : List ℕ → Bool) where
    on_reply-IsPaced :
        (received : Result (List ℕ) E) (p : Pinger)
        → IsPaced start p
        → IsPaced start (on_reply is_echo_reply received p)
    on_reply-IsPaced (err e) p h = h
    on_reply-IsPaced (ok payload) p h =
        if_next-IsPaced start (leb 8 (length payload) && is_echo_reply payload) p h

    receive_pong-IsPaced :
        (p : Pinger) → IsPaced start p → IsPaced start (receive_pong is_echo_reply pass p)
    unfolding receive_pong
    receive_pong-IsPaced p h = elim (Bool-cases pass.can_recv) [
      | inl e ↦ rw e (on_reply-IsPaced pass.recv p h)
      | inr e ↦ rw e h
    ]

    time_out-IsPaced :
        (p : Pinger) → IsPaced start p → IsPaced start (time_out is_echo_reply pass.now p)
    unfolding time_out
    time_out-IsPaced p h =
        if_next-IsPaced start (p.awaiting_pong && ltb (from_secs 3) (pass.now - p.last_ping_time)) p
          h

    ping_logic-IsFine :
        (p : Pinger) → IsPaced start p → IsFine start (ping_logic is_echo_reply pass p)
    unfolding ping_logic
    ping_logic-IsFine p h = elim (Bool-cases (p.got_ip && leb 1 (length p.ping_targets))) [
      | inl e ↦ rw e (
          and_then-IsFine start (send_ping pass p)
            (λ p1. ok (time_out is_echo_reply pass.now (receive_pong is_echo_reply pass p1)))
            (λ p1 h1.
              time_out-IsPaced (receive_pong is_echo_reply pass p1) (receive_pong-IsPaced p1 h1))
            (send_ping-IsFine p
              (leb→le 1 (length p.ping_targets)
                (both_true p.got_ip (leb 1 (length p.ping_targets)) e).1)
              h))
      | inr e ↦ rw e h
    ]

    stack_pass-IsFine :
        (p : Pinger)
        → Applies (some pass)
        → IsPaced start p
        → IsFine start (stack_pass is_echo_reply pass p)
    unfolding stack_pass
    stack_pass-IsFine p a h =
        and_then-IsFine start (on_dhcp pass.dhcp pass p) (ping_logic is_echo_reply pass)
          ping_logic-IsFine (on_dhcp-IsFine pass.dhcp p a h)

run-IsFine :
    {E : Type 0} (is_echo_reply : List ℕ → Bool) (start : ℕ) (passes : List (Option (Pass E)))
    (p : Pinger)
    → All Applies passes
    → IsPaced start p
    → IsFine start (run_smoltcp_stack is_echo_reply passes p)
unfolding run_smoltcp_stack
run-IsFine is_echo_reply start [] p a h = h
run-IsFine is_echo_reply start (none ∷ rest) p a h = h
run-IsFine is_echo_reply start (some pass ∷ rest) p a h =
    and_then-IsFine start (stack_pass is_echo_reply pass p) (run_smoltcp_stack is_echo_reply rest)
      (λ p1 h1. run-IsFine is_echo_reply start rest p1 a.1 h1)
      (stack_pass-IsFine start pass is_echo_reply p a.0 h)

-- If the interface takes the addresses and routes that it is given, the loop does not panic; it pings
-- at most once a second and only the targets of its list; and a ping that it waits for is the newest,
-- with the current number.
pub run_smoltcp_stack-IsFine :
    {E : Type 0} (is_echo_reply : List ℕ → Bool) (passes : List (Option (Pass E))) (start : ℕ)
    → All Applies passes
    → IsFine start (run_smoltcp_stack is_echo_reply passes (new_pinger start))
run_smoltcp_stack-IsFine is_echo_reply passes start a =
    run-IsFine is_echo_reply start passes (new_pinger start) a
      (record { last = refl; spaced = tt; to_targets = tt; awaited = λ e. cc })
