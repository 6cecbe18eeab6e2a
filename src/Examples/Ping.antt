-- ===== src/Examples/Ping.antt =====
-- host/src/test_mode.rs: `run_smoltcp_stack` at concrete passes.
use lamella.Base.{
  ℕ, ◌==◌, Bool, true, false, Option, none, some, List, [], ◌∷◌, ◌≡◌, refl, Result, ok, err,
}
use lamella.Duration.{from_secs}
use lamella.TestMode.Ping.{
  DhcpEvent, configured, Pass, Pinger, new_pinger, Panic, run_smoltcp_stack,
}
use lamella.TestMode.Ping.Pace.{IsFine, run_smoltcp_stack-IsFine}

-- A reply has type 0.
abbrev has_type_0 : List ℕ → Bool
has_type_0 [] = false
has_type_0 (x ∷ rest) = x == 0

abbrev a_pass : ℕ → Option DhcpEvent → Bool → Pass (Unit {0})
a_pass now dhcp replied = record {
  dhcp = dhcp;
  address_added = true;
  route_added = true;
  now = from_secs now;
  can_send = true;
  send_slice = ok tt;
  can_recv = replied;
  recv = ok (0 ∷ 0 ∷ 0 ∷ 0 ∷ 0 ∷ 1 ∷ 0 ∷ 0 ∷ []);
}

-- An address, a ping that times out, and the next one, during which the reply to the first comes.
abbrev passes : List (Option (Pass (Unit {0})))
passes =
    some (a_pass 0 (some (configured (record { router = none; dns_servers = [] }))) false)
    ∷ some (a_pass 1 none false)
    ∷ some (a_pass 5 none false)
    ∷ some (a_pass 6 none true)
    ∷ none
    ∷ []

abbrev ping_seq_of : Result Pinger Panic → Option (ℕ × Bool)
ping_seq_of (err e) = none
ping_seq_of (ok p) = some (p.ping_seq, p.awaiting_pong)

-- The late reply is taken for that to the second ping.
late_reply_taken :
    ping_seq_of (run_smoltcp_stack has_type_0 passes (new_pinger 0)) ≡ some (2, false)
unfolding run_smoltcp_stack
late_reply_taken = refl

run_smoltcp_stack-IsFine_example : IsFine 0 (run_smoltcp_stack has_type_0 passes (new_pinger 0))
run_smoltcp_stack-IsFine_example =
    run_smoltcp_stack-IsFine has_type_0 passes 0
      ((refl, refl), ((refl, refl), ((refl, refl), ((refl, refl), (tt, tt)))))
