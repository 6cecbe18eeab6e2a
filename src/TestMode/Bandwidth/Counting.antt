-- ===== src/TestMode/Bandwidth/Counting.antt =====
-- host/src/test_mode.rs: what the UDP bandwidth test counts, and how it ends.
use lamella.Base.{ℕ, ◌+◌, ◌<◌, true, Option, none, some, List, [], ◌∷◌, ◌++◌, ◌≡◌, arith, length}
use lamella.Icd.{u64}
use lamella.TestMode.Ending.{while_running, Ending, running, cancelled, complete, panicked, IsSome}
use lamella.TestMode.Bandwidth.{UdpPass, Udp, send_trigger, packets_in, udp_pass}

-- The packets before the first error.
abbrev pub until_error : List (Option (ℕ × ℕ)) → List ℕ
until_error [] = []
until_error (none ∷ rest) = []
until_error (some (len, at) ∷ rest) = len ∷ until_error rest

-- The lengths of the packets that come after the trigger, until the loop ends.
pub packets : List (Option UdpPass) → Udp → List ℕ
packets [] s = []
packets (none ∷ rest) s = []
packets (some p ∷ rest) s =
    let after = udp_pass p s in
    until_error (packets_in p (send_trigger p s)) ++ while_running after.1 (packets rest after.0)

abbrev pub sum : List ℕ → ℕ
sum [] = 0
sum (n ∷ l) = n + sum l

pub sum-append : (l m : List ℕ) → sum (l ++ m) ≡ sum l + sum m
sum-append [] m = omega arith
sum-append (n ∷ l) m = omega (arith, sum-append l m)

abbrev pub CountsPackets : List ℕ → Udp → Type 0
CountsPackets l s = (s.total_bytes ≡ u64 (sum l)) × (s.total_packets ≡ u64 (length l))

-- The time is taken with the trigger.
Started : Udp → Type 0
Started s = s.sent_trigger ≡ true → IsSome s.start_time

HasPackets : Udp → Type 0
HasPackets s = 0 < s.total_packets

-- What `conclude_udp` relies on, and keeps.
Inv : List ℕ → Udp → Type 0
Inv l s = CountsPackets l s × Started s

-- No panic, and no end but by a cancellation before a packet.
abbrev pub EndsAfterPacket : List ℕ → Ending → Type 0
EndsAfterPacket l running = Unit
EndsAfterPacket l cancelled = Unit
EndsAfterPacket l (complete elapsed) = 0 < length l
EndsAfterPacket l panicked = ⊥
