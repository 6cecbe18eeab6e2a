-- ===== src/TestMode/Bandwidth/Lengths.antt =====
-- host/src/test_mode.rs: what the TCP bandwidth test counts, and how it ends.
use lamella.Base.{
  ℕ, ◌+◌, ◌-◌, Bool, true, false, ◌&&◌, not, if◌then◌else◌, Option, none, some, List, [], ◌∷◌, ◌++◌,
  ◌≡◌, refl, sym, subst, arith, append-nil, append_assoc, ltb,
}
use lamella.Duration.{from_secs}
use lamella.Icd.{u64}
use lamella.TestMode.Ending.{while_running, IsSome, Fine, conclude_test-Fine, unless_over-Inv}
use lamella.TestMode.Download.{connect_tcp}
use lamella.TestMode.Bandwidth.{
  TcpPass, Tcp, new_tcp, connect, len_in, on_len, conclude_tcp, tcp_pass, run_tcp_bandwidth_test,
}
use lamella.TestMode.Bandwidth.Counting.{sum, sum-append}

abbrev lengths_of : Option ℕ → List ℕ
lengths_of none = []
lengths_of (some len) = len ∷ []

-- The lengths that `recv` returns on the connection until the loop ends.
pub lengths : List (Option TcpPass) → Tcp → List ℕ
lengths [] s = []
lengths (none ∷ rest) s = []
lengths (some p ∷ rest) s =
    let after = tcp_pass p s in
    lengths_of (len_in p (connect p s)) ++ while_running after.1 (lengths rest after.0)

-- The sum is right, and the time is taken with the connection.
Inv : List ℕ → Tcp → Type 0
Inv l s = (s.total_bytes ≡ u64 (sum l)) × (s.connection.tcp_connected ≡ true → IsSome s.start_time)

abbrev pub IsConnected : Tcp → Type 0
IsConnected s = s.connection.tcp_connected ≡ true

start_taken :
    (now_connected before : Bool) (now : ℕ) (start : Option ℕ)
    → (before ≡ true → IsSome start)
    → now_connected ≡ true
    → IsSome (if now_connected && not before then some now else start)
start_taken true true now start h e = h refl
start_taken true false now start h e = tt
start_taken false before now start h e = cc

connect-Inv : (p : TcpPass) (l : List ℕ) (s : Tcp) → Inv l s → Inv l (connect p s)
unfolding connect Inv
connect-Inv p l s (n, i) = (
  n,
  start_taken (connect_tcp p.signals s.connection).tcp_connected s.connection.tcp_connected p.now
      s.start_time i,
)

counted-Inv :
    (b : Bool) (len : ℕ) (l : List ℕ) (s : Tcp)
    → ltb 0 len ≡ b
    → Inv l s
    → Inv (l ++ len ∷ []) (if b then record s { total_bytes = u64 (s.total_bytes + len) } else s)
unfolding Inv
counted-Inv true len l s e (n, i) = (omega (arith, n, sum-append l (len ∷ [])), i)
counted-Inv false len l s e (n, i) = (ground (arith, n, sum-append l (len ∷ [])), i)

on_len-Inv : (o : Option ℕ) (l : List ℕ) (s : Tcp) → Inv l s → Inv (l ++ lengths_of o) (on_len o s)
on_len-Inv none l s i = subst (λ l. Inv l s) (sym (append-nil l)) i
on_len-Inv (some len) l s i = counted-Inv (ltb 0 len) len l s refl i

conclude-Inv :
    (p : TcpPass) (l : List ℕ) (s : Tcp)
    → Inv l s
    → Inv l (conclude_tcp p s).0 × Fine IsConnected (conclude_tcp p s)
unfolding conclude_tcp Inv
conclude-Inv p l s i =
    conclude_test-Fine (Inv l) IsConnected s.connection.tcp_connected
      (not p.may_recv_after && not p.is_established) (ltb (from_secs 2) (p.now - s.last_report))
      s.start_time p.now s (record s { last_report = p.now }) (λ h. (i.1 h, h)) i i

pass-Inv :
    (p : TcpPass) (l : List ℕ) (s : Tcp)
    → Inv l s
    → Inv (l ++ lengths_of (len_in p (connect p s))) (tcp_pass p s).0
      × Fine IsConnected (tcp_pass p s)
unfolding tcp_pass
pass-Inv p l s i =
    let t = connect p s in
    conclude-Inv p (l ++ lengths_of (len_in p t)) (on_len (len_in p t) t)
      (on_len-Inv (len_in p t) l t (connect-Inv p l s i))

run-Inv :
    (passes : List (Option TcpPass)) (l : List ℕ) (s : Tcp)
    → Inv l s
    → Inv (l ++ lengths passes s) (run_tcp_bandwidth_test passes s).0
      × Fine IsConnected (run_tcp_bandwidth_test passes s)
unfolding run_tcp_bandwidth_test lengths
run-Inv [] l s i = (subst (λ l. Inv l s) (sym (append-nil l)) i, tt)
run-Inv (none ∷ rest) l s i = (subst (λ l. Inv l s) (sym (append-nil l)) i, tt)
run-Inv (some p ∷ rest) l s i =
    let after = tcp_pass p s in
    let new = lengths_of (len_in p (connect p s)) in
    let more = lengths rest after.0 in
    let a = pass-Inv p l s i in
    let r = run_tcp_bandwidth_test (some p ∷ rest) s in
    subst (λ l. Inv l r.0 × Fine IsConnected r) (append_assoc l new (while_running after.1 more))
      (unless_over-Inv Inv IsConnected (run_tcp_bandwidth_test rest after.0) after (l ++ new) more a
        (run-Inv rest (l ++ new) after.0 a.0))

-- The TCP test counts the bytes that come on the connection, modulo 2 ^ 64; it does not panic on a
-- missing start time, and without a cancellation it ends only when it was connected.
pub run_tcp-counts :
    (passes : List (Option TcpPass)) (now : ℕ)
    → ((run_tcp_bandwidth_test passes (new_tcp now)).0.total_bytes
        ≡ u64 (sum (lengths passes (new_tcp now))))
      × Fine IsConnected (run_tcp_bandwidth_test passes (new_tcp now))
unfolding Inv
run_tcp-counts passes now =
    let i = run-Inv passes [] (new_tcp now) (refl, (λ h. cc)) in (i.0.0, i.1)
