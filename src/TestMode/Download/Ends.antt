-- ===== src/TestMode/Download/Ends.antt =====
-- host/src/test_mode.rs: how `run_http_download_test` ends.
use lamella.Base.{
  both_true, not, ◌-◌, ltb, ℕ, ◌≤◌, Bool, true, false, ◌&&◌, if◌then◌else◌, Option, none, some,
  List, [], ◌∷◌, ◌++◌, ◌≡◌, ◌≢◌, refl, sym, ◌∙◌, subst, arith, All,
}
use lamella.Duration.{from_secs}
use lamella.TestMode.Ending.{
  Ending, running, cancelled, complete, panicked, IsSome, Fine, conclude_test-Fine,
  unless_over-Fine,
}
use lamella.TestMode.Download.Blank.{after_blank}
use lamella.TestMode.Download.{
  HttpPass, Http, new_http, chunk_in, on_chunk, on_bytes, headers_at, prepare, conclude, http_pass,
  run_http_download_test, connect_tcp, Connection, Signals, local_port, start_tcp, check_dhcp,
}
use lamella.TestMode.Download.Counting.{stream, Counts, CountsBody, download-Counts}

-- The request is sent with the time taken.
abbrev Started : Http → Type 0
Started s = s.http_request_sent ≡ true → IsSome s.start_time

-- The ephemeral ports.
abbrev pub IsEphemeral : ℕ → Type 0
IsEphemeral port = (49152 ≤ port) × (port ≤ 65535)

abbrev Ephemeral : Http → Type 0
Ephemeral s = All IsEphemeral s.connection.local_ports

HeadersDone : Http → Type 0
HeadersDone s = s.headers_done ≡ true

abbrev Inv : Http → Type 0
Inv s = Started s × Ephemeral s

local_port-IsEphemeral : (millis : ℕ) → IsEphemeral (local_port millis)
local_port-IsEphemeral millis = (omega arith, omega arith)

start-ports :
    (b : Bool) (p : Signals) (c : Connection)
    → All IsEphemeral c.local_ports
    → All IsEphemeral
        (if b
          then record c {
            tcp_started = p.connects;
            local_ports = local_port p.millis ∷ c.local_ports;
          }
          else c).local_ports
start-ports true p c h = (local_port-IsEphemeral p.millis, h)
start-ports false p c h = h

check-ports :
    (b : Bool) (c : Connection)
    → (if b then record c { tcp_connected = true } else c).local_ports ≡ c.local_ports
check-ports true c = refl
check-ports false c = refl

connect-ports :
    (p : Signals) (c : Connection)
    → All IsEphemeral c.local_ports
    → All IsEphemeral (connect_tcp p c).local_ports
unfolding connect_tcp
connect-ports p c h =
    let c1 : Connection = record c { got_ip = check_dhcp p.dhcp c.got_ip } in
    subst (All IsEphemeral) (sym (check-ports _ (start_tcp p c1))) (start-ports _ p c1 h)

send-Inv :
    (b : Bool) (now : ℕ) (s : Http)
    → Inv s
    → Inv (if b then record s { http_request_sent = true; start_time = some now } else s)
send-Inv true now s (i, e) = ((λ h. tt), e)
send-Inv false now s i = i

prepare-Inv : (p : HttpPass) (s : Http) → Inv s → Inv (prepare p s)
unfolding prepare
prepare-Inv p s (i, e) =
    send-Inv _ p.now (record s { connection = connect_tcp p.signals s.connection })
      (i, connect-ports p.signals s.connection e)

-- What `Inv` reads.
SameStart : Http → Http → Type 0
SameStart s t =
    (t.http_request_sent ≡ s.http_request_sent)
    × (t.start_time ≡ s.start_time)
    × (t.connection.local_ports ≡ s.connection.local_ports)

same-Inv : (s t : Http) → SameStart s t → Inv s → Inv t
unfolding SameStart
same-Inv s t (a, b, c) (i, e) = ((λ h. rw b (i (sym a ∙ h))), rw c e)

headers_at-SameStart : (e : Option ℕ) (s : Http) → SameStart s (headers_at e s)
unfolding SameStart
headers_at-SameStart none s = (refl, refl, refl)
headers_at-SameStart (some pos) s = (refl, refl, refl)

on_bytes-SameStart : (done : Bool) (chunk : List ℕ) (s : Http) → SameStart s (on_bytes done chunk s)
unfolding SameStart
on_bytes-SameStart false chunk s =
    headers_at-SameStart _ (record s { header_buf = s.header_buf ++ chunk })
on_bytes-SameStart true chunk s = (refl, refl, refl)

on_chunk-Inv : (o : Option (List ℕ)) (s : Http) → Inv s → Inv (on_chunk o s)
on_chunk-Inv none s i = i
on_chunk-Inv (some chunk) s i =
    same-Inv s (on_bytes s.headers_done chunk s) (on_bytes-SameStart s.headers_done chunk s) i

conclude-Inv :
    (p : HttpPass) (s : Http) → Inv s → Inv (conclude p s).0 × Fine HeadersDone (conclude p s)
unfolding conclude HeadersDone
conclude-Inv p s i =
    conclude_test-Fine Inv HeadersDone (s.http_request_sent && s.headers_done)
      (not p.may_recv_after && not p.is_established) (ltb (from_secs 2) (p.now - s.last_report))
      s.start_time p.now s (record s { last_report = p.now })
      (λ h. (i.0 (both_true _ _ h).0, (both_true s.http_request_sent s.headers_done h).1)) i i

pass-Inv :
    (p : HttpPass) (s : Http) → Inv s → Inv (http_pass p s).0 × Fine HeadersDone (http_pass p s)
unfolding http_pass
pass-Inv p s i =
    let t = prepare p s in
    conclude-Inv p (on_chunk (chunk_in p t) t) (on_chunk-Inv (chunk_in p t) t (prepare-Inv p s i))

run-Inv :
    (passes : List (Option HttpPass)) (s : Http)
    → Inv s
    → Inv (run_http_download_test passes s).0 × Fine HeadersDone (run_http_download_test passes s)
unfolding run_http_download_test
run-Inv [] s i = (i, tt)
run-Inv (none ∷ rest) s i = (i, tt)
run-Inv (some p ∷ rest) s i =
    let after = http_pass p s in
    let a = pass-Inv p s i in
    unless_over-Fine Inv HeadersDone (run_http_download_test rest after.0) after
      (run-Inv rest after.0 a.0) a

-- The `unwrap` of the start time is not reached without one, and a download is over only when the
-- blank line has come.
abbrev pub EndsAfter : List ℕ → Ending → Type 0
EndsAfter bytes running = Unit
EndsAfter bytes cancelled = Unit
EndsAfter bytes (complete elapsed) = after_blank bytes ≢ none
EndsAfter bytes panicked = ⊥

Fine-EndsAfter :
    (bytes : List ℕ) (r : Http × Ending)
    → Counts bytes r.0
    → Fine HeadersDone r
    → EndsAfter bytes r.1
unfolding HeadersDone
Fine-EndsAfter bytes (s, running) c f = tt
Fine-EndsAfter bytes (s, cancelled) c f = tt
Fine-EndsAfter bytes (s, complete t) (n, c) f =
    λ e. not_done (subst (λ o. CountsBody o bytes s.headers_done s.body_bytes s.header_buf) e c)
  where
    not_done : CountsBody none bytes s.headers_done s.body_bytes s.header_buf → ⊥
    not_done (d, b, h) = cc
Fine-EndsAfter bytes (s, panicked) c f = f

-- The download test never panics on a missing start time; without a cancellation it ends only after
-- the server has sent a blank line; and it connects from ephemeral ports only.
pub download-EndsAfter :
    (passes : List (Option HttpPass)) (now : ℕ)
    → EndsAfter (stream passes (new_http now)) (run_http_download_test passes (new_http now)).1
      × All IsEphemeral (run_http_download_test passes (new_http now)).0.connection.local_ports
download-EndsAfter passes now =
    let r = run_http_download_test passes (new_http now) in
    let i = run-Inv passes (new_http now) ((λ h. cc), tt) in
    (Fine-EndsAfter (stream passes (new_http now)) r (download-Counts passes now) i.1, i.0.1)
