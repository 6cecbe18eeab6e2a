-- ===== src/Metrics/Report/Lines.antt =====
-- host/src/metrics.rs: the lines of the metrics file.
use Prim.Native.String.{String}
use text.Mathlib.Text.{◌==◌ as str_eq}
use lamella.Base.{
  ◌&&◌, true, false, Option, none, some, List, ◌++◌, Result, ok, err, sym, ◌∙◌, ap, append_assoc,
  append-nil, ℕ, Bool, if◌then◌else◌, [], ◌∷◌, ◌≡◌, refl,
}
use lamella.Metrics.{BridgeMetrics}
use lamella.Metrics.Report.{
  number, flag, Line, snapshot, json_line, Moment, Report, tick, cancelled, emit, report,
  write_line, in_directory,
}

-- The number under a key.
abbrev pub number_at : String → Line → ℕ
number_at key [] = 0
number_at key ((k, number n) ∷ line) = if str_eq k key then n else number_at key line
number_at key ((k, flag b) ∷ line) = number_at key line

-- What a reader of the line takes its counters to be.
abbrev pub counters_of : Line → BridgeMetrics
counters_of line = record {
  tap_rx_frames = number_at "tap_to_wifi_frames" line;
  tap_rx_bytes = number_at "tap_to_wifi_bytes" line;
  tap_tx_frames = number_at "wifi_to_tap_frames" line;
  tap_tx_bytes = number_at "wifi_to_tap_bytes" line;
  tx_retries = number_at "tx_retries" line;
  rx_retries = number_at "rx_retries" line;
  tx_stalls = number_at "tx_stalls" line;
  tx_stall_ms = number_at "tx_stall_ms" line;
  tx_stall_max_ms = number_at "tx_stall_max_ms" line;
  rx_stalls = number_at "rx_stalls" line;
  rx_stall_ms = number_at "rx_stall_ms" line;
  rx_stall_max_ms = number_at "rx_stall_max_ms" line;
  endpoint_errors = number_at "endpoint_errors" line;
  response_mismatches = number_at "response_mismatches" line;
  tap_errors = number_at "tap_errors" line;
  reconnects = number_at "reconnects" line;
  recovery_timeouts = number_at "recovery_timeouts" line;
}

-- Whether the line is the last one of its program.
abbrev pub final_of : Line → Bool
final_of [] = false
final_of ((k, number n) ∷ line) = final_of line
final_of ((k, flag b) ∷ line) = if str_eq k "final" then b else final_of line

abbrev pub read_back : Line → Bool × BridgeMetrics
read_back line = (final_of line, counters_of line)

abbrev pub read_lines : List Line → List (Bool × BridgeMetrics)
read_lines [] = []
read_lines (line ∷ file) = read_back line ∷ read_lines file

read_lines-append : (a b : List Line) → read_lines (a ++ b) ≡ read_lines a ++ read_lines b
read_lines-append [] b = refl
read_lines-append (line ∷ a) b = ap (λ l. read_back line ∷ l) (read_lines-append a b)

abbrev pub is_ok : {E : Type 0} → Result (Unit {0}) E → Bool
is_ok (ok _) = true
is_ok (err e) = false

abbrev pub is_made : {E : Type 0} → Option (Result (Unit {0}) E) → Bool
is_made none = true
is_made (some r) = is_ok r

-- The directory and the file can be used.
abbrev pub is_usable : {E : Type 0} → Moment E → Bool
is_usable w = is_made w.directory && (is_ok w.opened && is_ok w.written)

abbrev pub kept : {E : Type 0} → Moment E → Bool → BridgeMetrics → List (Bool × BridgeMetrics)
kept w final_report m = if is_usable w then (final_report, m) ∷ [] else []

-- The ticks until the cancellation, and the cancellation, with the counters then, where the file
-- could be used.
abbrev pub reported : {E : Type 0} → List (Report E) → List (Bool × BridgeMetrics)
reported [] = []
reported (tick w m ∷ rest) = kept w false m ++ reported rest
reported (cancelled w m ∷ rest) = kept w true m

line-read :
    (w : ℕ × ℕ) (final_report : Bool) (m : BridgeMetrics)
    → read_back (json_line w.0 w.1 final_report (snapshot m)) ≡ (final_report, m)
unfolding json_line snapshot
line-read w b m = refl

write_line-kept :
    {E : Type 0} (opened written : Result (Unit {0}) E) (w : Moment E) (line : Line)
    (file : List Line)
    → read_lines (write_line (record w { opened = opened; written = written }) line file)
      ≡ read_lines file ++ (if is_ok opened && is_ok written then read_back line ∷ [] else [])
write_line-kept (err e) written w line file = sym (append-nil (read_lines file))
write_line-kept (ok _) (err e) w line file = sym (append-nil (read_lines file))
write_line-kept (ok _) (ok _) w line file = read_lines-append file (line ∷ [])

in_directory-kept :
    {E : Type 0} (directory : Option (Result (Unit {0}) E)) (w : Moment E) (line : Line)
    (file : List Line)
    → read_lines (in_directory directory w line file)
      ≡ read_lines file
        ++ (if is_made directory && (is_ok w.opened && is_ok w.written)
            then read_back line ∷ []
            else [])
in_directory-kept none w line file = write_line-kept w.opened w.written w line file
in_directory-kept (some (ok _)) w line file = write_line-kept w.opened w.written w line file
in_directory-kept (some (err e)) w line file = sym (append-nil (read_lines file))

emit-kept :
    {E : Type 0} (w : Moment E) (final_report : Bool) (m : BridgeMetrics) (file : List Line)
    → read_lines (emit true w final_report m file) ≡ read_lines file ++ kept w final_report m
unfolding emit
emit-kept w b m file =
    let line = json_line w.timestamp w.uptime b (snapshot m) in
    in_directory-kept w.directory w line file
    ∙ ap (λ r. read_lines file ++ (if is_usable w then r ∷ [] else []))
        (line-read (w.timestamp, w.uptime) b m)

-- What a reader of the metrics file finds in it after a run: the lines from before, then for each
-- report that could be written, in order, its counters and whether it was the final one. Reports
-- after the cancellation do not exist.
pub report-reported :
    {E : Type 0} (events : List (Report E)) (file : List Line)
    → read_lines (report true events file).0 ≡ read_lines file ++ reported events
unfolding report
report-reported [] file = sym (append-nil (read_lines file))
report-reported (tick w m ∷ rest) file =
    report-reported rest (emit true w false m file)
    ∙ ap (λ l. l ++ reported rest) (emit-kept w false m file)
    ∙ append_assoc (read_lines file) (kept w false m) (reported rest)
report-reported (cancelled w m ∷ rest) file = emit-kept w true m file
