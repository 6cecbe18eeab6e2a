-- ===== src/Examples/Report.antt =====
-- A run of the metrics report of host/src/metrics.rs: a tick, one that finds the file locked, and the
-- cancellation.
use lamella.Base.{none, List, [], ◌∷◌, ◌++◌, ◌≡◌, ℕ, ok, err, Result, true}
use lamella.Metrics.{default_metrics, record_reconnect}
use lamella.Metrics.Report.{Moment, Report, tick, cancelled, report}
use lamella.Metrics.Report.Lines.{read_lines, reported, report-reported}

abbrev at_time : ℕ → Result (Unit {0}) ℕ → Moment ℕ
at_time t opened = record {
  uptime = t;
  timestamp = t;
  directory = none;
  opened = opened;
  written = ok tt;
}

abbrev a_report : List (Report ℕ)
a_report =
    tick (at_time 5 (ok tt)) default_metrics
    ∷ tick (at_time 10 (err 13)) default_metrics
    ∷ cancelled (at_time 11 (ok tt)) (record_reconnect default_metrics)
    ∷ []

report-reported_example :
    read_lines (report true a_report []).0 ≡ read_lines [] ++ reported a_report
report-reported_example = report-reported a_report []
