-- ===== src/Duration.antt =====
-- `std::time::Duration` as a count of nanoseconds, with the conversions that the code calls.
use lamella.Base.{ℕ, ◌*◌, ◌/◌}

abbrev pub from_millis : ℕ → ℕ
from_millis n = n * 1_000_000

abbrev pub from_secs : ℕ → ℕ
from_secs n = n * 1_000_000_000

abbrev pub as_millis : ℕ → ℕ
as_millis d = d / 1_000_000

abbrev pub as_secs : ℕ → ℕ
as_secs d = d / 1_000_000_000
