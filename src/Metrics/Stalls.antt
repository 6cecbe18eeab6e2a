-- ===== src/Metrics/Stalls.antt =====
-- host/src/metrics.rs: the counters of stalls against the history of the stalls recorded.
use Prim.Native.Nat.{max}
use lamella.Base.{ℕ, ◌+◌, ◌^◌, ◌<◌, List, [], ◌∷◌, ◌≡◌, refl, ◌∙◌, arith}
use lamella.Icd.{u64}
use lamella.Duration.{as_millis}
use lamella.Metrics.{BridgeMetrics, default_metrics, fetch_max, record_tx_stall, record_rx_stall}

-- The stalls of both directions, as they are recorded.
pub data Stall : Type 0 where
  tx rx : ℕ → Stall

abbrev pub record_stall : Stall → BridgeMetrics → BridgeMetrics
record_stall (tx duration) m = record_tx_stall duration m
record_stall (rx duration) m = record_rx_stall duration m

pub record_stalls : List Stall → BridgeMetrics → BridgeMetrics
record_stalls [] m = m
record_stalls (s ∷ rest) m = record_stalls rest (record_stall s m)

-- What the counters of one direction are to say of its stalls, in milliseconds.
pub record Tally : Type 0 where
  pub stalls : ℕ
  pub total : ℕ
  pub longest : ℕ

abbrev pub add : ℕ → Tally → Tally
add millis t = record {
  stalls = t.stalls + 1;
  total = t.total + millis;
  longest = max t.longest millis;
}

abbrev pub tx_tally : List Stall → Tally → Tally
tx_tally [] t = t
tx_tally (tx d ∷ rest) t = tx_tally rest (add (as_millis d) t)
tx_tally (rx d ∷ rest) t = tx_tally rest t

abbrev pub rx_tally : List Stall → Tally → Tally
rx_tally [] t = t
rx_tally (tx d ∷ rest) t = rx_tally rest t
rx_tally (rx d ∷ rest) t = rx_tally rest (add (as_millis d) t)

abbrev pub no_stalls : Tally
no_stalls = record { stalls = 0; total = 0; longest = 0 }

-- The sum in milliseconds of all stalls of a history.
abbrev pub total_ms : List Stall → ℕ
total_ms [] = 0
total_ms (tx d ∷ rest) = as_millis d + total_ms rest
total_ms (rx d ∷ rest) = as_millis d + total_ms rest

-- The counters are those of the two tallies.
pub record Tallied (tx_stalls rx_stalls : Tally) (m : BridgeMetrics) : Type 0 where
  pub tx_count : m.tx_stalls ≡ u64 tx_stalls.stalls
  pub tx_total : m.tx_stall_ms ≡ tx_stalls.total
  pub tx_longest : m.tx_stall_max_ms ≡ tx_stalls.longest
  pub rx_count : m.rx_stalls ≡ u64 rx_stalls.stalls
  pub rx_total : m.rx_stall_ms ≡ rx_stalls.total
  pub rx_longest : m.rx_stall_max_ms ≡ rx_stalls.longest

fits : (d : ℕ) → d < 2 ^ 64 → u64 d ≡ d
fits d h = omega arith

longer : (m n : ℕ) → fetch_max m n ≡ max m n
longer m n = ground arith

record_stalls-Tallied-from :
    (h : List Stall) (a b : Tally) (m : BridgeMetrics)
    → Tallied a b m
    → a.total + b.total + total_ms h < 2 ^ 64
    → Tallied (tx_tally h a) (rx_tally h b) (record_stalls h m)
unfolding record_stalls record_tx_stall record_rx_stall
record_stalls-Tallied-from [] a b m t h = t
record_stalls-Tallied-from (tx d ∷ rest) a b m t h =
    record_stalls-Tallied-from rest (add (as_millis d) a) b (record_tx_stall d m)
      (record {
        tx_count = omega (arith, t.tx_count);
        tx_total = omega (arith, t.tx_total);
        tx_longest =
            longer m.tx_stall_max_ms (u64 (as_millis d))
            ∙ omega (arith, t.tx_longest, fits (as_millis d) (omega arith));
        rx_count = t.rx_count;
        rx_total = t.rx_total;
        rx_longest = t.rx_longest;
      })
      (omega (arith, h))
record_stalls-Tallied-from (rx d ∷ rest) a b m t h =
    record_stalls-Tallied-from rest a (add (as_millis d) b) (record_rx_stall d m)
      (record {
        tx_count = t.tx_count;
        tx_total = t.tx_total;
        tx_longest = t.tx_longest;
        rx_count = omega (arith, t.rx_count);
        rx_total = omega (arith, t.rx_total);
        rx_longest =
            longer m.rx_stall_max_ms (u64 (as_millis d))
            ∙ omega (arith, t.rx_longest, fits (as_millis d) (omega arith));
      })
      (omega (arith, h))

-- For a history of stalls of less than 2 ^ 64 milliseconds in all, the counters of each direction are
-- the number of its stalls modulo 2 ^ 64, the sum of their lengths, and the longest of them.
pub record_stalls-Tallied :
    (h : List Stall)
    → total_ms h < 2 ^ 64
    → Tallied (tx_tally h no_stalls) (rx_tally h no_stalls) (record_stalls h default_metrics)
record_stalls-Tallied h small =
    record_stalls-Tallied-from h no_stalls no_stalls default_metrics
      (record {
        tx_count = refl;
        tx_total = refl;
        tx_longest = refl;
        rx_count = refl;
        rx_total = refl;
        rx_longest = refl;
      })
      (omega (arith, small))
