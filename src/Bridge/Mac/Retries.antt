-- ===== src/Bridge/Mac/Retries.antt =====
-- host/src/bridge.rs: which attempt decides the result of the MAC query.
use lamella.Base.{
  ℕ, zero, suc, ◌+◌, Option, none, some, List, Result, ok, err, ◌≡◌, ◌⊎◌, refl, inl, inr,
}
use lamella.Bridge.Mac.{
  IoError, timed_out, last_or_other, query_mac_from, query_mac_with_retry_serial,
  query_mac_with_retry_nusb,
}

-- The error of an attempt that gives no address.
abbrev pub error_of : Option (Result (List ℕ) IoError) → Option IoError
error_of none = some timed_out
error_of (some (err e)) = some e
error_of (some (ok mac)) = none

-- The first of `n` attempts from `k` on that gives an address, and else the last error.
abbrev pub Decides :
    (ℕ → Option (Result (List ℕ) IoError))
    → ℕ
    → ℕ
    → Option IoError
    → Result (List ℕ) IoError
    → Type 0
Decides query zero k last (ok mac) = ⊥
Decides query zero k last (err e) = e ≡ last_or_other last
Decides query (suc n) k last r =
    ((mac : List ℕ) × (query k ≡ some (ok mac)) × (r ≡ ok mac))
    ⊎ ((e : IoError) × (error_of (query k) ≡ some e) × Decides query n (k + 1) (some e) r)

query_mac_from-Decides :
    (query : ℕ → Option (Result (List ℕ) IoError)) (n k : ℕ) (last : Option IoError)
    → Decides query n k last (query_mac_from query n k last)
unfolding query_mac_from
query_mac_from-Decides query zero k last = refl
query_mac_from-Decides query (suc n) k last =
    go (query k) refl (query_mac_from-Decides query n (k + 1))
  where
    go :
        (a : Option (Result (List ℕ) IoError))
        → query k ≡ a
        → ((last : Option IoError)
            → Decides query n (k + 1) last (query_mac_from query n (k + 1) last))
        → Decides query (suc n) k last (query_mac_from query (suc n) k last)
    go (some (ok mac)) e ih = inl (mac, e, rw (e, query_mac_from))
    go (some (err x)) e ih = inr (x, rw e, rw (e, query_mac_from) (ih (some x)))
    go none e ih = inr (timed_out, rw e, rw (e, query_mac_from) (ih (some timed_out)))

-- The query for the MAC gives the address of the first of at most three attempts that gets one; if
-- none does, its error is that of the third attempt, which is a timeout if there was no answer. The
-- two transports agree.
pub query_mac-Decides :
    (query : ℕ → Option (Result (List ℕ) IoError))
    → Decides query 3 1 none (query_mac_with_retry_serial query)
      × (query_mac_with_retry_nusb query ≡ query_mac_with_retry_serial query)
unfolding query_mac_with_retry_serial query_mac_with_retry_nusb
query_mac-Decides query = (query_mac_from-Decides query 3 1 none, refl)
