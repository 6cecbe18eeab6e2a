-- ===== src/SystemNetwork/Endpoint.antt =====
-- host/src/system_network.rs: `endpoint_host`, over the bytes of the text.
use lamella.Base.{
  ℕ, Option, none, some, List, [], ◌∷◌, ◌++◌, ◌==◌, if◌then◌else◌, ◌≡◌, ◌≢◌, refl, arith, All,
}

-- `s.find(c)`: what stands before the first `c`.
pub before_first : ℕ → List ℕ → Option (List ℕ)
before_first c [] = none
before_first c (x ∷ s) =
    let rest = before_first c s in
    if x == c then some [] else elim rest [ none ↦ none | some before ↦ some (x ∷ before) ]

-- `s.rsplit_once(c)`, its first part: what stands before the last `c`.
pub before_last : ℕ → List ℕ → Option (List ℕ)
before_last c [] = none
before_last c (x ∷ s) = elim (before_last c s) [
  | some before ↦ some (x ∷ before)
  | none ↦ if x == c then some [] else none
]

abbrev pub or_else : List ℕ → Option (List ℕ) → List ℕ
or_else s none = s
or_else s (some host) = host

-- `endpoint.rsplit_once(':').map_or(endpoint, |(host, _)| host)`.
abbrev pub before_port : List ℕ → List ℕ
before_port endpoint = or_else endpoint (before_last b':' endpoint)

unfoldable pub endpoint_host : List ℕ → List ℕ
unfolding before_first before_last
endpoint_host [] = []
endpoint_host (x ∷ rest) =
    if x == b'['
    then or_else (before_port (x ∷ rest)) (before_first b']' rest)
    else before_port (x ∷ rest)

-- The byte does not occur.
abbrev pub Lacks : ℕ → List ℕ → Type 0
Lacks c s = All (λ x. x ≢ c) s

before_first-append : (c : ℕ) (s t : List ℕ) → Lacks c s → before_first c (s ++ c ∷ t) ≡ some s
unfolding before_first
before_first-append c [] t h = ground arith
before_first-append c (x ∷ s) t h = ground (arith, before_first-append c s t h.1)

before_last-none : (c : ℕ) (s : List ℕ) → Lacks c s → before_last c s ≡ none
unfolding before_last
before_last-none c [] h = refl
before_last-none c (x ∷ s) h = ground (arith, before_last-none c s h.1)

before_last-append : (c : ℕ) (s t : List ℕ) → Lacks c t → before_last c (s ++ c ∷ t) ≡ some s
unfolding before_last
before_last-append c [] t h = ground (arith, before_last-none c t h)
before_last-append c (x ∷ s) t h = ground (arith, before_last-append c s t h)

-- The host of `[host]rest` is `host`, for a host without `]`: an IPv6 address in brackets.
pub endpoint_host_bracketed :
    (host rest : List ℕ) → Lacks b']' host → endpoint_host (b'[' ∷ host ++ b']' ∷ rest) ≡ host
unfolding endpoint_host
endpoint_host_bracketed host rest h = rw (before_first-append b']' host rest h)

-- The host of `host:port` is `host`, for a host that does not begin with `[` and a port without a
-- colon. The host itself may hold colons.
pub endpoint_host_plain :
    (x : ℕ) (host port : List ℕ)
    → x ≢ b'['
    → Lacks b':' port
    → endpoint_host ((x ∷ host) ++ b':' ∷ port) ≡ x ∷ host
unfolding endpoint_host
endpoint_host_plain x host port h lacks =
    ground (arith, before_last-append b':' (x ∷ host) port lacks)
