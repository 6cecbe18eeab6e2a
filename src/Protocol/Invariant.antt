-- ===== src/Protocol/Invariant.antt =====
-- What holds between the host, the link and the server after any steps.
use lamella.Base.{ℕ, ◌≤◌, ◌<◌, Option, none, some, List, [], ◌∷◌, ◌++◌, ◌≡◌, ◌⊎◌, ap, arith, All}
use lamella.Icd.{WifiTransaction}
use lamella.Protocol.Defs.{Service, IsRepeat, System}
use lamella.Protocol.Queue.{Ordered, IsRepeat-of}

module _ {Q R S X V : Type 0} (service : Service Q R S X V) (session : ℕ) where
  -- A transaction of this session, begun before `n`.
  abbrev pub Past : ℕ → WifiTransaction → Type 0
  Past n w = (w.session ≡ session) × (w.id < n)

  -- A response that would be accepted now is the one that the server remembers.
  abbrev pub Owned : Option R → Option Q → R → Type 0
  Owned c none r = Unit
  Owned c (some q) r = service.response_id r ≡ service.request_id q → c ≡ some r

  abbrev pub PastOption : ℕ → Option WifiTransaction → Type 0
  PastOption n none = Unit
  PastOption n (some w) = Past n w

  abbrev pub id_of_response : Option R → Option WifiTransaction
  id_of_response none = none
  id_of_response (some r) = some (service.response_id r)

  abbrev pub id_of_request : Option Q → Option WifiTransaction
  id_of_request none = none
  id_of_request (some q) = some (service.request_id q)

  abbrev pub effects_of : List (Q × R) → List X
  effects_of [] = []
  effects_of ((q, r) ∷ l) = service.effect q r ∷ effects_of l

  abbrev pub requests_of : List (Q × R) → List Q
  requests_of [] = []
  requests_of ((q, r) ∷ l) = q ∷ requests_of l

  -- The effects are those of the finished requests, in order; the current one has had its effect
  -- once, or not yet.
  abbrev pub History : Option R → Option Q → List Q → List (Q × R) → List X → Type 0
  History c none begun results effects =
      (requests_of results ≡ begun) × (effects ≡ effects_of results)
  History c (some q) begun results effects =
      (q ∷ requests_of results ≡ begun)
      × ((¬ IsRepeat service c q × (effects ≡ effects_of results))
          ⊎ ((r : R) × (c ≡ some r)
              × (service.response_id r ≡ service.request_id q)
              × (effects ≡ service.effect q r ∷ effects_of results)))

  pub record Inv (s : System Q R S) : Type 0 where
    pub cached_past : PastOption s.next (id_of_response (service.cached s.server))
    pub current_past : PastOption s.next (id_of_request s.current)
    pub ordered : Ordered service (service.cached s.server) s.current s.requests
    pub past : All (λ r. Past s.next (service.response_id r)) s.responses
    pub owned : All (λ r. Owned (service.cached s.server) s.current r) s.responses
    pub history :
        History (service.cached s.server) s.current s.begun s.results (service.effects s.server)

  pub Past-mono : (n m : ℕ) (w : WifiTransaction) → n ≤ m → Past n w → Past m w
  Past-mono n m w le h = (h.0, omega arith)

  pub PastOption-mono :
      (n m : ℕ) (o : Option WifiTransaction) → n ≤ m → PastOption n o → PastOption m o
  PastOption-mono n m none le h = tt
  PastOption-mono n m (some w) le h = Past-mono n m w le h

  pub All-Past_mono :
      (n m : ℕ) (l : List R)
      → n ≤ m
      → All (λ r. Past n (service.response_id r)) l
      → All (λ r. Past m (service.response_id r)) l
  All-Past_mono n m [] le h = tt
  All-Past_mono n m (r ∷ l) le h =
      (Past-mono n m (service.response_id r) le h.0, All-Past_mono n m l le h.1)

  pub All-Owned-begin :
      (n : ℕ) (c : Option R) (q : Q) (l : List R)
      → n ≤ (service.request_id q).id
      → All (λ r. Past n (service.response_id r)) l
      → All (λ r. Owned c (some q) r) l
  All-Owned-begin n c q [] le h = tt
  All-Owned-begin n c q (r ∷ l) le h = (
    λ e. absurd (omega (arith, ap (λ (w : WifiTransaction). w.id) e, h.0.1)),
    All-Owned-begin n c q l le h.1,
  )

  pub All-Owned-none : (c : Option R) (l : List R) → All (λ r. Owned c none r) l
  All-Owned-none c [] = tt
  All-Owned-none c (r ∷ l) = (tt, All-Owned-none c l)

  -- Before the current request is answered no response to it is about.
  pub All-Owned-new :
      (c c' : Option R) (q : Q) (l : List R)
      → ¬ IsRepeat service c q
      → All (λ r. Owned c (some q) r) l
      → All (λ r. Owned c' (some q) r) l
  All-Owned-new c c' q [] fresh h = tt
  All-Owned-new c c' q (r ∷ l) fresh h =
      (λ e. absurd (fresh (IsRepeat-of service c q r (h.0 e) e)), All-Owned-new c c' q l fresh h.1)

  pub All-remove : (P : R → Type 0) (a b : List R) (r : R) → All P (a ++ r ∷ b) → All P (a ++ b)
  All-remove P [] b r h = h.1
  All-remove P (x ∷ a) b r h = (h.0, All-remove P a b r h.1)

  -- A fresh id is not the one that the server remembers.
  pub begin-fresh :
      (n : ℕ) (c : Option R) (q : Q)
      → n ≤ (service.request_id q).id
      → PastOption n (id_of_response c)
      → ¬ IsRepeat service c q
  begin-fresh n none q le p h = h
  begin-fresh n (some r) q le p h = omega (arith, ap (λ (w : WifiTransaction). w.id) h, p.1)
