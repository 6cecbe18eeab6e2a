-- ===== src/Protocol/Client.antt =====
-- The host's side of the protocol as its code runs: the retry loop of `wifi_exchange`
-- (host/src/serial_transport.rs and host/src/nusb_transport.rs) against the steps of link and server.
pub mod Passes
pub mod Loop
use lamella.Base.{
  ℕ, Option, none, some, List, [], ◌∷◌, ◌++◌, ◌≡◌, refl, ◌∙◌, sym, subst, ap, Result, ok, err,
  Bool-cases, inl, inr,
}
use lamella.Icd.{WifiTransaction, same_transaction, same_transaction_iff}
use lamella.Bridge.Wait.{
  EndpointWaitOutcome, completed, recovery_required, cancelled, Wake, primary_ready, backup_ready,
  warning_due, recovery_due, cancel_requested, Schedule, await_endpoint_response,
}
use lamella.Bridge.Wait.Last.{IsReady, await-last}
use lamella.Exchange.{
  Address, Request, Exchange, Progress, done, stopped, panicked, waiting, Kind, Link, Attempt,
  send_request, handle_result, after_wait, request_loop,
}
use lamella.Protocol.Defs.{
  Service, System, Step, Reach, skip, begin, send, lose_request, serve_one, background,
  lose_response, accept, start, later,
}

-- What accepting `r` makes of the state in which it has been read.
abbrev pub accepted : {Q R S : Type 0} → Q → R → System Q R S → System Q R S
accepted q r u = record u { current = none; results = (q, r) ∷ u.results }

module _ {Q R S X V : Type 0} (service : Service Q R S X V) (session : ℕ) where
  -- Steps in which the host has no part.
  abbrev pub IsLink : {s t : System Q R S} → Step service session s t → Type 0
  IsLink (skip e) = ⊥
  IsLink (begin q e id) = ⊥
  IsLink (send q e) = ⊥
  IsLink (lose_request a b q e) = Unit
  IsLink (serve_one v q rest e) = Unit
  IsLink (background server b) = Unit
  IsLink (lose_response a b r e) = Unit
  IsLink (accept q r rest e er id) = ⊥

  -- What link and server do while the host has handed over the requests that `Hands` says, of which
  -- the link may carry each any number of times, or never.
  pub data Env (Hands : Q → Type 0) (s : System Q R S) : System Q R S → Type 0 where
    here : Env Hands s s
    and_step :
        {t u : System Q R S}
        → Env Hands s t
        → (step : Step service session t u) → IsLink step
        → Env Hands s u
    carry :
        {t : System Q R S}
        → Env Hands s t
        → (q : Q) → Hands q
        → Env Hands s (record t { requests = t.requests ++ q ∷ [] })

  -- Nothing is handed over.
  abbrev pub NoHands : Q → Type 0
  NoHands q = ⊥

  pub Env-append :
      {Hands : Q → Type 0} {s t u : System Q R S} → Env Hands s t → Env Hands t u → Env Hands s u
  Env-append e here = e
  Env-append e (and_step f step l) = and_step (Env-append e f) step l
  Env-append e (carry f q h) = carry (Env-append e f) q h

  -- What only the host changes.
  pub record SameHost (s t : System Q R S) : Type 0 where
    pub next : t.next ≡ s.next
    pub current : t.current ≡ s.current
    pub begun : t.begun ≡ s.begun
    pub results : t.results ≡ s.results

  pub SameHost-trans : {s t u : System Q R S} → SameHost s t → SameHost t u → SameHost s u
  SameHost-trans a b = record {
    next = b.next ∙ a.next;
    current = b.current ∙ a.current;
    begun = b.begun ∙ a.begun;
    results = b.results ∙ a.results;
  }

  Step-SameHost :
      {s t : System Q R S} (step : Step service session s t) → IsLink step → SameHost s t
  Step-SameHost (skip e) l = absurd l
  Step-SameHost (begin q e id) l = absurd l
  Step-SameHost (send q e) l = absurd l
  Step-SameHost (lose_request a b q e) l = record {
    next = refl;
    current = refl;
    begun = refl;
    results = refl;
  }
  Step-SameHost (serve_one v q rest e) l = record {
    next = refl;
    current = refl;
    begun = refl;
    results = refl;
  }
  Step-SameHost (background server b) l = record {
    next = refl;
    current = refl;
    begun = refl;
    results = refl;
  }
  Step-SameHost (lose_response a b r e) l = record {
    next = refl;
    current = refl;
    begun = refl;
    results = refl;
  }
  Step-SameHost (accept q r rest e er id) l = absurd l

  pub Env-SameHost : {Hands : Q → Type 0} {s t : System Q R S} → Env Hands s t → SameHost s t
  Env-SameHost here = record { next = refl; current = refl; begun = refl; results = refl }
  Env-SameHost (and_step e step l) = SameHost-trans (Env-SameHost e) (Step-SameHost step l)
  Env-SameHost (carry e q h) =
      SameHost-trans (Env-SameHost e)
        (record { next = refl; current = refl; begun = refl; results = refl })

  -- If what is handed over is the current request, this is a run of the protocol.
  pub Env-Reach :
      {Hands : Q → Type 0} {init s t : System Q R S}
      → ((q : Q) → Hands q → s.current ≡ some q)
      → Reach service session init s
      → Env Hands s t
      → Reach service session init t
  Env-Reach own r here = r
  Env-Reach own r (and_step e step l) = later (Env-Reach own r e) step
  Env-Reach own r (carry e q h) =
      later (Env-Reach own r e) (send q ((Env-SameHost e).current ∙ own q h))

  pub idle-Reach :
      {init s t : System Q R S}
      → Reach service session init s
      → Env NoHands s t
      → Reach service session init t
  idle-Reach r e = Env-Reach (λ q h. absurd h) r e

  -- The host takes the oldest response.
  abbrev pub Takes : R → System Q R S → System Q R S → Type 0
  Takes r t u = (rest : List R) × (t.responses ≡ r ∷ rest) × (u ≡ record t { responses = rest })

  pub accept-Reach :
      {init : System Q R S} (q : Q) (r : R) (t u : System Q R S)
      → Reach service session init t
      → Takes r t u
      → t.current ≡ some q
      → service.response_id r ≡ service.request_id q
      → Reach service session init (accepted q r u)
  accept-Reach {init} q r t u reach (rest, e, f) c id =
      subst (λ u. Reach service session init (accepted q r u)) (sym f)
        (later reach (accept q r rest c e id))

  -- A response that is read and not accepted is lost.
  Takes-Env : (Hands : Q → Type 0) (r : R) (t u : System Q R S) → Takes r t u → Env Hands t u
  Takes-Env Hands r t u (rest, e, f) =
      subst (Env Hands t) (sym f) (and_step here (lose_response [] rest r e) tt)

  unread-Env : (Hands : Q → Type 0) (t u : System Q R S) → u ≡ t → Env Hands t u
  unread-Env Hands t u e = subst (Env Hands t) (sym e) here

  module _ {E : Type 0} where
    -- What the wake that ends a wait means for the link.
    abbrev pub Reads : Wake R E → System Q R S → System Q R S → Type 0
    Reads (primary_ready (ok r)) t u = Takes r t u
    Reads (backup_ready (ok r)) t u = Takes r t u
    Reads (primary_ready (err e)) t u = u ≡ t
    Reads (backup_ready (err e)) t u = u ≡ t
    Reads warning_due t u = u ≡ t
    Reads recovery_due t u = u ≡ t
    Reads cancel_requested t u = u ≡ t

    pub Reads-Env :
        (Hands : Q → Type 0) (last : Wake R E) (t u : System Q R S) → Reads last t u → Env Hands t u
    Reads-Env Hands (primary_ready (ok r)) t u h = Takes-Env Hands r t u h
    Reads-Env Hands (backup_ready (ok r)) t u h = Takes-Env Hands r t u h
    Reads-Env Hands (primary_ready (err e)) t u h = unread-Env Hands t u h
    Reads-Env Hands (backup_ready (err e)) t u h = unread-Env Hands t u h
    Reads-Env Hands warning_due t u h = unread-Env Hands t u h
    Reads-Env Hands recovery_due t u h = unread-Env Hands t u h
    Reads-Env Hands cancel_requested t u h = unread-Env Hands t u h

    pub Reads-Takes :
        (r : R) (last : Wake R E) (t u : System Q R S)
        → IsReady (ok r) last
        → Reads last t u
        → Takes r t u
    Reads-Takes r (primary_ready (ok v)) t u i h =
        subst (λ p. Reads (primary_ready p) t u) (sym i) h
    Reads-Takes r (backup_ready (ok v)) t u i h = subst (λ p. Reads (backup_ready p) t u) (sym i) h
    Reads-Takes r (primary_ready (err e)) t u i h = cc
    Reads-Takes r (backup_ready (err e)) t u i h = cc
    Reads-Takes r warning_due t u i h = absurd i
    Reads-Takes r recovery_due t u i h = absurd i
    Reads-Takes r cancel_requested t u i h = absurd i
