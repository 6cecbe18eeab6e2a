-- ===== src/Protocol/Turns.antt =====
-- The transactions of `wifi_exchange` (host/src/serial_transport.rs and
-- host/src/nusb_transport.rs) as runs of the protocol: one of this direction, and one of the other,
-- which only takes an id.
use lamella.Base.{ℕ, ◌+◌, none, some, List, ◌∷◌, ◌≡◌, refl, sym, ap, ◌∙◌, subst}
use lamella.Icd.{u32}
use lamella.Exchange.Delivery.{IsQuiet}
use lamella.Exchange.{Request, Exchange, Progress, done, Kind, Link, Attempt, request_loop}
use lamella.Exchange.Rounds.{take_id}
use lamella.Protocol.Defs.{Service, System, Reach, begin, skip, later}
use lamella.Protocol.Client.{accepted, Env, NoHands, idle-Reach, Env-SameHost}
use lamella.Protocol.Client.Loop.{Played, loop-Reach}

-- The state in which a transaction has begun.
abbrev pub begun_with : {Q R S : Type 0} → Q → System Q R S → System Q R S
begun_with q s = record s { next = s.next + 1; current = some q; begun = q ∷ s.begun }

abbrev pub skipped : {Q R S : Type 0} → System Q R S → System Q R S
skipped s = record s { next = s.next + 1 }

-- The host is between two transactions, and its counter is the code's.
pub record IsIdle {Q R S : Type 0} (x : Exchange) (s : System Q R S) : Type 0 where
  pub current : s.current ≡ none
  pub counter : x.next_transaction_id ≡ u32 s.next

module _ {Q R S X V : Type 0} (service : Service Q R S X V) (session : ℕ) where
  -- What a transaction of the other direction is to this one.
  pub record OtherTurn (s t : System Q R S) : Type 0 where
    pub between : System Q R S
    pub env : Env service session (NoHands service session) s between
    pub skips : t ≡ skipped between

  pub record SameTurn (s t : System Q R S) : Type 0 where
    pub next : t.next ≡ s.next + 1
    pub current : t.current ≡ s.current
    pub begun : t.begun ≡ s.begun
    pub results : t.results ≡ s.results

  pub other-Reach :
      {init s t : System Q R S}
      → Reach service session init s
      → s.current ≡ none
      → OtherTurn s t
      → Reach service session init t × SameTurn s t
  other-Reach {init} {s} reach idle turn =
      let host = Env-SameHost service session turn.env in
      subst (λ t. Reach service session init t × SameTurn s t) (sym turn.skips)
        (
          later (idle-Reach service session reach turn.env) (skip (host.current ∙ idle)),
          record {
            next = ap (λ n. n + 1) host.next;
            current = host.current;
            begun = host.begun;
            results = host.results;
          },
        )

  module _ {E : Type 0} (link : Link) (kind : Kind R) (q : Q) (wrap : Q → Request)
      (request : Request) (attempts : List (Attempt R E)) (ends : Progress R) where
    -- A transaction of this direction, from its beginning to the response that it accepts; `ends` is
    -- how the code's function for it ends.
    pub record OwnTurn (x : Exchange) (s : System Q R S) (r : R) (t : System Q R S) : Type 0 where
      pub between : System Q R S
      pub env : Env service session (NoHands service session) s between
      pub over : System Q R S
      pub played :
          Played service session link kind
            (service.request_id q)
            wrap
            request
            (take_id x)
            (begun_with q between)
            attempts
            over
      pub ended : ends ≡ done r
      pub accepts : t ≡ accepted q r over

    pub record Accepted (s : System Q R S) (r : R) (t : System Q R S) : Type 0 where
      pub next : t.next ≡ s.next + 1
      pub current : t.current ≡ none
      pub begun : t.begun ≡ q ∷ s.begun
      pub results : t.results ≡ (q, r) ∷ s.results

    pub own-Reach :
        (quiet : IsQuiet link) (same_id : (r : R) → kind.transaction_of r ≡ service.response_id r)
        (same : (q' : Q) → wrap q' ≡ request → q' ≡ q) {init s t : System Q R S} {x : Exchange}
        {r : R}
        → Reach service session init s
        → s.current ≡ none
        → service.request_id q ≡ record { session = session; id = u32 s.next }
        → ends ≡ (request_loop link kind (service.request_id q) request attempts (take_id x)).1
        → OwnTurn x s r t
        → Reach service session init t × Accepted s r t
    own-Reach quiet same_id same {init} {s} {t} {x} {r} reach idle id loop turn =
        let host = Env-SameHost service session turn.env in
        let began = later (idle-Reach service session reach turn.env) (
          begin q (host.current ∙ idle)
            (id ∙ ap (λ n. record { session = session; id = u32 n }) (sym host.next))) in
        let run =
          loop-Reach service session link kind (service.request_id q) wrap request quiet same_id q
            same refl r turn.played began refl (sym loop ∙ turn.ended) in
        subst (λ t. Reach service session init t × Accepted s r t) (sym turn.accepts)
          (
            run.0,
            record {
              next = run.1.next ∙ ap (λ n. n + 1) host.next;
              current = refl;
              begun = run.1.begun ∙ ap (λ l. q ∷ l) host.begun;
              results = ap (λ l. (q, r) ∷ l) (run.1.results ∙ host.results);
            },
          )
