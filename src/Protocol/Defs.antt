-- ===== src/Protocol/Defs.antt =====
-- The service that a client relies on, and the steps of host, link and server.
use lamella.Base.{ℕ, ◌+◌, Option, none, some, List, [], ◌∷◌, ◌++◌, ◌≡◌}
use lamella.Icd.{u32, WifiTransaction}

-- A server that answers requests `Q` by responses `R`, and remembers its last response. What it does
-- to the world is a list of effects, the newest first. `V` is what the environment decides, and
-- `Background` how other tasks change what else the server's state holds.
pub record Service (Q R S X V : Type 0) : Type 1 where
  pub serve : V → Q → S → S × R
  pub request_id : Q → WifiTransaction
  pub response_id : R → WifiTransaction
  pub cached : S → Option R
  pub effects : S → List X
  pub effect : Q → R → X
  pub Background : S → S → Type 0

-- The request repeats the transaction that the server has answered last.
abbrev pub IsRepeat : {Q R S X V : Type 0} → Service Q R S X V → Option R → Q → Type 0
IsRepeat service none q = ⊥
IsRepeat service (some r) q = service.response_id r ≡ service.request_id q

-- A repeated request changes nothing and gets the remembered response; any other has its effect
-- once, and its response is remembered. Other tasks change neither.
pub record IsIdempotent {Q R S X V : Type 0} (service : Service Q R S X V) : Type 0 where
  pub again_state :
      (v : V) (q : Q) (s : S) → IsRepeat service (service.cached s) q → (service.serve v q s).0 ≡ s
  pub again_response :
      (v : V) (q : Q) (s : S)
      → IsRepeat service (service.cached s) q
      → service.cached s ≡ some (service.serve v q s).1
  pub new_cached :
      (v : V) (q : Q) (s : S)
      → ¬ IsRepeat service (service.cached s) q
      → service.cached (service.serve v q s).0 ≡ some (service.serve v q s).1
  pub new_id :
      (v : V) (q : Q) (s : S)
      → ¬ IsRepeat service (service.cached s) q
      → service.response_id (service.serve v q s).1 ≡ service.request_id q
  pub new_effect :
      (v : V) (q : Q) (s : S)
      → ¬ IsRepeat service (service.cached s) q
      → service.effects (service.serve v q s).0
        ≡ service.effect q (service.serve v q s).1 ∷ service.effects s
  pub background_cached : (s t : S) → service.Background s t → service.cached t ≡ service.cached s
  pub background_effects :
      (s t : S) → service.Background s t → service.effects t ≡ service.effects s

-- The host, the link and the server. `next` counts the transactions of the session; its id on the
-- wire is `next_transaction_id`, a u32. `begun` and `results` are histories, the newest first.
pub record System (Q R S : Type 0) : Type 0 where
  pub next : ℕ
  pub current : Option Q
  pub begun : List Q
  pub results : List (Q × R)
  pub requests : List Q
  pub responses : List R
  pub server : S

module _ {Q R S X V : Type 0} (service : Service Q R S X V) (session : ℕ) where
  pub data Step (s : System Q R S) : System Q R S → Type 0 where
    -- The other direction takes an id.
    skip : s.current ≡ none → Step s (record s { next = s.next + 1 })
    begin :
        (q : Q)
        → s.current ≡ none
        → service.request_id q ≡ record { session = session; id = u32 s.next }
        → Step s (record s { next = s.next + 1; current = some q; begun = q ∷ s.begun })
    -- The first request, its backup, or a retry.
    send : (q : Q) → s.current ≡ some q → Step s (record s { requests = s.requests ++ q ∷ [] })
    lose_request :
        (a b : List Q) (q : Q) → s.requests ≡ a ++ q ∷ b → Step s (record s { requests = a ++ b })
    serve_one :
        (v : V) (q : Q) (rest : List Q)
        → s.requests ≡ q ∷ rest
        → Step s (record s {
          requests = rest;
          responses = s.responses ++ (service.serve v q s.server).1 ∷ [];
          server = (service.serve v q s.server).0;
        })
    -- Other tasks run.
    background :
        (server : S) → service.Background s.server server → Step s (record s { server = server })
    -- A response that is lost, or that the host ignores as stale.
    lose_response :
        (a b : List R) (r : R) → s.responses ≡ a ++ r ∷ b → Step s (record s { responses = a ++ b })
    accept :
        (q : Q) (r : R) (rest : List R)
        → s.current ≡ some q
        → s.responses ≡ r ∷ rest
        → service.response_id r ≡ service.request_id q
        → Step s (record s { current = none; results = (q, r) ∷ s.results; responses = rest })

  pub data Reach (init : System Q R S) : System Q R S → Type 0 where
    start : Reach init init
    later : {s t : System Q R S} → Reach init s → Step s t → Reach init t
