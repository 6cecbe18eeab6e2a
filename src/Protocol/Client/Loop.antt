-- ===== src/Protocol/Client/Loop.antt =====
-- The retry loop of `wifi_exchange` (host/src/serial_transport.rs and
-- host/src/nusb_transport.rs) as steps of the protocol.
use lamella.Base.{
  length, length-append, All, In, inl, inr, arith, ℕ, none, some, List, [], ◌∷◌, ◌++◌, ◌≡◌, ◌∙◌,
  sym, subst, ap,
}
use lamella.Icd.{WifiTransaction}
use lamella.Bridge.Wait.{completed, Wake, Schedule}
use lamella.Bridge.Wait.Last.{IsReady}
use lamella.Exchange.Delivery.{IsQuiet, Repeated, none_sent, one_sent, request_loop-Kept}
use lamella.Exchange.{Address, Request, Exchange, done, waiting, Kind, Link, Attempt, request_loop}
use lamella.Protocol.Defs.{Service, System, Reach}
use lamella.Protocol.Client.{
  Env, Env-append, Env-Reach, SameHost, SameHost-trans, accepted, accept-Reach, Env-SameHost, Reads,
  Reads-Env, Reads-Takes,
}
use lamella.Protocol.Client.Passes.{
  no_passes, attempt_wait, request_loop-step, wait-IsReady, wait-done, goes_on,
}

-- What the retry loop hands over besides what it was started with is copies of its request.
handed_are :
    {request : Request} {old l : List (Address × Request)} (handed : List (Address × Request))
    → Repeated request old l
    → l ≡ handed ++ old
    → All (λ e. e.1 ≡ request) handed
handed_are [] r e = tt
handed_are {old = old} (h ∷ handed) none_sent e =
    absurd (omega (arith, ap length e, length-append handed old))
handed_are (h ∷ handed) (one_sent peer r) e = (cc, handed_are handed r cc)

All-In : {A : Type 0} (P : A → Type 0) (a : A) (l : List A) → All P l → In a l → P a
All-In P a [] h i = absurd i
All-In P a (x ∷ l) h (inl e) = subst P (sym e) h.0
All-In P a (x ∷ l) h (inr i) = All-In P a l h.1 i

-- A request that stands in a part of the task's log, handed to some address.
abbrev pub HandsOf : {Q : Type 0} → (Q → Request) → List (Address × Request) → Q → Type 0
HandsOf wrap handed q = (peer : Address) × In (peer, wrap q) handed

module _ {Q R S X V E : Type 0} (service : Service Q R S X V) (session : ℕ) (link : Link)
    (kind : Kind R) (transaction : WifiTransaction) (wrap : Q → Request) (request : Request) where
  -- One pass of the loop between two states of the protocol: the wait is not over before its last
  -- wake; link and server go on until then, with what the code hands to Ergot in this pass; and a
  -- response that is read is the oldest.
  pub record Attempted (x : Exchange) (s : System Q R S) (a : Attempt R E) (u : System Q R S)
      : Type 0 where
    pub before : Schedule R E
    pub now : ℕ
    pub last : Wake R E
    pub split : a.schedule ≡ before ++ (now, last) ∷ []
    pub waits : (attempt_wait link kind transaction request a.peer before x).1 ≡ none
    pub handed : List (Address × Request)
    pub hands :
        (request_loop link kind transaction request (a ∷ []) x).0.requests ≡ handed ++ x.requests
    pub between : System Q R S
    pub env : Env service session (HandsOf wrap handed) s between
    pub reads : Reads service session last between u

  -- The passes of a loop, which all but the last go on.
  pub data Played : Exchange → System Q R S → List (Attempt R E) → System Q R S → Type 0 where
    last_pass :
        {x : Exchange} {s u : System Q R S} (a : Attempt R E)
        → Attempted x s a u
        → Played x s (a ∷ []) u
    then_again :
        {x : Exchange} {s u t : System Q R S} (a : Attempt R E) {rest : List (Attempt R E)}
        → Attempted x s a u
        → (request_loop link kind transaction request (a ∷ []) x).1 ≡ waiting
        → Played (request_loop link kind transaction request (a ∷ []) x).0 u rest t
        → Played x s (a ∷ rest) t

  Attempted-Env :
      {x : Exchange} {s u : System Q R S} {a : Attempt R E} (p : Attempted x s a u)
      → Env service session (HandsOf wrap p.handed) s u
  Attempted-Env p =
      Env-append service session p.env
        (Reads-Env service session (HandsOf wrap p.handed) p.last _ _ p.reads)

  -- The code hands over the current request and no other.
  hands_current :
      (quiet : IsQuiet link) (q : Q)
      → ((q' : Q) → wrap q' ≡ request → q' ≡ q)
      → {x : Exchange} {s u : System Q R S} {a : Attempt R E} (p : Attempted x s a u)
      → s.current ≡ some q
      → (q' : Q) → HandsOf wrap p.handed q'
      → s.current ≡ some q'
  hands_current quiet q same {x} {a = a} p c q' (peer, i) =
      let sent = (request_loop-Kept link quiet request x kind transaction (a ∷ [])).sent in
      c
      ∙ ap some (
          sym (
            same q' (
              All-In (λ e. e.1 ≡ request) (peer, wrap q') p.handed
                (handed_are p.handed sent p.hands) i)))

  -- The pass that ends the loop with `r`.
  last-Reach :
      (quiet : IsQuiet link) (same_id : (r : R) → kind.transaction_of r ≡ service.response_id r)
      {init : System Q R S} (q : Q)
      → ((q' : Q) → wrap q' ≡ request → q' ≡ q)
      → service.request_id q ≡ transaction
      → (a : Attempt R E) (x : Exchange) (s u : System Q R S) (r : R) → Attempted x s a u
      → Reach service session init s
      → s.current ≡ some q
      → (request_loop link kind transaction request (a ∷ []) x).1 ≡ done r
      → Reach service session init (accepted q r u)
  last-Reach quiet same_id q same id a x s u r p reach c h =
      let step = request_loop-step link kind transaction request a [] x in
      let (w, o, v, t) =
        wait-done link kind transaction request (request_loop link kind transaction request []) _ _
          r (λ y. ap (λ z. z.1) (no_passes E link kind transaction request y))
          (ap (λ z. z.1) (sym step) ∙ h) in
      let ready =
        wait-IsReady link kind transaction request a.peer p.before p.now p.last x w p.waits (
          subst
            (λ sch.
              (attempt_wait link kind transaction request a.peer sch x).1 ≡ some (completed w))
            p.split o) in
      accept-Reach service session q r p.between u
        (Env-Reach service session (hands_current quiet q same p c) reach p.env)
        (Reads-Takes service session r p.last p.between u (subst (λ v. IsReady v p.last) v ready)
          p.reads)
        ((Env-SameHost service session p.env).current ∙ c) (sym (same_id r) ∙ t ∙ sym id)

  -- A loop that ends with `r` is a run of the protocol that accepts `r`.
  pub loop-Reach :
      (quiet : IsQuiet link) (same_id : (r : R) → kind.transaction_of r ≡ service.response_id r)
      {init : System Q R S} (q : Q)
      → ((q' : Q) → wrap q' ≡ request → q' ≡ q)
      → service.request_id q ≡ transaction
      → {x : Exchange} {s t : System Q R S} {attempts : List (Attempt R E)} (r : R)
      → Played x s attempts t
      → Reach service session init s
      → s.current ≡ some q
      → (request_loop link kind transaction request attempts x).1 ≡ done r
      → Reach service session init (accepted q r t) × SameHost service session s t
  loop-Reach quiet same_id q same id r (last_pass a p) reach c h = (
    last-Reach quiet same_id q same id a _ _ _ r p reach c h,
    Env-SameHost service session (Attempted-Env p),
  )
  loop-Reach quiet same_id q same id {x} r (then_again a {rest} p more played) reach c h =
      let e = Attempted-Env p in
      let host = Env-SameHost service session e in
      let rec =
        loop-Reach quiet same_id q same id r played
          (Env-Reach service session (hands_current quiet q same p c) reach e) (host.current ∙ c)
          (ap (λ z. z.1) (sym (goes_on link kind transaction request a rest x r more h)) ∙ h) in
      (rec.0, SameHost-trans service session host rec.1)
