-- ===== src/Protocol/Serving.antt =====
-- The step in which the server serves a request, and that in which the host accepts a response.
use lamella.Base.{
  ℕ, Option, none, some, List, [], ◌∷◌, ◌++◌, ◌≡◌, inl, inr, sym, ◌∙◌, ap, All, All-append, subst,
}
use lamella.Protocol.Defs.{Service, IsRepeat, IsIdempotent, System}
use lamella.Protocol.Queue.{
  Ordered, IsRepeat-of, Ordered-all, Ordered-end, Ordered-new, Ordered-tail,
}
use lamella.Protocol.Invariant.{
  Inv, Past, Owned, PastOption, id_of_response, id_of_request, History, effects_of, All-Owned-none,
  All-Owned-new,
}

module _ {Q R S X V : Type 0} (service : Service Q R S X V) (laws : IsIdempotent service)
    (session : ℕ) where
  -- A repeat: the server does not move, and its response is the remembered one.
  pub serve_again-Inv :
      (s : System Q R S) (v : V) (q : Q) (rest : List Q)
      → s.requests ≡ q ∷ rest
      → IsRepeat service (service.cached s.server) q
      → Inv service session s
      → Inv service session (record s {
        requests = rest;
        responses = s.responses ++ (service.serve v q s.server).1 ∷ [];
        server = (service.serve v q s.server).0;
      })
  serve_again-Inv s v q rest e again i =
      subst
        (λ server. Inv service session (record s {
          requests = rest;
          responses = s.responses ++ (service.serve v q s.server).1 ∷ [];
          server = server;
        }))
        (sym (laws.again_state v q s.server again))
        (record {
          cached_past = i.cached_past;
          current_past = i.current_past;
          ordered = Ordered-tail service _ _ q rest (subst (Ordered service _ _) e i.ordered);
          past = All-append _ s.responses _ i.past (
            subst (λ o. PastOption service session s.next (id_of_response service session o)) cached
                i.cached_past,
            tt,
          );
          owned = All-append _ s.responses _ i.owned (own s.current, tt);
          history = i.history;
        })
    where
      cached : service.cached s.server ≡ some (service.serve v q s.server).1
      cached = laws.again_response v q s.server again

      own :
          (current : Option Q)
          → Owned service session (service.cached s.server) current (service.serve v q s.server).1
      own none = tt
      own (some p) = λ _. cached

  History-new :
      (c c' : Option R) (q : Q) (begun : List Q) (results : List (Q × R)) (eff eff' : List X)
      (r : R)
      → ¬ IsRepeat service c q
      → c' ≡ some r
      → service.response_id r ≡ service.request_id q
      → eff' ≡ service.effect q r ∷ eff
      → History service session c (some q) begun results eff
      → History service session c' (some q) begun results eff'
  History-new c c' q begun results eff eff' r fresh c'r rid e (b, inl (_, old)) =
      (b, inr (r, c'r, rid, e ∙ ap (λ l. service.effect q r ∷ l) old))
  History-new c c' q begun results eff eff' r fresh c'r rid e (b, inr (r0, cr, rid0, old)) =
      absurd (fresh (IsRepeat-of service c q r0 cr rid0))

  History-accept :
      (c : Option R) (q : Q) (begun : List Q) (results : List (Q × R)) (eff : List X) (r : R)
      → c ≡ some r
      → service.response_id r ≡ service.request_id q
      → History service session c (some q) begun results eff
      → History service session c none begun ((q, r) ∷ results) eff
  History-accept c q begun results eff r cr rid (b, inl (fresh, old)) =
      absurd (fresh (IsRepeat-of service c q r cr rid))
  History-accept c q begun results eff r cr rid (b, inr (r0, cr0, rid0, old)) =
      let same : r0 ≡ r = cc in
      (b, subst (λ x. eff ≡ service.effect q x ∷ effects_of service session results) same old)

  -- A new request is the current one: it has its effect now.
  pub serve_new-Inv :
      (s : System Q R S) (v : V) (q : Q) (rest : List Q)
      → s.requests ≡ q ∷ rest
      → ¬ IsRepeat service (service.cached s.server) q
      → Inv service session s
      → Inv service session (record s {
        requests = rest;
        responses = s.responses ++ (service.serve v q s.server).1 ∷ [];
        server = (service.serve v q s.server).0;
      })
  serve_new-Inv s v q rest e fresh i = record {
    cached_past =
        subst (λ o. PastOption service session s.next (id_of_response service session o))
          (sym remembered) past_response;
    current_past = i.current_past;
    ordered = Ordered-all service _ _ rest is_current.1;
    past = All-append _ s.responses _ i.past (past_response, tt);
    owned =
        subst
          (λ o.
            All (λ r. Owned service session (service.cached (service.serve v q s.server).0) o r)
              (s.responses ++ (service.serve v q s.server).1 ∷ []))
          (sym is_current.0)
          (All-append _ s.responses _
            (All-Owned-new service session _ _ q s.responses fresh (
              subst
                (λ o. All (λ r. Owned service session (service.cached s.server) o r) s.responses)
                is_current.0 i.owned))
            ((λ _. remembered), tt));
    history =
        subst
          (λ o.
            History service session (service.cached (service.serve v q s.server).0) o s.begun
              s.results (service.effects (service.serve v q s.server).0))
          (sym is_current.0)
          (History-new _ _ q s.begun s.results _ _ _ fresh remembered
            (laws.new_id v q s.server fresh) (laws.new_effect v q s.server fresh)
            (subst
              (λ o.
                History service session (service.cached s.server) o s.begun s.results
                  (service.effects s.server))
              is_current.0 i.history));
  }
    where
      is_current : (s.current ≡ some q) × All (λ p. s.current ≡ some p) rest
      is_current = Ordered-new service _ _ q rest fresh (subst (Ordered service _ _) e i.ordered)

      remembered :
          service.cached (service.serve v q s.server).0 ≡ some (service.serve v q s.server).1
      remembered = laws.new_cached v q s.server fresh

      past_response :
          Past service session s.next (service.response_id (service.serve v q s.server).1)
      past_response = subst (Past service session s.next) (sym (laws.new_id v q s.server fresh)) (
          subst (λ o. PastOption service session s.next (id_of_request service session o))
            is_current.0 i.current_past)

  pub accept-Inv :
      (s : System Q R S) (q : Q) (r : R) (rest : List R)
      → s.current ≡ some q
      → s.responses ≡ r ∷ rest
      → service.response_id r ≡ service.request_id q
      → Inv service session s
      → Inv service session
          (record s { current = none; results = (q, r) ∷ s.results; responses = rest })
  accept-Inv s q r rest e er rid i = record {
    cached_past = i.cached_past;
    current_past = tt;
    ordered =
        Ordered-end service _ q s.requests
          (IsRepeat-of service (service.cached s.server) q r remembered rid)
          (subst (λ o. Ordered service (service.cached s.server) o s.requests) e i.ordered);
    past = (subst (All _) er i.past).1;
    owned = All-Owned-none service session (service.cached s.server) rest;
    history = History-accept _ q s.begun s.results _ r remembered rid (
        subst
          (λ o.
            History service session (service.cached s.server) o s.begun s.results
              (service.effects s.server))
          e i.history);
  }
    where
      owned_now : All (λ r. Owned service session (service.cached s.server) (some q) r) (r ∷ rest)
      owned_now =
          subst (λ l. All (λ r. Owned service session (service.cached s.server) (some q) r) l) er
            (subst (λ o. All (λ r. Owned service session (service.cached s.server) o r) s.responses)
              e i.owned)

      remembered : service.cached s.server ≡ some r
      remembered = owned_now.0 rid
