-- ===== src/Protocol/Steps.antt =====
-- The steps of host, link and server of Protocol/Defs, and the invariant of Protocol/Invariant.
use lamella.Base.{
  ℕ, ◌+◌, ◌≤◌, ◌<◌, ◌^◌, none, some, List, [], ◌∷◌, ◌++◌, ◌≡◌, inl, inr, sym, ◌∙◌, ap, arith, All,
  subst,
}
use lamella.Icd.{u32, WifiTransaction}
use lamella.Protocol.Defs.{
  Service, IsIdempotent, System, Step, Reach, skip, begin, send, lose_request, serve_one,
  background, lose_response, accept, start, later,
}
use lamella.Protocol.Queue.{Ordered, IsRepeat-cases, Ordered-snoc, Ordered-remove, Ordered-begin}
use lamella.Protocol.Serving.{serve_again-Inv, serve_new-Inv, accept-Inv}
use lamella.Protocol.Invariant.{
  Inv, Owned, PastOption, id_of_response, History, PastOption-mono, All-Past_mono, All-Owned-begin,
  All-remove, begin-fresh,
}

module _ {Q R S X V : Type 0} (service : Service Q R S X V) (laws : IsIdempotent service)
    (session : ℕ) where
  skip-Inv :
      (s : System Q R S)
      → Inv service session s
      → Inv service session (record s { next = s.next + 1 })
  skip-Inv s i = record {
    cached_past = PastOption-mono service session s.next (s.next + 1) _ (omega arith) i.cached_past;
    current_past =
        PastOption-mono service session s.next (s.next + 1) _ (omega arith) i.current_past;
    ordered = i.ordered;
    past = All-Past_mono service session s.next (s.next + 1) s.responses (omega arith) i.past;
    owned = i.owned;
    history = i.history;
  }

  begin-Inv :
      (s : System Q R S) (q : Q)
      → s.next < 2 ^ 32
      → s.current ≡ none
      → service.request_id q ≡ record { session = session; id = u32 s.next }
      → Inv service session s
      → Inv service session (record s { next = s.next + 1; current = some q; begun = q ∷ s.begun })
  begin-Inv s q small e idq i = record {
    cached_past = PastOption-mono service session s.next (s.next + 1) _ (omega arith) i.cached_past;
    current_past = (ap (λ (w : WifiTransaction). w.session) idq, omega (arith, id));
    ordered =
        Ordered-begin service _ q s.requests
          (subst (λ o. Ordered service (service.cached s.server) o s.requests) e i.ordered);
    past = All-Past_mono service session s.next (s.next + 1) s.responses (omega arith) i.past;
    owned = All-Owned-begin service session s.next _ q s.responses (omega (arith, id)) i.past;
    history = (
      ap (λ l. q ∷ l) was.0,
      inl (begin-fresh service session s.next _ q (omega (arith, id)) i.cached_past, was.1),
    );
  }
    where
      id : (service.request_id q).id ≡ s.next
      id = ap (λ (w : WifiTransaction). w.id) idq ∙ omega arith

      was :
          History service session
            (service.cached s.server)
            none
            s.begun
            s.results
            (service.effects s.server)
      was =
          subst
            (λ o.
              History service session (service.cached s.server) o s.begun s.results
                (service.effects s.server))
            e i.history

  send-Inv :
      (s : System Q R S) (q : Q)
      → s.current ≡ some q
      → Inv service session s
      → Inv service session (record s { requests = s.requests ++ q ∷ [] })
  send-Inv s q e i = record {
    cached_past = i.cached_past;
    current_past = i.current_past;
    ordered = Ordered-snoc service _ _ s.requests q e i.ordered;
    past = i.past;
    owned = i.owned;
    history = i.history;
  }

  lose_request-Inv :
      (s : System Q R S) (a b : List Q) (q : Q)
      → s.requests ≡ a ++ q ∷ b
      → Inv service session s
      → Inv service session (record s { requests = a ++ b })
  lose_request-Inv s a b q e i = record {
    cached_past = i.cached_past;
    current_past = i.current_past;
    ordered = Ordered-remove service _ _ a b q (subst (Ordered service _ _) e i.ordered);
    past = i.past;
    owned = i.owned;
    history = i.history;
  }

  lose_response-Inv :
      (s : System Q R S) (a b : List R) (r : R)
      → s.responses ≡ a ++ r ∷ b
      → Inv service session s
      → Inv service session (record s { responses = a ++ b })
  lose_response-Inv s a b r e i = record {
    cached_past = i.cached_past;
    current_past = i.current_past;
    ordered = i.ordered;
    past = All-remove service session _ a b r (subst (All _) e i.past);
    owned = All-remove service session _ a b r (subst (All _) e i.owned);
    history = i.history;
  }

  background-Inv :
      (s : System Q R S) (server : S)
      → service.cached s.server ≡ service.cached server
      → service.effects s.server ≡ service.effects server
      → Inv service session s
      → Inv service session (record s { server = server })
  background-Inv s server e f i = record {
    cached_past =
        subst (λ c. PastOption service session s.next (id_of_response service session c)) e
          i.cached_past;
    current_past = i.current_past;
    ordered = subst (λ c. Ordered service c s.current s.requests) e i.ordered;
    past = i.past;
    owned = subst (λ c. All (λ r. Owned service session c s.current r) s.responses) e i.owned;
    history =
        subst (λ x. History service session (service.cached server) s.current s.begun s.results x) f
          (subst
            (λ c. History service session c s.current s.begun s.results (service.effects s.server))
            e i.history);
  }

  pub Step-next : {s t : System Q R S} → Step service session s t → s.next ≤ t.next
  Step-next (skip e) = omega arith
  Step-next (begin q e i) = omega arith
  Step-next (send q e) = omega arith
  Step-next (lose_request a b q e) = omega arith
  Step-next (serve_one v q rest e) = omega arith
  Step-next (background server e) = omega arith
  Step-next (lose_response a b r e) = omega arith
  Step-next (accept q r rest e er rid) = omega arith

  pub Step-Inv :
      {s t : System Q R S}
      → Step service session s t
      → t.next ≤ 2 ^ 32
      → Inv service session s
      → Inv service session t
  Step-Inv {s} (skip e) small i = skip-Inv s i
  Step-Inv {s} (begin q e idq) small i = begin-Inv s q (omega arith) e idq i
  Step-Inv {s} (send q e) small i = send-Inv s q e i
  Step-Inv {s} (lose_request a b q e) small i = lose_request-Inv s a b q e i
  Step-Inv {s} (serve_one v q rest e) small i =
      elim (IsRepeat-cases service (service.cached s.server) q) [
        | inl again ↦ serve_again-Inv service laws session s v q rest e again i
        | inr fresh ↦ serve_new-Inv service laws session s v q rest e fresh i
      ]
  Step-Inv {s} (background server e) small i =
      background-Inv s server (sym (laws.background_cached s.server server e))
        (sym (laws.background_effects s.server server e)) i
  Step-Inv {s} (lose_response a b r e) small i = lose_response-Inv s a b r e i
  Step-Inv {s} (accept q r rest e er rid) small i =
      accept-Inv service laws session s q r rest e er rid i

  pub Reach-Inv :
      {init s : System Q R S}
      → Inv service session init
      → Reach service session init s
      → s.next ≤ 2 ^ 32
      → Inv service session s
  Reach-Inv i start small = i
  Reach-Inv i (later reach step) small =
      Step-Inv step small (Reach-Inv i reach (omega (arith, Step-next step)))
