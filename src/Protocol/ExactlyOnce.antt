-- ===== src/Protocol/ExactlyOnce.antt =====
-- The frames handed to the radio against the frames of the host, and the frames taken from the
-- firmware's queue against those delivered, with the servers of the two firmwares'
-- src/bin/main.rs.
use lamella.Base.{
  ℕ, ◌≤◌, ◌^◌, Option, none, some, List, [], ◌∷◌, ◌≡◌, ◌⊎◌, inl, inr, refl, ap, sym, ◌∙◌, subst,
}
use lamella.Icd.{WifiFrame, WifiTxRequest, WifiTxResponse, WifiRxRequest, WifiRxResponse}
use lamella.Firmware.TxServer.{TxServer, new_tx_server}
use lamella.Firmware.RxServer.{RxServer, new_rx_server}
use lamella.Protocol.Defs.{System, Reach}
use lamella.Protocol.Invariant.{Inv, History, effects_of, requests_of}
use lamella.Protocol.Steps.{Reach-Inv}
use lamella.Protocol.Services.{
  tx_service, rx_service, tx_service-IsIdempotent, rx_service-IsIdempotent,
}

-- A new session with a server that has just been started.
abbrev pub initial : {Q R S : Type 0} → S → System Q R S
initial server = record {
  next = 0;
  current = none;
  begun = [];
  results = [];
  requests = [];
  responses = [];
  server = server;
}

abbrev pub frames_of : List WifiTxRequest → List WifiFrame
frames_of [] = []
frames_of (q ∷ l) = q.frame ∷ frames_of l

abbrev pub delivered : List (WifiRxRequest × WifiRxResponse) → List (Option WifiFrame)
delivered [] = []
delivered ((q, r) ∷ l) = r.frame ∷ delivered l

module _ (session : ℕ) where
  tx-effects :
      (l : List (WifiTxRequest × WifiTxResponse))
      → effects_of tx_service session l ≡ frames_of (requests_of tx_service session l)
  tx-effects [] = refl
  tx-effects ((q, r) ∷ l) = ap (λ fs. q.frame ∷ fs) (tx-effects l)

  rx-effects :
      (l : List (WifiRxRequest × WifiRxResponse)) → effects_of rx_service session l ≡ delivered l
  rx-effects [] = refl
  rx-effects ((q, r) ∷ l) = ap (λ fs. r.frame ∷ fs) (rx-effects l)

  tx-Inv :
      (s : System WifiTxRequest WifiTxResponse TxServer)
      → Reach tx_service session (initial new_tx_server) s
      → s.next ≤ 2 ^ 32
      → Inv tx_service session s
  tx-Inv s reach small =
      Reach-Inv tx_service tx_service-IsIdempotent session
        (record {
          cached_past = tt;
          current_past = tt;
          ordered = tt;
          past = tt;
          owned = tt;
          history = (refl, refl);
        })
        reach small

  rx-Inv :
      (s : System WifiRxRequest WifiRxResponse RxServer)
      → Reach rx_service session (initial new_rx_server) s
      → s.next ≤ 2 ^ 32
      → Inv rx_service session s
  rx-Inv s reach small =
      Reach-Inv rx_service rx_service-IsIdempotent session
        (record {
          cached_past = tt;
          current_past = tt;
          ordered = tt;
          past = tt;
          owned = tt;
          history = (refl, refl);
        })
        reach small

  -- Whenever the host has no transaction under way, the frames handed to the radio are the frames
  -- of the transactions begun, each once and in order. The session has begun at most 2 ^ 32
  -- transactions, so that no id has come twice.
  pub tx_exactly_once :
      (s : System WifiTxRequest WifiTxResponse TxServer)
      → Reach tx_service session (initial new_tx_server) s
      → s.next ≤ 2 ^ 32
      → s.current ≡ none
      → s.server.handed ≡ frames_of s.begun
  tx_exactly_once s reach small idle =
      let h : History tx_service session (tx_service.cached s.server) none s.begun s.results
          s.server.handed =
        subst
          (λ o.
            History tx_service session (tx_service.cached s.server) o s.begun s.results
              s.server.handed)
          idle (tx-Inv s reach small).history in
      h.1 ∙ tx-effects s.results ∙ ap frames_of h.0

  -- At every moment, also while a transaction is under way, the radio has been handed the frames of
  -- all transactions begun, or of all but the newest: none twice, and none out of order. The session
  -- has begun at most 2 ^ 32 transactions, with a new server.
  pub tx_at_most_once :
      (s : System WifiTxRequest WifiTxResponse TxServer)
      → Reach tx_service session (initial new_tx_server) s
      → s.next ≤ 2 ^ 32
      → (s.server.handed ≡ frames_of s.begun)
        ⊎ ((q : WifiTxRequest) × (older : List WifiTxRequest) × (s.begun ≡ q ∷ older)
            × (s.server.handed ≡ frames_of older))
  tx_at_most_once s reach small = split s.current (tx-Inv s reach small).history
    where
      split :
          (current : Option WifiTxRequest)
          → History tx_service session
              (tx_service.cached s.server)
              current
              s.begun
              s.results
              s.server.handed
          → (s.server.handed ≡ frames_of s.begun)
            ⊎ ((q : WifiTxRequest) × (older : List WifiTxRequest) × (s.begun ≡ q ∷ older)
                × (s.server.handed ≡ frames_of older))
      split none (b, e) = inl (e ∙ tx-effects s.results ∙ ap frames_of b)
      split (some q) (b, inl (_, e)) =
          inr (q, requests_of tx_service session s.results, sym b, e ∙ tx-effects s.results)
      split (some q) (b, inr (r, _, _, e)) =
          inl (e ∙ ap (λ fs. q.frame ∷ fs) (tx-effects s.results) ∙ ap frames_of b)

  -- Whenever the host has no poll under way, what the polls took from the firmware's queue is what
  -- the accepted responses delivered, each once and in order, and every poll begun was answered.
  pub rx_exactly_once :
      (s : System WifiRxRequest WifiRxResponse RxServer)
      → Reach rx_service session (initial new_rx_server) s
      → s.next ≤ 2 ^ 32
      → s.current ≡ none
      → (s.server.taken ≡ delivered s.results)
        × (requests_of rx_service session s.results ≡ s.begun)
  rx_exactly_once s reach small idle =
      let h : History rx_service session (rx_service.cached s.server) none s.begun s.results
          s.server.taken =
        subst
          (λ o.
            History rx_service session (rx_service.cached s.server) o s.begun s.results
              s.server.taken)
          idle (rx-Inv s reach small).history in
      (h.1 ∙ rx-effects s.results, h.0)
