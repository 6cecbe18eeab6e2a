-- ===== src/Protocol/EndToEnd.antt =====
-- From the radio to the host: the polls of the host over the link, `wifi_rx_server`, the channel and
-- `wifi_bridge`.
use lamella.Base.{
  ℕ, ◌≤◌, ◌^◌, Option, none, List, [], ◌∷◌, ◌++◌, ◌≡◌, refl, sym, ◌∙◌, ap, subst, inl, inr,
}
use lamella.Icd.{WifiFrame, WifiRxRequest, WifiRxResponse}
use lamella.Firmware.RxServer.{answer_new, next_frame}
use lamella.Firmware.Bridge.{Event, host_pull, step}
use lamella.Firmware.Bridge.Frames.{
  held, list_of, toward_host, received, wifi_bridge-toward_host, host_pull-toward_host,
}
use lamella.Firmware.Receiver.{
  Receiver, new_receiver, rx_server, no_pulls, listen, waited, head, serve_poll,
}
use lamella.Firmware.Receiver.Pulled.{no_pulls-pulled, host_pull-pulled}
use lamella.Protocol.Defs.{
  System, Step, Reach, skip, begin, send, lose_request, serve_one, background, lose_response,
  accept, start, later,
}
use lamella.Protocol.Queue.{IsRepeat-cases}
use lamella.Protocol.Invariant.{History, Inv, effects_of}
use lamella.Protocol.Steps.{Reach-Inv}
use lamella.Protocol.ExactlyOnce.{initial, delivered}
use lamella.Protocol.Receiving.{
  receiver_service, repeats-true, poll-answer_new, receiver_service-IsIdempotent,
}

-- The frames that polls got, the oldest first.
abbrev pub arrived : List (Option WifiFrame) → List WifiFrame
arrived [] = []
arrived (o ∷ l) = arrived l ++ list_of o

-- The polls took the frames that left the channel, and the bridge has lost none.
record Flow (s : Receiver) : Type 0 where
  pulled : s.bridge.pulled ≡ arrived s.taken
  flow : toward_host s.bridge ≡ s.heard

listen-Flow : (events : List Event) (s : Receiver) → Flow s → Flow (listen events s)
unfolding listen
listen-Flow events s i = record {
  pulled = no_pulls-pulled events s.bridge ∙ i.pulled;
  flow =
      wifi_bridge-toward_host (no_pulls events) s.bridge
      ∙ ap (λ l. l ++ received (no_pulls events) s.bridge) i.flow;
}

waited-Flow :
    (wait : List Event) (l : List WifiFrame) (s : Receiver) → Flow s → Flow (waited wait l s)
waited-Flow wait [] s i = listen-Flow wait s i
waited-Flow wait (f ∷ l) s i = i

waited-taken :
    (wait : List Event) (l : List WifiFrame) (s : Receiver) → (waited wait l s).taken ≡ s.taken
unfolding listen
waited-taken wait [] s = refl
waited-taken wait (f ∷ l) s = refl

-- The frame of a poll is the oldest in the channel after the wait.
next_head :
    (wait : List Event) (l : List WifiFrame) (s : Receiver)
    → s.bridge.to_host ≡ l
    → next_frame (head (waited wait l s).bridge.to_host) l ≡ head (waited wait l s).bridge.to_host
next_head wait [] s e = refl
next_head wait (f ∷ l) s e = ap head (sym e)

answered-Flow :
    (s1 : Receiver) (o : Option WifiFrame) (c : Option WifiRxResponse)
    → Flow s1
    → o ≡ head s1.bridge.to_host
    → Flow
        (record s1 { cached_response = c; taken = o ∷ s1.taken; bridge = step host_pull s1.bridge })
answered-Flow s1 o c i e = record {
  pulled =
      host_pull-pulled s1.bridge
      ∙ ap (λ l. l ++ list_of (head s1.bridge.to_host)) i.pulled
      ∙ ap (λ o. arrived s1.taken ++ list_of o) (sym e);
  flow = host_pull-toward_host s1.bridge ∙ i.flow;
}

poll-Flow :
    (wait : List Event) (q : WifiRxRequest) (s : Receiver) → Flow s → Flow (serve_poll wait q s).0
unfolding serve_poll
poll-Flow wait q s i = elim (IsRepeat-cases receiver_service s.cached_response q) [
  | inl again ↦ rw (repeats-true s.cached_response q again) i
  | inr fresh ↦ rw (poll-answer_new wait q s fresh) (
      subst
        (λ l. Flow (record (waited wait s.bridge.to_host s) {
          cached_response =
              (answer_new (head (waited wait s.bridge.to_host s).bridge.to_host) q
                (rx_server s)).0.cached_response;
          taken =
              next_frame (head (waited wait s.bridge.to_host s).bridge.to_host) s.bridge.to_host
              ∷ l;
          bridge = step host_pull (waited wait s.bridge.to_host s).bridge;
        }))
        (waited-taken wait s.bridge.to_host s)
        (answered-Flow (waited wait s.bridge.to_host s) _ _ (waited-Flow wait s.bridge.to_host s i)
          (next_head wait s.bridge.to_host s refl)))
]

server-Flow :
    (session : ℕ) {s t : System WifiRxRequest WifiRxResponse Receiver}
    → Step receiver_service session s t
    → Flow s.server
    → Flow t.server
server-Flow session (skip e) i = i
server-Flow session (begin q e id) i = i
server-Flow session (send q e) i = i
server-Flow session (lose_request a b q e) i = i
server-Flow session {s} (serve_one v q rest e) i = poll-Flow v q s.server i
server-Flow session {s} (background server (events, e)) i =
    subst Flow (sym e) (listen-Flow events s.server i)
server-Flow session (lose_response a b r e) i = i
server-Flow session (accept q r rest e er id) i = i

Reach-Flow :
    (session : ℕ) {s : System WifiRxRequest WifiRxResponse Receiver}
    → Reach receiver_service session (initial new_receiver) s
    → Flow s.server
Reach-Flow session start = record { pulled = refl; flow = refl }
Reach-Flow session (later reach step) = server-Flow session step (Reach-Flow session reach)

module _ (session : ℕ) where
  receiver-effects :
      (l : List (WifiRxRequest × WifiRxResponse))
      → effects_of receiver_service session l ≡ delivered l
  receiver-effects [] = refl
  receiver-effects ((q, r) ∷ l) = ap (λ fs. r.frame ∷ fs) (receiver-effects l)

  receiver-Inv :
      (s : System WifiRxRequest WifiRxResponse Receiver)
      → Reach receiver_service session (initial new_receiver) s
      → s.next ≤ 2 ^ 32
      → Inv receiver_service session s
  receiver-Inv s reach small =
      Reach-Inv receiver_service receiver_service-IsIdempotent session
        (record {
          cached_past = tt;
          current_past = tt;
          ordered = tt;
          past = tt;
          owned = tt;
          history = (refl, refl);
        })
        reach small

  -- For at most 2 ^ 32 transactions of one session: whatever the link loses, repeats and delays, and
  -- whatever the bridge does between and during the polls, whenever the host has no poll under way,
  -- the frames that it has accepted, then those in the channel, then the one that the bridge holds
  -- back, are the frames that the bridge has received from the radio, each once and in order.
  pub radio_to_host :
      (s : System WifiRxRequest WifiRxResponse Receiver)
      → Reach receiver_service session (initial new_receiver) s
      → s.next ≤ 2 ^ 32
      → s.current ≡ none
      → arrived (delivered s.results) ++ (s.server.bridge.to_host ++ held s.server.bridge.mode)
        ≡ s.server.heard
  radio_to_host s reach small idle =
      let h : History receiver_service session s.server.cached_response none s.begun s.results
          s.server.taken =
        subst
          (λ o.
            History receiver_service session s.server.cached_response o s.begun s.results
              s.server.taken)
          idle (receiver-Inv s reach small).history in
      let flow = Reach-Flow session reach in
      ap (λ l. l ++ (s.server.bridge.to_host ++ held s.server.bridge.mode))
        (ap arrived (sym (h.1 ∙ receiver-effects s.results)) ∙ sym flow.pulled)
      ∙ flow.flow
