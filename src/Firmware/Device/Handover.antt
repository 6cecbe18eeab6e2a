-- ===== src/Firmware/Device/Handover.antt =====
-- firmware-c3/src/bin/main.rs: `wifi_tx_server` with the handshake, against `wifi_tx_server` that hands
-- a frame over in one step.
use lamella.Base.{
  true, false, Option, none, some, List, [], ◌∷◌, ◌++◌, Result, ok, ◌≡◌, ◌⊎◌, inl, inr, refl, ◌∙◌,
  ap, arith, length, length-append, Bool-cases, ltb,
}
use lamella.Icd.{WifiFrame, WifiTxRequest}
use lamella.Firmware.TxServer.{TxServer, new_tx_server, is_last, serve_tx, wifi_tx_server}
use lamella.Firmware.Bridge.Radio.{outgoing}
use lamella.Firmware.Bridge.Counts.{step-Inv}
use lamella.Firmware.Bridge.Counts as Counts
use lamella.Firmware.Device.{
  Phase, idle, sending, awaiting, Device, on_request, on_hand_over, on_completion,
}

-- The newest first becomes the oldest first.
abbrev pub oldest_first : List WifiFrame → List WifiFrame
oldest_first [] = []
oldest_first (f ∷ l) = oldest_first l ++ f ∷ []

pub length-oldest_first : (l : List WifiFrame) → length (oldest_first l) ≡ length l
length-oldest_first [] = refl
length-oldest_first (f ∷ l) =
    omega (arith, length-append (oldest_first l) (f ∷ []), length-oldest_first l)

-- What `recv_manual` returned for the requests that were answered.
abbrev pub all_ok : List WifiTxRequest → List (Result WifiTxRequest (Unit {0}))
all_ok [] = []
all_ok (q ∷ l) = ok q ∷ all_ok l

wifi_tx_server-snoc :
    (l : List WifiTxRequest) (q : WifiTxRequest) (s : TxServer)
    → wifi_tx_server (all_ok (l ++ q ∷ [])) s ≡ (
      (serve_tx q (wifi_tx_server (all_ok l) s).0).0,
      (wifi_tx_server (all_ok l) s).1 ++ (serve_tx q (wifi_tx_server (all_ok l) s).0).1 ∷ [],
    )
unfolding wifi_tx_server
wifi_tx_server-snoc [] q s = refl
wifi_tx_server-snoc (p ∷ l) q s =
    ap (λ r. (r.0, (serve_tx p s).1 ∷ r.1)) (wifi_tx_server-snoc l q (serve_tx p s).0)

-- No frame is on its way, and the radio has accepted `done`.
abbrev pub Quiet : List WifiFrame → Device → Type 0
Quiet done d =
    (d.host_to_wifi ≡ none) × (outgoing d.bridge.mode ≡ []) × (d.bridge.transmitted ≡ done)

-- The frame is in the channel, or with the bridge, or the radio has accepted it.
abbrev pub OnTheWay : WifiFrame → List WifiFrame → Device → Type 0
OnTheWay f done d =
    ((d.host_to_wifi ≡ some f) × (outgoing d.bridge.mode ≡ []) × (d.bridge.transmitted ≡ done))
    ⊎ ((d.host_to_wifi ≡ none) × (outgoing d.bridge.mode ≡ f ∷ []) × (d.bridge.transmitted ≡ done))
    ⊎ Quiet (done ++ f ∷ []) d

abbrev pub Handshake : Phase → Device → Type 0
Handshake idle d = Quiet (oldest_first d.server.handed) d
Handshake (sending q) d =
    (is_last d.server.last_completed q.transaction ≡ false) × Quiet (oldest_first d.server.handed) d
Handshake (awaiting q) d =
    (is_last d.server.last_completed q.transaction ≡ false)
    × OnTheWay q.frame (oldest_first d.server.handed) d

pub record Inv (d : Device) : Type 0 where
  pub handshake : Handshake d.phase d
  pub counted : Counts.Inv d.bridge
  pub received : d.received ≡ length d.server.handed
  pub refined : wifi_tx_server (all_ok d.answered) new_tx_server ≡ (d.server, d.responses)

answered_again :
    (q : WifiTxRequest) (d : Device)
    → is_last d.server.last_completed q.transaction ≡ true
    → wifi_tx_server (all_ok d.answered) new_tx_server ≡ (d.server, d.responses)
    → wifi_tx_server (all_ok (d.answered ++ q ∷ [])) new_tx_server
      ≡ (d.server, d.responses ++ record { transaction = q.transaction } ∷ [])
unfolding serve_tx
answered_again q d last e =
    wifi_tx_server-snoc d.answered q new_tx_server
    ∙ ap (λ r. ((serve_tx q r.0).0, r.1 ++ (serve_tx q r.0).1 ∷ [])) e
    ∙ rw last refl

answered_new :
    (q : WifiTxRequest) (d : Device)
    → is_last d.server.last_completed q.transaction ≡ false
    → wifi_tx_server (all_ok d.answered) new_tx_server ≡ (d.server, d.responses)
    → wifi_tx_server (all_ok (d.answered ++ q ∷ [])) new_tx_server ≡ (
      record { last_completed = some q.transaction; handed = q.frame ∷ d.server.handed },
      d.responses ++ record { transaction = q.transaction } ∷ [],
    )
unfolding serve_tx
answered_new q d new e =
    wifi_tx_server-snoc d.answered q new_tx_server
    ∙ ap (λ r. ((serve_tx q r.0).0, r.1 ++ (serve_tx q r.0).1 ∷ [])) e
    ∙ rw new refl

pub on_request-Inv :
    (phase : Phase) (q : WifiTxRequest) (d : Device)
    → Inv (record d { phase = phase })
    → Inv (on_request phase q (record d { phase = phase }))
on_request-Inv idle q d i = elim (Bool-cases (is_last d.server.last_completed q.transaction)) [
  | inl last ↦ rw last (record {
    handshake = i.handshake;
    counted = i.counted;
    received = i.received;
    refined = answered_again q d last i.refined;
  })
  | inr new ↦ rw new (record {
    handshake = (new, i.handshake);
    counted = i.counted;
    received = i.received;
    refined = i.refined;
  })
]
on_request-Inv (sending p) q d i = i
on_request-Inv (awaiting p) q d i = i

pub on_hand_over-Inv :
    (phase : Phase) (slot : Option WifiFrame) (d : Device)
    → Inv (record d { phase = phase; host_to_wifi = slot })
    → Inv (on_hand_over phase slot (record d { phase = phase; host_to_wifi = slot }))
on_hand_over-Inv idle slot d i = i
on_hand_over-Inv (sending q) none d i = record {
  handshake = (i.handshake.0, inl (refl, i.handshake.1.1, i.handshake.1.2));
  counted = i.counted;
  received = i.received;
  refined = i.refined;
}
on_hand_over-Inv (sending q) (some f) d i = i
on_hand_over-Inv (awaiting q) slot d i = i

-- A completion that the server has not received is that of its own frame.
accepted :
    (f : WifiFrame) (d : Device)
    → Counts.Inv d.bridge
    → d.received ≡ length d.server.handed
    → ltb d.received d.bridge.completions ≡ true
    → OnTheWay f (oldest_first d.server.handed) d
    → Quiet (oldest_first d.server.handed ++ f ∷ []) d
accepted f d c r more (inl (slot, out, e)) =
    absurd (ground (arith, c.completed, ap length e, length-oldest_first d.server.handed))
accepted f d c r more (inr (inl (slot, out, e))) =
    absurd (ground (arith, c.completed, ap length e, length-oldest_first d.server.handed))
accepted f d c r more (inr (inr quiet)) = quiet

pub on_completion-Inv :
    (phase : Phase) (d : Device)
    → Inv (record d { phase = phase })
    → Inv (on_completion phase (record d { phase = phase }))
on_completion-Inv idle d i = i
on_completion-Inv (sending q) d i = i
on_completion-Inv (awaiting q) d i = elim (Bool-cases (ltb d.received d.bridge.completions)) [
  | inl more ↦ rw more (record {
    handshake =
        accepted q.frame (record d { phase = awaiting q }) i.counted i.received more i.handshake.1;
    counted = i.counted;
    received = omega (arith, i.received);
    refined = answered_new q d i.handshake.0 i.refined;
  })
  | inr none_left ↦ rw none_left i
]
