-- ===== src/Firmware/Device/Progress.antt =====
-- firmware-c3/src/bin/main.rs: how `wifi_tx_server` comes back to its next request.
use lamella.Base.{
  true, Option, none, some, List, [], ◌∷◌, ◌++◌, ◌≡◌, inl, inr, refl, ◌∙◌, ap, subst, arith, length,
  length-append, ltb,
}
use lamella.Icd.{WifiFrame, WifiTxRequest, WifiTxResponse}
use lamella.Firmware.Bridge.{
  Mode, bridging, transmitting, transmitting_kept, queueing, serving_tx, step, tx_token,
}
use lamella.Firmware.Bridge.Radio.{outgoing}
use lamella.Firmware.Device.{
  Phase, idle, sending, awaiting, Device, new_device, DeviceEvent, hand_over, take_frame, wake,
  take_completion, token, on_hand_over, on_take, on_completion, device_run, device_step,
}
use lamella.Firmware.Device.Passing.{Passes, step-Passes, step_token}
use lamella.Firmware.Device.Handover.{
  oldest_first, length-oldest_first, Quiet, OnTheWay, Handshake, Inv,
}
use lamella.Firmware.Device.Steps.{device-Inv, device_step-Inv}

-- The server waits with `q`, for room or for the completion.
abbrev pub Serves : WifiTxRequest → Phase → Type 0
Serves q idle = ⊥
Serves q (sending p) = p ≡ q
Serves q (awaiting p) = p ≡ q

-- What the steps of the request leave of the responses.
abbrev Awaits : WifiTxRequest → List WifiTxResponse → Device → Type 0
Awaits q responses d = (d.phase ≡ awaiting q) × (d.responses ≡ responses)

handed_over :
    (q : WifiTxRequest) (phase : Phase) (d : Device)
    → Serves q phase
    → Handshake phase d
    → Awaits q d.responses (on_hand_over phase d.host_to_wifi (record d { phase = phase }))
handed_over q idle d s h = absurd s
handed_over q (sending p) d s (new, (slot, o, e)) = rw slot (ap awaiting s, refl)
handed_over q (awaiting p) d s h = (ap awaiting s, refl)

-- The bridge is not busy while the frame is in the channel.
not_busy :
    (g f : WifiFrame) (done : List WifiFrame) (d : Device)
    → OnTheWay g done d
    → d.host_to_wifi ≡ some f
    → outgoing d.bridge.mode ≡ []
not_busy g f done d (inl (slot, o, e)) full = o
not_busy g f done d (inr (inl (slot, o, e))) full = cc
not_busy g f done d (inr (inr (slot, o, e))) full = o

taken_over :
    (mode : Mode) (slot : Option WifiFrame) (d : Device)
    → ((f : WifiFrame) → slot ≡ some f → outgoing mode ≡ [])
    → let t =
        on_take mode slot
          (record d { host_to_wifi = slot; bridge = record d.bridge { mode = mode } }) in
      (t.host_to_wifi ≡ none) × (t.phase ≡ d.phase) × (t.responses ≡ d.responses)
taken_over mode none d free = (refl, refl, refl)
taken_over bridging (some f) d free = (refl, refl, refl)
taken_over (queueing k n) (some f) d free = (refl, refl, refl)
taken_over (transmitting t n) (some f) d free = cc (free f refl)
taken_over (transmitting_kept t n k) (some f) d free = cc (free f refl)
taken_over (serving_tx g k n) (some f) d free = cc (free f refl)

-- After a token the bridge has no frame under way.
token_frees :
    (f : WifiFrame) (done : List WifiFrame) (d : Device)
    → d.host_to_wifi ≡ none
    → OnTheWay f done d
    → outgoing (step tx_token d.bridge).mode ≡ []
token_frees f done d empty (inl (slot, o, e)) = cc
token_frees f done d empty (inr (inl (slot, o, e))) = step_token d.bridge f o
token_frees f done d empty (inr (inr (slot, o, e))) = idle_token (step-Passes token d.bridge) o
  where
    idle_token :
        Passes d.bridge.mode d.bridge.transmitted (step tx_token d.bridge)
        → outgoing d.bridge.mode ≡ []
        → outgoing (step tx_token d.bridge).mode ≡ []
    idle_token (inl (same, out)) o = out ∙ o
    idle_token (inr (f, under_way, out, went)) o = out

arrived :
    (f : WifiFrame) (done : List WifiFrame) (d : Device)
    → d.host_to_wifi ≡ none
    → outgoing d.bridge.mode ≡ []
    → OnTheWay f done d
    → Quiet (done ++ f ∷ []) d
arrived f done d empty out (inl (slot, o, e)) = cc
arrived f done d empty out (inr (inl (slot, o, e))) = cc
arrived f done d empty out (inr (inr quiet)) = quiet

completed :
    (q : WifiTxRequest) (d : Device)
    → Inv d
    → Quiet (oldest_first d.server.handed ++ q.frame ∷ []) d
    → let e = on_completion (awaiting q) d in
      (e.phase ≡ idle) × (e.responses ≡ d.responses ++ record { transaction = q.transaction } ∷ [])
completed q d i (slot, out, e) =
    let more : ltb d.received d.bridge.completions ≡ true = ground (
      arith,
      i.received,
      i.counted.completed,
      ap length e,
      length-oldest_first d.server.handed,
      length-append (oldest_first d.server.handed) (q.frame ∷ []),
    ) in
    rw more (refl, refl)

way_of :
    (q : WifiTxRequest) (d : Device)
    → Inv d
    → d.phase ≡ awaiting q
    → OnTheWay q.frame (oldest_first d.server.handed) d
way_of q d i e = (subst (λ p. Handshake p d) e i.handshake).1

-- The server's send, the bridge's receive, a token of the radio, the server's receive.
abbrev pub turn : List DeviceEvent
turn = hand_over ∷ take_frame ∷ wake token ∷ take_completion ∷ []

turn_completes :
    (q : WifiTxRequest) (d : Device)
    → Inv d
    → Serves q d.phase
    → ((device_run turn d).phase ≡ idle)
      × ((device_run turn d).responses ≡ d.responses ++ record { transaction = q.transaction } ∷ [])
unfolding device_run device_step
turn_completes q d i s =
    let d1 = device_step hand_over d in
    let i1 = device_step-Inv hand_over d i in
    let a1 = handed_over q d.phase d s i.handshake in
    let d2 = device_step take_frame d1 in
    let i2 = device_step-Inv take_frame d1 i1 in
    let a2 =
      taken_over d1.bridge.mode d1.host_to_wifi d1
        (λ f. not_busy q.frame f (oldest_first d1.server.handed) d1 (way_of q d1 i1 a1.0)) in
    let p2 : d2.phase ≡ awaiting q = a2.1 ∙ a1.0 in
    let d3 = device_step (wake token) d2 in
    let i3 = device_step-Inv (wake token) d2 i2 in
    let out = token_frees q.frame (oldest_first d2.server.handed) d2 a2.0 (way_of q d2 i2 p2) in
    let end =
      completed q d3 i3
        (arrived q.frame (oldest_first d3.server.handed) d3 a2.0 out (way_of q d3 i3 p2)) in
    let go : (device_run turn d) ≡ on_completion (awaiting q) d3 =
      ap (λ p. on_completion p d3) p2 in
    (
      ap (λ d. d.phase) go ∙ end.0,
      ap (λ d. d.responses) go
          ∙ end.1
          ∙ ap (λ r. r ++ record { transaction = q.transaction } ∷ []) (a2.2 ∙ a1.1),
    )

-- The tasks do not deadlock: wherever a run has brought them, a server that has taken a request up
-- needs one send, one receive by the bridge, one token of the radio and one completion, in this
-- order, of which those that are over already are passed over; then it has answered the request and
-- waits for the next.
pub device_completes :
    (events : List DeviceEvent) (q : WifiTxRequest)
    → Serves q (device_run events new_device).phase
    → ((device_run turn (device_run events new_device)).phase ≡ idle)
      × ((device_run turn (device_run events new_device)).responses
          ≡ (device_run events new_device).responses ++ record { transaction = q.transaction } ∷ [])
device_completes events q s = turn_completes q (device_run events new_device) (device-Inv events) s
