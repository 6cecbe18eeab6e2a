-- ===== src/Firmware/Device/Completion.antt =====
-- firmware-c3/src/bin/main.rs: what the handshake of `wifi_tx_server` and `wifi_bridge` promises.
use lamella.Base.{
  ◌+◌, ◌≤◌, List, [], ◌∷◌, ◌++◌, ◌≡◌, ◌⊎◌, inl, inr, ap, subst, arith, length, length-append,
}
use lamella.Icd.{WifiFrame}
use lamella.Firmware.TxServer.{new_tx_server, wifi_tx_server}
use lamella.Firmware.Device.{
  Phase, idle, sending, awaiting, Device, new_device, DeviceEvent, device_run,
}
use lamella.Firmware.Device.Handover.{oldest_first, length-oldest_first, all_ok, Handshake, Inv}
use lamella.Firmware.Device.Steps.{device-Inv}

-- Whatever the order in which server, bridge, radio and host act: the server's variable, the frames
-- handed over and the responses sent are those of a server that hands each frame over in one step,
-- for the requests that it has answered; and while it waits for a request, the radio has accepted
-- the frames handed over, in order, and no others.
pub device_refines :
    (events : List DeviceEvent)
    → (device_run events new_device).phase ≡ idle
    → (wifi_tx_server (all_ok (device_run events new_device).answered) new_tx_server
        ≡ ((device_run events new_device).server, (device_run events new_device).responses))
      × ((device_run events new_device).bridge.transmitted
          ≡ oldest_first (device_run events new_device).server.handed)
device_refines events e =
    let i = device-Inv events in
    (i.refined, (subst (λ p. Handshake p (device_run events new_device)) e i.handshake).2)

-- What the radio has accepted beyond the frames whose requests were answered.
abbrev pub AtMostOneMore : List WifiFrame → List WifiFrame → Type 0
AtMostOneMore answered accepted =
    (accepted ≡ answered) ⊎ ((f : WifiFrame) × (accepted ≡ answered ++ f ∷ []))

Handshake-AtMostOneMore :
    (phase : Phase) (d : Device)
    → Handshake phase d
    → AtMostOneMore (oldest_first d.server.handed) d.bridge.transmitted
Handshake-AtMostOneMore idle d (slot, o, e) = inl e
Handshake-AtMostOneMore (sending q) d (new, (slot, o, e)) = inl e
Handshake-AtMostOneMore (awaiting q) d (new, inl (slot, o, e)) = inl e
Handshake-AtMostOneMore (awaiting q) d (new, inr (inl (slot, o, e))) = inl e
Handshake-AtMostOneMore (awaiting q) d (new, inr (inr (slot, o, e))) = inr (q.frame, e)

-- At every moment, the radio has accepted the frame of each answered request, and at most one more;
-- and at most one completion is in `WIFI_TX_COMPLETE_CHANNEL`, so that the bridge never waits to
-- send one.
pub device_answers_accepted :
    (events : List DeviceEvent)
    → let d = device_run events new_device in
      AtMostOneMore (oldest_first d.server.handed) d.bridge.transmitted
      × (d.received ≤ d.bridge.completions)
      × (d.bridge.completions ≤ d.received + 1)
device_answers_accepted events =
    let d = device_run events new_device in
    let i = device-Inv events in
    let more = Handshake-AtMostOneMore d.phase d i.handshake in
    (more, (channel_bounds d i more).0, (channel_bounds d i more).1)
  where
    channel_bounds :
        (d : Device)
        → Inv d
        → AtMostOneMore (oldest_first d.server.handed) d.bridge.transmitted
        → (d.received ≤ d.bridge.completions) × (d.bridge.completions ≤ d.received + 1)
    channel_bounds d i (inl e) =
        ground
          (arith, i.received, i.counted.completed, ap length e, length-oldest_first d.server.handed)
    channel_bounds d i (inr (f, e)) = ground (
      arith,
      i.received,
      i.counted.completed,
      ap length e,
      length-oldest_first d.server.handed,
      length-append (oldest_first d.server.handed) (f ∷ []),
    )
