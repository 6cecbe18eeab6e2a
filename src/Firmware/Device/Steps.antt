-- ===== src/Firmware/Device/Steps.antt =====
-- firmware-c3/src/bin/main.rs: every step of `wifi_tx_server` and `wifi_bridge`, with the handshake.
use lamella.Base.{Option, none, some, List, [], ◌∷◌, ◌++◌, ◌≡◌, inl, inr, refl, ◌∙◌}
use lamella.Icd.{WifiFrame, WifiTxRequest}
use lamella.Firmware.TxServer.{wifi_tx_server}
use lamella.Firmware.Bridge.{
  Bridge, Mode, bridging, transmitting, transmitting_kept, queueing, serving_tx, step, host_frame,
  step_in, wifi_bridge,
}
use lamella.Firmware.Bridge.Radio.{outgoing}
use lamella.Firmware.Bridge.Counts.{step-Inv, wifi_bridge-Inv}
use lamella.Firmware.Bridge.Counts as Counts
use lamella.Firmware.Device.{
  Phase, idle, sending, awaiting, Device, new_device, DeviceEvent, request, hand_over, take_frame,
  wake, take_completion, on_take, event_of, device_step, device_run,
}
use lamella.Firmware.Device.Passing.{Passes, step-Passes}
use lamella.Firmware.Device.Handover.{
  oldest_first, Quiet, OnTheWay, Handshake, Inv, on_request-Inv, on_hand_over-Inv,
  on_completion-Inv,
}

-- The bridge takes the frame in the channel: it is that of the request.
took_way :
    (g f : WifiFrame) (done : List WifiFrame) (c : Bridge) (d : Device)
    → outgoing c.mode ≡ f ∷ []
    → c.transmitted ≡ d.bridge.transmitted
    → OnTheWay g done (record d { host_to_wifi = some f })
    → OnTheWay g done (record d { host_to_wifi = none; bridge = c })
took_way g f done c d out same (inl (slot, o, e)) = inr (inl (refl, cc, same ∙ e))
took_way g f done c d out same (inr (inl (slot, o, e))) = cc
took_way g f done c d out same (inr (inr (slot, o, e))) = cc

took :
    (q : WifiTxRequest) (f : WifiFrame) (c : Bridge) (d : Device)
    → outgoing c.mode ≡ f ∷ []
    → c.transmitted ≡ d.bridge.transmitted
    → Counts.Inv c
    → Inv (record d { phase = awaiting q; host_to_wifi = some f })
    → Inv (record d { phase = awaiting q; host_to_wifi = none; bridge = c })
took q f c d out same counted i = record {
  handshake = (
    i.handshake.0,
    took_way q.frame f (oldest_first d.server.handed) c (record d { phase = awaiting q }) out same
        i.handshake.1,
  );
  counted = counted;
  received = i.received;
  refined = i.refined;
}

on_take-Inv :
    (phase : Phase) (mode : Mode) (slot : Option WifiFrame) (d : Device)
    → Inv
        (record d { phase = phase; host_to_wifi = slot; bridge = record d.bridge { mode = mode } })
    → Inv (
        on_take mode slot (record d {
          phase = phase;
          host_to_wifi = slot;
          bridge = record d.bridge { mode = mode };
        }))
unfolding step step_in
on_take-Inv phase mode none d i = i
on_take-Inv idle mode (some f) d i = cc i.handshake.0
on_take-Inv (sending q) mode (some f) d i = cc i.handshake.1.0
on_take-Inv (awaiting q) bridging (some f) d i =
    took q f (step (host_frame f) (record d.bridge { mode = bridging }))
      (record d { bridge = record d.bridge { mode = bridging } }) refl refl
      (step-Inv (host_frame f) _ i.counted) i
on_take-Inv (awaiting q) (queueing k n) (some f) d i =
    took q f (step (host_frame f) (record d.bridge { mode = queueing k n }))
      (record d { bridge = record d.bridge { mode = queueing k n } }) refl refl
      (step-Inv (host_frame f) _ i.counted) i
on_take-Inv (awaiting q) (transmitting t n) (some f) d i = i
on_take-Inv (awaiting q) (transmitting_kept t n k) (some f) d i = i
on_take-Inv (awaiting q) (serving_tx g k n) (some f) d i = i

-- Where no frame is under way, waking the bridge changes nothing here.
quiet_wake :
    (done : List WifiFrame) (c : Bridge) (d : Device)
    → Passes d.bridge.mode d.bridge.transmitted c
    → Quiet done d
    → Quiet done (record d { bridge = c })
quiet_wake done c d (inl (same, out)) (slot, o, e) = (slot, out ∙ o, same ∙ e)
quiet_wake done c d (inr (f, under_way, out, went)) (slot, o, e) = cc

way_wake :
    (f : WifiFrame) (done : List WifiFrame) (c : Bridge) (d : Device)
    → Passes d.bridge.mode d.bridge.transmitted c
    → OnTheWay f done d
    → OnTheWay f done (record d { bridge = c })
way_wake f done c d (inl (same, out)) (inl (slot, o, e)) = inl (slot, out ∙ o, same ∙ e)
way_wake f done c d (inr (g, under_way, out, went)) (inl (slot, o, e)) = cc
way_wake f done c d (inl (same, out)) (inr (inl (slot, o, e))) = inr (inl (slot, out ∙ o, same ∙ e))
way_wake f done c d (inr (g, under_way, out, went)) (inr (inl (slot, o, e))) =
    inr (inr (slot, out, cc))
way_wake f done c d p (inr (inr quiet)) = inr (inr (quiet_wake (done ++ f ∷ []) c d p quiet))

wake-Handshake :
    (phase : Phase) (c : Bridge) (d : Device)
    → Passes d.bridge.mode d.bridge.transmitted c
    → Handshake phase d
    → Handshake phase (record d { bridge = c })
wake-Handshake idle c d p h = quiet_wake _ c d p h
wake-Handshake (sending q) c d p h = (h.0, quiet_wake _ c d p h.1)
wake-Handshake (awaiting q) c d p h = (h.0, way_wake q.frame _ c d p h.1)

pub device_step-Inv : (event : DeviceEvent) (d : Device) → Inv d → Inv (device_step event d)
unfolding device_step
device_step-Inv (request q) d i = on_request-Inv d.phase q d i
device_step-Inv hand_over d i = on_hand_over-Inv d.phase d.host_to_wifi d i
device_step-Inv take_frame d i = on_take-Inv d.phase d.bridge.mode d.host_to_wifi d i
device_step-Inv (wake w) d i = record {
  handshake =
      wake-Handshake d.phase (step (event_of w) d.bridge) d (step-Passes w d.bridge) i.handshake;
  counted = step-Inv (event_of w) d.bridge i.counted;
  received = i.received;
  refined = i.refined;
}
device_step-Inv take_completion d i = on_completion-Inv d.phase d i

pub device_run-Inv : (events : List DeviceEvent) (d : Device) → Inv d → Inv (device_run events d)
unfolding device_run
device_run-Inv [] d i = i
device_run-Inv (event ∷ rest) d i =
    device_run-Inv rest (device_step event d) (device_step-Inv event d i)

pub device-Inv : (events : List DeviceEvent) → Inv (device_run events new_device)
unfolding wifi_tx_server wifi_bridge
device-Inv events = device_run-Inv events new_device (record {
  handshake = (refl, refl, refl);
  counted = wifi_bridge-Inv [];
  received = refl;
  refined = refl;
})
