-- ===== src/SerialTransport/HotPlug/Sessions.antt =====
-- host/src/serial_transport.rs: the sessions of `run_with_hotplug` and their TAP device.
use lamella.Base.{
  ℕ, ◌-◌, ◌≤◌, Bool, true, false, Option, none, some, List, [], ◌∷◌, Result, ok, err, ◌≡◌, ap, ◌∙◌,
  subst, refl, arith, length, All,
}
use lamella.Icd.{u64}
use lamella.Metrics.{record_reconnect}
use lamella.SerialTransport.HotPlug.{
  Event, shutdown, not_registered, no_mac, no_peer, ready, HotPlug, new_hotplug, Outcome, register,
  bridge_session, with_mac, hotplug_step, go_on, run_with_hotplug,
}

abbrev pub taps_of : Option (List ℕ) → List (List ℕ)
taps_of none = []
taps_of (some tap) = tap ∷ []

-- Without an expected address there is no TAP device.
abbrev pub Together : Option (List ℕ) → Option (List ℕ) → Type 0
Together none tap = tap ≡ none
Together (some expected) tap = Unit

abbrev pub CountsSessions : Bool → ℕ → Type 0
CountsSessions true n = 1 ≤ n
CountsSessions false n = n ≡ 0

-- At most one TAP device was created, every session used it, and each session but the first was
-- counted as a reconnect.
pub record Inv (h : HotPlug) : Type 0 where
  pub one_tap : h.created ≡ taps_of h.tap_device
  pub same_tap : All (λ tap. h.tap_device ≡ some tap) h.bridged
  pub together : Together h.expected_mac h.tap_device
  pub once : CountsSessions h.connected_once (length h.bridged)
  pub reconnects : h.metrics.reconnects ≡ u64 (length h.bridged - 1)

retag :
    (l : List (List ℕ)) (tap : Option (List ℕ)) (mac : List ℕ)
    → tap ≡ none
    → All (λ t. tap ≡ some t) l
    → All (λ t. some mac ≡ some t) l
retag [] tap mac e h = tt
retag (t ∷ l) tap mac e h = cc (e, h.0)

register-Inv : (id : ℕ) (h : HotPlug) → Inv h → Inv (register id h)
register-Inv id h i = record {
  one_tap = i.one_tap;
  same_tap = i.same_tap;
  together = i.together;
  once = i.once;
  reconnects = i.reconnects;
}

module _ (E : Type 0) where
  session-Inv :
      (tap : List ℕ) (id : ℕ) (cancelled : Bool) (h : HotPlug)
      → h.tap_device ≡ some tap
      → Inv h
      → Inv (bridge_session {E = E} (some tap) id cancelled h).0
  unfolding bridge_session record_reconnect
  session-Inv tap id cancelled h e i = ground arith

  device-Inv :
      (tap : Option (List ℕ)) (id : ℕ) (cancelled : Bool) (h : HotPlug)
      → h.tap_device ≡ tap
      → Inv h
      → Inv (bridge_session {E = E} tap id cancelled h).0
  unfolding bridge_session
  device-Inv none id cancelled h e i = i
  device-Inv (some tap) id cancelled h e i = session-Inv tap id cancelled h e i

  with_mac-Inv :
      (expected : Option (List ℕ)) (id : ℕ) (mac : List ℕ) (tap : Result (Unit {0}) E)
      (cancelled : Bool) (h : HotPlug)
      → h.expected_mac ≡ expected
      → Inv h
      → Inv (with_mac expected id mac tap cancelled h).0
  unfolding with_mac
  with_mac-Inv (some expected) id mac tap cancelled h e i =
      device-Inv h.tap_device id cancelled h refl i
  with_mac-Inv none id mac (err x) cancelled h e i = record {
    one_tap = i.one_tap;
    same_tap = i.same_tap;
    together = tt;
    once = i.once;
    reconnects = i.reconnects;
  }
  with_mac-Inv none id mac (ok x) cancelled h e i =
      let no_tap : h.tap_device ≡ none = subst (λ o. Together o h.tap_device) e i.together in
      session-Inv mac id cancelled
        (record h { expected_mac = some mac; tap_device = some mac; created = mac ∷ h.created })
        refl
        (record {
          one_tap = ap (λ l. mac ∷ l) (i.one_tap ∙ ap taps_of no_tap);
          same_tap = retag h.bridged h.tap_device mac no_tap i.same_tap;
          together = tt;
          once = i.once;
          reconnects = i.reconnects;
        })

  step-Inv : (event : Event E) (h : HotPlug) → Inv h → Inv (hotplug_step event h).0
  unfolding hotplug_step
  step-Inv shutdown h i = i
  step-Inv not_registered h i = i
  step-Inv (no_mac id) h i = register-Inv id h i
  step-Inv (no_peer id mac) h i = register-Inv id h i
  step-Inv (ready id mac tap cancelled) h i =
      with_mac-Inv h.expected_mac id mac tap cancelled (register id h) refl (register-Inv id h i)

  go_on-Inv :
      (rest : HotPlug → Outcome E) (o : Outcome E)
      → ((h : HotPlug) → Inv h → Inv (rest h).0)
      → Inv o.0
      → Inv (go_on rest o).0
  go_on-Inv rest (h, none) ih i = ih h i
  go_on-Inv rest (h, some result) ih i = i

  run-Inv : (events : List (Event E)) (h : HotPlug) → Inv h → Inv (run_with_hotplug events h).0
  unfolding run_with_hotplug
  run-Inv [] h i = i
  run-Inv (event ∷ rest) h i =
      go_on-Inv (run_with_hotplug rest) (hotplug_step event h) (run-Inv rest) (step-Inv event h i)

  -- However often devices come and go, and whatever fails: at most one TAP device is created, every
  -- session uses it, and the reconnects counted are the sessions but the first, modulo 2 ^ 64.
  pub run_with_hotplug-Inv : (events : List (Event E)) → Inv (run_with_hotplug events new_hotplug).0
  run_with_hotplug-Inv events =
      run-Inv events new_hotplug
        (record { one_tap = refl; same_tap = tt; together = refl; once = refl; reconnects = refl })
