-- ===== src/SerialTransport/HotPlug/Interfaces.antt =====
-- host/src/serial_transport.rs: what a device that cannot be bridged leaves of `run_with_hotplug`.
use lamella.Base.{
  ℕ, ==_iff, Bool, true, false, Option, none, some, List, [], ◌∷◌, Result, ok, err, ◌≡◌, refl, sym,
  ap, ◌∙◌,
}
use lamella.SerialTransport.HotPlug.{
  Event, shutdown, not_registered, no_mac, no_peer, ready, HotPlug, new_hotplug, Outcome, register,
  without, bridge_session, with_mac, hotplug_step, go_on, run_with_hotplug,
}

-- The devices that could be registered, queried and addressed, and the cancellation.
abbrev pub usable : {E : Type 0} → List (Event E) → List (Event E)
usable [] = []
usable (not_registered ∷ rest) = usable rest
usable (no_mac id ∷ rest) = usable rest
usable (no_peer id mac ∷ rest) = usable rest
usable (shutdown ∷ rest) = shutdown ∷ usable rest
usable (ready id mac tap cancelled ∷ rest) = ready id mac tap cancelled ∷ usable rest

-- The interfaces of the devices that were registered and are not usable, before `left`, the newest
-- first.
abbrev pub left_by : {E : Type 0} → List (Event E) → List ℕ → List ℕ
left_by [] left = left
left_by (not_registered ∷ rest) left = left_by rest left
left_by (no_mac id ∷ rest) left = left_by rest (id ∷ left)
left_by (no_peer id mac ∷ rest) left = left_by rest (id ∷ left)
left_by (shutdown ∷ rest) left = left_by rest left
left_by (ready id mac tap cancelled ∷ rest) left = left_by rest left

-- If the loop goes on, these interfaces are registered.
abbrev pub StillRegistered : {E : Type 0} → List ℕ → Outcome E → Type 0
StillRegistered left (h, none) = h.registered ≡ left
StillRegistered left (h, some result) = Unit

-- A run but for the interfaces that are registered.
abbrev pub forget : HotPlug → HotPlug
forget h = record h { registered = [] }

pub record Agree {E : Type 0} (o p : Outcome E) : Type 0 where
  pub state : forget o.0 ≡ forget p.0
  pub result : o.1 ≡ p.1

-- With an expected address there is a TAP device.
abbrev HasTap : Option (List ℕ) → Option (List ℕ) → Type 0
HasTap none tap = Unit
HasTap (some expected) none = ⊥
HasTap (some expected) (some tap) = Unit

without_first : (id : ℕ) (l : List ℕ) → without id (id ∷ l) ≡ l
unfolding without
without_first id l = rw ((==_iff id id).1 refl) refl

module _ {E : Type 0} where
  Agree-trans : {o p q : Outcome E} → Agree o p → Agree p q → Agree o q
  Agree-trans a b = record { state = a.state ∙ b.state; result = a.result ∙ b.result }

  session_agrees :
      (tap : Option (List ℕ)) (id : ℕ) (cancelled : Bool) (h : HotPlug) (l : List ℕ)
      → Agree
          (bridge_session {E = E} tap id cancelled h)
          (bridge_session tap id cancelled (record h { registered = l }))
  unfolding bridge_session
  session_agrees none id cancelled h l = record { state = refl; result = refl }
  session_agrees (some tap) id cancelled h l = record { state = refl; result = refl }

  with_mac_agrees :
      (expected : Option (List ℕ)) (id : ℕ) (mac : List ℕ) (tap : Result (Unit {0}) E)
      (cancelled : Bool) (h : HotPlug) (l : List ℕ)
      → Agree
          (with_mac expected id mac tap cancelled h)
          (with_mac expected id mac tap cancelled (record h { registered = l }))
  unfolding with_mac
  with_mac_agrees (some expected) id mac tap cancelled h l =
      session_agrees h.tap_device id cancelled h l
  with_mac_agrees none id mac (err e) cancelled h l = record { state = refl; result = refl }
  with_mac_agrees none id mac (ok x) cancelled h l =
      session_agrees (some mac) id cancelled
        (record h { expected_mac = some mac; tap_device = some mac; created = mac ∷ h.created }) l

  step_agrees :
      (event : Event E) (h : HotPlug) → Agree (hotplug_step event h) (hotplug_step event (forget h))
  unfolding hotplug_step
  step_agrees shutdown h = record { state = refl; result = refl }
  step_agrees not_registered h = record { state = refl; result = refl }
  step_agrees (no_mac id) h = record { state = refl; result = refl }
  step_agrees (no_peer id mac) h = record { state = refl; result = refl }
  step_agrees (ready id mac tap cancelled) h =
      with_mac_agrees h.expected_mac id mac tap cancelled (register id h) (id ∷ [])

  -- Two continuations that agree on states that agree.
  go_on_agrees :
      (f g : HotPlug → Outcome E) (o p : Outcome E)
      → Agree o p
      → ((h k : HotPlug) → forget h ≡ forget k → Agree (f h) (g k))
      → Agree (go_on f o) (go_on g p)
  go_on_agrees f g (h, none) (k, none) a e = e h k a.state
  go_on_agrees f g (h, some r) (k, some s) a e = a
  go_on_agrees f g (h, none) (k, some s) a e = cc a.result
  go_on_agrees f g (h, some r) (k, none) a e = cc a.result

  run_forgets :
      (events : List (Event E)) (h k : HotPlug)
      → forget h ≡ forget k
      → Agree (run_with_hotplug events h) (run_with_hotplug events k)
  unfolding run_with_hotplug
  run_forgets [] h k e = record { state = e; result = refl }
  run_forgets (event ∷ rest) h k e =
      go_on_agrees (run_with_hotplug rest) (run_with_hotplug rest) (hotplug_step event h)
        (hotplug_step event k)
        (Agree-trans (step_agrees event h) (
          Agree-trans {p = hotplug_step event (forget k)}
            (record {
              state = ap (λ l. forget (hotplug_step event l).0) e;
              result = ap (λ l. (hotplug_step event l).1) e;
            })
            (record {
              state = sym (step_agrees event k).state;
              result = sym (step_agrees event k).result;
            })))
        (run_forgets rest)

  usable_agrees :
      (events : List (Event E)) (h : HotPlug)
      → Agree (run_with_hotplug (usable events) h) (run_with_hotplug events h)
  unfolding run_with_hotplug hotplug_step
  usable_agrees [] h = record { state = refl; result = refl }
  usable_agrees (not_registered ∷ rest) h = usable_agrees rest h
  usable_agrees (no_mac id ∷ rest) h =
      Agree-trans (run_forgets (usable rest) h (register id h) refl)
        (usable_agrees rest (register id h))
  usable_agrees (no_peer id mac ∷ rest) h =
      Agree-trans (run_forgets (usable rest) h (register id h) refl)
        (usable_agrees rest (register id h))
  usable_agrees (shutdown ∷ rest) h = record { state = refl; result = refl }
  usable_agrees (ready id mac tap cancelled ∷ rest) h =
      let o = with_mac h.expected_mac id mac tap cancelled (register id h) in
      go_on_agrees (run_with_hotplug (usable rest)) (run_with_hotplug rest) o o
        (record { state = refl; result = refl })
        (λ k l e. Agree-trans (run_forgets (usable rest) k l e) (usable_agrees rest l))

module _ (E : Type 0) where
  -- After a pass that goes on there is still a TAP device, and the interfaces are `left`.
  abbrev Leaves : List ℕ → Outcome E → Type 0
  Leaves left (h, some r) = Unit
  Leaves left (h, none) = HasTap h.expected_mac h.tap_device × (h.registered ≡ left)

  session-Leaves :
      (tap : List ℕ) (id : ℕ) (cancelled : Bool) (h : HotPlug) (left : List ℕ)
      → h.tap_device ≡ some tap
      → h.registered ≡ id ∷ left
      → Leaves left (bridge_session {E = E} (some tap) id cancelled h)
  unfolding bridge_session
  session-Leaves tap id true h left e r = tt
  session-Leaves tap id false h left e r =
      (rw e (has_tap h.expected_mac), ap (without id) r ∙ without_first id left)
    where
      has_tap : (expected : Option (List ℕ)) → HasTap expected (some tap)
      has_tap none = tt
      has_tap (some x) = tt

  device-Leaves :
      (expected : List ℕ) (tap : Option (List ℕ)) (id : ℕ) (cancelled : Bool) (h : HotPlug)
      (left : List ℕ)
      → h.tap_device ≡ tap
      → HasTap (some expected) tap
      → h.registered ≡ id ∷ left
      → Leaves left (bridge_session {E = E} tap id cancelled h)
  device-Leaves expected none id cancelled h left e t r = absurd t
  device-Leaves expected (some tap) id cancelled h left e t r =
      session-Leaves tap id cancelled h left e r

  with_mac-Leaves :
      (expected : Option (List ℕ)) (id : ℕ) (mac : List ℕ) (tap : Result (Unit {0}) E)
      (cancelled : Bool) (h : HotPlug) (left : List ℕ)
      → HasTap expected h.tap_device
      → h.registered ≡ id ∷ left
      → Leaves left (with_mac expected id mac tap cancelled h)
  unfolding with_mac
  with_mac-Leaves (some expected) id mac tap cancelled h left t r =
      device-Leaves expected h.tap_device id cancelled h left refl t r
  with_mac-Leaves none id mac (err e) cancelled h left t r = tt
  with_mac-Leaves none id mac (ok x) cancelled h left t r =
      session-Leaves mac id cancelled
        (record h { expected_mac = some mac; tap_device = some mac; created = mac ∷ h.created })
        left refl r

  go_on-Leaves :
      (rest : List (Event E)) (o : Outcome E) (left : List ℕ)
      → Leaves left o
      → ((h : HotPlug)
          → HasTap h.expected_mac h.tap_device
          → (run_with_hotplug rest h).1 ≡ none
          → (run_with_hotplug rest h).0.registered ≡ left_by rest h.registered)
      → (go_on (run_with_hotplug rest) o).1 ≡ none
      → (go_on (run_with_hotplug rest) o).0.registered ≡ left_by rest left
  go_on-Leaves rest (h, none) left l ih e = ih h l.0 e ∙ ap (left_by rest) l.1
  go_on-Leaves rest (h, some r) left l ih e = cc

  run_leaves :
      (events : List (Event E)) (h : HotPlug)
      → HasTap h.expected_mac h.tap_device
      → (run_with_hotplug events h).1 ≡ none
      → (run_with_hotplug events h).0.registered ≡ left_by events h.registered
  unfolding run_with_hotplug hotplug_step
  run_leaves [] h t e = refl
  run_leaves (shutdown ∷ rest) h t e = cc
  run_leaves (not_registered ∷ rest) h t e = run_leaves rest h t e
  run_leaves (no_mac id ∷ rest) h t e = run_leaves rest (register id h) t e
  run_leaves (no_peer id mac ∷ rest) h t e = run_leaves rest (register id h) t e
  run_leaves (ready id mac tap cancelled ∷ rest) h t e =
      go_on-Leaves rest (with_mac h.expected_mac id mac tap cancelled (register id h)) h.registered
        (with_mac-Leaves h.expected_mac id mac tap cancelled (register id h) h.registered t refl)
        (run_leaves rest) e

-- A device that cannot be registered, queried or addressed changes nothing but the interfaces: the
-- result, the TAP devices, the sessions and the metrics are those of the run without it. While the
-- loop goes on, the interfaces that are still registered are exactly those of the devices that were
-- registered and could not be queried or addressed, the newest first.
pub run_with_hotplug-usable :
    {E : Type 0} (events : List (Event E))
    → Agree (run_with_hotplug (usable events) new_hotplug) (run_with_hotplug events new_hotplug)
      × StillRegistered (left_by events []) (run_with_hotplug events new_hotplug)
run_with_hotplug-usable {E} events = (
  usable_agrees events new_hotplug,
  going (run_with_hotplug events new_hotplug) (run_leaves E events new_hotplug tt),
)
  where
    going :
        (o : Outcome E)
        → (o.1 ≡ none → o.0.registered ≡ left_by events [])
        → StillRegistered (left_by events []) o
    going (h, none) f = f refl
    going (h, some r) f = tt
