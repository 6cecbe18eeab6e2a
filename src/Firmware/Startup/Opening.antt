-- ===== src/Firmware/Startup/Opening.antt =====
-- firmware-c3/src/bin/main.rs and firmware-s3/src/bin/main.rs: when `wifi_bridge` begins to bridge.
use lamella.Base.{
  append_assoc, append-nil, subst, Bool-cases, Bool, true, false, List, [], ◌∷◌, ◌++◌, ◌≡◌, inl,
  inr, refl, sym, ◌∙◌, ap, arith,
}
use lamella.Firmware.Startup.{
  Radio, connected, disconnected, connect_failed, Connection, on_radio, Gate, no_wifi, no_usb,
  open_gate, Event, radio, usb, look, Startup, new_startup, on_look, startup_step, startup_run,
}

-- The flag is up exactly while there is a connection.
abbrev pub IsTrue : Connection → Type 0
IsTrue c = c.wifi_connected ≡ c.is_up

on_radio-IsTrue :
    (is_up : Bool) (r : Radio) (c : Connection)
    → c.is_up ≡ is_up
    → IsTrue c
    → IsTrue (on_radio is_up r c)
on_radio-IsTrue false connected c e h = refl
on_radio-IsTrue false connect_failed c e h = sym e
on_radio-IsTrue false disconnected c e h = h
on_radio-IsTrue true disconnected c e h = refl
on_radio-IsTrue true connected c e h = h
on_radio-IsTrue true connect_failed c e h = h

-- What the gate tells of the events so far: the bridge has looked at a connection, and later at an
-- active interface.
abbrev pub Looked : List Event → Gate → Type 0
Looked events no_wifi = Unit
Looked events no_usb =
    (a : List Event) × (b : List Event) × (events ≡ a ++ look ∷ b)
    × ((startup_run a new_startup).connection.is_up ≡ true)
Looked events open_gate =
    (a : List Event) × (b : List Event) × (c : List Event) × (events ≡ a ++ look ∷ (b ++ look ∷ c))
    × ((startup_run a new_startup).connection.is_up ≡ true)
    × ((startup_run (a ++ look ∷ b) new_startup).is_active ≡ true)

Looked-append : (events more : List Event) (g : Gate) → Looked events g → Looked (events ++ more) g
Looked-append events more no_wifi h = tt
Looked-append events more no_usb (a, b, e, up) =
    (a, b ++ more, ap (λ l. l ++ more) e ∙ append_assoc a (look ∷ b) more, up)
Looked-append events more open_gate (a, b, c, e, up, active) = (
  a,
  b,
  c ++ more,
  ap (λ l. l ++ more) e
      ∙ append_assoc a (look ∷ (b ++ look ∷ c)) more
      ∙ ap (λ l. a ++ look ∷ l) (append_assoc b (look ∷ c) more),
  up,
  active,
)

startup_run-append :
    (a b : List Event) (s : Startup) → startup_run (a ++ b) s ≡ startup_run b (startup_run a s)
unfolding startup_run
startup_run-append [] b s = refl
startup_run-append (event ∷ a) b s = startup_run-append a b (startup_step event s)

look-Looked :
    (events : List Event) (g : Gate) (s : Startup)
    → startup_run events new_startup ≡ s
    → s.gate ≡ g
    → IsTrue s.connection
    → Looked events g
    → Looked (events ++ look ∷ []) (on_look g s).gate
look-Looked events no_wifi s e eg t h = elim (Bool-cases s.connection.wifi_connected) [
  | inl up ↦ rw up (events, [], refl, rw e (sym t ∙ up))
  | inr down ↦ rw down (subst (Looked (events ++ look ∷ [])) (sym eg) tt)
]
look-Looked events no_usb s e eg t (a, b, split, up) = elim (Bool-cases s.is_active) [
  | inl active ↦ rw active (
    a,
    b,
    [],
    ap (λ l. l ++ look ∷ []) split ∙ append_assoc a (look ∷ b) (look ∷ []),
    up,
    subst (λ l. (startup_run l new_startup).is_active ≡ true) split (rw e active),
  )
  | inr inactive ↦ rw inactive (
      subst (Looked (events ++ look ∷ [])) (sym eg)
        (Looked-append events (look ∷ []) no_usb (a, b, split, up)))
]
look-Looked events open_gate s e eg t h =
    subst (Looked (events ++ look ∷ [])) (sym eg) (Looked-append events (look ∷ []) open_gate h)

step-IsTrue :
    (event : Event) (s : Startup) → IsTrue s.connection → IsTrue (startup_step event s).connection
unfolding startup_step
step-IsTrue (radio r) s h = on_radio-IsTrue s.connection.is_up r s.connection refl h
step-IsTrue (usb is_active) s h = h
step-IsTrue look s h = looked s.gate s h
  where
    looked : (g : Gate) (s : Startup) → IsTrue s.connection → IsTrue (on_look g s).connection
    looked no_wifi s h = ground arith
    looked no_usb s h = ground arith
    looked open_gate s h = h

step-Looked :
    (events : List Event) (event : Event) (s : Startup)
    → startup_run events new_startup ≡ s
    → IsTrue s.connection
    → Looked events s.gate
    → Looked (events ++ event ∷ []) (startup_step event s).gate
unfolding startup_step
step-Looked events (radio r) s e t h = Looked-append events (radio r ∷ []) s.gate h
step-Looked events (usb is_active) s e t h = Looked-append events (usb is_active ∷ []) s.gate h
step-Looked events look s e t h = look-Looked events s.gate s e refl t h

run-Looked :
    (events rest : List Event) (s : Startup)
    → startup_run events new_startup ≡ s
    → IsTrue s.connection
    → Looked events s.gate
    → Looked (events ++ rest) (startup_run rest s).gate
unfolding startup_run
run-Looked events [] s e t h = subst (λ l. Looked l s.gate) (sym (append-nil events)) h
run-Looked events (event ∷ rest) s e t h =
    subst (λ l. Looked l (startup_run rest (startup_step event s)).gate)
      (append_assoc events (event ∷ []) rest)
      (run-Looked (events ++ event ∷ []) rest (startup_step event s)
        (startup_run-append events (event ∷ []) new_startup ∙ ap (startup_step event) e)
        (step-IsTrue event s t) (step-Looked events event s e t h))

-- The bridge begins only after it has looked at the flag during a connection of the radio, and after
-- that at the interface while this was active, whatever has happened in between.
pub startup_run-Looked : (events : List Event) → Looked events (startup_run events new_startup).gate
unfolding startup_run
startup_run-Looked events = run-Looked [] events new_startup refl refl tt
