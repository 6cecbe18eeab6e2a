-- ===== src/SystemNetwork.antt =====
-- host/src/system_network.rs: the temporary NetworkManager profile, and the host part of WireGuard
-- endpoints. What the commands and the user do is an argument; what the code runs is a list.
pub mod Cleanup
pub mod Endpoint
pub mod Routes
use lamella.Base.{
  ℕ, Bool, true, false, Option, none, some, List, [], ◌∷◌, Result, ok, err, if◌then◌else◌,
}

-- The commands that change the system or are waited for. A removal tells whether the profile is gone.
pub data Command : Type 0 where
  status add modify up show route_get : Command
  delete : (removed : Bool) → Command

-- What ends `wait_for_tap`: `ip` shows the interface, or it cannot be run, or a cancellation.
pub data TapWait (E : Type 0) : Type 0 where
  found : TapWait E
  no_ip : E → TapWait E
  cancelled : TapWait E

-- What happens in `configure_activate_and_monitor`: `activation` is `none` if the cancellation comes
-- first. The route query only informs.
pub record World (E : Type 0) : Type 0 where
  pub tap : TapWait E
  pub cancelled_after_wait : Bool
  pub status_result : Result (Unit {0}) E
  pub add_result : Result (Unit {0}) E
  pub modify_result : Result (Unit {0}) E
  pub activation : Option (Result (Unit {0}) E)
  pub show_result : Result (Unit {0}) E
  pub delete_result : Result (Unit {0}) E

-- The commands run, in order, and the result.
abbrev pub Run : Type 0 → Type 0
Run E = List Command × Result (Unit {0}) E

module _ {E : Type 0} (w : World E) where
  abbrev pub show_details : Result (Unit {0}) E → Run E
  show_details (err e) = (show ∷ [], err e)
  show_details (ok _) = (show ∷ route_get ∷ [], ok tt)

  abbrev pub cons : Command → Run E → Run E
  cons command (commands, result) = (command ∷ commands, result)

  abbrev pub activate : Option (Result (Unit {0}) E) → Run E
  activate none = (up ∷ [], ok tt)
  activate (some (err e)) = (up ∷ [], err e)
  activate (some (ok _)) = cons up (show_details w.show_result)

  abbrev pub configure : Result (Unit {0}) E → Run E
  configure (err e) = (modify ∷ [], err e)
  configure (ok _) = cons modify (activate w.activation)

  unfoldable pub configure_activate_and_monitor : Run E
  configure_activate_and_monitor = configure w.modify_result

  abbrev pub is_ok : Result (Unit {0}) E → Bool
  is_ok (ok _) = true
  is_ok (err e) = false

  -- A failure of `connection delete` is only logged: the result stays.
  abbrev pub then_delete : Run E → Run E
  then_delete ([], result) = (delete (is_ok w.delete_result) ∷ [], result)
  then_delete (command ∷ commands, result) = cons command (then_delete (commands, result))

  abbrev pub after_add : Result (Unit {0}) E → Run E
  after_add (err e) = (add ∷ [], err e)
  after_add (ok _) = cons add (then_delete configure_activate_and_monitor)

  abbrev pub after_status : Result (Unit {0}) E → Run E
  after_status (err e) = (status ∷ [], err e)
  after_status (ok _) = cons status (after_add w.add_result)

  abbrev pub after_wait : TapWait E → Run E
  after_wait (no_ip e) = ([], err e)
  after_wait cancelled = ([], ok tt)
  after_wait found = if w.cancelled_after_wait then ([], ok tt) else after_status w.status_result

  unfoldable pub run : Run E
  unfolding configure_activate_and_monitor
  run = after_wait w.tap
