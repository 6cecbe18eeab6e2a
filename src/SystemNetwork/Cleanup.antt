-- ===== src/SystemNetwork/Cleanup.antt =====
-- host/src/system_network.rs: the commands of `run` that make and remove the temporary profile.
use lamella.Base.{
  Bool, true, false, Option, none, some, List, [], ◌∷◌, Result, ok, err, ◌≡◌, ◌⊎◌, inl, inr, refl,
  if◌then◌else◌,
}
use lamella.SystemNetwork.{
  Command, status, add, modify, up, show, route_get, delete, TapWait, found, no_ip, cancelled, Run,
  show_details, is_ok, activate, cons, configure, World, configure_activate_and_monitor,
  then_delete, after_add, after_status, after_wait, run,
}

-- A run of commands that ends with the removal of the profile, tried only then, which has succeeded
-- or not.
abbrev pub EndsWithDelete : Bool → List Command → Type 0
EndsWithDelete removed [] = ⊥
EndsWithDelete removed (delete b ∷ rest) = (b ≡ removed) × (rest ≡ [])
EndsWithDelete removed (status ∷ rest) = EndsWithDelete removed rest
EndsWithDelete removed (add ∷ rest) = EndsWithDelete removed rest
EndsWithDelete removed (modify ∷ rest) = EndsWithDelete removed rest
EndsWithDelete removed (up ∷ rest) = EndsWithDelete removed rest
EndsWithDelete removed (show ∷ rest) = EndsWithDelete removed rest
EndsWithDelete removed (route_get ∷ rest) = EndsWithDelete removed rest

-- `add` and `delete` are not among the commands.
abbrev pub Untouched : List Command → Type 0
Untouched [] = Unit
Untouched (add ∷ rest) = ⊥
Untouched (delete b ∷ rest) = ⊥
Untouched (status ∷ rest) = Untouched rest
Untouched (modify ∷ rest) = Untouched rest
Untouched (up ∷ rest) = Untouched rest
Untouched (show ∷ rest) = Untouched rest
Untouched (route_get ∷ rest) = Untouched rest

module _ {E : Type 0} (w : World E) where
  -- What a run of commands comes to: no profile was made, or it was made and is removed.
  abbrev pub Cleaned : Run E → Type 0
  Cleaned r =
      Untouched r.0
      ⊎ ((e : E) × (w.add_result ≡ err e) × (r.0 ≡ status ∷ add ∷ []) × (r.1 ≡ err e))
      ⊎ ((w.add_result ≡ ok tt)
          × EndsWithDelete (is_ok w w.delete_result) r.0
          × (r.1 ≡ (configure_activate_and_monitor w).1))

  show-Untouched : (r : Result (Unit {0}) E) → Untouched (show_details w r).0
  show-Untouched (err e) = tt
  show-Untouched (ok x) = tt

  activate-Untouched : (a : Option (Result (Unit {0}) E)) → Untouched (activate w a).0
  activate-Untouched none = tt
  activate-Untouched (some (err e)) = tt
  activate-Untouched (some (ok x)) = show-Untouched w.show_result

  configure-Untouched : (r : Result (Unit {0}) E) → Untouched (configure w r).0
  configure-Untouched (err e) = tt
  configure-Untouched (ok x) = activate-Untouched w.activation

  then_delete-result :
      (commands : List Command) (r : Result (Unit {0}) E) → (then_delete w (commands, r)).1 ≡ r
  then_delete-result [] r = refl
  then_delete-result (c ∷ rest) r = then_delete-result rest r

  then_delete-EndsWithDelete :
      (commands : List Command) (r : Result (Unit {0}) E)
      → Untouched commands
      → EndsWithDelete (is_ok w w.delete_result) (then_delete w (commands, r)).0
  then_delete-EndsWithDelete [] r u = (refl, refl)
  then_delete-EndsWithDelete (status ∷ rest) r u = then_delete-EndsWithDelete rest r u
  then_delete-EndsWithDelete (modify ∷ rest) r u = then_delete-EndsWithDelete rest r u
  then_delete-EndsWithDelete (up ∷ rest) r u = then_delete-EndsWithDelete rest r u
  then_delete-EndsWithDelete (show ∷ rest) r u = then_delete-EndsWithDelete rest r u
  then_delete-EndsWithDelete (route_get ∷ rest) r u = then_delete-EndsWithDelete rest r u
  then_delete-EndsWithDelete (add ∷ rest) r u = elim u [ ]
  then_delete-EndsWithDelete (delete b ∷ rest) r u = elim u [ ]

  after_add-Cleaned :
      (r : Result (Unit {0}) E) → w.add_result ≡ r → Cleaned (cons w status (after_add w r))
  unfolding configure_activate_and_monitor
  after_add-Cleaned (err e) failed = inr (inl (e, failed, refl, refl))
  after_add-Cleaned (ok tt) added =
      let c = configure w w.modify_result in
      inr (
        inr (
          added,
          then_delete-EndsWithDelete c.0 c.1 (configure-Untouched w.modify_result),
          then_delete-result c.0 c.1,
        ))

  after_status-Cleaned : (r : Result (Unit {0}) E) → Cleaned (after_status w r)
  after_status-Cleaned (err e) = inl tt
  after_status-Cleaned (ok x) = after_add-Cleaned w.add_result refl

  after_wait-Cleaned : (t : TapWait E) → Cleaned (after_wait w t)
  after_wait-Cleaned (no_ip e) = inl tt
  after_wait-Cleaned cancelled = inl tt
  after_wait-Cleaned found =
      elim w.cancelled_after_wait
        as (λ b. Cleaned (if b then ([], ok tt) else after_status w w.status_result)) [
          | true ↦ inl tt
          | false ↦ after_status-Cleaned w.status_result
        ]

  -- Either no profile was made: no command added or deleted one, or adding it failed and that was
  -- the last command. Or it was added, and then, whatever failed or was cancelled after that, the
  -- last command of the run is the one that removes it, the only one; and the result is that of the
  -- configuration, also where the removal fails.
  pub run-Cleaned : Cleaned (run w)
  unfolding run
  run-Cleaned = after_wait-Cleaned w.tap
