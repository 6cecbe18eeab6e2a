-- ===== src/Bridge/Wait/Backup.antt =====
-- host/src/bridge.rs: `await_endpoint_response` and the response to its backup request.
use lamella.Base.{
  ℕ, ◌+◌, true, Option, none, some, [], ◌∷◌, ◌++◌, ◌≡◌, refl, ◌⊎◌, inl, inr, ok, err, arith, leb,
}
use lamella.Bridge.Wait.{
  Response, requested, endpoint_stall_log_interval, next_warning, primary_ready, backup_ready,
  warning_due, recovery_due, cancel_requested, Schedule, await_backup, await_either, settle_primary,
  settle_backup, await_endpoint_response_with_timeouts,
}
use lamella.Bridge.Wait.Progress.{result_of}

-- The backup does not end.
abbrev pub NoBackup : {T E : Type 0} → Schedule T E → Type 0
NoBackup [] = Unit
NoBackup ((_, backup_ready _) ∷ rest) = ⊥
NoBackup ((_, primary_ready _) ∷ rest) = NoBackup rest
NoBackup ((_, warning_due) ∷ rest) = NoBackup rest
NoBackup ((_, recovery_due) ∷ rest) = NoBackup rest
NoBackup ((_, cancel_requested) ∷ rest) = NoBackup rest

-- The threshold passes.
abbrev pub Stalls : {T E : Type 0} → ℕ → Schedule T E → Type 0
Stalls threshold [] = ⊥
Stalls threshold ((at, warning_due) ∷ rest) = (leb threshold at ≡ true) ⊎ Stalls threshold rest
Stalls threshold ((_, backup_ready _) ∷ rest) = Stalls threshold rest
Stalls threshold ((_, primary_ready _) ∷ rest) = Stalls threshold rest
Stalls threshold ((_, recovery_due) ∷ rest) = Stalls threshold rest
Stalls threshold ((_, cancel_requested) ∷ rest) = Stalls threshold rest

module _ {T E : Type 0} (recovery_timeout : Option ℕ) (v : T) (at : ℕ) (rest : Schedule T E) where
  await_backup_arrives :
      (warning : ℕ) (sch : Schedule T E)
      → NoBackup sch
      → await_backup recovery_timeout requested warning sch ≡ none
      → result_of (
          await_backup recovery_timeout requested warning (sch ++ (at, backup_ready (ok v)) ∷ rest))
        ≡ some (ok v)
  unfolding await_backup
  await_backup_arrives warning [] n w = refl
  await_backup_arrives warning ((t, backup_ready _) ∷ sch) n w = absurd n
  await_backup_arrives warning ((t, primary_ready _) ∷ sch) n w =
      await_backup_arrives warning sch n w
  await_backup_arrives warning ((t, warning_due) ∷ sch) n w =
      await_backup_arrives (next_warning warning t) sch n w
  await_backup_arrives warning ((t, recovery_due) ∷ sch) n w =
      ground (arith, await_backup_arrives warning sch n)
  await_backup_arrives warning ((t, cancel_requested) ∷ sch) n w = cc

  await_either_arrives :
      (primary : Response) (warning : ℕ) (sch : Schedule T E)
      → NoBackup sch
      → await_either recovery_timeout primary requested warning sch ≡ none
      → result_of (
          await_either recovery_timeout primary requested warning
            (sch ++ (at, backup_ready (ok v)) ∷ rest))
        ≡ some (ok v)
  unfolding await_either settle_primary settle_backup
  await_either_arrives primary warning [] n w = refl
  await_either_arrives primary warning ((t, backup_ready _) ∷ sch) n w = absurd n
  await_either_arrives primary warning ((t, primary_ready (err e)) ∷ sch) n w =
      ground (arith, await_backup_arrives warning sch n, await_either_arrives primary warning sch n)
  await_either_arrives primary warning ((t, primary_ready (ok x)) ∷ sch) n w =
      ground (arith, await_either_arrives primary warning sch n)
  await_either_arrives primary warning ((t, warning_due) ∷ sch) n w =
      await_either_arrives primary (next_warning warning t) sch n w
  await_either_arrives primary warning ((t, recovery_due) ∷ sch) n w =
      ground (arith, await_either_arrives primary warning sch n)
  await_either_arrives primary warning ((t, cancel_requested) ∷ sch) n w = cc

  -- Once the backup is under way, its first response is delivered if the wait is not over before.
  pub await-backup_arrives {ℓ} :
      {S : Type ℓ} (primary : Response) (make_backup : S → S × Response)
      (sends : (s : S) → (make_backup s).1 ≡ requested) (threshold : ℕ) (sch : Schedule T E) (s : S)
      → NoBackup sch
      → Stalls threshold sch
      → (await_endpoint_response_with_timeouts primary make_backup threshold recovery_timeout sch
          s).1
        ≡ none
      → result_of
          (await_endpoint_response_with_timeouts primary make_backup threshold recovery_timeout
            (sch ++ (at, backup_ready (ok v)) ∷ rest)
            s).1
        ≡ some (ok v)
  unfolding await_endpoint_response_with_timeouts
  await-backup_arrives p mk sends th [] s n late w = absurd late
  await-backup_arrives p mk sends th ((t, backup_ready _) ∷ sch) s n late w = absurd n
  await-backup_arrives p mk sends th ((t, primary_ready _) ∷ sch) s n late w =
      ground (arith, await-backup_arrives p mk sends th sch s n late)
  await-backup_arrives p mk sends th ((t, warning_due) ∷ sch) s n (inl late) w =
      ground (arith, sends s, late, await_either_arrives p (t + endpoint_stall_log_interval) sch n)
  await-backup_arrives p mk sends th ((t, warning_due) ∷ sch) s n (inr late) w = ground (
    arith,
    sends s,
    await-backup_arrives p mk sends th sch s n late,
    await_either_arrives p (t + endpoint_stall_log_interval) sch n,
  )
  await-backup_arrives p mk sends th ((t, recovery_due) ∷ sch) s n late w =
      ground (arith, await-backup_arrives p mk sends th sch s n late)
  await-backup_arrives p mk sends th ((t, cancel_requested) ∷ sch) s n late w = cc
