-- ===== src/Bridge/Wait/Source.antt =====
-- host/src/bridge.rs: where the outcome of `await_endpoint_response` comes from.
use lamella.Base.{
  ℕ, ◌+◌, ◌≤◌, true, Option, none, some, [], ◌∷◌, ◌≡◌, ◌⊎◌, Result, ok, err, if◌then◌else◌, arith,
}
use lamella.Bridge.Wait.{
  EndpointWaitResult, completed, recovery_required, Response, endpoint_stall_log_interval,
  next_warning, primary_ready, backup_ready, warning_due, recovery_due, cancel_requested, Schedule,
  await_backup, await_primary, await_either, settle_primary, settle_backup,
  await_endpoint_response_with_timeouts,
}

-- One of the two requests ended with `r`.
abbrev pub Answered : {T E : Type 0} → Result T E → Schedule T E → Type 0
Answered r [] = ⊥
Answered r ((_, primary_ready r') ∷ rest) = (r ≡ r') ⊎ Answered r rest
Answered r ((_, backup_ready r') ∷ rest) = (r ≡ r') ⊎ Answered r rest
Answered r ((_, warning_due) ∷ rest) = Answered r rest
Answered r ((_, recovery_due) ∷ rest) = Answered r rest
Answered r ((_, cancel_requested) ∷ rest) = Answered r rest

-- The timeout is enabled, and `d` has reached it.
abbrev pub Expired : Option ℕ → ℕ → Type 0
Expired none d = ⊥
Expired (some duration) d = duration ≤ d

-- What an outcome promises about the schedule that led to it, and about the caller's state.
module _ {T E : Type 0} (recovery_timeout : Option ℕ) where
  module _ (w : EndpointWaitResult T E) where
    await_backup-Answered :
        (backup : Response) (warning : ℕ) (sch : Schedule T E)
        → await_backup recovery_timeout backup warning sch ≡ some (completed w)
        → (w.backup_sent ≡ true) × Answered w.result sch
    unfolding await_backup
    await_backup-Answered backup warning [] h = ground arith
    await_backup-Answered backup warning ((at, warning_due) ∷ rest) h =
        await_backup-Answered backup (next_warning warning at) rest h
    await_backup-Answered backup warning ((at, _) ∷ rest) h =
        ground (arith, await_backup-Answered backup warning rest)

    await_primary-Answered :
        (primary : Response) (warning : ℕ) (sch : Schedule T E)
        → await_primary recovery_timeout primary warning sch ≡ some (completed w)
        → (w.backup_sent ≡ true) × Answered w.result sch
    unfolding await_primary
    await_primary-Answered primary warning [] h = ground arith
    await_primary-Answered primary warning ((at, warning_due) ∷ rest) h =
        await_primary-Answered primary (next_warning warning at) rest h
    await_primary-Answered primary warning ((at, _) ∷ rest) h =
        ground (arith, await_primary-Answered primary warning rest)

    await_either-Answered :
        (primary backup : Response) (warning : ℕ) (sch : Schedule T E)
        → await_either recovery_timeout primary backup warning sch ≡ some (completed w)
        → (w.backup_sent ≡ true) × Answered w.result sch
    unfolding await_either settle_primary settle_backup
    await_either-Answered primary backup warning [] h = ground arith
    await_either-Answered primary backup warning ((at, primary_ready (ok v)) ∷ rest) h =
        ground (arith, await_either-Answered primary backup warning rest)
    await_either-Answered primary backup warning ((at, primary_ready (err e)) ∷ rest) h = ground (
      arith,
      await_backup-Answered backup warning rest,
      await_either-Answered primary backup warning rest,
    )
    await_either-Answered primary backup warning ((at, backup_ready (ok v)) ∷ rest) h =
        ground (arith, await_either-Answered primary backup warning rest)
    await_either-Answered primary backup warning ((at, backup_ready (err e)) ∷ rest) h = ground (
      arith,
      await_primary-Answered primary warning rest,
      await_either-Answered primary backup warning rest,
    )
    await_either-Answered primary backup warning ((at, warning_due) ∷ rest) h =
        await_either-Answered primary backup (next_warning warning at) rest h
    await_either-Answered primary backup warning ((at, _) ∷ rest) h =
        ground (arith, await_either-Answered primary backup warning rest)

    -- The result of a completed wait is the result of one of the requests, and the closure that
    -- makes the backup has run, once, exactly if the wait reports a backup.
    pub await-Answered {ℓ} :
        {S : Type ℓ} (primary : Response) (make_backup : S → S × Response) (threshold : ℕ)
        (sch : Schedule T E) (s : S)
        → (await_endpoint_response_with_timeouts primary make_backup threshold recovery_timeout sch
            s).1
          ≡ some (completed w)
        → Answered w.result sch
          × ((await_endpoint_response_with_timeouts primary make_backup threshold recovery_timeout
                sch s).0
              ≡ (if w.backup_sent then (make_backup s).0 else s))
    unfolding await_endpoint_response_with_timeouts
    await-Answered primary mk th [] s h = ground arith
    await-Answered primary mk th ((at, warning_due) ∷ rest) s h = ground (
      arith,
      await-Answered primary mk th rest s,
      await_either-Answered primary (mk s).1 (at + endpoint_stall_log_interval) rest,
    )
    await-Answered primary mk th ((at, _) ∷ rest) s h =
        ground (arith, await-Answered primary mk th rest s)

  module _ (d : ℕ) where
    await_backup-Expired :
        (backup : Response) (warning : ℕ) (sch : Schedule T E)
        → await_backup recovery_timeout backup warning sch ≡ some (recovery_required d)
        → Expired recovery_timeout d
    unfolding await_backup
    await_backup-Expired backup warning [] h = ground arith
    await_backup-Expired backup warning ((at, warning_due) ∷ rest) h =
        await_backup-Expired backup (next_warning warning at) rest h
    await_backup-Expired backup warning ((at, _) ∷ rest) h =
        ground (arith, await_backup-Expired backup warning rest)

    await_primary-Expired :
        (primary : Response) (warning : ℕ) (sch : Schedule T E)
        → await_primary recovery_timeout primary warning sch ≡ some (recovery_required d)
        → Expired recovery_timeout d
    unfolding await_primary
    await_primary-Expired primary warning [] h = ground arith
    await_primary-Expired primary warning ((at, warning_due) ∷ rest) h =
        await_primary-Expired primary (next_warning warning at) rest h
    await_primary-Expired primary warning ((at, _) ∷ rest) h =
        ground (arith, await_primary-Expired primary warning rest)

    await_either-Expired :
        (primary backup : Response) (warning : ℕ) (sch : Schedule T E)
        → await_either recovery_timeout primary backup warning sch ≡ some (recovery_required d)
        → Expired recovery_timeout d
    unfolding await_either settle_primary settle_backup
    await_either-Expired primary backup warning [] h = ground arith
    await_either-Expired primary backup warning ((at, primary_ready (err e)) ∷ rest) h = ground (
      arith,
      await_backup-Expired backup warning rest,
      await_either-Expired primary backup warning rest,
    )
    await_either-Expired primary backup warning ((at, primary_ready (ok v)) ∷ rest) h =
        ground (arith, await_either-Expired primary backup warning rest)
    await_either-Expired primary backup warning ((at, backup_ready (err e)) ∷ rest) h = ground (
      arith,
      await_primary-Expired primary warning rest,
      await_either-Expired primary backup warning rest,
    )
    await_either-Expired primary backup warning ((at, backup_ready (ok v)) ∷ rest) h =
        ground (arith, await_either-Expired primary backup warning rest)
    await_either-Expired primary backup warning ((at, warning_due) ∷ rest) h =
        await_either-Expired primary backup (next_warning warning at) rest h
    await_either-Expired primary backup warning ((at, _) ∷ rest) h =
        ground (arith, await_either-Expired primary backup warning rest)

    -- Recovery is required only where a recovery timeout is set, and not before it has passed. So a
    -- caller without a timeout never gets this outcome.
    pub await-Expired {ℓ} :
        {S : Type ℓ} (primary : Response) (make_backup : S → S × Response) (threshold : ℕ)
        (sch : Schedule T E) (s : S)
        → (await_endpoint_response_with_timeouts primary make_backup threshold recovery_timeout sch
            s).1
          ≡ some (recovery_required d)
        → Expired recovery_timeout d
    unfolding await_endpoint_response_with_timeouts
    await-Expired primary mk th [] s h = ground arith
    await-Expired primary mk th ((at, warning_due) ∷ rest) s h = ground (
      arith,
      await-Expired primary mk th rest s,
      await_either-Expired primary (mk s).1 (at + endpoint_stall_log_interval) rest,
    )
    await-Expired primary mk th ((at, _) ∷ rest) s h =
        ground (arith, await-Expired primary mk th rest s)

-- Whatever the outcome, the closure that makes the backup has run once or not at all.
pub await_once {ℓ} :
    {T E : Type 0} {S : Type ℓ} (primary : Response) (make_backup : S → S × Response)
    (threshold : ℕ) (recovery_timeout : Option ℕ) (sch : Schedule T E) (s : S)
    → ((await_endpoint_response_with_timeouts primary make_backup threshold recovery_timeout sch
          s).0
        ≡ s)
      ⊎ ((await_endpoint_response_with_timeouts primary make_backup threshold recovery_timeout sch
            s).0
          ≡ (make_backup s).0)
unfolding await_endpoint_response_with_timeouts
await_once primary mk th rt [] s = ground arith
await_once primary mk th rt ((at, warning_due) ∷ rest) s =
    ground (arith, await_once primary mk th rt rest s)
await_once primary mk th rt ((at, _) ∷ rest) s = ground (arith, await_once primary mk th rt rest s)
