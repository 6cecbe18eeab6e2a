-- ===== src/Bridge/Wait/Last.antt =====
-- host/src/bridge.rs: the wake that ends `await_endpoint_response`.
use lamella.Base.{ℕ, ◌+◌, Option, none, some, [], ◌∷◌, ◌++◌, ◌≡◌, Result, ok, err, arith}
use lamella.Bridge.Wait.{
  EndpointWaitResult, completed, Response, endpoint_stall_log_interval, next_warning, Wake,
  primary_ready, backup_ready, warning_due, recovery_due, cancel_requested, Schedule, await_backup,
  await_primary, await_either, settle_primary, settle_backup, await_endpoint_response_with_timeouts,
}

-- The wake is the end of a request, with `r`.
abbrev pub IsReady : {T E : Type 0} → Result T E → Wake T E → Type 0
IsReady r (primary_ready r') = r ≡ r'
IsReady r (backup_ready r') = r ≡ r'
IsReady r warning_due = ⊥
IsReady r recovery_due = ⊥
IsReady r cancel_requested = ⊥

-- What a wait completes with is what the wake has brought that ended it.
module _ {T E : Type 0} (recovery_timeout : Option ℕ) (w : EndpointWaitResult T E) (now : ℕ) where
  await_backup-one :
      (backup : Response) (warning : ℕ) (last : Wake T E)
      → await_backup recovery_timeout backup warning ((now, last) ∷ []) ≡ some (completed w)
      → IsReady w.result last
  unfolding await_backup
  await_backup-one backup warning (primary_ready r) h = ground arith
  await_backup-one backup warning (backup_ready r) h = ground arith
  await_backup-one backup warning warning_due h = ground arith
  await_backup-one backup warning recovery_due h = ground arith
  await_backup-one backup warning cancel_requested h = ground arith

  await_primary-one :
      (primary : Response) (warning : ℕ) (last : Wake T E)
      → await_primary recovery_timeout primary warning ((now, last) ∷ []) ≡ some (completed w)
      → IsReady w.result last
  unfolding await_primary
  await_primary-one primary warning (primary_ready r) h = ground arith
  await_primary-one primary warning (backup_ready r) h = ground arith
  await_primary-one primary warning warning_due h = ground arith
  await_primary-one primary warning recovery_due h = ground arith
  await_primary-one primary warning cancel_requested h = ground arith

  await_either-one :
      (primary backup : Response) (warning : ℕ) (last : Wake T E)
      → await_either recovery_timeout primary backup warning ((now, last) ∷ []) ≡ some (completed w)
      → IsReady w.result last
  unfolding await_either settle_primary settle_backup await_backup await_primary
  await_either-one primary backup warning (primary_ready (ok r)) h = ground arith
  await_either-one primary backup warning (primary_ready (err e)) h = ground arith
  await_either-one primary backup warning (backup_ready (ok r)) h = ground arith
  await_either-one primary backup warning (backup_ready (err e)) h = ground arith
  await_either-one primary backup warning warning_due h = ground arith
  await_either-one primary backup warning recovery_due h = ground arith
  await_either-one primary backup warning cancel_requested h = ground arith

  module _ (last : Wake T E) where
    await_backup-last :
        (backup : Response) (warning : ℕ) (sch : Schedule T E)
        → await_backup recovery_timeout backup warning sch ≡ none
        → await_backup recovery_timeout backup warning (sch ++ (now, last) ∷ [])
          ≡ some (completed w)
        → IsReady w.result last
    unfolding await_backup
    await_backup-last backup warning [] n h = await_backup-one backup warning last h
    await_backup-last backup warning ((at, warning_due) ∷ rest) n h =
        await_backup-last backup (next_warning warning at) rest n h
    await_backup-last backup warning ((at, _) ∷ rest) n h =
        ground (arith, await_backup-last backup warning rest)

    await_primary-last :
        (primary : Response) (warning : ℕ) (sch : Schedule T E)
        → await_primary recovery_timeout primary warning sch ≡ none
        → await_primary recovery_timeout primary warning (sch ++ (now, last) ∷ [])
          ≡ some (completed w)
        → IsReady w.result last
    unfolding await_primary
    await_primary-last primary warning [] n h = await_primary-one primary warning last h
    await_primary-last primary warning ((at, warning_due) ∷ rest) n h =
        await_primary-last primary (next_warning warning at) rest n h
    await_primary-last primary warning ((at, _) ∷ rest) n h =
        ground (arith, await_primary-last primary warning rest)

    await_either-last :
        (primary backup : Response) (warning : ℕ) (sch : Schedule T E)
        → await_either recovery_timeout primary backup warning sch ≡ none
        → await_either recovery_timeout primary backup warning (sch ++ (now, last) ∷ [])
          ≡ some (completed w)
        → IsReady w.result last
    unfolding await_either settle_primary settle_backup
    await_either-last primary backup warning [] n h = await_either-one primary backup warning last h
    await_either-last primary backup warning ((at, primary_ready (ok v)) ∷ rest) n h =
        ground (arith, await_either-last primary backup warning rest)
    await_either-last primary backup warning ((at, primary_ready (err e)) ∷ rest) n h = ground (
      arith,
      await_backup-last backup warning rest,
      await_either-last primary backup warning rest,
    )
    await_either-last primary backup warning ((at, backup_ready (ok v)) ∷ rest) n h =
        ground (arith, await_either-last primary backup warning rest)
    await_either-last primary backup warning ((at, backup_ready (err e)) ∷ rest) n h = ground (
      arith,
      await_primary-last primary warning rest,
      await_either-last primary backup warning rest,
    )
    await_either-last primary backup warning ((at, warning_due) ∷ rest) n h =
        await_either-last primary backup (next_warning warning at) rest n h
    await_either-last primary backup warning ((at, _) ∷ rest) n h =
        ground (arith, await_either-last primary backup warning rest)

  await-one {ℓ} :
      {S : Type ℓ} (primary : Response) (make_backup : S → S × Response) (threshold : ℕ)
      (last : Wake T E) (s : S)
      → (await_endpoint_response_with_timeouts primary make_backup threshold recovery_timeout
          ((now, last) ∷ [])
          s).1
        ≡ some (completed w)
      → IsReady w.result last
  unfolding await_endpoint_response_with_timeouts await_either
  await-one primary mk th (primary_ready r) s h = ground arith
  await-one primary mk th (backup_ready r) s h = ground arith
  await-one primary mk th warning_due s h = ground arith
  await-one primary mk th recovery_due s h = ground arith
  await-one primary mk th cancel_requested s h = ground arith

  -- A wait that is not over before its last wake, and is completed by it, has that wake's result.
  pub await-last {ℓ} :
      {S : Type ℓ} (primary : Response) (make_backup : S → S × Response) (threshold : ℕ)
      (last : Wake T E) (sch : Schedule T E) (s : S)
      → (await_endpoint_response_with_timeouts primary make_backup threshold recovery_timeout sch
          s).1
        ≡ none
      → (await_endpoint_response_with_timeouts primary make_backup threshold recovery_timeout
          (sch ++ (now, last) ∷ [])
          s).1
        ≡ some (completed w)
      → IsReady w.result last
  unfolding await_endpoint_response_with_timeouts
  await-last primary mk th last [] s n h = await-one primary mk th last s h
  await-last primary mk th last ((at, warning_due) ∷ rest) s n h = ground (
    arith,
    await-last primary mk th last rest s,
    await_either-last last primary (mk s).1 (at + endpoint_stall_log_interval) rest,
  )
  await-last primary mk th last ((at, _) ∷ rest) s n h =
      ground (arith, await-last primary mk th last rest s)
