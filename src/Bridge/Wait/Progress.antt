-- ===== src/Bridge/Wait/Progress.antt =====
-- host/src/bridge.rs: when `await_endpoint_response` ends, and late responses.
use lamella.Base.{
  ℕ, ◌+◌, ◌≤◌, Option, none, some, [], ◌∷◌, ◌++◌, ◌≡◌, refl, ◌≢◌, ◌⊎◌, Result, ok, err, arith,
}
use lamella.Bridge.Wait.{
  EndpointWaitOutcome, completed, recovery_required, cancelled, Response, requested,
  endpoint_stall_log_interval, next_warning, primary_ready, backup_ready, warning_due, recovery_due,
  cancel_requested, Schedule, await_backup, await_primary, await_either, settle_primary,
  settle_backup, await_endpoint_response_with_timeouts,
}

-- The recovery timer fires, at `duration` or later.
abbrev pub RecoveryFires : {T E : Type 0} → ℕ → Schedule T E → Type 0
RecoveryFires duration [] = ⊥
RecoveryFires duration ((at, recovery_due) ∷ rest) = (duration ≤ at) ⊎ RecoveryFires duration rest
RecoveryFires duration ((_, primary_ready _) ∷ rest) = RecoveryFires duration rest
RecoveryFires duration ((_, backup_ready _) ∷ rest) = RecoveryFires duration rest
RecoveryFires duration ((_, warning_due) ∷ rest) = RecoveryFires duration rest
RecoveryFires duration ((_, cancel_requested) ∷ rest) = RecoveryFires duration rest

module _ {T E : Type 0} (duration : ℕ) where
  await_backup_ends :
      (backup : Response) (warning : ℕ) (sch : Schedule T E)
      → RecoveryFires duration sch
      → await_backup (some duration) backup warning sch ≢ none
  unfolding await_backup
  await_backup_ends backup warning [] h e = h
  await_backup_ends backup warning ((at, warning_due) ∷ rest) h e =
      await_backup_ends backup (next_warning warning at) rest h e
  await_backup_ends backup warning ((at, _) ∷ rest) h e =
      ground (arith, await_backup_ends backup warning rest)

  await_primary_ends :
      (primary : Response) (warning : ℕ) (sch : Schedule T E)
      → RecoveryFires duration sch
      → await_primary (some duration) primary warning sch ≢ none
  unfolding await_primary
  await_primary_ends primary warning [] h e = h
  await_primary_ends primary warning ((at, warning_due) ∷ rest) h e =
      await_primary_ends primary (next_warning warning at) rest h e
  await_primary_ends primary warning ((at, _) ∷ rest) h e =
      ground (arith, await_primary_ends primary warning rest)

  await_either_ends :
      (primary backup : Response) (warning : ℕ) (sch : Schedule T E)
      → RecoveryFires duration sch
      → await_either (some duration) primary backup warning sch ≢ none
  unfolding await_either settle_primary settle_backup
  await_either_ends primary backup warning [] h e = h
  await_either_ends primary backup warning ((at, primary_ready (err x)) ∷ rest) h e =
      ground (
        arith,
        await_backup_ends backup warning rest,
        await_either_ends primary backup warning rest,
      )
  await_either_ends primary backup warning ((at, primary_ready (ok v)) ∷ rest) h e =
      ground (arith, await_either_ends primary backup warning rest)
  await_either_ends primary backup warning ((at, backup_ready (err x)) ∷ rest) h e = ground (
    arith,
    await_primary_ends primary warning rest,
    await_either_ends primary backup warning rest,
  )
  await_either_ends primary backup warning ((at, backup_ready (ok v)) ∷ rest) h e =
      ground (arith, await_either_ends primary backup warning rest)
  await_either_ends primary backup warning ((at, warning_due) ∷ rest) h e =
      await_either_ends primary backup (next_warning warning at) rest h e
  await_either_ends primary backup warning ((at, _) ∷ rest) h e =
      ground (arith, await_either_ends primary backup warning rest)

  -- With a recovery timeout, the wait is over by the time that the timer fires, whatever is lost.
  pub await_ends {ℓ} :
      {S : Type ℓ} (primary : Response) (make_backup : S → S × Response) (threshold : ℕ)
      (sch : Schedule T E) (s : S)
      → RecoveryFires duration sch
      → (await_endpoint_response_with_timeouts primary make_backup threshold
          (some duration)
          sch
          s).1
        ≢ none
  unfolding await_endpoint_response_with_timeouts
  await_ends primary mk th [] s h e = h
  await_ends primary mk th ((at, warning_due) ∷ rest) s h e = ground (
    arith,
    await_ends primary mk th rest s,
    await_either_ends primary (mk s).1 (at + endpoint_stall_log_interval) rest,
  )
  await_ends primary mk th ((at, _) ∷ rest) s h e = ground (arith, await_ends primary mk th rest s)

-- The first request does not end.
abbrev pub NoPrimary : {T E : Type 0} → Schedule T E → Type 0
NoPrimary [] = Unit
NoPrimary ((_, primary_ready _) ∷ rest) = ⊥
NoPrimary ((_, backup_ready _) ∷ rest) = NoPrimary rest
NoPrimary ((_, warning_due) ∷ rest) = NoPrimary rest
NoPrimary ((_, recovery_due) ∷ rest) = NoPrimary rest
NoPrimary ((_, cancel_requested) ∷ rest) = NoPrimary rest

-- The result with which a wait completed.
abbrev pub result_of : {T E : Type 0} → Option (EndpointWaitOutcome T E) → Option (Result T E)
result_of none = none
result_of (some (completed w)) = some w.result
result_of (some (recovery_required _)) = none
result_of (some cancelled) = none

module _ {T E : Type 0} (recovery_timeout : Option ℕ) (v : T) (at : ℕ) (rest : Schedule T E) where
  await_primary_late :
      (warning : ℕ) (sch : Schedule T E)
      → NoPrimary sch
      → await_primary recovery_timeout requested warning sch ≡ none
      → result_of (
          await_primary recovery_timeout requested warning
            (sch ++ (at, primary_ready (ok v)) ∷ rest))
        ≡ some (ok v)
  unfolding await_primary
  await_primary_late warning [] n w = refl
  await_primary_late warning ((t, primary_ready _) ∷ sch) n w = absurd n
  await_primary_late warning ((t, backup_ready _) ∷ sch) n w = await_primary_late warning sch n w
  await_primary_late warning ((t, warning_due) ∷ sch) n w =
      await_primary_late (next_warning warning t) sch n w
  await_primary_late warning ((t, recovery_due) ∷ sch) n w =
      ground (arith, await_primary_late warning sch n)
  await_primary_late warning ((t, cancel_requested) ∷ sch) n w = cc

  await_either_late :
      (backup : Response) (warning : ℕ) (sch : Schedule T E)
      → NoPrimary sch
      → await_either recovery_timeout requested backup warning sch ≡ none
      → result_of (
          await_either recovery_timeout requested backup warning
            (sch ++ (at, primary_ready (ok v)) ∷ rest))
        ≡ some (ok v)
  unfolding await_either settle_primary settle_backup
  await_either_late backup warning [] n w = refl
  await_either_late backup warning ((t, primary_ready _) ∷ sch) n w = absurd n
  await_either_late backup warning ((t, backup_ready (err e)) ∷ sch) n w =
      ground (arith, await_primary_late warning sch n, await_either_late backup warning sch n)
  await_either_late backup warning ((t, backup_ready (ok x)) ∷ sch) n w =
      ground (arith, await_either_late backup warning sch n)
  await_either_late backup warning ((t, warning_due) ∷ sch) n w =
      await_either_late backup (next_warning warning t) sch n w
  await_either_late backup warning ((t, recovery_due) ∷ sch) n w =
      ground (arith, await_either_late backup warning sch n)
  await_either_late backup warning ((t, cancel_requested) ∷ sch) n w = cc

  -- A response to the first request is delivered however late it comes, if the wait is not over
  -- before, and the first request has not ended before: after any number of warnings, and whether the
  -- backup has been sent, has failed, or is under way.
  pub await_late {ℓ} :
      {S : Type ℓ} (make_backup : S → S × Response) (threshold : ℕ) (sch : Schedule T E) (s : S)
      → NoPrimary sch
      → (await_endpoint_response_with_timeouts requested make_backup threshold recovery_timeout sch
          s).1
        ≡ none
      → result_of
          (await_endpoint_response_with_timeouts requested make_backup threshold recovery_timeout
            (sch ++ (at, primary_ready (ok v)) ∷ rest)
            s).1
        ≡ some (ok v)
  unfolding await_endpoint_response_with_timeouts
  await_late mk th [] s n w = refl
  await_late mk th ((t, primary_ready _) ∷ sch) s n w = absurd n
  await_late mk th ((t, backup_ready _) ∷ sch) s n w = await_late mk th sch s n w
  await_late mk th ((t, warning_due) ∷ sch) s n w = ground (
    arith,
    await_late mk th sch s n,
    await_either_late (mk s).1 (t + endpoint_stall_log_interval) sch n,
  )
  await_late mk th ((t, recovery_due) ∷ sch) s n w = ground (arith, await_late mk th sch s n)
  await_late mk th ((t, cancel_requested) ∷ sch) s n w = cc
