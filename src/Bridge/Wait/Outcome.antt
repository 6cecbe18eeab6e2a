-- ===== src/Bridge/Wait/Outcome.antt =====
-- host/src/bridge.rs: what `await_endpoint_response` tells its caller about the wait.
use lamella.Base.{
  ℕ, ◌+◌, ◌≤◌, true, false, Option, none, some, [], ◌∷◌, ◌≡◌, ◌⊎◌, Result, ok, err, arith,
}
use lamella.Bridge.Wait.{
  EndpointWaitResult, completed, Response, endpoint_stall_log_interval, next_warning, primary_ready,
  backup_ready, warning_due, Schedule, await_backup, await_primary, await_either, settle_primary,
  settle_backup, await_endpoint_response_with_timeouts,
}

-- The clock does not run backwards.
abbrev pub IsOrdered : {T E : Type 0} → ℕ → Schedule T E → Type 0
IsOrdered from [] = Unit
IsOrdered from ((at, _) ∷ rest) = (from ≤ at) × IsOrdered at rest

-- A duration is known, and at least `least`.
abbrev pub LastsAtLeast : ℕ → Option ℕ → Type 0
LastsAtLeast least none = ⊥
LastsAtLeast least (some t) = least ≤ t

-- An error is the result only if the other request's error was discarded.
abbrev pub BothFailed : {T E : Type 0} → Result T E → ℕ → Type 0
BothFailed (ok v) discarded = Unit
BothFailed (err e) discarded = discarded ≡ 1

module _ {T E : Type 0} where
  -- A result that came after the backup was sent, at `threshold` or later.
  pub record IsLate (threshold : ℕ) (w : EndpointWaitResult T E) : Type 0 where
    pub sent : w.backup_sent ≡ true
    pub stalled : LastsAtLeast threshold w.stalled_for
    pub one_error : w.discarded_errors ≤ 1
    pub both_failed : BothFailed w.result w.discarded_errors

  module _ (recovery_timeout : Option ℕ) (threshold : ℕ) (w : EndpointWaitResult T E) where
    await_backup-IsLate :
        (backup : Response) (warning from : ℕ) (sch : Schedule T E)
        → threshold ≤ from
        → IsOrdered from sch
        → await_backup recovery_timeout backup warning sch ≡ some (completed w)
        → IsLate threshold w
    unfolding await_backup
    await_backup-IsLate backup warning from [] le o h = ground arith
    await_backup-IsLate backup warning from ((at, backup_ready r) ∷ rest) le o h =
        ground (arith, await_backup-IsLate backup warning at rest)
    await_backup-IsLate backup warning from ((at, warning_due) ∷ rest) le o h =
        await_backup-IsLate backup (next_warning warning at) at rest (omega arith) o.1 h
    await_backup-IsLate backup warning from ((at, _) ∷ rest) le o h =
        ground (arith, await_backup-IsLate backup warning at rest)

    await_primary-IsLate :
        (primary : Response) (warning from : ℕ) (sch : Schedule T E)
        → threshold ≤ from
        → IsOrdered from sch
        → await_primary recovery_timeout primary warning sch ≡ some (completed w)
        → IsLate threshold w
    unfolding await_primary
    await_primary-IsLate primary warning from [] le o h = ground arith
    await_primary-IsLate primary warning from ((at, primary_ready r) ∷ rest) le o h =
        ground (arith, await_primary-IsLate primary warning at rest)
    await_primary-IsLate primary warning from ((at, warning_due) ∷ rest) le o h =
        await_primary-IsLate primary (next_warning warning at) at rest (omega arith) o.1 h
    await_primary-IsLate primary warning from ((at, _) ∷ rest) le o h =
        ground (arith, await_primary-IsLate primary warning at rest)

    settle_primary-IsLate :
        (backup : Response) (warning at : ℕ) (r : Result T E) (sch : Schedule T E)
        → threshold ≤ at
        → IsOrdered at sch
        → settle_primary recovery_timeout backup warning at r sch ≡ some (completed w)
        → IsLate threshold w
    unfolding settle_primary
    settle_primary-IsLate backup warning at (ok v) sch le o h = ground arith
    settle_primary-IsLate backup warning at (err e) sch le o h =
        await_backup-IsLate backup warning at sch le o h

    settle_backup-IsLate :
        (primary : Response) (warning at : ℕ) (r : Result T E) (sch : Schedule T E)
        → threshold ≤ at
        → IsOrdered at sch
        → settle_backup recovery_timeout primary warning at r sch ≡ some (completed w)
        → IsLate threshold w
    unfolding settle_backup
    settle_backup-IsLate primary warning at (ok v) sch le o h = ground arith
    settle_backup-IsLate primary warning at (err e) sch le o h =
        await_primary-IsLate primary warning at sch le o h

    pub await_either-IsLate :
        (primary backup : Response) (warning from : ℕ) (sch : Schedule T E)
        → threshold ≤ from
        → IsOrdered from sch
        → await_either recovery_timeout primary backup warning sch ≡ some (completed w)
        → IsLate threshold w
    unfolding await_either
    await_either-IsLate primary backup warning from [] le o h = ground arith
    await_either-IsLate primary backup warning from ((at, primary_ready r) ∷ rest) le o h = ground (
      arith,
      settle_primary-IsLate backup warning at r rest,
      await_either-IsLate primary backup warning at rest,
    )
    await_either-IsLate primary backup warning from ((at, backup_ready r) ∷ rest) le o h = ground (
      arith,
      settle_backup-IsLate primary warning at r rest,
      await_either-IsLate primary backup warning at rest,
    )
    await_either-IsLate primary backup warning from ((at, warning_due) ∷ rest) le o h =
        await_either-IsLate primary backup (next_warning warning at) at rest (omega arith) o.1 h
    await_either-IsLate primary backup warning from ((at, _) ∷ rest) le o h =
        ground (arith, await_either-IsLate primary backup warning at rest)

  -- A result that came before the stall threshold's warning.
  pub record IsPrompt (w : EndpointWaitResult T E) : Type 0 where
    pub unsent : w.backup_sent ≡ false
    pub unstalled : w.stalled_for ≡ none
    pub no_error : w.discarded_errors ≡ 0

  -- A completed wait is of one of two kinds. Either no backup was sent, no stall is reported and no
  -- error was discarded; or the backup was sent, the stall reported lasted at least the threshold,
  -- at most one error was discarded, and the result is an error only if the other request failed too.
  pub await-IsPrompt-or-IsLate {ℓ} :
      {S : Type ℓ} (primary : Response) (make_backup : S → S × Response) (threshold : ℕ)
      (recovery_timeout : Option ℕ) (sch : Schedule T E) (s : S) (from : ℕ)
      (w : EndpointWaitResult T E)
      → IsOrdered from sch
      → (await_endpoint_response_with_timeouts primary make_backup threshold recovery_timeout sch
          s).1
        ≡ some (completed w)
      → IsPrompt w ⊎ IsLate threshold w
  unfolding await_endpoint_response_with_timeouts
  await-IsPrompt-or-IsLate primary mk th rt [] s from w o h = ground arith
  await-IsPrompt-or-IsLate primary mk th rt ((at, primary_ready r) ∷ rest) s from w o h =
      ground (arith, await-IsPrompt-or-IsLate primary mk th rt rest s at w)
  await-IsPrompt-or-IsLate primary mk th rt ((at, warning_due) ∷ rest) s from w o h = ground (
    arith,
    await-IsPrompt-or-IsLate primary mk th rt rest s at w,
    await_either-IsLate rt th w primary (mk s).1 (at + endpoint_stall_log_interval) at rest,
  )
  await-IsPrompt-or-IsLate primary mk th rt ((at, _) ∷ rest) s from w o h =
      ground (arith, await-IsPrompt-or-IsLate primary mk th rt rest s at w)
