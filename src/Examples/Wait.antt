-- ===== src/Examples/Wait.antt =====
-- Waits of host/src/bridge.rs: a late response, a lost one, and one that is given up.
use lamella.Base.{
  ℕ, ◌+◌, true, none, some, [], ◌∷◌, ◌++◌, ok, err, ◌≡◌, ◌≢◌, ◌⊎◌, inl, refl, arith, if◌then◌else◌,
}
use lamella.Bridge.Wait.{
  Schedule, Response, requested, EndpointWaitResult, completed, recovery_required, warning_due,
  recovery_due, primary_ready, backup_ready, await_either, await_backup, await_primary,
  settle_backup, settle_primary, await_endpoint_response_with_timeouts,
}
use lamella.Bridge.Wait.Outcome.{IsPrompt, IsLate, await-IsPrompt-or-IsLate}
use lamella.Bridge.Wait.Source.{Answered, await-Answered}
use lamella.Bridge.Wait.Progress.{result_of, await_ends, await_late}

-- The caller counts its backups.
abbrev make_backup : ℕ → ℕ × Response
make_backup n = (n + 1, requested)

-- The primary fails after the backup was sent; the backup answers.
abbrev schedule : Schedule ℕ ℕ
schedule = (250, warning_due) ∷ (260, primary_ready (err 4)) ∷ (300, backup_ready (ok 7)) ∷ []

abbrev outcome : EndpointWaitResult ℕ ℕ
outcome = record { result = ok 7; stalled_for = some 300; backup_sent = true; discarded_errors = 1 }

await_run :
    (await_endpoint_response_with_timeouts requested make_backup 250 none schedule 0).1
    ≡ some (completed outcome)
unfolding await_endpoint_response_with_timeouts await_either settle_primary await_backup
await_run = refl

await-IsPrompt-or-IsLate_example : IsPrompt outcome ⊎ IsLate 250 outcome
await-IsPrompt-or-IsLate_example =
    await-IsPrompt-or-IsLate requested make_backup 250 none schedule 0 0 outcome (omega arith)
      await_run

await-Answered_example :
    Answered outcome.result schedule
    × ((await_endpoint_response_with_timeouts requested make_backup 250 none schedule 0).0
        ≡ (if outcome.backup_sent then (make_backup 0).0 else 0))
await-Answered_example = await-Answered none outcome requested make_backup 250 schedule 0 await_run

-- Both requests are lost.
abbrev lost : Schedule ℕ ℕ
lost = (250, warning_due) ∷ (700, recovery_due) ∷ []

await_lost_run :
    (await_endpoint_response_with_timeouts requested make_backup 250 (some 650) lost 0).1
    ≡ some (recovery_required 700)
unfolding await_endpoint_response_with_timeouts await_either settle_primary await_backup
await_lost_run = refl

await_ends_example :
    (await_endpoint_response_with_timeouts requested make_backup 250 (some 650) lost 0).1 ≢ none
await_ends_example = await_ends 650 requested make_backup 250 lost 0 (inl (omega arith))

-- The backup is sent and fails.
abbrev warnings : Schedule ℕ ℕ
warnings = (250, warning_due) ∷ (260, backup_ready (err 4)) ∷ (5000000, warning_due) ∷ []

await_late_example :
    result_of
      (await_endpoint_response_with_timeouts requested make_backup 250 none
        (warnings ++ (6000000, primary_ready (ok 3)) ∷ [])
        0).1
    ≡ some (ok 3)
unfolding await_endpoint_response_with_timeouts await_either settle_backup await_primary
await_late_example = await_late none 3 6000000 [] make_backup 250 warnings 0 tt refl
