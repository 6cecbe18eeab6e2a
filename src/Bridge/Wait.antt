-- ===== src/Bridge/Wait.antt =====
-- host/src/bridge.rs: `await_endpoint_response`, which awaits one request with one backup.
-- What the tasks of the runtime do is a schedule: the branches of `select!` that become ready, in
-- the order in which they are taken, each with the time since the call. A branch that the current
-- `select!` does not name, a future that never completes and a timer before its deadline are passed
-- over. `none` means that the schedule has ended and the call still waits.
pub mod Outcome
pub mod Source
pub mod Last
pub mod Progress
pub mod Backup
use lamella.Base.{
  ℕ, ◌+◌, Bool, true, false, Option, none, some, List, [], ◌∷◌, leb, if◌then◌else◌, Result, ok, err,
}
use lamella.Duration.{from_millis, from_secs}

abbrev pub endpoint_stall_threshold : ℕ
endpoint_stall_threshold = from_millis 250

abbrev pub endpoint_stall_log_interval : ℕ
endpoint_stall_log_interval = from_secs 5

pub record EndpointWaitResult (T E : Type 0) : Type 0 where
  pub result : Result T E
  pub stalled_for : Option ℕ
  pub backup_sent : Bool
  pub discarded_errors : ℕ  -- u8

pub data EndpointWaitOutcome (T E : Type 0) : Type 0 where
  completed : EndpointWaitResult T E → EndpointWaitOutcome T E
  recovery_required : (stalled_for : ℕ) → EndpointWaitOutcome T E
  cancelled : EndpointWaitOutcome T E

-- A response future: a request under way, or `std::future::pending()`.
pub data Response : Type 0 where
  requested never : Response

abbrev pub can_complete : Response → Bool
can_complete requested = true
can_complete never = false

-- A branch of `select!` that becomes ready.
pub data Wake (T E : Type 0) : Type 0 where
  primary_ready : Result T E → Wake T E
  backup_ready : Result T E → Wake T E
  warning_due : Wake T E
  recovery_due : Wake T E
  cancel_requested : Wake T E

abbrev pub Schedule : Type 0 → Type 0 → Type 0
Schedule T E = List (ℕ × Wake T E)

-- `warning.as_mut().reset(..)`, when the timer has fired.
abbrev pub next_warning : ℕ → ℕ → ℕ
next_warning warning at = if leb warning at then at + endpoint_stall_log_interval else warning

-- `recovery_deadline`: without a timeout it is pending for ever.
abbrev pub recovery_is_due : Option ℕ → ℕ → Bool
recovery_is_due none at = false
recovery_is_due (some duration) at = leb duration at

module _ {T E : Type 0} (recovery_timeout : Option ℕ) where
  -- The loop after the primary has failed. `warning` is the deadline of the warning's timer.
  unfoldable pub await_backup : Response → ℕ → Schedule T E → Option (EndpointWaitOutcome T E)
  await_backup backup warning [] = none
  await_backup backup warning ((at, backup_ready result) ∷ rest) =
      let on = await_backup backup warning rest in
      if can_complete backup
      then some (
          completed (record {
            result = result;
            stalled_for = some at;
            backup_sent = true;
            discarded_errors = 1;
          }))
      else on
  await_backup backup warning ((at, recovery_due) ∷ rest) =
      let on = await_backup backup warning rest in
      if recovery_is_due recovery_timeout at then some (recovery_required at) else on
  await_backup backup warning ((at, warning_due) ∷ rest) =
      await_backup backup (next_warning warning at) rest
  await_backup backup warning ((at, cancel_requested) ∷ rest) = some cancelled
  await_backup backup warning ((at, primary_ready _) ∷ rest) = await_backup backup warning rest

  -- The loop after the backup has failed.
  unfoldable pub await_primary : Response → ℕ → Schedule T E → Option (EndpointWaitOutcome T E)
  await_primary primary warning [] = none
  await_primary primary warning ((at, primary_ready result) ∷ rest) =
      let on = await_primary primary warning rest in
      if can_complete primary
      then some (
          completed (record {
            result = result;
            stalled_for = some at;
            backup_sent = true;
            discarded_errors = 1;
          }))
      else on
  await_primary primary warning ((at, recovery_due) ∷ rest) =
      let on = await_primary primary warning rest in
      if recovery_is_due recovery_timeout at then some (recovery_required at) else on
  await_primary primary warning ((at, warning_due) ∷ rest) =
      await_primary primary (next_warning warning at) rest
  await_primary primary warning ((at, cancel_requested) ∷ rest) = some cancelled
  await_primary primary warning ((at, backup_ready _) ∷ rest) = await_primary primary warning rest

  -- What follows the first response of the two.
  unfoldable pub settle_primary :
      Response → ℕ → ℕ → Result T E → Schedule T E → Option (EndpointWaitOutcome T E)
  settle_primary backup warning at (ok response) rest = some (
      completed (record {
        result = ok response;
        stalled_for = some at;
        backup_sent = true;
        discarded_errors = 0;
      }))
  settle_primary backup warning at (err e) rest = await_backup backup warning rest

  unfoldable pub settle_backup :
      Response → ℕ → ℕ → Result T E → Schedule T E → Option (EndpointWaitOutcome T E)
  settle_backup primary warning at (ok response) rest = some (
      completed (record {
        result = ok response;
        stalled_for = some at;
        backup_sent = true;
        discarded_errors = 0;
      }))
  settle_backup primary warning at (err e) rest = await_primary primary warning rest

  -- The loop in which both requests are pending.
  unfoldable pub await_either :
      Response → Response → ℕ → Schedule T E → Option (EndpointWaitOutcome T E)
  await_either primary backup warning [] = none
  await_either primary backup warning ((at, primary_ready result) ∷ rest) =
      let on = await_either primary backup warning rest in
      if can_complete primary then settle_primary backup warning at result rest else on
  await_either primary backup warning ((at, backup_ready result) ∷ rest) =
      let on = await_either primary backup warning rest in
      if can_complete backup then settle_backup primary warning at result rest else on
  await_either primary backup warning ((at, recovery_due) ∷ rest) =
      let on = await_either primary backup warning rest in
      if recovery_is_due recovery_timeout at then some (recovery_required at) else on
  await_either primary backup warning ((at, warning_due) ∷ rest) =
      await_either primary backup (next_warning warning at) rest
  await_either primary backup warning ((at, cancel_requested) ∷ rest) = some cancelled

-- The first `select!`, and what follows. `make_backup` may change a state of its caller's.
unfoldable pub await_endpoint_response_with_timeouts {ℓ} :
    {S : Type ℓ} {T E : Type 0}
    → Response
    → (S → S × Response)
    → ℕ
    → Option ℕ
    → Schedule T E
    → S
    → S × Option (EndpointWaitOutcome T E)
await_endpoint_response_with_timeouts primary make_backup stall_threshold recovery_timeout [] s =
    (s, none)
await_endpoint_response_with_timeouts primary make_backup stall_threshold recovery_timeout
      ((at, primary_ready result) ∷ rest) s =
    let on =
      await_endpoint_response_with_timeouts primary make_backup stall_threshold recovery_timeout
        rest s in
    if can_complete primary
    then (
      s,
      some (
          completed (record {
            result = result;
            stalled_for = none;
            backup_sent = false;
            discarded_errors = 0;
          })),
    )
    else on
await_endpoint_response_with_timeouts primary make_backup stall_threshold recovery_timeout
      ((at, backup_ready _) ∷ rest) s =
    await_endpoint_response_with_timeouts primary make_backup stall_threshold recovery_timeout rest
      s
await_endpoint_response_with_timeouts primary make_backup stall_threshold recovery_timeout
      ((at, warning_due) ∷ rest) s =
    let on =
      await_endpoint_response_with_timeouts primary make_backup stall_threshold recovery_timeout
        rest s in
    let (s', backup) = make_backup s in
    if leb stall_threshold at
    then (s', await_either recovery_timeout primary backup (at + endpoint_stall_log_interval) rest)
    else on
await_endpoint_response_with_timeouts primary make_backup stall_threshold recovery_timeout
      ((at, recovery_due) ∷ rest) s =
    let on =
      await_endpoint_response_with_timeouts primary make_backup stall_threshold recovery_timeout
        rest s in
    if recovery_is_due recovery_timeout at then (s, some (recovery_required at)) else on
await_endpoint_response_with_timeouts primary make_backup stall_threshold recovery_timeout
      ((at, cancel_requested) ∷ rest) s =
    (s, some cancelled)

unfoldable pub await_endpoint_response {ℓ} :
    {S : Type ℓ} {T E : Type 0}
    → Response
    → (S → S × Response)
    → Option ℕ
    → Schedule T E
    → S
    → S × Option (EndpointWaitOutcome T E)
unfolding await_endpoint_response_with_timeouts
await_endpoint_response primary make_backup recovery_timeout =
    await_endpoint_response_with_timeouts primary make_backup endpoint_stall_threshold
      recovery_timeout
