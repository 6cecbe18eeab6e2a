-- ===== src/NusbTransport/Completion.antt =====
-- host/src/nusb_transport.rs: the end of the retry loop of `wifi_exchange`.
use lamella.Base.{
  ℕ, false, Option, none, some, List, [], ◌∷◌, ◌++◌, ok, err, ◌≡◌, ◌≢◌, ◌⊎◌, inl, inr, refl, arith,
  All, Result,
}
use lamella.Icd.{WifiTransaction, same_transaction, same_transaction_iff}
use lamella.Bridge.Wait.{
  Schedule, primary_ready, backup_ready, EndpointWaitOutcome, completed, recovery_required,
  cancelled, await_endpoint_response, endpoint_stall_threshold,
}
use lamella.Bridge.Wait.Progress.{NoPrimary, result_of, await_late}
use lamella.Bridge.Wait.Backup.{NoBackup, Stalls, await-backup_arrives}
use lamella.Exchange.{
  Address, Request, Exchange, Progress, count, done, Kind, Attempt, send_request, account,
  handle_result, after_wait, request_loop,
}
use lamella.NusbTransport.{nusb_link}

same_transaction-other : (a b : WifiTransaction) → a ≢ b → same_transaction a b ≡ false
same_transaction-other a b h = ground (arith, same_transaction_iff a b)

module _ {T E : Type 0} (kind : Kind T) (transaction : WifiTransaction) (request : Request) where
  -- A pass of the loop, up to the end of the wait.
  abbrev pub wait_of :
      Address → Schedule T E → Exchange → Exchange × Option (EndpointWaitOutcome T E)
  wait_of peer schedule x =
      let (x1, response) = send_request nusb_link kind.direction peer request x in
      await_endpoint_response response (send_request nusb_link kind.backup_direction peer request)
        none schedule x1

  abbrev pub IsFailure : Result T E → Type 0
  IsFailure (err e) = Unit
  IsFailure (ok r) = kind.transaction_of r ≢ transaction

  abbrev pub Failed : Option (EndpointWaitOutcome T E) → Type 0
  Failed none = ⊥
  Failed (some (completed w)) = IsFailure w.result
  Failed (some (recovery_required _)) = ⊥
  Failed (some cancelled) = ⊥

  -- The wait completes with an error, or with a response to another transaction, whatever the state.
  abbrev pub Fails : Attempt T E → Type 0
  Fails a = (x : Exchange) → Failed (wait_of a.peer a.schedule x).1

  -- `r` comes as the first result of the first request, or as that of the backup after this has been
  -- sent, while the wait is not over.
  pub record Arrives (a : Attempt T E) (r : T) : Type 0 where
    pub before : Schedule T E
    pub at : ℕ
    pub rest : Schedule T E
    pub waits : (x : Exchange) → (wait_of a.peer before x).1 ≡ none
    pub way :
        (NoPrimary before × (a.schedule ≡ before ++ (at, primary_ready (ok r)) ∷ rest))
        ⊎ (NoBackup before
            × Stalls endpoint_stall_threshold before
            × (a.schedule ≡ before ++ (at, backup_ready (ok r)) ∷ rest))

  after_wait-Failed :
      (again : Exchange → Exchange × Progress T) (r : T)
      → ((x : Exchange) → (again x).1 ≡ done r)
      → (o : Option (EndpointWaitOutcome T E)) (x : Exchange) → Failed o
      → (after_wait nusb_link kind transaction request again x o).1 ≡ done r
  unfolding after_wait
  after_wait-Failed again r ih none x f = absurd f
  after_wait-Failed again r ih (some cancelled) x f = absurd f
  after_wait-Failed again r ih (some (recovery_required _)) x f = absurd f
  after_wait-Failed again r ih (some (completed w)) x f =
      failed_result w.result (count (account kind w) x) f
    where
      failed_result :
          (res : Result T E) (y : Exchange)
          → IsFailure res
          → (handle_result nusb_link kind transaction request again y res).1 ≡ done r
      failed_result (err e) y f = ih _
      failed_result (ok v) y f =
          rw (same_transaction-other (kind.transaction_of v) transaction f) (ih _)

  after_wait_done :
      (again : Exchange → Exchange × Progress T) (r : T) (own : kind.transaction_of r ≡ transaction)
      (o : Option (EndpointWaitOutcome T E)) (x : Exchange)
      → result_of o ≡ some (ok r)
      → (after_wait nusb_link kind transaction request again x o).1 ≡ done r
  unfolding after_wait
  after_wait_done again r own none x e = cc
  after_wait_done again r own (some cancelled) x e = cc
  after_wait_done again r own (some (recovery_required _)) x e = cc
  after_wait_done again r own (some (completed w)) x e =
      done_result w.result (count (account kind w) x) e
    where
      done_result :
          (res : Result T E) (y : Exchange)
          → some res ≡ some (ok r)
          → (handle_result nusb_link kind transaction request again y res).1 ≡ done r
      done_result (err x) y e = cc
      done_result (ok v) y e =
          let same : v ≡ r = cc in
          rw same (rw ((same_transaction_iff (kind.transaction_of r) transaction).1 own) refl)

  arrived :
      (a : Attempt T E) (r : T) (x : Exchange)
      → Arrives a r
      → result_of (wait_of a.peer a.schedule x).1 ≡ some (ok r)
  unfolding await_endpoint_response send_request
  arrived a r x p = elim p.way [
    | inl h ↦ rw h.1 (
        await_late none r p.at p.rest (send_request nusb_link kind.backup_direction a.peer request)
          endpoint_stall_threshold p.before _ h.0 (p.waits x))
    | inr h ↦ rw h.2 (
        await-backup_arrives none r p.at p.rest
          (send_request nusb_link kind.direction a.peer request x).1
          (send_request nusb_link kind.backup_direction a.peer request) (λ y. refl)
          endpoint_stall_threshold p.before
          (send_request nusb_link kind.direction a.peer request x).0 h.0 h.1 (p.waits x))
  ]

  -- After any number of attempts whose waits completed with an error or with a stale response, an
  -- attempt in which a response to the loop's own transaction comes, to the first request or to the
  -- backup, while its wait is not over, ends the loop with that response.
  pub request_loop_completes :
      (failed : List (Attempt T E)) (last : Attempt T E) (r : T) (x : Exchange)
      → All Fails failed
      → Arrives last r
      → kind.transaction_of r ≡ transaction
      → (request_loop nusb_link kind transaction request (failed ++ last ∷ []) x).1 ≡ done r
  unfolding request_loop
  request_loop_completes [] last r x f p own =
      after_wait_done (request_loop {E = E} nusb_link kind transaction request []) r own _ _
        (arrived last r x p)
  request_loop_completes (a ∷ failed) last r x f p own =
      after_wait-Failed (request_loop nusb_link kind transaction request (failed ++ last ∷ [])) r
        (λ y. request_loop_completes failed last r y f.1 p own) _ _ (f.0 x)
