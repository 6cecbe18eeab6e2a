-- ===== src/Exchange/Retry.antt =====
-- host/src/serial_transport.rs and host/src/nusb_transport.rs: the retry loop of `wifi_exchange`, and
-- what it leaves of its state.
use lamella.Base.{
  ℕ, Option, none, some, List, [], ◌∷◌, ◌≡◌, refl, ◌≢◌, inl, inr, Result, ok, err, arith, subst,
  sym, Bool-cases,
}
use lamella.Icd.{WifiTransaction, same_transaction, same_transaction_iff}
use lamella.Metrics.{BridgeMetrics, record_endpoint_error, record_response_mismatch}
use lamella.Bridge.Wait.{
  EndpointWaitOutcome, completed, recovery_required, cancelled, Response, Schedule,
  await_endpoint_response,
}
use lamella.Bridge.Wait.Source.{await_once, await-Expired, Expired}
use lamella.Exchange.{
  Address, Request, Exchange, count, Progress, done, panicked, Kind, Link, Attempt, send_request,
  account, handle_result, after_wait, request_loop,
}

module _ {T E : Type 0} (link : Link) (kind : Kind T) (transaction : WifiTransaction)
    (request : Request) where
  -- A property that sending, counting and giving up keep is kept by the loop.
  module _ (P : Exchange → Type 0)
      (send : (direction : _) (peer : Address) (x : Exchange)
        → P x
        → P (send_request link direction peer request x).0)
      (counted : (f : BridgeMetrics → BridgeMetrics) (x : Exchange) → P x → P (count f x))
      (recover : (d : ℕ) (x : Exchange)
        → P x
        → P (link.on_recovery kind.record_retry kind.record_stall d x)) where
    handle_result-keeps :
        (again : Exchange → Exchange × Progress T)
        → ((x : Exchange) → P x → P (again x).0)
        → (x : Exchange) (r : Result T E) → P x
        → P (handle_result link kind transaction request again x r).0
    unfolding handle_result
    handle_result-keeps again ih x (err e) h =
        ih _ (counted (λ m. record_endpoint_error (kind.record_retry m)) x h)
    handle_result-keeps again ih x (ok r) h =
        elim (Bool-cases (same_transaction (kind.transaction_of r) transaction)) [
          | inl same ↦ rw same h
          | inr stale ↦
              rw stale (ih _ (counted (λ m. record_response_mismatch (kind.record_retry m)) x h))
        ]

    after_wait-keeps :
        (again : Exchange → Exchange × Progress T)
        → ((x : Exchange) → P x → P (again x).0)
        → (x : Exchange) (o : Option (EndpointWaitOutcome T E)) → P x
        → P (after_wait link kind transaction request again x o).0
    unfolding after_wait
    after_wait-keeps again ih x none h = h
    after_wait-keeps again ih x (some cancelled) h = h
    after_wait-keeps again ih x (some (recovery_required d)) h = recover d x h
    after_wait-keeps again ih x (some (completed w)) h =
        handle_result-keeps again ih _ w.result (counted (account kind w) x h)

    await-keeps :
        (response : Response) (direction : _) (peer : Address) (sch : Schedule T E) (x : Exchange)
        → P x
        → P
            (await_endpoint_response response
              (send_request link direction peer request)
              link.recovery_timeout
              sch
              x).0
    unfolding await_endpoint_response
    await-keeps response direction peer sch x h =
        elim (await_once response (send_request link direction peer request) _ link.recovery_timeout
          sch x) [ inl e ↦ subst P (sym e) h | inr e ↦ subst P (sym e) (send direction peer x h) ]

    pub request_loop-keeps :
        (attempts : List (Attempt T E)) (x : Exchange)
        → P x
        → P (request_loop link kind transaction request attempts x).0
    unfolding request_loop
    request_loop-keeps [] x h = h
    request_loop-keeps (a ∷ rest) x h =
        after_wait-keeps (request_loop link kind transaction request rest) (request_loop-keeps rest)
          _ _
          (await-keeps _ kind.backup_direction a.peer a.schedule _ (send kind.direction a.peer x h))

  handle_result-accepts :
      (again : Exchange → Exchange × Progress T)
      → ((x : Exchange) (r : T) → (again x).1 ≡ done r → kind.transaction_of r ≡ transaction)
      → (x : Exchange) (res : Result T E) (r : T)
      → (handle_result link kind transaction request again x res).1 ≡ done r
      → kind.transaction_of r ≡ transaction
  unfolding handle_result
  handle_result-accepts again ih x (err e) r h = ih _ r h
  handle_result-accepts again ih x (ok v) r h = ground (
    arith,
    same_transaction_iff (kind.transaction_of v) transaction,
    ih (count (λ m. record_response_mismatch (kind.record_retry m)) x) r,
  )

  after_wait-accepts :
      (again : Exchange → Exchange × Progress T)
      → ((x : Exchange) (r : T) → (again x).1 ≡ done r → kind.transaction_of r ≡ transaction)
      → (x : Exchange) (o : Option (EndpointWaitOutcome T E)) (r : T)
      → (after_wait link kind transaction request again x o).1 ≡ done r
      → kind.transaction_of r ≡ transaction
  unfolding after_wait
  after_wait-accepts again ih x none r h = ground arith
  after_wait-accepts again ih x (some cancelled) r h = ground arith
  after_wait-accepts again ih x (some (recovery_required d)) r h = ground arith
  after_wait-accepts again ih x (some (completed w)) r h =
      handle_result-accepts again ih _ w.result r h

  -- A response that the loop accepts answers the loop's own transaction: a stale response never
  -- ends the exchange, whatever the requests bring.
  pub request_loop-accepts :
      (attempts : List (Attempt T E)) (x : Exchange) (r : T)
      → (request_loop link kind transaction request attempts x).1 ≡ done r
      → kind.transaction_of r ≡ transaction
  unfolding request_loop
  request_loop-accepts [] x r h = ground arith
  request_loop-accepts (a ∷ rest) x r h =
      after_wait-accepts (request_loop link kind transaction request rest)
        (request_loop-accepts rest) _ _ r h

  handle_result_calm :
      (again : Exchange → Exchange × Progress T)
      → ((x : Exchange) → (again x).1 ≢ panicked)
      → (x : Exchange) (res : Result T E)
      → (handle_result link kind transaction request again x res).1 ≢ panicked
  unfolding handle_result
  handle_result_calm again ih x (err e) h = ih _ h
  handle_result_calm again ih x (ok v) h =
      ground (arith, ih (count (λ m. record_response_mismatch (kind.record_retry m)) x))

  after_wait_calm :
      (again : Exchange → Exchange × Progress T)
      → ((x : Exchange) → (again x).1 ≢ panicked)
      → (x : Exchange) (o : Option (EndpointWaitOutcome T E))
      → ((d : ℕ) → o ≢ some (recovery_required d))
      → (after_wait link kind transaction request again x o).1 ≢ panicked
  unfolding after_wait
  after_wait_calm again ih x none never h = ground arith
  after_wait_calm again ih x (some cancelled) never h = ground arith
  after_wait_calm again ih x (some (recovery_required d)) never h = never d refl
  after_wait_calm again ih x (some (completed w)) never h = handle_result_calm again ih _ w.result h

  await_calm :
      link.recovery_timeout ≡ none
      → (response : Response) (direction : _) (peer : Address) (sch : Schedule T E) (x : Exchange)
        (d : ℕ)
      → (await_endpoint_response response
          (send_request link direction peer request)
          link.recovery_timeout
          sch
          x).1
        ≢ some (recovery_required d)
  unfolding await_endpoint_response
  await_calm off response direction peer sch x d h =
      subst (λ o. Expired o d) off
        (await-Expired link.recovery_timeout d response (send_request link direction peer request) _
          sch x h)

  -- A link without a recovery timeout never reaches the panic of its recovery branch.
  pub request_loop_calm :
      link.recovery_timeout ≡ none
      → (attempts : List (Attempt T E)) (x : Exchange)
      → (request_loop link kind transaction request attempts x).1 ≢ panicked
  unfolding request_loop
  request_loop_calm off [] x h = ground arith
  request_loop_calm off (a ∷ rest) x h =
      after_wait_calm (request_loop link kind transaction request rest) (request_loop_calm off rest)
        _ _ (await_calm off _ _ _ _ _) h
