-- ===== src/Protocol/Client/Passes.antt =====
-- The retry loop of `wifi_exchange` (host/src/serial_transport.rs and
-- host/src/nusb_transport.rs) pass by pass.
use lamella.Base.{
  if◌then◌else◌, arith, ℕ, Option, none, some, List, [], ◌∷◌, ◌++◌, ◌≡◌, refl, ◌∙◌, sym, subst, ap,
  Result, ok, err, Bool-cases, inl, inr,
}
use lamella.Icd.{WifiTransaction, same_transaction, same_transaction_iff}
use lamella.Metrics.{record_endpoint_error, record_response_mismatch}
use lamella.Bridge.Wait.{
  EndpointWaitOutcome, EndpointWaitResult, completed, recovery_required, cancelled, Wake, Schedule,
  await_endpoint_response, endpoint_stall_threshold,
}
use lamella.Bridge.Wait.Last.{IsReady, await-last}
use lamella.Exchange.{
  Address, Request, Exchange, count, Progress, done, waiting, Kind, Link, Attempt, send_request,
  handle_result, after_wait, request_loop, account,
}

done_inj : {T : Type 0} {a b : T} → done a ≡ done b → a ≡ b
done_inj {T} {a} {b} h = cc

pub no_passes :
    (E : Type 0) {T : Type 0} (link : Link) (kind : Kind T) (transaction : WifiTransaction)
    (request : Request) (y : Exchange)
    → request_loop {E = E} link kind transaction request [] y ≡ (y, waiting)
unfolding request_loop
no_passes E link kind transaction request y = refl

module _ {T E : Type 0} (link : Link) (kind : Kind T) (transaction : WifiTransaction)
    (request : Request) where
  -- One pass of the loop, up to the end of the wait.
  abbrev pub attempt_wait :
      Address → Schedule T E → Exchange → Exchange × Option (EndpointWaitOutcome T E)
  attempt_wait peer schedule x =
      let (x1, response) = send_request link kind.direction peer request x in
      await_endpoint_response response (send_request link kind.backup_direction peer request)
        link.recovery_timeout schedule x1

  pub request_loop-step :
      (a : Attempt T E) (rest : List (Attempt T E)) (x : Exchange)
      → request_loop link kind transaction request (a ∷ rest) x
        ≡ after_wait link kind transaction request
            (request_loop link kind transaction request rest)
            (attempt_wait a.peer a.schedule x).0
            (attempt_wait a.peer a.schedule x).1
  unfolding request_loop
  request_loop-step a rest x = refl

  -- What the last wake of a schedule means, where the wait is over with it and not before.
  pub wait-IsReady :
      (peer : Address) (before : Schedule T E) (now : ℕ) (last : Wake T E) (x : Exchange)
      (w : EndpointWaitResult T E)
      → (attempt_wait peer before x).1 ≡ none
      → (attempt_wait peer (before ++ (now, last) ∷ []) x).1 ≡ some (completed w)
      → IsReady w.result last
  unfolding await_endpoint_response
  wait-IsReady peer before now last x w n h =
      await-last link.recovery_timeout w now _ _ endpoint_stall_threshold last before _ n h

  -- A response that ends the loop came from a completed wait.
  result-done :
      (again : Exchange → Exchange × Progress T) (x : Exchange) (res : Result T E) (r : T)
      → ((y : Exchange) → (again y).1 ≡ waiting)
      → (handle_result link kind transaction request again x res).1 ≡ done r
      → (res ≡ ok r) × (kind.transaction_of r ≡ transaction)
  unfolding handle_result
  result-done again x (err e) r w h =
      cc (w (count (λ m. record_endpoint_error (kind.record_retry m)) x))
  result-done again x (ok v) r w h =
      elim (Bool-cases (same_transaction (kind.transaction_of v) transaction)) [
        | inl same ↦
            let e : v ≡ r = done_inj (
              ap
                (λ b.
                  (if b
                    then (x, done v)
                    else again (count (λ m. record_response_mismatch (kind.record_retry m)) x)).1)
                (sym same)
              ∙ h) in
            (
              ap ok e,
              subst (λ v. kind.transaction_of v ≡ transaction) e
                  ((same_transaction_iff (kind.transaction_of v) transaction).0 same),
            )
        | inr stale ↦ cc (w (count (λ m. record_response_mismatch (kind.record_retry m)) x))
      ]

  pub wait-done :
      (again : Exchange → Exchange × Progress T) (x : Exchange)
      (o : Option (EndpointWaitOutcome T E)) (r : T)
      → ((y : Exchange) → (again y).1 ≡ waiting)
      → (after_wait link kind transaction request again x o).1 ≡ done r
      → (w : EndpointWaitResult T E) × (o ≡ some (completed w))
        × (w.result ≡ ok r)
        × (kind.transaction_of r ≡ transaction)
  unfolding after_wait
  wait-done again x none r w h = cc
  wait-done again x (some cancelled) r w h = cc
  wait-done again x (some (recovery_required d)) r w h = ground arith
  wait-done again x (some (completed c)) r w h =
      let e = result-done again (count (account kind c) x) c.result r w h in (c, refl, e.0, e.1)

  result-again :
      (f g : Exchange → Exchange × Progress T) (x : Exchange) (res : Result T E) (r : T)
      → (handle_result link kind transaction request f x res).1 ≡ waiting
      → (handle_result link kind transaction request g x res).1 ≡ done r
      → (y : Exchange) × (handle_result link kind transaction request f x res ≡ f y)
        × (handle_result link kind transaction request g x res ≡ g y)
  unfolding handle_result
  result-again f g x (err e) r w h = (_, refl, refl)
  result-again f g x (ok v) r w h =
      elim (Bool-cases (same_transaction (kind.transaction_of v) transaction)) [
        | inl same ↦ cc
        | inr stale ↦ (
          count (λ m. record_response_mismatch (kind.record_retry m)) x,
          rw stale refl,
          rw stale refl,
        )
      ]

  -- A pass that neither ended the loop nor waits is followed by the next one.
  wait-again :
      (f g : Exchange → Exchange × Progress T) (x : Exchange) (o : Option (EndpointWaitOutcome T E))
      (r : T)
      → (after_wait link kind transaction request f x o).1 ≡ waiting
      → (after_wait link kind transaction request g x o).1 ≡ done r
      → (y : Exchange) × (after_wait link kind transaction request f x o ≡ f y)
        × (after_wait link kind transaction request g x o ≡ g y)
  unfolding after_wait
  wait-again f g x none r w h = cc
  wait-again f g x (some cancelled) r w h = cc
  wait-again f g x (some (recovery_required d)) r w h = ground arith
  wait-again f g x (some (completed c)) r w h =
      result-again f g (count (account kind c) x) c.result r w h

  pub goes_on :
      (a : Attempt T E) (rest : List (Attempt T E)) (x : Exchange) (r : T)
      → (request_loop link kind transaction request (a ∷ []) x).1 ≡ waiting
      → (request_loop link kind transaction request (a ∷ rest) x).1 ≡ done r
      → request_loop link kind transaction request (a ∷ rest) x
        ≡ request_loop link kind transaction request rest
            (request_loop link kind transaction request (a ∷ []) x).0
  goes_on a rest x r w h =
      let one = request_loop-step a [] x in
      let all = request_loop-step a rest x in
      let (y, f, g) =
        wait-again (request_loop link kind transaction request [])
          (request_loop link kind transaction request rest) _ _ r (ap (λ z. z.1) (sym one) ∙ w)
          (ap (λ z. z.1) (sym all) ∙ h) in
      let now : (request_loop {E = E} link kind transaction request (a ∷ []) x).0 ≡ y =
        ap (λ z. z.0) (one ∙ f ∙ no_passes E link kind transaction request y) in
      all ∙ g ∙ ap (request_loop link kind transaction request rest) (sym now)
