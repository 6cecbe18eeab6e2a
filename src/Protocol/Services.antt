-- ===== src/Protocol/Services.antt =====
-- The two servers of the firmware as services: `wifi_tx_server` and `wifi_rx_server` of
-- firmware-c3/src/bin/main.rs and firmware-s3/src/bin/main.rs.
use lamella.Base.{true, false, Option, none, some, ◌≡◌, refl, arith, ap}
use lamella.Icd.{
  WifiFrame, WifiTransaction, WifiTxRequest, WifiTxResponse, WifiRxRequest, WifiRxResponse,
  same_transaction, same_transaction_iff,
}
use lamella.Firmware.TxServer.{TxServer, serve_tx, is_last}
use lamella.Firmware.RxServer.{RxServer, serve_rx, answer_cached, answer_new}
use lamella.Protocol.Defs.{Service, IsRepeat, IsIdempotent}

-- The response that `last_completed` stands for.
abbrev pub completed_response : Option WifiTransaction → Option WifiTxResponse
completed_response none = none
completed_response (some transaction) = some (record { transaction = transaction })

-- An effect is a frame handed to the radio.
abbrev pub tx_service : Service WifiTxRequest WifiTxResponse TxServer WifiFrame (Unit {0})
tx_service = record {
  serve = λ _ q s. serve_tx q s;
  request_id = λ q. q.transaction;
  response_id = λ r. r.transaction;
  cached = λ s. completed_response s.last_completed;
  effects = λ s. s.handed;
  effect = λ q r. q.frame;
  Background = λ s t. t ≡ s;
}

-- An effect is what a new poll took from the queue of received frames, if there was a frame.
abbrev pub rx_service :
    Service WifiRxRequest WifiRxResponse RxServer (Option WifiFrame) (Option WifiFrame)
rx_service = record {
  serve = serve_rx;
  request_id = λ q. q.transaction;
  response_id = λ r. r.transaction;
  cached = λ s. s.cached_response;
  effects = λ s. s.taken;
  effect = λ q r. r.frame;
  Background = λ s t. (t.cached_response ≡ s.cached_response) × (t.taken ≡ s.taken);
}

repeat-is_last :
    (last : Option WifiTransaction) (q : WifiTxRequest)
    → IsRepeat tx_service (completed_response last) q
    → is_last last q.transaction ≡ true
repeat-is_last none q h = absurd h
repeat-is_last (some w) q h = (same_transaction_iff w q.transaction).1 h

new-is_last :
    (last : Option WifiTransaction) (q : WifiTxRequest)
    → ¬ IsRepeat tx_service (completed_response last) q
    → is_last last q.transaction ≡ false
new-is_last none q h = refl
new-is_last (some w) q h = ground (arith, same_transaction_iff w q.transaction)

repeat_response :
    (last : Option WifiTransaction) (q : WifiTxRequest)
    → IsRepeat tx_service (completed_response last) q
    → completed_response last ≡ some (record { transaction = q.transaction })
repeat_response none q h = absurd h
repeat_response (some w) q h = ap (λ t. some (record { transaction = t })) h

pub tx_service-IsIdempotent : IsIdempotent tx_service
unfolding serve_tx
tx_service-IsIdempotent = record {
  again_state = λ v q s h. rw (repeat-is_last s.last_completed q h);
  again_response = λ v q s h. repeat_response s.last_completed q h;
  new_cached = λ v q s h. rw (new-is_last s.last_completed q h);
  new_id = λ v q s h. refl;
  new_effect = λ v q s h. rw (new-is_last s.last_completed q h);
  background_cached = λ s t e. ap (λ r. completed_response r.last_completed) e;
  background_effects = λ s t e. ap (λ r. r.handed) e;
}

-- `answer_cached` on a response that the poll repeats, and on any other.
pub cached-again :
    (c : Option WifiRxResponse) (v : Option WifiFrame) (q : WifiRxRequest) (s : RxServer)
    → IsRepeat rx_service c q
    → ((answer_cached c v q s).0 ≡ s) × (c ≡ some (answer_cached c v q s).1)
cached-again none v q s h = absurd h
cached-again (some r) v q s h =
    let e : same_transaction r.transaction q.transaction ≡ true =
      (same_transaction_iff r.transaction q.transaction).1 h in
    (rw e, rw e)

pub cached-new :
    (c : Option WifiRxResponse) (v : Option WifiFrame) (q : WifiRxRequest) (s : RxServer)
    → ¬ IsRepeat rx_service c q
    → answer_cached c v q s ≡ answer_new v q s
cached-new none v q s h = refl
cached-new (some r) v q s h =
    let e : same_transaction r.transaction q.transaction ≡ false =
      ground (arith, same_transaction_iff r.transaction q.transaction) in
    rw e

pub rx_service-IsIdempotent : IsIdempotent rx_service
unfolding serve_rx
rx_service-IsIdempotent = record {
  again_state = λ v q s h. (cached-again s.cached_response v q s h).0;
  again_response = λ v q s h. (cached-again s.cached_response v q s h).1;
  new_cached = λ v q s h. rw (cached-new s.cached_response v q s h);
  new_id = λ v q s h. rw (cached-new s.cached_response v q s h);
  new_effect = λ v q s h. rw (cached-new s.cached_response v q s h);
  background_cached = λ s t e. e.0;
  background_effects = λ s t e. e.1;
}
