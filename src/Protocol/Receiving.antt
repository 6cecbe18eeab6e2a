-- ===== src/Protocol/Receiving.antt =====
-- `wifi_rx_server` with `wifi_bridge` behind it, as a service for the polls of the host.
use lamella.Base.{true, false, Option, none, some, List, ◌≡◌, refl, ap, arith}
use lamella.Icd.{WifiFrame, WifiRxRequest, WifiRxResponse, same_transaction_iff}
use lamella.Firmware.RxServer.{serve_rx, answer_new}
use lamella.Firmware.Bridge.{Event, host_pull, step}
use lamella.Firmware.Receiver.{Receiver, rx_server, listen, waited, head, repeats, serve_poll}
use lamella.Protocol.Defs.{Service, IsRepeat, IsIdempotent}
use lamella.Protocol.Services.{cached-again, cached-new}

-- Between the polls the bridge runs.
abbrev pub receiver_service :
    Service WifiRxRequest WifiRxResponse Receiver (Option WifiFrame) (List Event)
receiver_service = record {
  serve = serve_poll;
  request_id = λ q. q.transaction;
  response_id = λ r. r.transaction;
  cached = λ s. s.cached_response;
  effects = λ s. s.taken;
  effect = λ q r. r.frame;
  Background = λ s t. (events : List Event) × (t ≡ listen events s);
}

pub repeats-true :
    (c : Option WifiRxResponse) (q : WifiRxRequest)
    → IsRepeat receiver_service c q
    → repeats c q ≡ true
repeats-true none q h = absurd h
repeats-true (some r) q h = (same_transaction_iff r.transaction q.transaction).1 h

pub repeats-false :
    (c : Option WifiRxResponse) (q : WifiRxRequest)
    → ¬ IsRepeat receiver_service c q
    → repeats c q ≡ false
repeats-false none q h = refl
repeats-false (some r) q h = ground (arith, same_transaction_iff r.transaction q.transaction)

pub poll-answer_new :
    (wait : List Event) (q : WifiRxRequest) (s : Receiver)
    → ¬ IsRepeat receiver_service s.cached_response q
    → let s1 = waited wait s.bridge.to_host s in
      let (rx, response) = answer_new (head s1.bridge.to_host) q (rx_server s) in
      serve_poll wait q s ≡ (
        record s1 {
          cached_response = rx.cached_response;
          taken = rx.taken;
          bridge = step host_pull s1.bridge;
        },
        response,
      )
unfolding serve_poll serve_rx
poll-answer_new wait q s h = rw (repeats-false s.cached_response q h) (
    rw (
      cached-new s.cached_response (head (waited wait s.bridge.to_host s).bridge.to_host) q
        (rx_server s) h))

pub receiver_service-IsIdempotent : IsIdempotent receiver_service
unfolding serve_poll listen serve_rx
receiver_service-IsIdempotent = record {
  again_state = λ v q s h. rw (repeats-true s.cached_response q h);
  again_response = λ v q s h.
      rw (repeats-true s.cached_response q h)
        (cached-again s.cached_response none q (rx_server s) h).1;
  new_cached = λ v q s h. rw (poll-answer_new v q s h);
  new_id = λ v q s h. rw (poll-answer_new v q s h);
  new_effect = λ v q s h. rw (poll-answer_new v q s h);
  background_cached = λ s t e. ap (λ (r : Receiver). r.cached_response) e.1;
  background_effects = λ s t e. ap (λ (r : Receiver). r.taken) e.1;
}
