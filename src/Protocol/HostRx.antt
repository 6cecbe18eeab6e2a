-- ===== src/Protocol/HostRx.antt =====
-- From the radio to the TAP device: `wifi_bridge` and `wifi_rx_server` of
-- firmware-c3/src/bin/main.rs, the link, and `wifi_exchange` (host/src/serial_transport.rs and
-- host/src/nusb_transport.rs).
use lamella.Base.{
  ℕ, ◌+◌, ◌≤◌, ◌^◌, Option, none, some, List, [], ◌∷◌, ◌++◌, ◌≡◌, refl, sym, ap, ◌∙◌, arith, Result,
  ok, err, append-nil,
}
use lamella.Icd.{u32, WifiFrame, WifiRxRequest, WifiRxResponse}
use lamella.Exchange.{Exchange, done, Link, Request, Attempt, request_loop}
use lamella.Exchange.Rounds.{
  Round, exchange_round, rx_kind, rx_request, take_id, tx_part, rx_exchange, exchange_rounds,
}
use lamella.Exchange.Delivery.{IsQuiet, written, rx_part-delivers}
use lamella.Exchange.Passes.{
  next_after, exchange_round-ids, exchange_round-rx_part, tx_part-ids, tx_part-to_tap,
  exchange_rounds-step, no_rounds-state,
}
use lamella.Firmware.Bridge.Frames.{list_of, held}
use lamella.Firmware.Receiver.{Receiver, new_receiver}
use lamella.Firmware.Device.Handover.{oldest_first}
use lamella.Protocol.Defs.{System, Reach, start}
use lamella.Protocol.Receiving.{receiver_service}
use lamella.Protocol.ExactlyOnce.{initial, delivered}
use lamella.Protocol.EndToEnd.{arrived, radio_to_host}
use lamella.Protocol.Client.{Env, NoHands, idle-Reach, Env-SameHost}
use lamella.Protocol.Turns.{IsIdle, OtherTurn, other-Reach, OwnTurn, own-Reach}

abbrev pub RxSystem : Type 0
RxSystem = System WifiRxRequest WifiRxResponse Receiver

-- The poll that is to begin, which the code's must be.
abbrev pub poll_of : ℕ → Exchange → WifiRxRequest
poll_of session x = record {
  transaction = record { session = session; id = x.next_transaction_id };
}

abbrev pub IsOk : {E : Type 0} → Result ℕ E → Type 0
IsOk (ok n) = Unit
IsOk (err e) = ⊥

-- The other half of a pass, in which an id may be taken.
abbrev pub TxHalf : ℕ → Option WifiFrame → RxSystem → RxSystem → Type 0
TxHalf session none s t = Env receiver_service session (NoHands receiver_service session) s t
TxHalf session (some frame) s t = OtherTurn receiver_service session s t

TxHalf-Reach :
    (session : ℕ) (queued : Option WifiFrame) {init : RxSystem} (s t : RxSystem)
    → Reach receiver_service session init s
    → s.current ≡ none
    → TxHalf session queued s t
    → Reach receiver_service session init t
      × (t.current ≡ none)
      × (u32 t.next ≡ next_after queued (u32 s.next))
      × (t.results ≡ s.results)
TxHalf-Reach session none s t reach idle env =
    let host = Env-SameHost receiver_service session env in
    (
      idle-Reach receiver_service session reach env,
      host.current ∙ idle,
      ap u32 host.next,
      host.results,
    )
TxHalf-Reach session (some frame) s t reach idle turn =
    let (run, host) = other-Reach receiver_service session reach idle turn in
    (run, host.current ∙ idle, omega (arith, host.next), host.results)

written-oldest_first :
    {E : Type 0} (tap_send : Result ℕ E) (o : Option WifiFrame) (l : List WifiFrame)
    → IsOk tap_send
    → oldest_first (written tap_send o l) ≡ oldest_first l ++ list_of o
written-oldest_first (ok n) none l h = sym (append-nil (oldest_first l))
written-oldest_first (ok n) (some f) l h = refl
written-oldest_first (err e) o l h = absurd h

rx_inj : (a b : WifiRxRequest) → Request.rx a ≡ Request.rx b → a ≡ b
rx_inj a b e = cc

module _ {E : Type 0} (link : Link) (session : ℕ) where
  -- Passes of the host's loop that are all over and whose frames the TAP device takes, as the link
  -- and `wifi_rx_server` see them, then what link and server still do.
  pub data RxPlays : Exchange → RxSystem → List (Round E) → RxSystem → Type 0 where
    no_rounds :
        {x : Exchange} {s t : RxSystem}
        → Env receiver_service session (NoHands receiver_service session) s t
        → RxPlays x s [] t
    one_round :
        {x : Exchange} {s u v t : RxSystem} (round : Round E) {rest : List (Round E)}
        (r : WifiRxResponse)
        → TxHalf session round.queued s u
        → OwnTurn receiver_service session link rx_kind
            (poll_of session (tx_part link session round.queued round x).0)
            Request.rx
            (rx_request session (tx_part link session round.queued round x).0)
            round.rx_attempts
            (rx_exchange link session round.rx_attempts
              (tx_part link session round.queued round x).0).1
            (tx_part link session round.queued round x).0
            u
            r
            v
        → (exchange_round link session round x).1 ≡ done tt
        → IsOk round.tap_send
        → RxPlays (exchange_round link session round x).0 v rest t
        → RxPlays x s (round ∷ rest) t

  rx_exchange-loop :
      (y : Exchange) (attempts : List (Attempt WifiRxResponse E))
      → (rx_exchange link session attempts y).1
        ≡ (request_loop link rx_kind
            (poll_of session y).transaction
            (rx_request session y)
            attempts
            (take_id y)).1
  unfolding rx_exchange
  rx_exchange-loop y attempts = refl

  -- What a pass writes to the TAP device.
  round_to_tap :
      (quiet : IsQuiet link) (round : Round E) (x : Exchange) (r : WifiRxResponse)
      → (exchange_round link session round x).1 ≡ done tt
      → (rx_exchange link session round.rx_attempts (tx_part link session round.queued round x).0).1
        ≡ done r
      → IsOk round.tap_send
      → oldest_first (exchange_round link session round x).0.to_tap
        ≡ oldest_first x.to_tap ++ list_of r.frame
  round_to_tap quiet round x r over e taken =
      let y = (tx_part link session round.queued round x).0 in
      let same = exchange_round-rx_part link session round x over in
      let (r', e', id, to_tap) =
        rx_part-delivers link quiet session y round (ap (λ p. p.1) (sym same) ∙ over) in
      let r_same : r' ≡ r = done_inj r' r (sym e' ∙ e) in
      ap (λ p. oldest_first p.0.to_tap) same
      ∙ ap oldest_first to_tap
      ∙ written-oldest_first round.tap_send r'.frame y.to_tap taken
      ∙ ap (λ (r : WifiRxResponse). oldest_first y.to_tap ++ list_of r.frame) r_same
      ∙ ap (λ l. oldest_first l ++ list_of r.frame)
          (tx_part-to_tap link quiet session round x round.queued)
    where
      done_inj : (a b : WifiRxResponse) → done a ≡ done b → a ≡ b
      done_inj a b h = cc

  plays-Reach :
      (quiet : IsQuiet link) {init : RxSystem} {x : Exchange} {s t : RxSystem}
      {rounds : List (Round E)}
      → Reach receiver_service session init s
      → IsIdle x s
      → oldest_first x.to_tap ≡ arrived (delivered s.results)
      → RxPlays x s rounds t
      → Reach receiver_service session init t
        × (t.current ≡ none)
        × (oldest_first (exchange_rounds link session rounds x).0.to_tap
            ≡ arrived (delivered t.results))
  plays-Reach quiet {x = x} reach idle tap (no_rounds env) =
      let host = Env-SameHost receiver_service session env in
      (
        idle-Reach receiver_service session reach env,
        host.current ∙ idle.current,
        ap (λ (y : Exchange). oldest_first y.to_tap) (no_rounds-state E link session x)
            ∙ tap
            ∙ ap (λ l. arrived (delivered l)) (sym host.results),
      )
  plays-Reach quiet {x = x} {s = s} reach idle tap
        (one_round {u = u} {v = v} round {rest} r half turn over taken plays) =
      let y = (tx_part link session round.queued round x).0 in
      let (run, calm, counter, results) =
        TxHalf-Reach session round.queued s u reach idle.current half in
      let id : y.next_transaction_id ≡ u32 u.next =
        tx_part-ids link quiet session round x round.queued
        ∙ ap (next_after round.queued) idle.counter
        ∙ sym counter in
      let (run2, host) =
        own-Reach receiver_service session link rx_kind (poll_of session y) Request.rx
          (rx_request session y) round.rx_attempts (rx_exchange link session round.rx_attempts y).1
          quiet (λ r. refl) (λ q e. rx_inj q (poll_of session y) e) run calm
          (ap (λ n. record { session = session; id = n }) id) (rx_exchange-loop y round.rx_attempts)
          turn in
      let (end, quiet_end, all) =
        plays-Reach quiet run2
          (record {
            current = host.current;
            counter =
                exchange_round-ids link quiet session round x over
                ∙ ap (λ n. u32 (n + 1)) (ap (next_after round.queued) idle.counter ∙ sym counter)
                ∙ counted u.next
                ∙ ap u32 (sym host.next);
          })
          (round_to_tap quiet round x r over turn.ended taken
            ∙ ap (λ l. l ++ list_of r.frame) (tap ∙ ap (λ l. arrived (delivered l)) (sym results))
            ∙ ap (λ l. arrived (delivered l)) (sym host.results))
          plays in
      (
        end,
        quiet_end,
        ap (λ p. oldest_first p.0.to_tap) (exchange_rounds-step link session round rest x over)
            ∙ all,
      )
    where
      counted : (n : ℕ) → u32 (u32 n + 1) ≡ u32 (n + 1)
      counted n = omega arith

-- Whatever the link loses, repeats and delays of the polls that the code hands to Ergot, and of the
-- responses, and whatever the bridge does between and during the polls: when the passes of the host's
-- loop are over, the frames that it has written to the TAP device, then those in the firmware's
-- channel, then the one that the bridge holds back, are the frames that the bridge has received from
-- the radio, each once and in order. The session began with these passes, with both sides new, and has
-- taken at most 2 ^ 32 ids; the TAP device takes the frames of these passes; the link is quiet (fault
-- injection and giving up change no request, frame or id), as that of either transport is.
pub radio_to_tap :
    {E : Type 0} (link : Link) (quiet : IsQuiet link) (session : ℕ) (x : Exchange)
    (rounds : List (Round E)) (t : RxSystem)
    → x.next_transaction_id ≡ 0
    → x.to_tap ≡ []
    → RxPlays link session x (initial new_receiver) rounds t
    → t.next ≤ 2 ^ 32
    → oldest_first (exchange_rounds link session rounds x).0.to_tap
        ++ (t.server.bridge.to_host ++ held t.server.bridge.mode)
      ≡ t.server.heard
radio_to_tap link quiet session x rounds t new empty plays small =
    let (reach, idle, tap) =
      plays-Reach link session quiet start (record { current = refl; counter = new })
        (ap oldest_first empty) plays in
    ap (λ l. l ++ (t.server.bridge.to_host ++ held t.server.bridge.mode)) tap
    ∙ radio_to_host session t reach small idle
