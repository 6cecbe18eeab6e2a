-- ===== src/Protocol/HostTx.antt =====
-- From the host to the radio: `wifi_exchange` (host/src/serial_transport.rs and
-- host/src/nusb_transport.rs), the link, and `wifi_tx_server`.
use lamella.Base.{ℕ, Option, none, some, List, [], ◌∷◌, ◌++◌, ◌≡◌}
use lamella.Icd.{WifiFrame, WifiTxRequest, WifiTxResponse}
use lamella.Exchange.{Exchange, done, Link, Request}
use lamella.Exchange.Rounds.{Round, exchange_round, tx_kind, tx_request, tx_exchange}
use lamella.Firmware.TxServer.{TxServer}
use lamella.Firmware.Bridge.Frames.{list_of}
use lamella.Protocol.Defs.{System}
use lamella.Protocol.Services.{tx_service}
use lamella.Protocol.Client.{Env, NoHands}
use lamella.Protocol.Turns.{OtherTurn, OwnTurn}

abbrev pub TxSystem : Type 0
TxSystem = System WifiTxRequest WifiTxResponse TxServer

-- The request for a frame that is to begin, which the code's must be.
abbrev pub request_for : ℕ → Exchange → WifiFrame → WifiTxRequest
request_for session x frame = record {
  transaction = record { session = session; id = x.next_transaction_id };
  frame = frame;
}

-- The frames that the TAP reader has queued.
abbrev pub queued_frames : {E : Type 0} → List (Round E) → List WifiFrame
queued_frames [] = []
queued_frames (round ∷ rest) = list_of round.queued ++ queued_frames rest

module _ {E : Type 0} (link : Link) (session : ℕ) where
  -- The first half of a pass, as the link and `wifi_tx_server` see it.
  abbrev pub TxPart : Option WifiFrame → Round E → Exchange → TxSystem → TxSystem → Type 0
  TxPart none round x s t = Env tx_service session (NoHands tx_service session) s t
  TxPart (some frame) round x s t =
      (r : WifiTxResponse) × OwnTurn tx_service session link tx_kind (request_for session x frame)
        Request.tx (tx_request session frame x) round.tx_attempts
        (tx_exchange link session frame round.tx_attempts x).1 x s r t

  -- Passes of the host's loop that are all over, then what link and server still do.
  pub data TxPlays : Exchange → TxSystem → List (Round E) → TxSystem → Type 0 where
    no_rounds :
        {x : Exchange} {s t : TxSystem}
        → Env tx_service session (NoHands tx_service session) s t
        → TxPlays x s [] t
    one_round :
        {x : Exchange} {s u v t : TxSystem} (round : Round E) {rest : List (Round E)}
        → TxPart round.queued round x s u
        → OtherTurn tx_service session u v
        → (exchange_round link session round x).1 ≡ done tt
        → TxPlays (exchange_round link session round x).0 v rest t
        → TxPlays x s (round ∷ rest) t
