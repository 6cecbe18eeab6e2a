-- ===== src/Exchange/Passes.antt =====
-- host/src/serial_transport.rs and host/src/nusb_transport.rs: what one pass of `wifi_exchange` makes
-- of the counter of ids and of the frames for the TAP device.
use lamella.Base.{List, [], ◌∷◌, ℕ, ◌+◌, Option, none, some, ◌≡◌, refl, ◌∙◌, ap, Result, ok, err}
use lamella.Icd.{u32, WifiFrame, WifiTxResponse}
use lamella.Exchange.{Exchange, Progress, done, stopped, panicked, waiting, Link}
use lamella.Exchange.Rounds.{
  Round, and_then, tx_part, rx_part, tx_exchange, rx_exchange, write_tap, exchange_round,
  exchange_rounds,
}
use lamella.Exchange.Delivery.{IsQuiet, tx_exchange-sends, rx_exchange-sends}

and_then-ids :
    {A B : Type 0} (f : A → Exchange → Exchange × Progress B) (p : Exchange × Progress A)
    → ((a : A) (x : Exchange) → (f a x).0.next_transaction_id ≡ x.next_transaction_id)
    → (and_then f p).0.next_transaction_id ≡ p.0.next_transaction_id
and_then-ids f (x, done a) h = h a x
and_then-ids f (x, stopped) h = refl
and_then-ids f (x, panicked) h = refl
and_then-ids f (x, waiting) h = refl

write_tap-ids :
    {E : Type 0} (tap_send : Result ℕ E) (frame : Option WifiFrame) (x : Exchange)
    → (write_tap tap_send frame x).next_transaction_id ≡ x.next_transaction_id
unfolding write_tap
write_tap-ids tap_send none x = refl
write_tap-ids (ok n) (some frame) x = refl
write_tap-ids (err e) (some frame) x = refl

-- The counter after a frame was handed over, if there was one.
abbrev pub next_after : Option WifiFrame → ℕ → ℕ
next_after none n = n
next_after (some frame) n = u32 (n + 1)

module _ {E : Type 0} (link : Link) (quiet : IsQuiet link) (session : ℕ) (round : Round E)
    (x : Exchange) where
  pub tx_part-ids :
      (queued : Option WifiFrame)
      → (tx_part link session queued round x).0.next_transaction_id
        ≡ next_after queued x.next_transaction_id
  unfolding tx_part
  tx_part-ids none = refl
  tx_part-ids (some frame) =
      and_then-ids (λ response x'. (x', done tt))
        (tx_exchange link session frame round.tx_attempts x) (λ a y. refl)
      ∙ (tx_exchange-sends link quiet session x frame round.tx_attempts).2

  pub tx_part-to_tap :
      (queued : Option WifiFrame) → (tx_part link session queued round x).0.to_tap ≡ x.to_tap
  unfolding tx_part
  tx_part-to_tap none = refl
  tx_part-to_tap (some frame) =
      same_frames (tx_exchange link session frame round.tx_attempts x)
      ∙ (tx_exchange-sends link quiet session x frame round.tx_attempts).1
    where
      same_frames :
          (p : Exchange × Progress WifiTxResponse)
          → (and_then {B = Unit {0}} (λ response x'. (x', done tt)) p).0.to_tap ≡ p.0.to_tap
      same_frames (x, done a) = refl
      same_frames (x, stopped) = refl
      same_frames (x, panicked) = refl
      same_frames (x, waiting) = refl

  pub rx_part-ids :
      (rx_part link session round x).0.next_transaction_id ≡ u32 (x.next_transaction_id + 1)
  unfolding rx_part
  rx_part-ids =
      and_then-ids (λ response x'. (write_tap round.tap_send response.frame x', done tt))
        (rx_exchange link session round.rx_attempts x)
        (λ r y. write_tap-ids round.tap_send r.frame y)
      ∙ (rx_exchange-sends link quiet session x round.rx_attempts).2

-- A pass that is over has polled after it has handed its frame over.
pub exchange_round-rx_part :
    {E : Type 0} (link : Link) (session : ℕ) (round : Round E) (x : Exchange)
    → (exchange_round link session round x).1 ≡ done tt
    → exchange_round link session round x
      ≡ rx_part link session round (tx_part link session round.queued round x).0
unfolding exchange_round
exchange_round-rx_part {E} link session round x h =
    split (tx_part link session round.queued round x) h
  where
    split :
        (p : Exchange × Progress (Unit {0}))
        → (and_then (λ _ x'. rx_part link session round x') p).1 ≡ done tt
        → and_then (λ _ x'. rx_part link session round x') p ≡ rx_part link session round p.0
    split (y, done a) h = refl
    split (y, stopped) h = cc
    split (y, panicked) h = cc
    split (y, waiting) h = cc

pub exchange_round-ids :
    {E : Type 0} (link : Link) (quiet : IsQuiet link) (session : ℕ) (round : Round E) (x : Exchange)
    → (exchange_round link session round x).1 ≡ done tt
    → (exchange_round link session round x).0.next_transaction_id
      ≡ u32 (next_after round.queued x.next_transaction_id + 1)
exchange_round-ids link quiet session round x h =
    ap (λ p. p.0.next_transaction_id) (exchange_round-rx_part link session round x h)
    ∙ rx_part-ids link quiet session round (tx_part link session round.queued round x).0
    ∙ ap (λ n. u32 (n + 1)) (tx_part-ids link quiet session round x round.queued)

-- The passes after one that is over.
pub exchange_rounds-step :
    {E : Type 0} (link : Link) (session : ℕ) (round : Round E) (rest : List (Round E))
    (x : Exchange)
    → (exchange_round link session round x).1 ≡ done tt
    → exchange_rounds link session (round ∷ rest) x
      ≡ exchange_rounds link session rest (exchange_round link session round x).0
unfolding exchange_rounds
exchange_rounds-step {E} link session round rest x h = split (exchange_round link session round x) h
  where
    split :
        (p : Exchange × Progress (Unit {0}))
        → p.1 ≡ done tt
        → and_then {B = Unit {0}} (λ _ x'. exchange_rounds link session rest x') p
          ≡ exchange_rounds link session rest p.0
    split (y, done a) h = refl
    split (y, stopped) h = cc
    split (y, panicked) h = cc
    split (y, waiting) h = cc

pub no_rounds-state :
    (E : Type 0) (link : Link) (session : ℕ) (x : Exchange)
    → (exchange_rounds {E = E} link session [] x).0 ≡ x
unfolding exchange_rounds
no_rounds-state E link session x = refl
