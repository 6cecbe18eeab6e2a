-- ===== src/Faults/Budget.antt =====
-- host/src/serial_transport.rs: how many requests `EndpointFaultInjector` drops.
use Prim.Native.String.{String}
use lamella.Base.{
  ℕ, zero, suc, ◌+◌, Bool, true, false, List, [], ◌∷◌, ◌≡◌, refl, ap, ◌∙◌, arith, if◌then◌else◌,
}
use lamella.Faults.{
  EndpointFaultDirection, direction_matches, EndpointFaultInjector, fetch_checked_sub, should_drop,
}
use lamella.Exchange.Rounds.{tx_kind, rx_kind}
use Prim.Native.Nat.{min}

-- The drops among requests for these directions, one after another.
pub drops : List String → EndpointFaultInjector → ℕ
drops [] self = 0
drops (direction ∷ rest) self =
    let (self', dropped) = should_drop direction self in
    (if dropped then 1 else 0) + drops rest self'

-- The requests of `wifi_exchange`, and how it names them to the injector.
pub data Sent : Type 0 where
  tx_sent tx_backup rx_sent rx_backup : Sent

abbrev pub label : Sent → String
label tx_sent = tx_kind.direction
label tx_backup = tx_kind.backup_direction
label rx_sent = rx_kind.direction
label rx_backup = rx_kind.backup_direction

abbrev pub labels : List Sent → List String
labels [] = []
labels (request ∷ rest) = label request ∷ labels rest

-- Whether a request is one of the direction to be dropped.
abbrev pub is_of : EndpointFaultDirection → Sent → Bool
is_of EndpointFaultDirection.any request = true
is_of EndpointFaultDirection.tx tx_sent = true
is_of EndpointFaultDirection.tx tx_backup = true
is_of EndpointFaultDirection.tx rx_sent = false
is_of EndpointFaultDirection.tx rx_backup = false
is_of EndpointFaultDirection.rx tx_sent = false
is_of EndpointFaultDirection.rx tx_backup = false
is_of EndpointFaultDirection.rx rx_sent = true
is_of EndpointFaultDirection.rx rx_backup = true

pub matching : EndpointFaultDirection → List Sent → ℕ
matching direction [] = 0
matching direction (request ∷ rest) =
    (if is_of direction request then 1 else 0) + matching direction rest

direction_matches-label :
    (d : EndpointFaultDirection) (request : Sent)
    → direction_matches d (label request) ≡ is_of d request
direction_matches-label EndpointFaultDirection.any request = refl
direction_matches-label EndpointFaultDirection.tx tx_sent = refl
direction_matches-label EndpointFaultDirection.tx tx_backup = refl
direction_matches-label EndpointFaultDirection.tx rx_sent = refl
direction_matches-label EndpointFaultDirection.tx rx_backup = refl
direction_matches-label EndpointFaultDirection.rx tx_sent = refl
direction_matches-label EndpointFaultDirection.rx tx_backup = refl
direction_matches-label EndpointFaultDirection.rx rx_sent = refl
direction_matches-label EndpointFaultDirection.rx rx_backup = refl

drop_one :
    (direction : String) (self : EndpointFaultInjector)
    → should_drop direction self ≡ (
        if direction_matches self.direction direction
        then (
          record self { remaining = (fetch_checked_sub self.remaining).0 },
          (fetch_checked_sub self.remaining).1,
        )
        else (self, false))
unfolding should_drop
drop_one direction self = refl

-- Over any sequence of first and backup requests of both directions, the injector drops exactly those
-- of its direction (any, tx or rx), up to the number that it was started with.
pub drops_lem :
    (l : List Sent) (self : EndpointFaultInjector)
    → drops (labels l) self ≡ min self.remaining (matching self.direction l)
unfolding drops matching
drops_lem [] self = omega arith
drops_lem (request ∷ l) self =
    let one =
      drop_one (label request) self
      ∙ ap
          (λ b.
            if b
            then (
              record self { remaining = (fetch_checked_sub self.remaining).0 },
              (fetch_checked_sub self.remaining).1,
            )
            else (self, false))
          (direction_matches-label self.direction request) in
    rw one (
      counted (is_of self.direction request) self.remaining
        (λ n. drops_lem l (record self { remaining = n })))
  where
    counted :
        (b : Bool) (n : ℕ)
        → ((k : ℕ)
            → drops (labels l) (record self { remaining = k }) ≡ min k (matching self.direction l))
        → (let o : EndpointFaultInjector × Bool =
              if b
              then (record self { remaining = (fetch_checked_sub n).0 }, (fetch_checked_sub n).1)
              else (record self { remaining = n }, false) in
            (if o.1 then 1 else 0) + drops (labels l) o.0)
          ≡ min n ((if b then 1 else 0) + matching self.direction l)
    counted true zero ih = omega (arith, ih 0)
    counted true (suc n) ih = omega (arith, ih n)
    counted false n ih = omega (arith, ih n)
