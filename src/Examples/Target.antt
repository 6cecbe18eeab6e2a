-- ===== src/Examples/Target.antt =====
-- Targets of the test mode of host/src/serial_transport.rs.
use lamella.Base.{
  ℕ, ◌-◌, Option, none, some, List, [], ◌∷◌, ◌++◌, ok, ◌≡◌, refl, arith, if◌then◌else◌, ltb,
}
use lamella.SerialTransport.Target.{Ipv4Address, ip_address, http_target}
use lamella.SerialTransport.Target.Texts.{dotted, ip_address-dotted, http_target-parts}

-- Numbers of one digit.
abbrev parse : List ℕ → Option ℕ
parse [] = none
parse (x ∷ []) = if ltb x b'0' then none else if ltb b'9' x then none else some (x - b'0')
parse (x ∷ y ∷ s) = none

abbrev ip : Ipv4Address
ip = record { a = 1; b = 2; c = 3; d = 4 }

abbrev host : List ℕ
host = dotted (b'1' ∷ []) (b'2' ∷ []) (b'3' ∷ []) (b'4' ∷ [])

host_is_ip : ip_address parse parse host ≡ ok ip
host_is_ip =
    ip_address-dotted parse parse (b'1' ∷ []) (b'2' ∷ []) (b'3' ∷ []) (b'4' ∷ []) ip (omega arith)
      (omega arith) (omega arith) (omega arith) refl refl refl refl

http_target-parts_example :
    http_target parse parse ((host ++ b':' ∷ b'8' ∷ []) ++ b'/' ∷ b'f' ∷ [])
    ≡ ok (record { server_ip = ip; server_port = 8 }, b'/' ∷ b'f' ∷ [])
http_target-parts_example =
    http_target-parts parse parse host (b'8' ∷ []) (b'f' ∷ []) ip 8 (omega arith) (omega arith)
      (omega arith) host_is_ip refl
