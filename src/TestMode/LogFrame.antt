-- ===== src/TestMode/LogFrame.antt =====
-- host/src/test_mode.rs: `log_frame`, which reads the headers of a frame for the log. A byte that is
-- read out of bounds is a panic, `none`; what is logged is a value.
pub mod Bounds
use Prim.Native.Nat.{bit_and}
use lamella.Base.{
  ℕ, zero, suc, ◌+◌, ◌*◌, ◌%◌, Bool, true, false, Option, none, some, List, [], ◌∷◌, length, leb,
  ◌==◌, ◌&&◌, not, if◌then◌else◌,
}

-- `frame[i]`.
pub byte : List ℕ → ℕ → Option ℕ
byte [] i = none
byte (b ∷ frame) zero = some b
byte (b ∷ frame) (suc i) = byte frame i

infixl 5 ◌>>=◌
abbrev pub ◌>>=◌ : {A B : Type 0} → Option A → (A → Option B) → Option B
none >>= f = none
some a >>= f = f a

-- `u16::from_be_bytes([frame[i], frame[i + 1]])`.
abbrev pub be16 : List ℕ → ℕ → Option ℕ
be16 frame i = byte frame i >>= λ hi. byte frame (i + 1) >>= λ lo. some (hi * 256 + lo)

-- Four bytes from `i` on, as `&frame[i..i + 4]` and its elements.
pub record Ip : Type 0 where
  pub a : ℕ
  pub b : ℕ
  pub c : ℕ
  pub d : ℕ

abbrev pub ip_at : List ℕ → ℕ → Option Ip
ip_at frame i = byte frame i >>= λ a. byte frame (i + 1) >>= λ b. byte frame (i + 2) >>= λ c.
    byte frame (i + 3) >>= λ d. some (record { a = a; b = b; c = c; d = d })

pub data ProtoName : Type 0 where
  icmp tcp udp other : ProtoName

abbrev pub proto_name : ℕ → ProtoName
proto_name protocol =
    if protocol == 1
    then icmp
    else if protocol == 6
    then tcp
    else if protocol == 17
    then udp
    else other

-- The ports, in the order in which the text shows them, and the flags SYN, ACK, FIN, RST and PSH.
pub record TcpInfo : Type 0 where
  pub ports : List ℕ
  pub flags : List Bool

pub data Logged : Type 0 where
  silent : Logged
  too_short : Logged
  ipv4 : ProtoName → Ip → Ip → Option TcpInfo → Logged
  arp : Logged
  ethertype : ℕ → Logged

abbrev pub has_flag : ℕ → ℕ → Bool
has_flag flags mask = not (bit_and flags mask == 0)

abbrev pub tcp_flags : ℕ → List Bool
tcp_flags flags =
    has_flag flags 0x02
    ∷ has_flag flags 0x10
    ∷ has_flag flags 0x01
    ∷ has_flag flags 0x04
    ∷ has_flag flags 0x08
    ∷ []

unfoldable pub log_tcp_at : List ℕ → ℕ → Option (Option TcpInfo)
log_tcp_at frame tcp_start =
    if leb (tcp_start + 14) (length frame)
    then (be16 frame tcp_start >>= λ src_port. be16 frame (tcp_start + 2) >>= λ dst_port.
        byte frame (tcp_start + 13) >>= λ flags. some (
          some (record {
            ports = src_port ∷ dst_port ∷ dst_port ∷ src_port ∷ [];
            flags = tcp_flags flags;
          })))
    else some none

-- The header's length is `(frame[14] & 0x0f) * 4`.
unfoldable pub log_tcp : List ℕ → ℕ → Option (Option TcpInfo)
unfolding log_tcp_at
log_tcp frame protocol =
    if (protocol == 6) && leb 54 (length frame)
    then (byte frame 14 >>= λ b. log_tcp_at frame (14 + b % 16 * 4))
    else some none

unfoldable pub log_ipv4 : List ℕ → Option Logged
unfolding log_tcp
log_ipv4 frame = byte frame 23 >>= λ protocol. ip_at frame 26 >>= λ src_ip.
    ip_at frame 30 >>= λ dst_ip.
    log_tcp frame protocol >>= λ extra. some (ipv4 (proto_name protocol) src_ip dst_ip extra)

unfoldable pub log_ethernet : List ℕ → ℕ → Option Logged
unfolding log_ipv4
log_ethernet frame type =
    if (type == 0x0800) && leb 34 (length frame)
    then log_ipv4 frame
    else if type == 0x0806
    then some arp
    else some (ethertype type)

unfoldable pub log_frame : ℕ → List ℕ → Option Logged
unfolding log_ethernet
log_frame count frame =
    if not (count % 100 == 0)
    then some silent
    else if leb 14 (length frame)
    then (be16 frame 12 >>= λ type. log_ethernet frame type)
    else some too_short
