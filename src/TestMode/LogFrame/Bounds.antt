-- ===== src/TestMode/LogFrame/Bounds.antt =====
-- host/src/test_mode.rs: the bytes of the frame that `log_frame` reads.
use lamella.Base.{
  ℕ, zero, suc, ◌+◌, ◌*◌, ◌%◌, ◌≤◌, ◌<◌, Option, none, some, List, [], ◌∷◌, length, leb, ◌==◌, ◌&&◌,
  arith, Bool-cases, inl, inr, leb→le,
}
use lamella.TestMode.LogFrame.{
  byte, ◌>>=◌, be16, ip_at, log_tcp_at, log_tcp, log_ipv4, log_ethernet, log_frame,
}

-- There is a value.
abbrev pub Found : {A : Type 0} → Option A → Type 0
Found none = ⊥
Found (some a) = Unit

byte-Found : (frame : List ℕ) (i : ℕ) → i < length frame → Found (byte frame i)
unfolding byte
byte-Found [] i h = absurd (omega arith)
byte-Found (b ∷ frame) zero h = tt
byte-Found (b ∷ frame) (suc i) h = byte-Found frame i (omega arith)

>>=-Found :
    {A B : Type 0} (o : Option A) (f : A → Option B)
    → Found o
    → ((a : A) → Found (f a))
    → Found (o >>= f)
>>=-Found none f h g = absurd h
>>=-Found (some a) f h g = g a

be16-Found : (frame : List ℕ) (i : ℕ) → i + 1 < length frame → Found (be16 frame i)
be16-Found frame i h =
    >>=-Found (byte frame i) _ (byte-Found frame i (omega arith))
      (λ hi. >>=-Found (byte frame (i + 1)) _ (byte-Found frame (i + 1) h) (λ lo. tt))

ip_at-Found : (frame : List ℕ) (i : ℕ) → i + 3 < length frame → Found (ip_at frame i)
ip_at-Found frame i h = >>=-Found (byte frame i) _ (byte-Found frame i (omega arith)) λ a.
    >>=-Found (byte frame (i + 1)) _ (byte-Found frame (i + 1) (omega arith)) λ b.
      >>=-Found (byte frame (i + 2)) _ (byte-Found frame (i + 2) (omega arith))
        λ c. >>=-Found (byte frame (i + 3)) _ (byte-Found frame (i + 3) h) λ d. tt

log_tcp_at-Found : (frame : List ℕ) (start : ℕ) → Found (log_tcp_at frame start)
unfolding log_tcp_at
log_tcp_at-Found frame start = elim (Bool-cases (leb (start + 14) (length frame))) [
  | inl fits ↦ rw fits (
      let le : start + 14 ≤ length frame = leb→le _ _ fits in
      >>=-Found (be16 frame start) _ (be16-Found frame start (omega arith)) λ s.
        >>=-Found (be16 frame (start + 2)) _ (be16-Found frame (start + 2) (omega arith)) λ d.
          >>=-Found (byte frame (start + 13)) _ (byte-Found frame (start + 13) (omega arith))
            λ f. tt)
  | inr short ↦ rw short tt
]

log_tcp-Found : (frame : List ℕ) (protocol : ℕ) → Found (log_tcp frame protocol)
unfolding log_tcp
log_tcp-Found frame protocol = elim (Bool-cases ((protocol == 6) && leb 54 (length frame))) [
  | inl is_tcp ↦ rw is_tcp (
      >>=-Found (byte frame 14) _ (byte-Found frame 14 (ground arith))
        (λ b. log_tcp_at-Found frame (14 + b % 16 * 4)))
  | inr not_tcp ↦ rw not_tcp tt
]

log_ipv4-Found : (frame : List ℕ) → 34 ≤ length frame → Found (log_ipv4 frame)
unfolding log_ipv4
log_ipv4-Found frame h = >>=-Found (byte frame 23) _ (byte-Found frame 23 (omega arith)) λ protocol.
    >>=-Found (ip_at frame 26) _ (ip_at-Found frame 26 (omega arith)) λ src.
      >>=-Found (ip_at frame 30) _ (ip_at-Found frame 30 (omega arith))
        λ dst. >>=-Found (log_tcp frame protocol) _ (log_tcp-Found frame protocol) λ extra. tt

log_ethernet-Found : (frame : List ℕ) (type : ℕ) → Found (log_ethernet frame type)
unfolding log_ethernet
log_ethernet-Found frame type = elim (Bool-cases ((type == 0x0800) && leb 34 (length frame))) [
  | inl is_ipv4 ↦ rw is_ipv4 (log_ipv4-Found frame (ground arith))
  | inr not_ipv4 ↦ rw not_ipv4 (elim (Bool-cases (type == 0x0806)) [
    | inl is_arp ↦ rw is_arp tt
    | inr not_arp ↦ rw not_arp tt
  ])
]

-- Logging a frame reads no byte out of bounds, whatever the bytes are: not of a short frame, nor of
-- one whose IPv4 header claims a length that the frame does not have.
pub log_frame-Found : (count : ℕ) (frame : List ℕ) → Found (log_frame count frame)
unfolding log_frame
log_frame-Found count frame = elim (Bool-cases (count % 100 == 0)) [
  | inr skipped ↦ rw skipped tt
  | inl logged ↦ rw logged (elim (Bool-cases (leb 14 (length frame))) [
    | inl long ↦ rw long (
        >>=-Found (be16 frame 12) _ (be16-Found frame 12 (ground arith))
          (λ type. log_ethernet-Found frame type))
    | inr short ↦ rw short tt
  ])
]
