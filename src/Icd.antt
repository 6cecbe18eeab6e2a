-- ===== src/Icd.antt =====
-- icd/src/lib.rs: the messages that the host and the firmware exchange.
use lamella.Base.{
  ℕ, ◌%◌, ◌^◌, ◌≤◌, Bool, ◌&&◌, List, Option, some, none, ◌==◌, length, leb, if◌then◌else◌, ◌≡◌,
  ◌↔◌, arith,
}

-- `u32::wrapping_add`, `u64::wrapping_add` and the casts to these types.
abbrev pub u8 : ℕ → ℕ
u8 n = n % 2 ^ 8

abbrev pub u32 : ℕ → ℕ
u32 n = n % 2 ^ 32

abbrev pub u64 : ℕ → ℕ
u64 n = n % 2 ^ 64

-- Maximum Ethernet frame size (MTU 1500 + headers).
abbrev pub max_frame_size : ℕ
max_frame_size = 1514

-- A frame's bytes; the capacity of `heapless::Vec` is kept by `IsFrame`.
pub record WifiFrame : Type 0 where
  pub bytes : List ℕ

abbrev pub IsFrame : WifiFrame → Type 0
IsFrame f = length f.bytes ≤ max_frame_size

-- `heapless::Vec::new()` followed by `extend_from_slice`: an error if the bytes do not fit.
unfoldable pub frame_of_slice : List ℕ → Option WifiFrame
frame_of_slice bytes =
    if leb (length bytes) max_frame_size then some (record { bytes = bytes }) else none

pub record WifiTransaction : Type 0 where
  pub session : ℕ
  pub id : ℕ

pub record WifiTxRequest : Type 0 where
  pub transaction : WifiTransaction
  pub frame : WifiFrame

pub record WifiTxResponse : Type 0 where
  pub transaction : WifiTransaction

pub record WifiRxRequest : Type 0 where
  pub transaction : WifiTransaction

pub record WifiRxResponse : Type 0 where
  pub transaction : WifiTransaction
  pub frame : Option WifiFrame

-- The derived `PartialEq` of `WifiTransaction`.
abbrev pub same_transaction : WifiTransaction → WifiTransaction → Bool
same_transaction a b = (a.session == b.session) && (a.id == b.id)

pub same_transaction_iff : (a b : WifiTransaction) → (same_transaction a b ≡ Bool.true) ↔ (a ≡ b)
same_transaction_iff a b = ground arith
