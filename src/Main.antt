-- ===== src/Main.antt =====
-- host/src/main.rs: the TAP interface with its MAC address. Main.Program is `main`.
pub mod Text
pub mod Program
use lamella.Base.{
  ℕ, ◌+◌, ◌/◌, ◌%◌, Bool, true, false, if◌then◌else◌, Option, none, some, List, [], ◌∷◌, ◌++◌,
  Result, ok, err, ltb,
}

-- A digit of `{:x}`, as its byte.
abbrev pub hex_digit : ℕ → ℕ
hex_digit n = if ltb n 10 then 48 + n else 87 + n

-- `{:02x}` of a byte.
abbrev pub two_digits : ℕ → List ℕ
two_digits b = hex_digit (b / 16) ∷ hex_digit (b % 16) ∷ []

-- The bytes of the address with colons in between.
unfoldable pub mac_str : List ℕ → List ℕ
mac_str [] = []
mac_str (b ∷ []) = two_digits b
mac_str (b ∷ c ∷ rest) = two_digits b ++ 58 ∷ mac_str (c ∷ rest)

pub data TapError : Type 0 where
  not_created : TapError
  ip_not_run : TapError
  address_not_set : TapError

-- What `ip link set esp32tap address` returned: whether it succeeded, if it could be run.
abbrev pub after_status : {E : Type 0} → Result Bool E → Result (Unit {0}) TapError
after_status (err e) = err ip_not_run
after_status (ok false) = err address_not_set
after_status (ok true) = ok tt

-- The result, and the addresses that `ip` was asked to set.
unfoldable pub create_tap_interface :
    {E F : Type 0}
    → List ℕ
    → Result (Unit {0}) E
    → Result Bool F
    → Result (Unit {0}) TapError × List (List ℕ)
unfolding mac_str
create_tap_interface mac (err e) status = (err not_created, [])
create_tap_interface mac (ok _) status = (after_status status, mac_str mac ∷ [])
