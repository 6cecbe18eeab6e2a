-- ===== src/Faults.antt =====
-- host/src/serial_transport.rs: `EndpointFaultInjector`, which drops requests in tests. Its counter
-- is shared by all clones, so it stands in the state that the exchange passes on.
pub mod Budget
use Prim.Native.String.{String}
use text.Mathlib.Text.{starts_with}
use text.Mathlib.Text.{◌==◌ as str_eq}
use lamella.Base.{
  ℕ, zero, suc, Bool, true, false, Option, none, some, if◌then◌else◌, Result, ok, err,
}

pub data EndpointFaultDirection : Type 0 where
  any tx rx : EndpointFaultDirection

-- `std::env::var(FAULT_DIRECTION_ENV)`: `none` is `Err(_)`.
unfoldable pub direction_from_env : Option String → EndpointFaultDirection
direction_from_env none = EndpointFaultDirection.any
direction_from_env (some value) =
    if str_eq value "tx"
    then EndpointFaultDirection.tx
    else if str_eq value "rx"
    then EndpointFaultDirection.rx
    else EndpointFaultDirection.any

abbrev pub direction_matches : EndpointFaultDirection → String → Bool
direction_matches EndpointFaultDirection.any direction = true
direction_matches EndpointFaultDirection.tx direction = starts_with direction "WiFi TX"
direction_matches EndpointFaultDirection.rx direction = starts_with direction "WiFi RX"

pub record EndpointFaultInjector : Type 0 where
  pub remaining : ℕ  -- Arc<AtomicUsize>
  pub direction : EndpointFaultDirection

-- `value.parse::<usize>()` is the library's, so its result is the argument: `none` if the variable
-- is not set or does not parse.
unfoldable pub injector_from_env : Option ℕ → Option String → EndpointFaultInjector
unfolding direction_from_env
injector_from_env none direction = record {
  remaining = 0;
  direction = direction_from_env direction;
}
injector_from_env (some remaining) direction = record {
  remaining = remaining;
  direction = direction_from_env direction;
}

-- `#[derive(Default)]`, written out.
abbrev pub default_injector : EndpointFaultInjector
default_injector = record { remaining = 0; direction = EndpointFaultDirection.any }

-- `fetch_update(.., |remaining| remaining.checked_sub(1)).is_ok()`.
abbrev pub fetch_checked_sub : ℕ → ℕ × Bool
fetch_checked_sub zero = (zero, false)
fetch_checked_sub (suc remaining) = (remaining, true)

unfoldable pub should_drop : String → EndpointFaultInjector → EndpointFaultInjector × Bool
should_drop direction self =
    let (remaining, dropped) = fetch_checked_sub self.remaining in
    if direction_matches self.direction direction
    then (record self { remaining = remaining }, dropped)
    else (self, false)
