-- ===== src/NusbTransport/Devices.antt =====
-- host/src/nusb_transport.rs: the devices on the bus, and `reconcile_and_register_devices`. The type of
-- device descriptions, its equality and `find_new_devices` are Ergot's, so they are parameters.
pub mod Seen
use Prim.Native.String.{String}
use lamella.Base.{
  ℕ, Bool, true, false, ◌&&◌, ◌||◌, ◌==◌, if◌then◌else◌, Option, none, some, List, [], ◌∷◌, Result,
  ok, err,
}
use text.Mathlib.Text.{◌==◌ as str_eq}

-- The parts of `nusb::InterfaceInfo` that the filter reads.
pub record Interface : Type 0 where
  pub class : ℕ
  pub subclass : ℕ
  pub protocol : ℕ
  pub interface_string : Option String

abbrev pub named_ergot : Option String → Bool
named_ergot none = true
named_ergot (some s) = str_eq s "ergot"

abbrev pub is_ergot : Interface → Bool
is_ergot i =
    (i.class == 0xFF && i.subclass == 0xCA && i.protocol == 0x7D) && named_ergot i.interface_string

-- `info.interfaces().any(..)`.
unfoldable pub coarse_device_filter : List Interface → Bool
coarse_device_filter [] = false
coarse_device_filter (i ∷ rest) = is_ergot i || coarse_device_filter rest

-- A device on the bus, with its description.
pub record UsbDevice (A : Type 0) : Type 0 where
  pub interfaces : List Interface
  pub info : A

module _ {A : Type 0} (same : A → A → Bool) where
  -- A `HashSet` is the list of its members.
  unfoldable pub contains : List A → A → Bool
  contains [] x = false
  contains (y ∷ set) x = same x y || contains set x

  unfoldable pub insert : A → List A → List A
  unfolding contains
  insert x set = if contains set x then set else x ∷ set

  -- `seen.retain(|info| connected.contains(info))`.
  unfoldable pub retain : List A → List A → List A
  unfolding contains
  retain connected [] = []
  retain connected (x ∷ seen) =
      let rest = retain connected seen in if contains connected x then x ∷ rest else rest

  abbrev pub infos : List (UsbDevice A) → List A
  infos [] = []
  infos (device ∷ rest) =
      let out = infos rest in
      if coarse_device_filter device.interfaces then insert device.info out else out

  -- `nusb::list_devices()`.
  unfoldable pub current_device_infos :
      {E : Type 0} → Result (List (UsbDevice A)) E → Option (List A)
  unfolding insert coarse_device_filter
  current_device_infos (err e) = none
  current_device_infos (ok devices) = some (infos devices)

  abbrev pub still_connected : Option (List A) → List A → List A
  still_connected none seen = seen
  still_connected (some connected) seen = retain connected seen

  -- The loop over the new devices, each with the result of `register_router_interface`.
  unfoldable pub register : {E : Type 0} → List (A × Result ℕ E) → List A → List A × List (ℕ × A)
  unfolding insert
  register [] seen = (seen, [])
  register ((info, err e) ∷ rest) seen = register rest seen
  register ((info, ok ident) ∷ rest) seen =
      let (seen', registered) = register rest (insert info seen) in
      (seen', (ident, info) ∷ registered)

  -- `find_new` tells which devices are new for the devices seen, and what registering them gives.
  unfoldable pub reconcile_and_register_devices :
      {E F : Type 0}
      → Result (List (UsbDevice A)) E
      → (List A → List (A × Result ℕ F))
      → List A
      → List A × List (ℕ × A)
  unfolding current_device_infos retain register
  reconcile_and_register_devices listing find_new seen =
      let known = still_connected (current_device_infos listing) seen in
      register (find_new known) known
