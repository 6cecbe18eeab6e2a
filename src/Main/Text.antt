-- ===== src/Main/Text.antt =====
-- host/src/main.rs: the text of a MAC address, and reading it.
use lamella.Base.{
  ℕ, ◌+◌, ◌-◌, ◌*◌, ◌/◌, ◌%◌, ◌<◌, Bool, true, false, ◌==◌, if◌then◌else◌, Option, none, some, List,
  [], ◌∷◌, ◌≡◌, ◌≢◌, refl, ap, ◌∙◌, Result, ok, err, ltb, All, arith,
}
use lamella.Main.{hex_digit, mac_str, create_tap_interface}

-- The value of a digit from 0 to 9 or a to f.
abbrev pub digit : ℕ → Option ℕ
digit c =
    if ltb c 48
    then none
    else if ltb c 58
    then some (c - 48)
    else if ltb c 97
    then none
    else if ltb c 103
    then some (c - 87)
    else none

abbrev pub pair : Option ℕ → Option ℕ → Option (List ℕ) → Option (List ℕ)
pair none y rest = none
pair (some x) none rest = none
pair (some x) (some y) none = none
pair (some x) (some y) (some rest) = some ((x * 16 + y) ∷ rest)

-- An address as `ip` takes it: pairs of digits with colons in between.
pub read_mac : List ℕ → Option (List ℕ)
read_mac [] = none
read_mac (x ∷ []) = none
read_mac (x ∷ y ∷ []) = pair (digit x) (digit y) (some [])
read_mac (x ∷ y ∷ c ∷ rest) =
    let later = read_mac rest in if c == 58 then pair (digit x) (digit y) later else none

digit-hex_digit : (n : ℕ) → n < 16 → digit (hex_digit n) ≡ some n
digit-hex_digit n h = ground arith

pair-two_digits :
    (b : ℕ) (rest : List ℕ)
    → b < 256
    → pair (digit (hex_digit (b / 16))) (digit (hex_digit (b % 16))) (some rest) ≡ some (b ∷ rest)
pair-two_digits b rest h =
    let whole : b / 16 * 16 + b % 16 ≡ b = omega arith in
    rw (digit-hex_digit (b / 16) (omega arith))
      (rw (digit-hex_digit (b % 16) (omega arith)) (ap (λ n. some (n ∷ rest)) whole))

read_mac-mac_str :
    (mac : List ℕ) → mac ≢ [] → All (λ b. b < 256) mac → read_mac (mac_str mac) ≡ some mac
unfolding read_mac mac_str
read_mac-mac_str [] some_byte h = absurd (some_byte refl)
read_mac-mac_str (b ∷ []) some_byte h = pair-two_digits b [] h.0
read_mac-mac_str (b ∷ c ∷ rest) some_byte h =
    ap (pair (digit (hex_digit (b / 16))) (digit (hex_digit (b % 16))))
      (read_mac-mac_str (c ∷ rest) (λ e. cc) h.1)
    ∙ pair-two_digits b (c ∷ rest) h.0

-- What `ip` is asked for, if it is run: the address, and nothing else.
abbrev pub AsksFor : List ℕ → List (List ℕ) → Type 0
AsksFor mac [] = ⊥
AsksFor mac (text ∷ []) = read_mac text ≡ some mac
AsksFor mac (text ∷ other ∷ rest) = ⊥

-- For an address of bytes, at least one: a TAP interface that is returned exists, and was given the
-- MAC address: the text that `ip` got is read as the bytes of the address, and `ip` succeeded.
pub create_tap_interface-AsksFor :
    {E F : Type 0} (mac : List ℕ) (built : Result (Unit {0}) E) (status : Result Bool F)
    → mac ≢ []
    → All (λ b. b < 256) mac
    → (create_tap_interface mac built status).0 ≡ ok tt
    → AsksFor mac (create_tap_interface mac built status).1 × (built ≡ ok tt) × (status ≡ ok true)
unfolding create_tap_interface
create_tap_interface-AsksFor mac (err e) status some_byte h r = cc
create_tap_interface-AsksFor mac (ok _) (err e) some_byte h r = cc
create_tap_interface-AsksFor mac (ok _) (ok false) some_byte h r = cc
create_tap_interface-AsksFor mac (ok u) (ok true) some_byte h r =
    (read_mac-mac_str mac some_byte h, refl, refl)
