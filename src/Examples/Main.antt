-- ===== src/Examples/Main.antt =====
-- The MAC address of a TAP interface of host/src/main.rs.
use lamella.Base.{Bool, ℕ, true, List, [], ◌∷◌, ◌≡◌, refl, Result, ok, arith}
use lamella.Main.{create_tap_interface}
use lamella.Main.Text.{AsksFor, create_tap_interface-AsksFor}

abbrev mac : List ℕ
mac = 0x02 ∷ 0xAB ∷ 0 ∷ 0xFF ∷ 0x10 ∷ 9 ∷ []

abbrev built : Result (Unit {0}) ℕ
built = ok tt

create_tap_interface-AsksFor_example :
    AsksFor mac (create_tap_interface {F = ℕ} mac built (ok true)).1
    × (built ≡ ok tt)
    × (◌≡◌ {A = Result Bool ℕ} (ok true) (ok true))
unfolding create_tap_interface
create_tap_interface-AsksFor_example =
    create_tap_interface-AsksFor {F = ℕ} mac built (ok true) (λ e. cc)
      (omega arith, (omega arith, (omega arith, (omega arith, (omega arith, (omega arith, tt))))))
      refl
