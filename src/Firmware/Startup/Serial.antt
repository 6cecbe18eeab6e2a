-- ===== src/Firmware/Startup/Serial.antt =====
-- firmware-s3/src/bin/main.rs: the USB serial number, made of the chip's id.
use lamella.Base.{
  ℕ, zero, suc, ◌+◌, ◌-◌, ◌*◌, ◌/◌, ◌%◌, ◌^◌, ◌<◌, if◌then◌else◌, List, [], ◌∷◌, ◌++◌, ◌≡◌, refl,
  ap, ◌∙◌, ltb, arith,
}

-- `u64::to_be_bytes`, for a number of bytes.
unfoldable pub to_be_bytes : ℕ → ℕ → List ℕ
to_be_bytes zero n = []
to_be_bytes (suc k) n = to_be_bytes k (n / 256) ++ n % 256 ∷ []

-- `match b >> 4`.
abbrev pub upper_digit : ℕ → ℕ
upper_digit v = if ltb v 10 then 48 + v else if ltb v 16 then 65 + (v - 10) else 88

-- Both digits of a byte: `b <<= 4` between them drops the upper one.
abbrev pub digits : ℕ → List ℕ
digits b = upper_digit (b / 16) ∷ upper_digit ((b * 16) % 256 / 16) ∷ []

abbrev pub concat_digits : List ℕ → List ℕ
concat_digits [] = []
concat_digits (b ∷ bytes) = digits b ++ concat_digits bytes

unfoldable pub serial_string : ℕ → List ℕ
unfolding to_be_bytes
serial_string unique_id = concat_digits (to_be_bytes 8 unique_id)

-- Reading the digits 0 to 9 and A to F as a number, from the left.
abbrev pub value_of : ℕ → ℕ
value_of c = if ltb c 58 then c - 48 else c - 55

abbrev pub read_hex : ℕ → List ℕ → ℕ
read_hex n [] = n
read_hex n (c ∷ text) = read_hex (n * 16 + value_of c) text

value_of-upper_digit : (v : ℕ) → v < 16 → value_of (upper_digit v) ≡ v
value_of-upper_digit v h = ground arith

read_hex-append : (n : ℕ) (s t : List ℕ) → read_hex n (s ++ t) ≡ read_hex (read_hex n s) t
read_hex-append n [] t = refl
read_hex-append n (c ∷ s) t = read_hex-append (n * 16 + value_of c) s t

concat_digits-append : (a b : List ℕ) → concat_digits (a ++ b) ≡ concat_digits a ++ concat_digits b
concat_digits-append [] b = refl
concat_digits-append (x ∷ a) b =
    ap (λ l. upper_digit (x / 16) ∷ upper_digit ((x * 16) % 256 / 16) ∷ l)
      (concat_digits-append a b)

read_hex-digits : (n b : ℕ) → b < 256 → read_hex n (digits b) ≡ n * 256 + b
read_hex-digits n b h =
    rw (value_of-upper_digit (b / 16) (omega arith))
      (rw (value_of-upper_digit ((b * 16) % 256 / 16) (omega arith)) (omega arith))

upper_part : (k m : ℕ) → m < 256 ^ suc k → m / 256 < 256 ^ k
upper_part k m h = omega (arith, h)

read_hex-to_be_bytes : (k m : ℕ) → m < 256 ^ k → read_hex 0 (concat_digits (to_be_bytes k m)) ≡ m
unfolding to_be_bytes
read_hex-to_be_bytes zero m h = omega (arith, h)
read_hex-to_be_bytes (suc k) m h =
    ap (read_hex 0) (concat_digits-append (to_be_bytes k (m / 256)) (m % 256 ∷ []))
    ∙ read_hex-append 0 (concat_digits (to_be_bytes k (m / 256))) (digits (m % 256))
    ∙ ap (λ n. read_hex n (digits (m % 256))) (read_hex-to_be_bytes k (m / 256) (upper_part k m h))
    ∙ read_hex-digits (m / 256) (m % 256) (omega arith)
    ∙ omega arith

-- The serial number is the chip's id in hexadecimal digits: reading them gives the id, so different
-- ids of 64 bits have different serial numbers.
pub read_hex-serial_string :
    (unique_id : ℕ) → unique_id < 2 ^ 64 → read_hex 0 (serial_string unique_id) ≡ unique_id
unfolding serial_string
read_hex-serial_string unique_id h = read_hex-to_be_bytes 8 unique_id (omega (arith, h))
