-- ===== src/Bytes/Hex.antt =====
-- `bytesToHex` and `hexToBytes`. A text is the list of its code units.
use sigbash_sdk.Prelude.{
  ℕ, ◌+◌, ◌*◌, ◌-◌, ◌/◌, ◌%◌, ◌≤◌, ◌<◌, ◌≡◌, refl, ap, [], ◌∷◌, length, Bool, true, ◌&&◌, ◌||◌, all,
  leb, ltb, ◌==◌, if◌then◌else◌, Result, ok, guard, plain_error, bad_value, arith, All, eqb,
  eqb_iff, ◌↔◌,
}
use sigbash_sdk.Calls.{◌>>◌}
use sigbash_sdk.Bytes.{Bytes}
use sigbash_sdk.Text.{Text, between}

-- The digit of a number below 16, in lower case.
unfoldable pub hex_digit : ℕ → ℕ
hex_digit n = if ltb n 10 then 0x30 + n else 0x57 + n

-- `Array.from(bytes, (b) => b.toString(16).padStart(2, '0')).join('')`
unfoldable pub bytes_to_hex : Bytes → Text
bytes_to_hex [] = []
bytes_to_hex (b ∷ bs) = hex_digit (b / 16) ∷ hex_digit (b % 16) ∷ bytes_to_hex bs

-- `[0-9a-f]` without regard to case.
unfoldable pub is_hex : ℕ → Bool
is_hex c = between 0x30 0x39 c || (between 0x61 0x66 c || between 0x41 0x46 c)

-- What `parseInt(…, 16)` makes of a digit.
unfoldable pub digit_value : ℕ → ℕ
digit_value c = if leb c 0x39 then c - 0x30 else if leb c 0x46 then c - 0x37 else c - 0x57

unfoldable pub digit_pairs : Text → Bytes
digit_pairs (a ∷ b ∷ t) = (digit_value a * 16 + digit_value b) ∷ digit_pairs t
digit_pairs _ = []

unfoldable pub hex_to_bytes : Text → Result Bytes
hex_to_bytes hex = do
  guard (length hex % 2 == 0 && all is_hex hex) (plain_error bad_value)
  ok (digit_pairs hex)

digit_value-hex_digit : (n : ℕ) → n < 16 → digit_value (hex_digit n) ≡ n
unfolding digit_value hex_digit
digit_value-hex_digit n h = ground arith

hex_digit-is_hex : (n : ℕ) → n < 16 → is_hex (hex_digit n) ≡ true
unfolding is_hex hex_digit
hex_digit-is_hex n h = ground arith

digit_pairs-bytes_to_hex :
    (bs : Bytes) → All (λ b. b ≤ 0xff) bs → digit_pairs (bytes_to_hex bs) ≡ bs
unfolding digit_pairs bytes_to_hex
digit_pairs-bytes_to_hex [] h = refl
digit_pairs-bytes_to_hex (b ∷ bs) (p, h) =
    let hi = digit_value-hex_digit (b / 16) (omega arith) in
    let lo = digit_value-hex_digit (b % 16) (omega arith) in
    let e : b / 16 * 16 + b % 16 ≡ b = omega arith in
    rw (hi, lo, e, digit_pairs-bytes_to_hex bs h) refl

bytes_to_hex-all_hex : (bs : Bytes) → All (λ b. b ≤ 0xff) bs → all is_hex (bytes_to_hex bs) ≡ true
unfolding bytes_to_hex
bytes_to_hex-all_hex [] h = refl
bytes_to_hex-all_hex (b ∷ bs) (p, h) =
    let hi = hex_digit-is_hex (b / 16) (omega arith) in
    let lo = hex_digit-is_hex (b % 16) (omega arith) in rw (hi, lo, bytes_to_hex-all_hex bs h) refl

pub length-bytes_to_hex : (bs : Bytes) → length (bytes_to_hex bs) ≡ 2 * length bs
unfolding bytes_to_hex
length-bytes_to_hex [] = omega arith
length-bytes_to_hex (b ∷ bs) = omega (arith, length-bytes_to_hex bs)

-- The bytes that the hexadecimal text of an array of bytes (numbers up to 255) stands for are those
-- of the array.
pub hex_to_bytes-bytes_to_hex :
    (bs : Bytes) → All (λ b. b ≤ 0xff) bs → hex_to_bytes (bytes_to_hex bs) ≡ ok bs
unfolding hex_to_bytes ◌>>◌
hex_to_bytes-bytes_to_hex bs h =
    let even : (length (bytes_to_hex bs) % 2 == 0) ≡ true =
      rw (length-bytes_to_hex bs) (ground arith) in
    rw (even, bytes_to_hex-all_hex bs h, digit_pairs-bytes_to_hex bs h) refl

hex_digit-injective : (m n : ℕ) → hex_digit m ≡ hex_digit n → m ≡ n
unfolding hex_digit
hex_digit-injective m n h = ground arith

pub bytes_to_hex-injective : (as' bs : Bytes) → bytes_to_hex as' ≡ bytes_to_hex bs → as' ≡ bs
unfolding bytes_to_hex
bytes_to_hex-injective [] [] h = refl
bytes_to_hex-injective [] (b ∷ bs) h = absurd cc
bytes_to_hex-injective (a ∷ as') [] h = absurd cc
bytes_to_hex-injective (a ∷ as') (b ∷ bs) h =
    let hi = hex_digit-injective (a / 16) (b / 16) cc in
    let lo = hex_digit-injective (a % 16) (b % 16) cc in
    let e : a ≡ b = omega arith in let later = bytes_to_hex-injective as' bs cc in cc

-- `bytesToHex(a) === bytesToHex(b)`
unfoldable pub same_hex : Bytes → Bytes → Bool
same_hex a b = eqb (bytes_to_hex a) (bytes_to_hex b)

pub same_hex_iff : (a b : Bytes) → (same_hex a b ≡ true) ↔ (a ≡ b)
unfolding same_hex
same_hex_iff a b =
    (λ h. bytes_to_hex-injective a b ((eqb_iff _ _).0 h), λ e. (eqb_iff _ _).1 (ap bytes_to_hex e))
