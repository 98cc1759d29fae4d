-- ===== src/Bytes/LittleEndian.antt =====
-- Little-endian bytes of a number, there and back, and the rounding of `Number(bigint)`.
use sigbash_sdk.Prelude.{
  ℕ, zero, suc, ◌+◌, ◌*◌, ◌/◌, ◌%◌, ◌^◌, ◌<◌, ◌≡◌, refl, ap, List, [], ◌∷◌, length, ltb, ◌==◌,
  if◌then◌else◌, arith, Error,
}
use sigbash_sdk.Bytes.Decoder.{M, ◌>>=◌, read_bytes_or}
use sigbash_sdk.Bytes.Reads.{Reads, Reads-bind, Reads-read_bytes}
use native.Mathlib.Nat.{pow-suc}
use mathlib.Core.List.{append-nil}

unfoldable pub little_endian : ℕ → ℕ → List ℕ
little_endian zero n = []
little_endian (suc k) n = (n % 256) ∷ little_endian k (n / 256)

unfoldable pub from_little_endian : List ℕ → ℕ
from_little_endian [] = 0
from_little_endian (b ∷ bs) = b + 256 * from_little_endian bs

pub length-little_endian : (k n : ℕ) → length (little_endian k n) ≡ k
unfolding little_endian
length-little_endian zero n = refl
length-little_endian (suc k) n = ap suc (length-little_endian k (n / 256))

pub from_little_endian-little_endian :
    (k n : ℕ) → n < 256 ^ k → from_little_endian (little_endian k n) ≡ n
unfolding little_endian from_little_endian
from_little_endian-little_endian zero n h = omega arith
from_little_endian-little_endian (suc k) n h =
    let e : 256 ^ suc k ≡ 256 ^ k * 256 = pow-suc 256 k in
    let high : n / 256 < 256 ^ k = omega arith in
    omega (arith, from_little_endian-little_endian k (n / 256) high)

-- A number of `k` bytes, read as `k` bytes and a number.
pub Reads-little_endian :
    {A : Type 0} (e : Error) (k n : ℕ) (f : ℕ → M A) (v : A)
    → n < 256 ^ k
    → Reads (f n) [] v
    → Reads (do bytes ← read_bytes_or e k; f (from_little_endian bytes)) (little_endian k n) v
Reads-little_endian e k n f v h last = rw (append-nil (little_endian k n)) at (
    Reads-bind (read_bytes_or e k) (λ bytes. f (from_little_endian bytes)) (little_endian k n) v
      (little_endian k n) [] (Reads-read_bytes e k _ (length-little_endian k n))
      (rw (from_little_endian-little_endian k n h) last))

-- The distance of neighbouring doubles at a number whose quotient by 2 ^ 53 is `q`.
unfoldable pub spacing : ℕ → ℕ → ℕ
spacing zero q = 1
spacing (suc k) q = let more = 2 * spacing k (q / 2) in if q == 0 then 1 else more

-- To a multiple of `u`; a tie goes to the even multiple.
unfoldable pub round_to : ℕ → ℕ → ℕ
round_to u v =
    if ltb (2 * (v % u)) u
    then v / u * u
    else if ltb u (2 * (v % u))
    then (v / u + 1) * u
    else if v / u % 2 == 0
    then v / u * u
    else (v / u + 1) * u

-- `Number(v)` for a `bigint` below 2 ^ 64, whose bits above the 53rd number at most 11.
unfoldable pub to_number : ℕ → ℕ
to_number v = round_to (spacing 12 (v / 2 ^ 53)) v

spacing_zero : spacing 12 0 ≡ 1
unfolding spacing
spacing_zero = refl

round_to_one : (v : ℕ) → round_to 1 v ≡ v
unfolding round_to
round_to_one v = ground arith

-- Numbers of at most 53 bits are exact.
pub to_number_exact : (v : ℕ) → v < 2 ^ 53 → to_number v ≡ v
unfolding to_number
to_number_exact v h = let e : v / 2 ^ 53 ≡ 0 = omega arith in rw (e, spacing_zero) (round_to_one v)
