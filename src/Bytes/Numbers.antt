-- ===== src/Bytes/Numbers.antt =====
-- Big-endian bytes of a number, there and back.
use sigbash_sdk.Prelude.{
  ℕ, zero, suc, ◌+◌, ◌*◌, ◌/◌, ◌%◌, ◌^◌, ◌<◌, ◌≡◌, List, ◌∷◌, length, arith, ◌∙◌, ap,
}
use sigbash_sdk.Bytes.{big_endian}
use sigbash_sdk.Bytes.Decoder.{from_big_endian}
use native.Mathlib.Nat.{pow-suc}

pub length-big_endian : (k n : ℕ) (acc : List ℕ) → length (big_endian k n acc) ≡ k + length acc
unfolding big_endian
length-big_endian zero n acc = omega arith
length-big_endian (suc k) n acc = omega (arith, length-big_endian k (n / 256) ((n % 256) ∷ acc))

quotient_bound : (k n : ℕ) → n < 256 ^ suc k → n / 256 < 256 ^ k
quotient_bound k n h = let e : 256 ^ suc k ≡ 256 ^ k * 256 = pow-suc 256 k in omega arith

-- Reading the bytes of `n` behind the value `v` shifts `v` and adds `n`.
pub from_big_endian-big_endian :
    (k v n : ℕ) (acc : List ℕ)
    → n < 256 ^ k
    → from_big_endian v (big_endian k n acc) ≡ from_big_endian (v * 256 ^ k + n) acc
unfolding big_endian from_big_endian
from_big_endian-big_endian zero v n acc h = let e : v * 256 ^ 0 + n ≡ v = omega arith in rw e
from_big_endian-big_endian (suc k) v n acc h =
    let e : 256 ^ suc k ≡ 256 ^ k * 256 = pow-suc 256 k in
    let whole : (v * 256 ^ k + n / 256) * 256 + n % 256 ≡ v * 256 ^ suc k + n =
      omega (arith, ap (λ (t : ℕ). v * t) e) in
    from_big_endian-big_endian k v (n / 256) ((n % 256) ∷ acc) (quotient_bound k n h)
    ∙ ap (λ t. from_big_endian t acc) whole
