-- ===== src/Wallet/TapTree/Numbers.antt =====
-- The block count of a decay script, as Bitcoin's script interpreter reads it.
use sigbash_sdk.Prelude.{
  ℕ, zero, suc, ◌+◌, ◌-◌, ◌/◌, ◌^◌, ◌≤◌, ◌<◌, ◌≡◌, refl, ap, ◌∙◌, [], ◌∷◌, ◌++◌, length,
  length-append, take, drop, take-append, drop-append, leb, ltb, ◌==◌, if◌then◌else◌, false, ◌&&◌,
  ◌||◌, Bool-cases, inl, inr, Option, none, some, ok, ok-injective, arith,
}
use sigbash_sdk.Bytes.{Bytes}
use sigbash_sdk.Bytes.LittleEndian.{from_little_endian}
use native.Mathlib.Nat.{pow-suc}
use sigbash_sdk.Wallet.TapTree.{decay_blocks_min, decay_blocks_max}
use sigbash_sdk.Wallet.TapTree.Scripts.{
  low_bytes, top_bit_set, script_num_bytes, script_num_push, decay_script,
}

-- The number that the first instruction of a script pushes, and the script behind it: OP_0, OP_1 to
-- OP_16, or up to 75 bytes, little-endian, whose top bit is the sign.
pub pushed : Bytes → Option (ℕ × Bytes)
pushed [] = none
pushed (op ∷ rest) =
    if op == 0
    then some (0, rest)
    else if leb 0x51 op && leb op 0x60
    then some (op - 0x50, rest)
    else if leb op 75
    then (if top_bit_set (take op rest)
        then none
        else some (from_little_endian (take op rest), drop op rest))
    else none

low_bytes-value : (k v : ℕ) → v < 256 ^ k → from_little_endian (low_bytes k v) ≡ v
unfolding low_bytes from_little_endian
low_bytes-value zero v h = omega arith
low_bytes-value (suc k) v h = elim (Bool-cases (v == 0)) [
  | inl z ↦ rw z (ground arith)
  | inr n ↦
      rw n
        (omega (arith, pow-suc 256 k, low_bytes-value k (v / 256) (omega (arith, pow-suc 256 k))))
]

length-low_bytes : (k v : ℕ) → length (low_bytes k v) ≤ k
unfolding low_bytes
length-low_bytes zero v = omega arith
length-low_bytes (suc k) v = elim (Bool-cases (v == 0)) [
  | inl z ↦ rw z (omega arith)
  | inr n ↦ rw n (omega (arith, length-low_bytes k (v / 256)))
]

value-append-zero : (bs : Bytes) → from_little_endian (bs ++ 0 ∷ []) ≡ from_little_endian bs
unfolding from_little_endian
value-append-zero [] = refl
value-append-zero (b ∷ bs) = rw (value-append-zero bs) refl

top_bit_set-append-zero : (bs : Bytes) → top_bit_set (bs ++ 0 ∷ []) ≡ false
unfolding top_bit_set
top_bit_set-append-zero [] = refl
top_bit_set-append-zero (b ∷ []) = refl
top_bit_set-append-zero (b ∷ c ∷ bs) = top_bit_set-append-zero (c ∷ bs)

-- The bytes stand for the number, without a sign, and are few.
script_num_bytes-value :
    (v : ℕ)
    → v < 256 ^ 4
    → (from_little_endian (script_num_bytes v) ≡ v)
      × (top_bit_set (script_num_bytes v) ≡ false)
      × (length (script_num_bytes v) ≤ 5)
unfolding script_num_bytes
script_num_bytes-value v h =
    let value = low_bytes-value 4 v h in
    let short = length-low_bytes 4 v in
    elim (Bool-cases (top_bit_set (low_bytes 4 v))) [
      | inl t ↦ rw t (
        value-append-zero (low_bytes 4 v) ∙ value,
        top_bit_set-append-zero (low_bytes 4 v),
        omega (arith, length-append (low_bytes 4 v) (0 ∷ [])),
      )
      | inr f ↦ rw f (value, f, omega arith)
    ]

pushed-bytes :
    (bs rest : Bytes)
    → 1 ≤ length bs
    → length bs ≤ 5
    → top_bit_set bs ≡ false
    → pushed (length bs ∷ (bs ++ rest)) ≡ some (from_little_endian bs, rest)
unfolding pushed
pushed-bytes bs rest lo hi t =
    let front = take-append bs rest in
    let back = drop-append bs rest in rw (front, back, t) (ground arith)

pushed-small : (v : ℕ) (rest : Bytes) → 1 ≤ v → v ≤ 16 → pushed ((0x50 + v) ∷ rest) ≡ some (v, rest)
unfolding pushed
pushed-small v rest lo hi = ground arith

some_byte : (bs : Bytes) → 1 ≤ from_little_endian bs → 1 ≤ length bs
unfolding from_little_endian
some_byte [] h = absurd (omega arith)
some_byte (b ∷ bs) h = omega arith

pushed-script_num_push :
    (v : ℕ) (rest : Bytes) → 1 ≤ v → v ≤ 65534 → pushed (script_num_push v ++ rest) ≡ some (v, rest)
unfolding script_num_push
pushed-script_num_push v rest lo hi =
    let (value, positive, short) = script_num_bytes-value v (omega arith) in
    let not_zero : (v == 0) ≡ false = ground arith in
    elim (Bool-cases (leb v 16)) [
      | inl small ↦ rw (not_zero, small) (pushed-small v rest lo (ground arith))
      | inr large ↦
          rw (not_zero, large)
            (pushed-bytes (script_num_bytes v) rest
                (some_byte (script_num_bytes v) (omega (arith, value))) short positive
              ∙ ap (λ n. some (n, rest)) value)
    ]

-- The first instruction of a decay script pushes its block count, and behind it stand
-- OP_CHECKSEQUENCEVERIFY, OP_VERIFY, the push of the key and OP_CHECKSIG.
pub pushed-decay_script :
    (key : Bytes) (blocks : ℕ) (script : Bytes)
    → decay_script key blocks ≡ ok script
    → pushed script ≡ some (blocks, (0xb2 ∷ 0x69 ∷ []) ++ ((0x20 ∷ key) ++ (0xac ∷ [])))
unfolding decay_script
pushed-decay_script key blocks script h =
    elim (Bool-cases (ltb blocks decay_blocks_min || ltb decay_blocks_max blocks)) [
      | inl bad ↦ absurd (cc (rw bad at h))
      | inr good ↦
          let e = ok-injective _ _ (rw good at h) in
          rw (← e) (pushed-script_num_push blocks _ (ground arith) (ground arith))
    ]
