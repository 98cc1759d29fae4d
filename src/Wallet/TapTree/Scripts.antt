-- ===== src/Wallet/TapTree/Scripts.antt =====
-- Leaf scripts and leaf hashes.
use sigbash_sdk.Prelude.{
  ℕ, zero, suc, ◌+◌, ◌/◌, ◌%◌, List, [], ◌∷◌, ◌++◌, length, ltb, leb, ◌==◌, if◌then◌else◌, Bool,
  true, false, ◌||◌, Result, ok, err, wallet_error,
}
use sigbash_sdk.Bytes.{Bytes}
use sigbash_sdk.Text.{units}
use sigbash_sdk.Contracts.Fields.{tagged_hash}
use sigbash_sdk.Wallet.TapTree.{tap_leaf_version, decay_blocks_min, decay_blocks_max}

-- The comparisons of 32 positions: the bytes at the first difference decide. A position past the
-- end of an array reads `undefined`, which is less than nothing.
unfoldable pub precedes : ℕ → Bytes → Bytes → Bool
precedes zero a b = false
precedes (suc n) (x ∷ a) (y ∷ b) = elim (x == y) [ true ↦ precedes n a b | false ↦ ltb x y ]
precedes (suc n) _ _ = false

module _ (sha256 : Bytes → Bytes) where
  unfoldable pub tap_leaf_hash : Bytes → Bytes
  tap_leaf_hash script =
      tagged_hash sha256 (units "TapLeaf")
        ((tap_leaf_version ∷ (length script % 256) ∷ []) ++ script)

  unfoldable pub tap_branch_hash : Bytes → Bytes → Bytes
  tap_branch_hash a b =
      let a_first = precedes 32 a b in
      let lo = if a_first then a else b in
      let hi = if a_first then b else a in tagged_hash sha256 (units "TapBranch") (lo ++ hi)

-- `[...keys].sort(…)`: stable, by the first 32 bytes.
unfoldable pub insert_key : Bytes → List Bytes → List Bytes
insert_key key [] = key ∷ []
insert_key key (k ∷ keys) =
    let later = k ∷ insert_key key keys in if precedes 32 k key then later else key ∷ k ∷ keys

unfoldable pub sort_keys : List Bytes → List Bytes
sort_keys [] = []
sort_keys (key ∷ keys) = insert_key key (sort_keys keys)

-- The loop of `sortedMultiAScript`; the first key has OP_CHECKSIG, the others OP_CHECKSIGADD.
unfoldable pub key_checks : ℕ → List Bytes → Bytes
key_checks op [] = []
key_checks op (key ∷ keys) = (0x20 ∷ key) ++ ((op ∷ []) ++ key_checks 0xba keys)

unfoldable pub sorted_multi_a_script : List Bytes → Bytes
sorted_multi_a_script x_only_keys =
    let keys = sort_keys x_only_keys in
    key_checks 0xac keys ++ ((0x50 + length keys) % 256 ∷ 0x9c ∷ [])

unfoldable pub pk_script : Bytes → Bytes
pk_script key = (0x20 ∷ key) ++ (0xac ∷ [])

-- `while (v > 0) { out.push(v & 0xff); v >>= 8; }`: four rounds empty a number below 2 ^ 31.
unfoldable pub low_bytes : ℕ → ℕ → List ℕ
low_bytes zero v = []
low_bytes (suc rounds) v =
    let more = (v % 256) ∷ low_bytes rounds (v / 256) in if v == 0 then [] else more

-- `out[out.length - 1] & 0x80`
unfoldable pub top_bit_set : List ℕ → Bool
top_bit_set [] = false
top_bit_set (b ∷ []) = leb 0x80 b
top_bit_set (b ∷ c ∷ bs) = top_bit_set (c ∷ bs)

-- The bytes of a number, with the zero byte that the sign bit forces.
unfoldable pub script_num_bytes : ℕ → Bytes
script_num_bytes value =
    let out = low_bytes 4 value in if top_bit_set out then out ++ (0 ∷ []) else out

unfoldable pub script_num_push : ℕ → Bytes
script_num_push value =
    if value == 0
    then 0x00 ∷ []
    else if leb value 16
    then (0x50 + value) ∷ []
    else length (script_num_bytes value) ∷ script_num_bytes value

-- and_v(v:older(T),pk(KEY))
unfoldable pub decay_script : Bytes → ℕ → Result Bytes
decay_script key blocks =
    if ltb blocks decay_blocks_min || ltb decay_blocks_max blocks
    then err wallet_error
    else ok (script_num_push blocks ++ ((0xb2 ∷ 0x69 ∷ []) ++ ((0x20 ∷ key) ++ (0xac ∷ []))))
