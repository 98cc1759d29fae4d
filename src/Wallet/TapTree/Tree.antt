-- ===== src/Wallet/TapTree/Tree.antt =====
-- `buildWalletTapTree` from its leaves on: the hash order, the refusal of equal hashes, the
-- balanced split with the sibling paths, and the control blocks.
use sigbash_sdk.Prelude.{
  ℕ, zero, suc, ◌+◌, ◌/◌, List, [], ◌∷◌, ◌++◌, map, length, take, drop, if◌then◌else◌, Bool, false,
  ◌||◌, not, Result, ok, err, ◌>>=◌, ◌>>◌, guard, wallet_error, eqb,
}
use sigbash_sdk.Bytes.{Bytes}
use sigbash_sdk.Wallet.TapTree.{TapLeaf, tap_leaf_version, taptree_max_depth}
use sigbash_sdk.Wallet.TapTree.Scripts.{precedes, tap_branch_hash}

-- `leaves.sort(…)`: stable, by the first 32 bytes of the hash.
unfoldable pub insert_leaf : TapLeaf → List TapLeaf → List TapLeaf
insert_leaf leaf [] = leaf ∷ []
insert_leaf leaf (l ∷ leaves) =
    let later = l ∷ insert_leaf leaf leaves in
    if precedes 32 l.tap_leaf_hash leaf.tap_leaf_hash then later else leaf ∷ l ∷ leaves

unfoldable pub sort_leaves : List TapLeaf → List TapLeaf
sort_leaves [] = []
sort_leaves (leaf ∷ leaves) = insert_leaf leaf (sort_leaves leaves)

-- Two leaves that stand together share their hash.
unfoldable pub has_twins : List TapLeaf → Bool
has_twins [] = false
has_twins (a ∷ []) = false
has_twins (a ∷ b ∷ leaves) = eqb b.tap_leaf_hash a.tap_leaf_hash || has_twins (b ∷ leaves)

abbrev pub push_sibling : Bytes → TapLeaf → TapLeaf
push_sibling sibling leaf = record leaf { merkle_path = leaf.merkle_path ++ (sibling ∷ []) }

abbrev pub concat_all : List Bytes → Bytes
concat_all [] = []
concat_all (part ∷ parts) = part ++ concat_all parts

module _ (sha256 : Bytes → Bytes) where
  -- The two halves of a region, split at ceil(len / 2) by `rec`, one level further down.
  unfoldable pub halves :
      (List TapLeaf → Result (Bytes × List TapLeaf)) → List TapLeaf → Result (Bytes × List TapLeaf)
  halves rec leaves = do
    let mid = (length leaves + 1) / 2
    (left, front) ← rec (take mid leaves)
    (right, back) ← rec (drop mid leaves)
    ok (
      tap_branch_hash sha256 left right,
      map (push_sibling right) front ++ map (push_sibling left) back,
    )

  -- `split` with the number of levels that the depth bound still allows.
  unfoldable pub split : ℕ → List TapLeaf → Result (Bytes × List TapLeaf)
  split zero leaves = err wallet_error
  split (suc levels) [] = halves (split levels) []
  split (suc levels) (leaf ∷ []) = ok (leaf.tap_leaf_hash, leaf ∷ [])
  split (suc levels) (a ∷ b ∷ leaves) = halves (split levels) (a ∷ b ∷ leaves)

  -- The root, and the leaves in hash order with their paths. A tree of one leaf is the leaf.
  unfoldable pub build_tree : List TapLeaf → Result (Bytes × List TapLeaf)
  build_tree unordered = do
    let leaves = sort_leaves unordered
    guard (not (has_twins leaves)) wallet_error
    split (taptree_max_depth + 1) leaves

-- The control block of a leaf under an internal key and the parity of the output key.
unfoldable pub control_block : Bool → Bytes → TapLeaf → Bytes
control_block y_is_odd internal leaf =
    ((tap_leaf_version + (if y_is_odd then 1 else 0)) ∷ [])
    ++ (internal ++ concat_all leaf.merkle_path)
