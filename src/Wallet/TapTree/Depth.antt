-- ===== src/Wallet/TapTree/Depth.antt =====
-- The depth bound of `split`, and the leaves that `buildWalletTapTree` refuses.
use sigbash_sdk.Prelude.{
  ℕ, zero, suc, ◌+◌, ◌-◌, ◌*◌, ◌/◌, ◌^◌, ◌≤◌, ◌<◌, ◌≡◌, refl, ap, List, [], ◌∷◌, ◌++◌, map, length,
  take, drop, length-drop, length-take_of_le, false, ◌≢◌, sym, All, eqb, eqb_sound, Result, ok,
  arith, Bool-cases, inl, inr, ◌∙◌,
}
use sigbash_sdk.Bytes.{Bytes}
use sigbash_sdk.Wallet.TapTree.{TapLeaf}
use sigbash_sdk.Wallet.TapTree.Scripts.{precedes, tap_branch_hash}
use sigbash_sdk.Wallet.TapTree.Tree.{
  insert_leaf, sort_leaves, has_twins, push_sibling, halves, split, build_tree,
}
use native.Mathlib.Nat.{pow-suc}

length-insert_leaf :
    (leaf : TapLeaf) (leaves : List TapLeaf)
    → length (insert_leaf leaf leaves) ≡ suc (length leaves)
unfolding insert_leaf
length-insert_leaf leaf [] = refl
length-insert_leaf leaf (l ∷ leaves) =
    elim (Bool-cases (precedes 32 l.tap_leaf_hash leaf.tap_leaf_hash)) [
      | inl t ↦ rw t (ap suc (length-insert_leaf leaf leaves))
      | inr n ↦ rw n
    ]

length-sort_leaves : (leaves : List TapLeaf) → length (sort_leaves leaves) ≡ length leaves
unfolding sort_leaves
length-sort_leaves [] = refl
length-sort_leaves (l ∷ leaves) =
    length-insert_leaf l (sort_leaves leaves) ∙ ap suc (length-sort_leaves leaves)

-- No two leaves have the same hash.
abbrev pub HasDistinctHashes : List TapLeaf → Type 0
HasDistinctHashes [] = Unit
HasDistinctHashes (leaf ∷ leaves) =
    All (λ l. l.tap_leaf_hash ≢ leaf.tap_leaf_hash) leaves × HasDistinctHashes leaves

All-insert_leaf :
    (P : TapLeaf → Type 0) (leaf : TapLeaf) (leaves : List TapLeaf)
    → P leaf
    → All P leaves
    → All P (insert_leaf leaf leaves)
unfolding insert_leaf
All-insert_leaf P leaf [] p h = (p, tt)
All-insert_leaf P leaf (l ∷ leaves) p (q, h) =
    elim (Bool-cases (precedes 32 l.tap_leaf_hash leaf.tap_leaf_hash)) [
      | inl t ↦ rw t (q, All-insert_leaf P leaf leaves p h)
      | inr n ↦ rw n (p, (q, h))
    ]

All-sort_leaves :
    (P : TapLeaf → Type 0) (leaves : List TapLeaf) → All P leaves → All P (sort_leaves leaves)
unfolding sort_leaves
All-sort_leaves P [] h = tt
All-sort_leaves P (l ∷ leaves) (p, h) =
    All-insert_leaf P l (sort_leaves leaves) p (All-sort_leaves P leaves h)

insert_leaf-HasDistinctHashes :
    (leaf : TapLeaf) (leaves : List TapLeaf)
    → HasDistinctHashes (leaf ∷ leaves)
    → HasDistinctHashes (insert_leaf leaf leaves)
unfolding insert_leaf
insert_leaf-HasDistinctHashes leaf [] h = (tt, tt)
insert_leaf-HasDistinctHashes leaf (l ∷ leaves) ((ne, nes), (later, h)) =
    elim (Bool-cases (precedes 32 l.tap_leaf_hash leaf.tap_leaf_hash)) [
      | inl t ↦ rw t (
        All-insert_leaf (λ m. m.tap_leaf_hash ≢ l.tap_leaf_hash) leaf leaves (λ e. ne (sym e))
            later,
        insert_leaf-HasDistinctHashes leaf leaves (nes, h),
      )
      | inr n ↦ rw n ((ne, nes), (later, h))
    ]

sort_leaves-HasDistinctHashes :
    (leaves : List TapLeaf) → HasDistinctHashes leaves → HasDistinctHashes (sort_leaves leaves)
unfolding sort_leaves
sort_leaves-HasDistinctHashes [] h = tt
sort_leaves-HasDistinctHashes (l ∷ leaves) (ne, h) =
    insert_leaf-HasDistinctHashes l (sort_leaves leaves) (
      All-sort_leaves (λ m. m.tap_leaf_hash ≢ l.tap_leaf_hash) leaves ne,
      sort_leaves-HasDistinctHashes leaves h,
    )

-- The refusal of equal neighbours lets distinct hashes pass.
has_twins-HasDistinctHashes :
    (leaves : List TapLeaf) → HasDistinctHashes leaves → has_twins leaves ≡ false
unfolding has_twins
has_twins-HasDistinctHashes [] h = refl
has_twins-HasDistinctHashes (a ∷ []) h = refl
has_twins-HasDistinctHashes (a ∷ b ∷ leaves) ((ne, nes), h) =
    elim (Bool-cases (eqb b.tap_leaf_hash a.tap_leaf_hash)) [
      | inl same ↦ absurd (ne (eqb_sound _ _ same))
      | inr other ↦ rw other (has_twins-HasDistinctHashes (b ∷ leaves) h)
    ]

module _ (sha256 : Bytes → Bytes) where
  -- Both halves end, so the region does.
  halves-total :
      (rec : List TapLeaf → Result (Bytes × List TapLeaf)) (leaves : List TapLeaf)
      → ((r : Bytes × List TapLeaf) × (rec (take ((length leaves + 1) / 2) leaves) ≡ ok r))
      → ((r : Bytes × List TapLeaf) × (rec (drop ((length leaves + 1) / 2) leaves) ≡ ok r))
      → (r : Bytes × List TapLeaf) × (halves sha256 rec leaves ≡ ok r)
  unfolding halves
  halves-total rec leaves ((left, front), p) ((right, back), q) = (
    (
      tap_branch_hash sha256 left right,
      map (push_sibling right) front ++ map (push_sibling left) back,
    ),
    rw p (rw q refl),
  )

  split-total :
      (levels k : ℕ) (leaves : List TapLeaf)
      → k < levels
      → 1 ≤ length leaves
      → length leaves ≤ 2 ^ k
      → (r : Bytes × List TapLeaf) × (split sha256 levels leaves ≡ ok r)
  unfolding split
  split-total zero k leaves h g b = absurd (omega arith)
  split-total (suc levels) k [] h g b = absurd (omega arith)
  split-total (suc levels) k (leaf ∷ []) h g b = (_, refl)
  split-total (suc levels) zero (x ∷ y ∷ ls) h g b = absurd (omega arith)
  split-total (suc levels) (suc k) (x ∷ y ∷ ls) h g b =
      let leaves = x ∷ y ∷ ls in
      let mid = (length leaves + 1) / 2 in
      let double : 2 ^ suc k ≡ 2 ^ k * 2 = pow-suc 2 k in
      let n : length (take mid leaves) ≡ mid = length-take_of_le mid leaves (omega arith) in
      let m : length (drop mid leaves) ≡ length leaves - mid = length-drop mid leaves in
      halves-total (split sha256 levels) leaves
        (split-total levels k (take mid leaves) (omega arith) (omega arith) (omega arith))
        (split-total levels k (drop mid leaves) (omega arith) (omega arith) (omega arith))

  -- Any 1 to 2 ^ 128 leaves whose hashes are distinct, in any order, make a tree: neither the depth
  -- bound nor the refusal of equal hashes is in the way.
  pub build_tree_total :
      (leaves : List TapLeaf)
      → 1 ≤ length leaves
      → length leaves ≤ 2 ^ 128
      → HasDistinctHashes leaves
      → (r : Bytes × List TapLeaf) × (build_tree sha256 leaves ≡ ok r)
  unfolding build_tree
  build_tree_total leaves g b distinct =
      let n = length-sort_leaves leaves in
      let (r, e) =
        split-total (128 + 1) 128 (sort_leaves leaves) (omega arith) (omega arith) (omega arith) in
      let passes =
        has_twins-HasDistinctHashes (sort_leaves leaves)
          (sort_leaves-HasDistinctHashes leaves distinct) in
      (r, rw passes e)
