-- ===== src/Wallet/TapTree/Merkle.antt =====
-- The Merkle paths of `buildWalletTapTree`, walked by BIP-341's rule.
use sigbash_sdk.Prelude.{
  ℕ, zero, suc, ◌+◌, ◌/◌, ◌≡◌, refl, ◌∙◌, ap, List, [], ◌∷◌, ◌++◌, map, length, take, drop, All,
  All-append, All-take, All-drop, Result, ok, >>=-eq-ok, guard-eq-ok, ok-injective, Bool-cases, inl,
  inr,
}
use sigbash_sdk.Bytes.{Bytes}
use sigbash_sdk.Contracts.Fields.{tagged_hash}
use sigbash_sdk.Wallet.TapTree.{TapLeaf}
use sigbash_sdk.Wallet.TapTree.Scripts.{precedes, tap_branch_hash}
use sigbash_sdk.Wallet.TapTree.Tree.{
  insert_leaf, sort_leaves, push_sibling, halves, split, build_tree,
}
use sigbash_sdk.Wallet.TapTree.Branches.{branch_node, branch_node_comm, tap_branch_hash-branch_node}

module _ (sha256 : Bytes → Bytes) (width : (x : Bytes) → length (sha256 x) ≡ 32) where
  -- BIP-341's walk from a leaf hash through the sibling hashes.
  abbrev pub climb : Bytes → List Bytes → Bytes
  climb k [] = k
  climb k (e ∷ es) = climb (branch_node sha256 k e) es

  abbrev pub Leads : Bytes → TapLeaf → Type 0
  Leads root leaf = climb leaf.tap_leaf_hash leaf.merkle_path ≡ root

  -- A leaf as `buildLeaves` makes it: a hash of 32 bytes and no path yet.
  pub record IsFresh (leaf : TapLeaf) : Type 0 where
    pub hashed : length leaf.tap_leaf_hash ≡ 32
    pub no_path : leaf.merkle_path ≡ []

  climb-append :
      (k e : Bytes) (es : List Bytes) → climb k (es ++ e ∷ []) ≡ branch_node sha256 (climb k es) e
  climb-append k e [] = refl
  climb-append k e (f ∷ es) = climb-append (branch_node sha256 k f) e es

  push-Leads :
      (root sibling : Bytes) (leaves : List TapLeaf)
      → All (Leads root) leaves
      → All (Leads (branch_node sha256 root sibling)) (map (push_sibling sibling) leaves)
  push-Leads root sibling [] h = tt
  push-Leads root sibling (l ∷ leaves) (h, hs) = (
    climb-append l.tap_leaf_hash sibling l.merkle_path ∙ ap (λ r. branch_node sha256 r sibling) h,
    push-Leads root sibling leaves hs,
  )

  abbrev Good : Bytes × List TapLeaf → Type 0
  Good (root, leaves) = (length root ≡ 32) × All (Leads root) leaves

  length-tap_branch_hash : (a b : Bytes) → length (tap_branch_hash sha256 a b) ≡ 32
  unfolding tap_branch_hash tagged_hash
  length-tap_branch_hash a b = width _

  halves-Good :
      (rec : List TapLeaf → Result (Bytes × List TapLeaf)) (leaves : List TapLeaf)
      (r : Bytes × List TapLeaf)
      → ((ls : List TapLeaf) (s : Bytes × List TapLeaf) → All IsFresh ls → rec ls ≡ ok s → Good s)
      → All IsFresh leaves
      → halves sha256 rec leaves ≡ ok r
      → Good r
  unfolding halves
  halves-Good rec leaves r ih fresh h =
      let mid = (length leaves + 1) / 2 in
      let ((left, front), first, h₁) = >>=-eq-ok (rec (take mid leaves)) _ h in
      let ((right, back), second, h₂) = >>=-eq-ok (rec (drop mid leaves)) _ h₁ in
      let (wl, hl) = ih _ _ (All-take IsFresh mid leaves fresh) first in
      let (wr, hr) = ih _ _ (All-drop IsFresh mid leaves fresh) second in
      let node = tap_branch_hash-branch_node sha256 left right wl wr in
      let result : (
        tap_branch_hash sha256 left right,
        map (push_sibling right) front ++ map (push_sibling left) back,
      )
          ≡ r =
        ok-injective _ _ h₂ in
      rw (← result) (
        length-tap_branch_hash left right,
        rw node (
            All-append _ _ _ (push-Leads left right front hl)
              (rw (branch_node_comm sha256 left right) (push-Leads right left back hr))),
      )

  split-Good :
      (levels : ℕ) (leaves : List TapLeaf) (r : Bytes × List TapLeaf)
      → All IsFresh leaves
      → split sha256 levels leaves ≡ ok r
      → Good r
  unfolding split
  split-Good zero leaves r fresh h = cc
  split-Good (suc levels) [] r fresh h =
      halves-Good (split sha256 levels) [] r (split-Good levels) fresh h
  split-Good (suc levels) (leaf ∷ []) r (f, _) h =
      rw (← ok-injective _ _ h) (f.hashed, (rw f.no_path, tt))
  split-Good (suc levels) (a ∷ b ∷ leaves) r fresh h =
      halves-Good (split sha256 levels) (a ∷ b ∷ leaves) r (split-Good levels) fresh h

  insert-IsFresh :
      (leaf : TapLeaf) (leaves : List TapLeaf)
      → IsFresh leaf
      → All IsFresh leaves
      → All IsFresh (insert_leaf leaf leaves)
  unfolding insert_leaf
  insert-IsFresh leaf [] f fs = (f, tt)
  insert-IsFresh leaf (l ∷ leaves) f (g, gs) =
      elim (Bool-cases (precedes 32 l.tap_leaf_hash leaf.tap_leaf_hash)) [
        | inl t ↦ rw t (g, insert-IsFresh leaf leaves f gs)
        | inr n ↦ rw n (f, (g, gs))
      ]

  sort-IsFresh : (leaves : List TapLeaf) → All IsFresh leaves → All IsFresh (sort_leaves leaves)
  unfolding sort_leaves
  sort-IsFresh [] h = tt
  sort-IsFresh (l ∷ leaves) (f, fs) =
      insert-IsFresh l (sort_leaves leaves) f (sort-IsFresh leaves fs)

  -- From every leaf of a built tree the walk through its path ends at the tree's root, if the
  -- leaves came with 32-byte hashes and no paths, and the hash function's digests have 32 bytes.
  pub build_tree-Leads :
      (leaves : List TapLeaf) (root : Bytes) (built : List TapLeaf)
      → All IsFresh leaves
      → build_tree sha256 leaves ≡ ok (root, built)
      → All (Leads root) built
  unfolding build_tree
  build_tree-Leads leaves root built fresh h =
      let (distinct, h₁) = guard-eq-ok _ _ _ h in
      (split-Good _ (sort_leaves leaves) (root, built) (sort-IsFresh leaves fresh) h₁).1
