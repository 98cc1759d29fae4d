-- ===== src/Runs/Tree.antt =====
-- A tree of three leaves.
use sigbash_sdk.Prelude.{
  ℕ, ◌≡◌, ◌≢◌, refl, [], ◌∷◌, List, replicate, none, some, ok, eqb, arith, All,
}
use sigbash_sdk.Bytes.{Bytes}
use sigbash_sdk.Contracts.Fields.{tagged_hash}
use sigbash_sdk.Wallet.TapTree.{TapLeaf, LeafKind}
use sigbash_sdk.Wallet.TapTree.Scripts.{
  precedes, tap_branch_hash, low_bytes, top_bit_set, script_num_bytes, script_num_push,
  decay_script,
}
use sigbash_sdk.Wallet.TapTree.Numbers.{pushed, pushed-decay_script}
use sigbash_sdk.Wallet.TapTree.Tree.{insert_leaf, sort_leaves, has_twins, halves, split, build_tree}
use sigbash_sdk.Wallet.TapTree.Merkle.{Leads, IsFresh, build_tree-Leads}
use sigbash_sdk.Wallet.TapTree.Depth.{HasDistinctHashes, build_tree_total}
use sigbash_sdk.Runs.{count_hash, count_hash-width}

abbrev leaf : Bytes → TapLeaf
leaf hash = record {
  kind = LeafKind.recovery_always_spendable;
  signer_set = none;
  script = [];
  tap_leaf_hash = hash;
  merkle_path = [];
  control_block = [];
  decay_blocks = none;
}

abbrev placed : Bytes → List Bytes → TapLeaf
placed hash path = record (leaf hash) { merkle_path = path }

abbrev leaves : List TapLeaf
leaves = leaf (replicate 32 3) ∷ leaf (replicate 32 1) ∷ leaf (replicate 32 2) ∷ []

-- The hash of a branch has a message of 128 bytes.
abbrev node : Bytes
node = 128 ∷ replicate 31 0

abbrev built : List TapLeaf
built =
    placed (replicate 32 1) (replicate 32 2 ∷ replicate 32 3 ∷ [])
    ∷ placed (replicate 32 2) (replicate 32 1 ∷ replicate 32 3 ∷ [])
    ∷ placed (replicate 32 3) (node ∷ [])
    ∷ []

leaves-IsFresh : All (IsFresh count_hash count_hash-width) leaves
leaves-IsFresh = (
  record { hashed = refl; no_path = refl },
  (record { hashed = refl; no_path = refl }, (record { hashed = refl; no_path = refl }, tt)),
)

leaves_build : build_tree count_hash leaves ≡ ok (node, built)
unfolding build_tree sort_leaves insert_leaf has_twins split halves precedes tap_branch_hash
    tagged_hash eqb
leaves_build = refl

build_tree-Leads_example : All (Leads count_hash count_hash-width node) built
build_tree-Leads_example =
    build_tree-Leads count_hash count_hash-width leaves node built leaves-IsFresh leaves_build

head_ne : (a b : ℕ) (as' bs : Bytes) → a ≢ b → (a ∷ as') ≢ (b ∷ bs)
head_ne a b as' bs h e = h (cc e)

leaves_distinct : HasDistinctHashes leaves
leaves_distinct = (
  (head_ne 1 3 _ _ (omega arith), (head_ne 2 3 _ _ (omega arith), tt)),
  ((head_ne 2 1 _ _ (omega arith), tt), (tt, tt)),
)

build_tree_total_example : (r : Bytes × List TapLeaf) × (build_tree count_hash leaves ≡ ok r)
build_tree_total_example =
    build_tree_total count_hash leaves (omega arith) (omega arith) leaves_distinct

-- A delay of 144 blocks takes two bytes, the second of which is zero.
decay_144 : decay_script (7 ∷ []) 144 ≡ ok (2 ∷ 144 ∷ 0 ∷ 0xb2 ∷ 0x69 ∷ 0x20 ∷ 7 ∷ 0xac ∷ [])
unfolding decay_script script_num_push script_num_bytes low_bytes top_bit_set
decay_144 = refl

pushed-decay_script_example :
    pushed (2 ∷ 144 ∷ 0 ∷ 0xb2 ∷ 0x69 ∷ 0x20 ∷ 7 ∷ 0xac ∷ [])
    ≡ some (144, 0xb2 ∷ 0x69 ∷ 0x20 ∷ 7 ∷ 0xac ∷ [])
pushed-decay_script_example =
    pushed-decay_script (7 ∷ []) 144 (2 ∷ 144 ∷ 0 ∷ 0xb2 ∷ 0x69 ∷ 0x20 ∷ 7 ∷ 0xac ∷ []) decay_144
