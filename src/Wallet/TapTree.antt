-- ===== src/Wallet/TapTree.antt =====
-- src/wallet/taptree.ts: leaf scripts, and the balanced tree over the leaves in hash order.
-- A region `lo..hi` of the leaf array is the list of its leaves; `merklePath.push` on a region's
-- leaves is `map push_sibling`.
pub mod Scripts
pub mod Tree
pub mod Branches
pub mod Merkle
pub mod Depth
pub mod Numbers
use sigbash_sdk.Prelude.{ℕ, List, Option}
use sigbash_sdk.Bytes.{Bytes}

abbrev pub tap_leaf_version : ℕ
tap_leaf_version = 0xc0

abbrev pub decay_blocks_min : ℕ
decay_blocks_min = 1

abbrev pub decay_blocks_max : ℕ
decay_blocks_max = 65534

abbrev pub taptree_max_depth : ℕ
taptree_max_depth = 128

pub data LeafKind : Type 0 where
  sortedmulti recovery_always_spendable recovery_decay : LeafKind

pub record TapLeaf : Type 0 where
  pub kind : LeafKind
  pub signer_set : Option (List ℕ)
  pub script : Bytes
  pub tap_leaf_hash : Bytes
  pub merkle_path : List Bytes
  pub control_block : Bytes
  pub decay_blocks : Option ℕ
