-- ===== src/Authorization/BitcoinPsbt/Leaves.antt =====
-- The leaf hash that goes into the sighash.
use sigbash_sdk.Prelude.{
  ℕ, ◌≡◌, refl, sym, ◌∙◌, ap, [], length, take, take-append, get_elem?, eqb, eqb_sound, true,
  Option, none, some, Result, ok, inl, inr, ok-injective, guard-eq-ok, List,
}
use mathlib.Core.List.{append-nil}
use sigbash_sdk.Calls.{◌>>◌}
use sigbash_sdk.Bytes.{Bytes}
use sigbash_sdk.Contracts.Fields.{tagged_hash}
use sigbash_sdk.Authorization.Psbt.{ParsedTapLeafScript, ParsedPsbtInput}
use sigbash_sdk.Authorization.Envelope.{MuxBranch, Position}
use sigbash_sdk.Authorization.Envelope.Widths.{IsPosition, IsOptionalBytes}
use sigbash_sdk.Authorization.BitcoinPsbt.Challenge.{hash_of_leaf, IsLeaf}
use sigbash_sdk.Authorization.BitcoinPsbt.Rederive.{leaf_at, tap_leaf_hash, leaf_hash_of}

take_whole : (n : ℕ) (xs : Bytes) → length xs ≡ n → take n xs ≡ xs
take_whole n xs e = rw (← e) (rw (append-nil xs) at (take-append xs []))

leaf_at-found :
    (inputs : List ParsedPsbtInput) (i : ℕ) (input : ParsedPsbtInput)
    → get_elem? inputs i ≡ some input
    → leaf_at inputs i ≡ get_elem? input.tap_leaf_scripts 0
unfolding leaf_at
leaf_at-found inputs i input e = rw (e, leaf_at)

module _ (sha256 : Bytes → Bytes) (compress : Bytes → Bytes → Bytes)
    (r_nonce : Bytes → Bytes → Result Bytes) where
  -- The disclosed hash and the carried leaf's have one width, so a prefix is the whole.
  agrees-eq :
      (width : (x : Bytes) → length (sha256 x) ≡ 32) (l : ParsedTapLeafScript) (disclosed : Bytes)
      → length disclosed ≡ 32
      → eqb
          (tap_leaf_hash sha256 compress r_nonce l)
          (take (length (tap_leaf_hash sha256 compress r_nonce l)) disclosed)
        ≡ true
      → disclosed ≡ hash_of_leaf sha256 l
  unfolding tap_leaf_hash tagged_hash
  agrees-eq width l disclosed w h =
      let n : length (tap_leaf_hash sha256 compress r_nonce l) ≡ 32 = width _ in
      let same = eqb_sound _ _ h in
      sym (take_whole (length (tap_leaf_hash sha256 compress r_nonce l)) disclosed (w ∙ sym n))
      ∙ sym same

  leaf_hash_of-IsLeaf :
      ((x : Bytes) → length (sha256 x) ≡ 32)
      → (branch : MuxBranch) (disclosed : Option Bytes) (carried : Option ParsedTapLeafScript)
        (leaf : Option Bytes)
      → IsOptionalBytes 32 disclosed
      → leaf_hash_of sha256 compress r_nonce branch disclosed carried ≡ ok leaf
      → IsLeaf sha256 branch disclosed carried leaf
  unfolding leaf_hash_of ◌>>◌ tap_leaf_hash
  leaf_hash_of-IsLeaf width MuxBranch.tapscript none none leaf w h = cc
  leaf_hash_of-IsLeaf width MuxBranch.tapscript (some d) none leaf w h =
      IsLeaf.of_envelope d refl refl refl (sym (ok-injective _ _ h))
  leaf_hash_of-IsLeaf width MuxBranch.tapscript none (some l) leaf w h =
      IsLeaf.of_psbt l refl refl (sym (ok-injective _ _ h)) (inl refl)
  leaf_hash_of-IsLeaf width MuxBranch.tapscript (some d) (some l) leaf w h =
      let (agree, e) = guard-eq-ok _ _ _ h in
      let kept = ok-injective _ _ e in
      IsLeaf.of_psbt l refl refl (sym kept ∙ ap some (agrees-eq width l d w.width agree)) (inr kept)
  leaf_hash_of-IsLeaf width MuxBranch.key_path disclosed none leaf w h =
      IsLeaf.on_key_path refl refl (sym (ok-injective _ _ h))
  leaf_hash_of-IsLeaf width MuxBranch.key_path disclosed (some l) leaf w h = cc

  -- At a position that has an input map.
  pub leaf_hash_of-IsLeaf_found :
      ((x : Bytes) → length (sha256 x) ≡ 32)
      → (completing : Position) (maps : List ParsedPsbtInput) (position : ℕ)
        (input : ParsedPsbtInput) (leaf : Option Bytes)
      → IsPosition completing
      → get_elem? maps position ≡ some input
      → leaf_hash_of sha256 compress r_nonce completing.posture.mux_branch
          completing.posture.leaf_hash
          (leaf_at maps position)
        ≡ ok leaf
      → IsLeaf sha256 completing.posture.mux_branch completing.posture.leaf_hash
          (get_elem? input.tap_leaf_scripts 0)
          leaf
  leaf_hash_of-IsLeaf_found width completing maps position input leaf is_position found h =
      let same = leaf_at-found maps position input found in
      rw same at (
        leaf_hash_of-IsLeaf width completing.posture.mux_branch completing.posture.leaf_hash
          (leaf_at maps position) leaf is_position.leaf_hash h)
