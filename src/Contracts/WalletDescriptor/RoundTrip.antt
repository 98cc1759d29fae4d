-- ===== src/Contracts/WalletDescriptor/RoundTrip.antt =====
-- `encodeWalletDescriptorV1` and then `decodeWalletDescriptorV1`, field by field.
use sigbash_sdk.Prelude.{
  ℕ, ◌≡◌, refl, List, [], ◌∷◌, map, Option, none, some, true, ◌&&◌, not, all, length, leb, ltb,
  ◌==◌, ==_iff, ok, arith, All, guard-eq-ok, >>-eq-ok, if-eq-ok, plain_error, too_long,
}
use sigbash_sdk.Bytes.{Bytes, concat_bytes, u8be}
use sigbash_sdk.Bytes.Whole.{whole_exact}
use sigbash_sdk.Bytes.Reads.{
  Reads-pure, Reads-check, Reads-then-branch, Decodes-else-branch, Decodes, Decodes-next,
  Decodes-last, Decodes-check, Decodes-guard, Decodes-splice, Decodes-lift, Decodes-then,
  Decodes-times, Decodes-end,
}
use sigbash_sdk.Bytes.Fields.{Decodes-u8, Decodes-u16, Decodes-length_delimited, Decodes-header}
use sigbash_sdk.Text.{utf8, is_faithful}
use sigbash_sdk.Text.RoundTrip.{decode_text-utf8}
use sigbash_sdk.Contracts.Fields.{text_field, Decodes-text}
use sigbash_sdk.Contracts.Codes.Tables.{
  encode_network_id, encode_wallet_mode, encode_wallet_signer_kind,
}
use sigbash_sdk.Contracts.Codes.Laws.{
  decode_network_id-eq-ok_iff, decode_wallet_mode-eq-ok_iff, decode_wallet_signer_kind-eq-ok_iff,
}
use mathlib.Core.Bool.{and-eq-true_iff}
use sigbash_sdk.Contracts.WalletDescriptor.{
  max_xpub_length, max_descriptor_length, Signer, AllowedSignerSet, RecoveryBranch,
  WalletDescriptor, is_policy_key, ascending,
}
use sigbash_sdk.Contracts.WalletDescriptor.Encode.{
  key_id_text, encode_signer, decay_code, is_decay, encode_recovery, check_set, check_sets,
  encode_set, set_parts, descriptor_parts, encode_wallet_descriptor,
}
use sigbash_sdk.Contracts.WalletDescriptor.Decode.{
  optional_id, read_signer, decay_of, read_flagged_recovery, read_recovery, read_indexes, read_set,
  read_sets, read_descriptor, decode_wallet_descriptor,
}

-- A signer that the decoder does not refuse: its texts survive their encoding, its key text takes 1
-- to 512 bytes, and its policy key id is absent rather than empty.
pub record IsReadable (s : Signer) : Type 0 where
  pub xpub : is_faithful s.xpub ≡ true
  pub xpub_width :
      (leb 1 (length (utf8 s.xpub)) && leb (length (utf8 s.xpub)) max_xpub_length) ≡ true
  pub key_id : is_faithful (key_id_text s.policy_key_id) ≡ true
  pub key_id_present : optional_id (key_id_text s.policy_key_id) ≡ s.policy_key_id

-- A descriptor that the decoder does not refuse for its texts.
pub record IsDescriptor (d : WalletDescriptor) : Type 0 where
  pub signers : All IsReadable d.signers
  pub receive : is_faithful d.receive_descriptor ≡ true
  pub receive_present : not (length d.receive_descriptor == 0) ≡ true
  pub change : is_faithful d.change_descriptor ≡ true
  pub change_present : not (length d.change_descriptor == 0) ≡ true

Decodes-signer : (s : Signer) → IsReadable s → Decodes (encode_signer s) read_signer s
unfolding encode_signer read_signer text_field
Decodes-signer s w =
    let id = key_id_text s.policy_key_id in
    let ids = decode_text-utf8 id w.key_id in
    let keys = decode_text-utf8 s.xpub w.xpub in
    Decodes-guard (not (is_policy_key s.kind && length id == 0)) _ _ _ _ (λ present.
      Decodes-guard (not (not (is_policy_key s.kind) && not (length id == 0))) _ _ _ _ (λ absent.
        Decodes-next _ _ _ _ _ _ (Decodes-u8 (encode_wallet_signer_kind s.kind)) (
          Decodes-lift _ _ _ s.kind _ ((decode_wallet_signer_kind-eq-ok_iff _ _).1 refl) (
            Decodes-next _ _ _ _ _ _ (Decodes-length_delimited (utf8 s.xpub)) (
              Decodes-check _ _ _ _ _ w.xpub_width (
                Decodes-last _ _ _ (
                  Decodes-then _ _ _ (utf8 id) s
                    (rw (ids, keys, w.key_id_present)
                      (Reads-check _ _ _ [] _ present
                        (Reads-check _ _ _ [] _ absent (Reads-pure s))))
                    (Decodes-length_delimited (utf8 id)))))))))

Decodes-indexes :
    (signer_count : ℕ) (previous : Option ℕ) (is : List ℕ)
    → all (λ i. ltb i signer_count) is ≡ true
    → ascending previous is ≡ true
    → Decodes (concat_bytes (map u8be is)) (read_indexes signer_count (length is) previous) is
unfolding read_indexes ascending
Decodes-indexes signer_count previous [] h a = Decodes-end []
Decodes-indexes signer_count previous (i ∷ is) h a =
    let (below, others) = (and-eq-true_iff _ _).0 h in
    let (here, later) = (and-eq-true_iff _ _).0 a in
    Decodes-next _ _ _ _ i (i ∷ is) (Decodes-u8 i) (
      Decodes-check _ _ _ _ _ below (
        Decodes-check _ _ _ _ _ here (
          Decodes-then _ _ _ is (i ∷ is) (Reads-pure _)
            (Decodes-indexes signer_count (some i) is others later))))

Decodes-set :
    (signer_count : ℕ) (set : AllowedSignerSet)
    → check_set signer_count set ≡ ok tt
    → Decodes (encode_set set) (read_set signer_count) set
unfolding check_set encode_set read_set
Decodes-set signer_count set h =
    let (size, h₁) = guard-eq-ok _ _ _ h in
    let (below, h₂) = guard-eq-ok _ _ _ h₁ in
    Decodes-next _ _ _ _ _ _ (Decodes-u8 (length set.signer_indexes)) (
      Decodes-check _ _ _ _ _ size (
        Decodes-then _ _ _ set.signer_indexes _ (Reads-pure set) (
          Decodes-indexes signer_count none set.signer_indexes below
            (if-eq-ok (ascending none set.signer_indexes) _ (ok tt) h₂).0)))

All-sets :
    (signer_count : ℕ) (sets : List AllowedSignerSet)
    → check_sets signer_count sets ≡ ok tt
    → All (λ s. Decodes (encode_set s) (read_set signer_count) s) sets
unfolding check_sets
All-sets signer_count [] h = tt
All-sets signer_count (s ∷ sets) h =
    let (here, later) = >>-eq-ok (check_set signer_count s) _ h in
    (Decodes-set signer_count s here, All-sets signer_count sets later)

All-signers :
    (ss : List Signer) → All IsReadable ss → All (λ s. Decodes (encode_signer s) read_signer s) ss
All-signers [] h = tt
All-signers (s ∷ ss) (w, ws) = (Decodes-signer s w, All-signers ss ws)

decay_of-decay_code : (d : Option ℕ) → is_decay d ≡ true → decay_of (decay_code d) ≡ d
decay_of-decay_code none h = refl
decay_of-decay_code (some n) h = ground arith

Decodes-recovery : (r : Option RecoveryBranch) → Decodes (encode_recovery r) read_recovery r
unfolding encode_recovery read_recovery read_flagged_recovery
Decodes-recovery none =
    Decodes-then _ _ _ _ _ (Reads-then-branch _ _ _ [] _ refl (Reads-pure none)) (Decodes-u8 0)
Decodes-recovery (some r) = Decodes-guard (length r.recovery_key_x_only == 32) _ _ _ _ (λ key.
    Decodes-guard (is_decay r.decay_blocks) _ _ _ _ (λ decay.
      Decodes-next _ _ _ _ _ _ (Decodes-u8 1) (
        Decodes-else-branch _ _ _ _ _ refl (
          Decodes-check _ _ _ _ _ refl (
            Decodes-next _ _ _ _ _ _ (Decodes-length_delimited r.recovery_key_x_only) (
              Decodes-check _ _ _ _ _ key (
                Decodes-last _ _ _ (
                  Decodes-then _ _ _ (decay_code r.decay_blocks) (some r)
                    (rw (decay_of-decay_code r.decay_blocks decay) (Reads-pure (some r)))
                    (Decodes-u16 (decay_code r.decay_blocks))))))))))

present : (n : ℕ) → (leb 1 n && leb n 0xffff) ≡ true → not (n == 0) ≡ true
present n h = ground arith

module _ (d : WalletDescriptor) (w : IsDescriptor d) where
  Decodes-sets :
      check_sets (length d.signers) d.allowed_signer_sets ≡ ok tt
      → Decodes
          (concat_bytes (set_parts d))
          (read_sets d.version d.network d.wallet_mode (length d.signers) d.signers)
          d
  unfolding set_parts read_sets
  Decodes-sets sets = Decodes-next _ _ _ _ _ _ (Decodes-u16 (length d.allowed_signer_sets)) (
      Decodes-splice _ _ _ _ _ _
        (Decodes-times encode_set (read_set (length d.signers)) d.allowed_signer_sets
          (All-sets (length d.signers) d.allowed_signer_sets sets))
        (Decodes-next _ _ _ _ _ _ (Decodes-text d.receive_descriptor w.receive) (
          Decodes-next _ _ _ _ _ _ (Decodes-text d.change_descriptor w.change) (
            Decodes-check _ _ _ _ _ w.receive_present (
              Decodes-check _ _ _ _ _ w.change_present (
                Decodes-last _ _ _
                  (Decodes-then _ _ _ _ _ (Reads-pure d) (Decodes-recovery d.recovery))))))))

  Decodes-descriptor :
      d.version ≡ 1
      → not (length d.signers == 0) ≡ true
      → check_sets (length d.signers) d.allowed_signer_sets ≡ ok tt
      → Decodes (concat_bytes (descriptor_parts d)) read_descriptor d
  unfolding descriptor_parts read_descriptor
  Decodes-descriptor version signed sets =
      Decodes-next _ _ _ _ d.version _ (rw version (Decodes-header 1 1 (1 ∷ []) refl)) (
        Decodes-next _ _ _ _ _ _ (Decodes-u8 (encode_network_id d.network)) (
          Decodes-lift _ _ _ d.network _ ((decode_network_id-eq-ok_iff _ _).1 refl) (
            Decodes-next _ _ _ _ _ _ (Decodes-u8 (encode_wallet_mode d.wallet_mode)) (
              Decodes-lift _ _ _ d.wallet_mode _ ((decode_wallet_mode-eq-ok_iff _ _).1 refl) (
                Decodes-next _ _ _ _ _ _ (Decodes-u16 (length d.signers)) (
                  Decodes-check _ _ _ _ _ signed (
                    Decodes-splice _ _ _ _ _ _
                      (Decodes-times encode_signer read_signer d.signers
                        (All-signers d.signers w.signers))
                      (Decodes-sets sets))))))))

  -- A descriptor that the encoder accepts decodes from its bytes, if every text is well-formed
  -- UTF-16 without a byte order mark at its start, every key text takes 1 to 512 bytes, no policy
  -- key id is empty where it is there, and neither descriptor text is empty.
  pub decode-encode_wallet_descriptor :
      (bs : Bytes) → encode_wallet_descriptor d ≡ ok bs → decode_wallet_descriptor bs ≡ ok d
  unfolding encode_wallet_descriptor decode_wallet_descriptor
  decode-encode_wallet_descriptor bs h =
      let (version, h₁) = guard-eq-ok _ _ _ h in
      let (count, h₂) = guard-eq-ok _ _ _ h₁ in
      let (sets, h₃) = >>-eq-ok _ _ h₂ in
      let (receive, h₄) =
        guard-eq-ok (leb (length d.receive_descriptor) max_descriptor_length) (plain_error too_long)
          _ h₃ in
      let (change, h₅) =
        guard-eq-ok (leb (length d.change_descriptor) max_descriptor_length) (plain_error too_long)
          _ h₄ in
      whole_exact _ read_descriptor bs d
        (Decodes-descriptor ((==_iff _ _).0 version) (present (length d.signers) count) sets bs h₅)
