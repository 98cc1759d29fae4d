-- ===== src/Contracts/ApprovalCommitment/RoundTrip.antt =====
-- `encodeApprovalCommitmentV1` and then `decodeApprovalCommitmentV1`, field by field.
use sigbash_sdk.Prelude.{◌≡◌, refl, List, [], ◌∷◌, length, all, not, ◌==◌, ==_iff, true, ok, All}
use sigbash_sdk.Bytes.{Bytes, concat_bytes}
use sigbash_sdk.Prelude.{guard-eq-ok}
use sigbash_sdk.Bytes.Whole.{whole_exact}
use sigbash_sdk.Bytes.Reads.{
  Reads, Reads-pure, Decodes, Decodes-next, Decodes-last, Decodes-check, Decodes-splice,
  Decodes-lift, Decodes-then, Decodes-times,
}
use sigbash_sdk.Bytes.Fields.{
  Decodes-u8, Decodes-u16, Decodes-u32, Decodes-u64, Decodes-fixed, Decodes-length_delimited,
  Decodes-header,
}
use sigbash_sdk.Contracts.Fields.{text_field, read_text, Decodes-text}
use sigbash_sdk.Contracts.Codes.Laws.{decode_network_id-eq-ok_iff}
use sigbash_sdk.Text.{Text, is_faithful}
use mathlib.Core.Bool.{and-eq-true_iff}
use sigbash_sdk.Contracts.Codes.Tables.{encode_network_id}
use sigbash_sdk.Contracts.ApprovalCommitment.{Input, Output, CommitmentFields}
use sigbash_sdk.Contracts.ApprovalCommitment.Encode.{
  encode_input, encode_output, transaction_parts, commitment_parts, encode_approval_commitment,
}
use sigbash_sdk.Contracts.ApprovalCommitment.Decode.{
  read_input, read_output, read_transaction, read_commitment, typed_errors,
  decode_approval_commitment,
}

pub Decodes-input :
    (i : Input) → length i.outpoint_txid ≡ 32 → Decodes (encode_input i) read_input i
unfolding encode_input read_input
Decodes-input i h = Decodes-next _ _ _ _ _ _ (Decodes-fixed 32 i.outpoint_txid h) (
    Decodes-next _ _ _ _ _ _ (Decodes-u32 i.outpoint_vout) (
      Decodes-next _ _ _ _ _ _ (Decodes-u32 i.sequence) (
        Decodes-next _ _ _ _ _ _ (Decodes-u64 i.prevout_amount) (
          Decodes-next _ _ _ _ _ _ (Decodes-length_delimited i.prevout_script_pubkey) (
            Decodes-last _ _ _
              (Decodes-then _ _ _ _ _ (Reads-pure i) (Decodes-u32 i.sighash_type)))))))

pub Decodes-output : (o : Output) → Decodes (encode_output o) read_output o
unfolding encode_output read_output
Decodes-output o = Decodes-next _ _ _ _ _ _ (Decodes-u64 o.amount) (
    Decodes-last _ _ _
      (Decodes-then _ _ _ _ _ (Reads-pure o) (Decodes-length_delimited o.script_pubkey)))

All-fixed :
    (is : List Input)
    → all (λ i. length i.outpoint_txid == 32) is ≡ true
    → All (λ i. Decodes (encode_input i) read_input i) is
All-fixed [] h = tt
All-fixed (i ∷ is) h =
    let (here, later) = (and-eq-true_iff _ _).0 h in
    (Decodes-input i ((==_iff _ _).0 here), All-fixed is later)

All-outputs : (os : List Output) → All (λ o. Decodes (encode_output o) read_output o) os
All-outputs [] = tt
All-outputs (o ∷ os) = (Decodes-output o, All-outputs os)

All-texts :
    (ts : List Text) → all is_faithful ts ≡ true → All (λ t. Decodes (text_field t) read_text t) ts
All-texts [] h = tt
All-texts (t ∷ ts) h =
    let (here, later) = (and-eq-true_iff _ _).0 h in (Decodes-text t here, All-texts ts later)

Decodes-transaction :
    (f : CommitmentFields)
    → all (λ i. length i.outpoint_txid == 32) f.ordered_inputs ≡ true
    → Decodes
        (concat_bytes (transaction_parts f))
        (read_transaction f.network f.wallet_id f.policy_version_id f.selected_tapleaf_hash
          f.selected_customer_signer_ids)
        f
unfolding transaction_parts read_transaction
Decodes-transaction f inputs = Decodes-next _ _ _ _ _ _ (Decodes-u32 f.unsigned_tx_version) (
    Decodes-next _ _ _ _ _ _ (Decodes-u32 f.unsigned_tx_locktime) (
      Decodes-next _ _ _ _ _ _ (Decodes-u16 (length f.ordered_inputs)) (
        Decodes-splice _ _ _ _ _ _
          (Decodes-times encode_input read_input f.ordered_inputs
            (All-fixed f.ordered_inputs inputs))
          (Decodes-next _ _ _ _ _ _ (Decodes-u16 (length f.ordered_outputs)) (
            Decodes-then _ _ _ _ _ (Reads-pure f) (
              Decodes-times encode_output read_output f.ordered_outputs
                (All-outputs f.ordered_outputs)))))))

Decodes-parts :
    (f : CommitmentFields)
    → length f.wallet_id ≡ 32
    → length f.selected_tapleaf_hash ≡ 32
    → not (length f.selected_customer_signer_ids == 0) ≡ true
    → all (λ i. length i.outpoint_txid == 32) f.ordered_inputs ≡ true
    → is_faithful f.policy_version_id ≡ true
    → all is_faithful f.selected_customer_signer_ids ≡ true
    → Decodes (concat_bytes (commitment_parts f)) read_commitment f
unfolding commitment_parts read_commitment
Decodes-parts f wallet tapleaf signers inputs id ids =
    Decodes-next _ _ _ _ _ _ (Decodes-header 3 1 (1 ∷ []) refl) (
      Decodes-next _ _ _ _ _ _ (Decodes-u8 (encode_network_id f.network)) (
        Decodes-lift _ _ _ f.network _ ((decode_network_id-eq-ok_iff _ _).1 refl) (
          Decodes-next _ _ _ _ _ _ (Decodes-fixed 32 f.wallet_id wallet) (
            Decodes-next _ _ _ _ _ _ (Decodes-text f.policy_version_id id) (
              Decodes-next _ _ _ _ _ _ (Decodes-fixed 32 f.selected_tapleaf_hash tapleaf) (
                Decodes-next _ _ _ _ _ _ (Decodes-u16 (length f.selected_customer_signer_ids)) (
                  Decodes-check _ _ _ _ _ signers (
                    Decodes-splice _ _ _ _ _ _
                      (Decodes-times text_field read_text f.selected_customer_signer_ids
                        (All-texts f.selected_customer_signer_ids ids))
                      (Decodes-transaction f inputs)))))))))

-- The texts of a commitment survive their encoding.
abbrev pub IsFaithful : CommitmentFields → Type 0
IsFaithful f =
    (is_faithful f.policy_version_id ≡ true)
    × (all is_faithful f.selected_customer_signer_ids ≡ true)

pub commitment-Reads :
    (f : CommitmentFields) (bs : Bytes)
    → IsFaithful f
    → encode_approval_commitment f ≡ ok bs
    → Reads read_commitment bs f
unfolding encode_approval_commitment
commitment-Reads f bs (id, ids) h =
    let (wallet, h₁) = guard-eq-ok _ _ _ h in
    let (tapleaf, h₂) = guard-eq-ok _ _ _ h₁ in
    let (version, h₃) = guard-eq-ok _ _ _ h₂ in
    let (signers, h₄) = guard-eq-ok _ _ _ h₃ in
    let (inputs, h₅) = guard-eq-ok _ _ _ h₄ in
    Decodes-parts f ((==_iff _ _).0 wallet) ((==_iff _ _).0 tapleaf) signers inputs id ids bs h₅

-- Decoding what `encode_approval_commitment` produced gives back the fields, where every text of
-- the commitment is well-formed UTF-16 and does not begin with a byte order mark.
pub decode-encode_approval_commitment :
    (f : CommitmentFields) (bs : Bytes)
    → IsFaithful f
    → encode_approval_commitment f ≡ ok bs
    → decode_approval_commitment bs ≡ ok f
unfolding decode_approval_commitment typed_errors
decode-encode_approval_commitment f bs t h =
    rw (whole_exact _ read_commitment bs f (commitment-Reads f bs t h))
