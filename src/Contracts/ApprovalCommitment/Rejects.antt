-- ===== src/Contracts/ApprovalCommitment/Rejects.antt =====
-- The errors of `decodeApprovalCommitmentV1`, and the digests of `computeApprovalCommitment`.
use sigbash_sdk.Prelude.{
  ℕ, ◌≡◌, ◌≢◌, sym, ◌∙◌, ap, ◌⊎◌, inl, inr, ◌∷◌, ◌++◌, Result, ok, err, Error, version_error,
  decode_error, arith, >>=-eq-ok, ok-injective,
}
use sigbash_sdk.Bytes.{Bytes}
use sigbash_sdk.Bytes.Decoder.{whole}
use sigbash_sdk.Bytes.Whole.{whole_trailing, whole_truncated}
use sigbash_sdk.Bytes.Prefixes.{Extends}
use sigbash_sdk.Contracts.Fields.{extends_rules, tagged_hash-injective, Collision}
use sigbash_sdk.Contracts.ApprovalCommitment.{CommitmentFields, commitment_tag}
use sigbash_sdk.Contracts.ApprovalCommitment.Encode.{
  encode_approval_commitment, compute_approval_commitment,
}
use sigbash_sdk.Contracts.ApprovalCommitment.Decode.{
  read_input, read_output, read_transaction, read_commitment, typed_errors,
  decode_approval_commitment,
}
use sigbash_sdk.Contracts.ApprovalCommitment.RoundTrip.{
  IsFaithful, commitment-Reads, decode-encode_approval_commitment,
}

Extends-read_input : Extends read_input
unfolding read_input
Extends-read_input = search extends_rules depth 12

Extends-read_output : Extends read_output
unfolding read_output
Extends-read_output = search extends_rules depth 12

Extends-read_commitment : Extends read_commitment
unfolding read_commitment read_transaction
Extends-read_commitment = search (extends_rules, Extends-read_input, Extends-read_output) depth 30

typed_errors_cases :
    {A : Type 0} (r : Result A) (e : Error)
    → typed_errors r ≡ err e
    → (e ≡ version_error) ⊎ (e ≡ decode_error)
unfolding typed_errors
typed_errors_cases (ok a) e h = cc
typed_errors_cases (err version_error) e h = ground arith
typed_errors_cases (err decode_error) e h = ground arith
typed_errors_cases (err _) e h = ground arith

typed_errors-eq-ok : {A : Type 0} (r : Result A) (a : A) → typed_errors r ≡ ok a → r ≡ ok a
unfolding typed_errors
typed_errors-eq-ok (ok a) b h = h
typed_errors-eq-ok (err version_error) b h = cc
typed_errors-eq-ok (err decode_error) b h = cc
typed_errors-eq-ok (err _) b h = cc

module _ (f : CommitmentFields) (bs : Bytes) (texts : IsFaithful f)
    (encoded : encode_approval_commitment f ≡ ok bs) where
  -- A byte behind the encoding of a commitment, whose texts are well-formed UTF-16 and do not begin
  -- with a byte order mark, is a decode error.
  pub decode_approval_commitment_trailing :
      (x : ℕ) (rest : Bytes) → decode_approval_commitment (bs ++ x ∷ rest) ≡ err decode_error
  unfolding decode_approval_commitment typed_errors
  decode_approval_commitment_trailing x rest =
      rw (whole_trailing _ read_commitment bs f (commitment-Reads f bs texts encoded) x rest)

  -- No proper prefix of the encoding of a commitment, whose texts are well-formed UTF-16 and do not
  -- begin with a byte order mark, decodes to anything.
  pub decode_approval_commitment_truncated :
      (front back : Bytes) (x : ℕ) (g : CommitmentFields)
      → bs ≡ front ++ x ∷ back
      → decode_approval_commitment front ≢ ok g
  unfolding decode_approval_commitment
  decode_approval_commitment_truncated front back x g cut h =
      whole_truncated _ read_commitment bs f (commitment-Reads f bs texts encoded)
        Extends-read_commitment front back x g cut (typed_errors-eq-ok _ g h)

-- The decoder throws version errors and decode errors, and no others.
pub decode_approval_commitment_errors :
    (bytes : Bytes) (e : Error)
    → decode_approval_commitment bytes ≡ err e
    → (e ≡ version_error) ⊎ (e ≡ decode_error)
unfolding decode_approval_commitment typed_errors
decode_approval_commitment_errors bytes e h = typed_errors_cases (whole read_commitment bytes) e h

-- Two commitments that hash alike commit to the same fields, or show two byte strings that collide
-- under the hash function, where the texts of both are well-formed UTF-16 and do not begin with a
-- byte order mark.
pub compute_approval_commitment-injective :
    (sha256 : Bytes → Bytes) (f g : CommitmentFields) (digest : Bytes)
    → IsFaithful f
    → IsFaithful g
    → compute_approval_commitment sha256 f ≡ ok digest
    → compute_approval_commitment sha256 g ≡ ok digest
    → (f ≡ g) ⊎ Collision sha256
unfolding compute_approval_commitment
compute_approval_commitment-injective sha256 f g digest tf tg hf hg =
    let (a, ea, da) = >>=-eq-ok (encode_approval_commitment f) _ hf in
    let (b, eb, db) = >>=-eq-ok (encode_approval_commitment g) _ hg in
    let alike = ok-injective _ _ da ∙ sym (ok-injective _ _ db) in
    elim (tagged_hash-injective sha256 commitment_tag a b alike) [
      | inl same ↦ inl (
          ok-injective _ _ (
            sym (decode-encode_approval_commitment f a tf ea)
            ∙ ap decode_approval_commitment same
            ∙ decode-encode_approval_commitment g b tg eb))
      | inr collision ↦ inr collision
    ]
