-- ===== src/Contracts/WalletDescriptor/Sound.antt =====
-- The values that `decodeWalletDescriptorV1` returns.
use sigbash_sdk.Prelude.{
  ℕ, zero, suc, ◌≤◌, ◌≡◌, refl, ap, List, [], ◌∷◌, Option, none, some, true, not, all, length, ltb,
  leb→le, ◌==◌, ok, arith, All,
}
use mathlib.Core.Bool.{and-eq-true_iff}
use sigbash_sdk.Bytes.{Bytes}
use sigbash_sdk.Bytes.Decoder.{M, read_times, read_contract_header}
use sigbash_sdk.Contracts.Codes.Tables.{NetworkId, WalletMode}
use sigbash_sdk.Bytes.Ensures.{
  Ensures, Ensures-pure, Ensures-bind, Ensures-skip, Ensures-check, Ensures-times, Ensures-whole,
}
use sigbash_sdk.Contracts.WalletDescriptor.{
  contract_id, max_signers_per_leaf, Signer, AllowedSignerSet, WalletDescriptor, ascending,
}
use sigbash_sdk.Contracts.WalletDescriptor.Decode.{
  read_signer, read_indexes, read_set, read_sets, read_descriptor, decode_wallet_descriptor,
}

-- The indexes name signers, each above the one before.
abbrev pub AreIndexes : ℕ → Option ℕ → List ℕ → Type 0
AreIndexes signer_count previous is =
    (all (λ i. ltb i signer_count) is ≡ true) × (ascending previous is ≡ true)

-- A set names one to three of the signers, in strictly ascending order.
pub record IsSignerSet (signer_count : ℕ) (set : AllowedSignerSet) : Type 0 where
  pub some_signer : 1 ≤ length set.signer_indexes
  pub no_more : length set.signer_indexes ≤ max_signers_per_leaf
  pub indexes : AreIndexes signer_count none set.signer_indexes

pub record IsSound (d : WalletDescriptor) : Type 0 where
  pub version : d.version ≡ 1
  pub signers : 1 ≤ length d.signers
  pub sets : All (IsSignerSet (length d.signers)) d.allowed_signer_sets
  pub receive : 1 ≤ length d.receive_descriptor
  pub change : 1 ≤ length d.change_descriptor

-- A loop over `n` elements gives a list of `n`.
Ensures-times_length :
    {A : Type 0} (n : ℕ) (m : M A) → Ensures (read_times n m) (λ xs. length xs ≡ n)
unfolding read_times
Ensures-times_length zero m = Ensures-pure (λ xs. length xs ≡ 0) [] refl
Ensures-times_length (suc n) m =
    let P : List _ → Type 0 = λ xs. length xs ≡ suc n in
    Ensures-skip P m _ (λ x.
      Ensures-bind P (λ xs. length xs ≡ n) (read_times n m) _ (Ensures-times_length n m)
        (λ xs e. Ensures-pure P (x ∷ xs) (ap suc e)))

Ensures-indexes :
    (signer_count n : ℕ) (previous : Option ℕ)
    → Ensures
        (read_indexes signer_count n previous)
        (λ is. (length is ≡ n) × AreIndexes signer_count previous is)
unfolding read_indexes ascending
Ensures-indexes signer_count zero previous =
    Ensures-pure (λ is. (length is ≡ 0) × AreIndexes signer_count previous is) []
      (refl, (refl, refl))
Ensures-indexes signer_count (suc n) previous =
    let P : List ℕ → Type 0 = λ is. (length is ≡ suc n) × AreIndexes signer_count previous is in
    Ensures-skip P _ _ (λ i. Ensures-check P _ _ _ (λ below. Ensures-check P _ _ _ (λ here.
      Ensures-bind P (λ is. (length is ≡ n) × AreIndexes signer_count (some i) is)
        (read_indexes signer_count n (some i)) _ (Ensures-indexes signer_count n (some i))
        (λ is (e, (bs, as')).
          Ensures-pure P (i ∷ is) (
            ap suc e,
            ((and-eq-true_iff _ _).1 (below, bs), (and-eq-true_iff _ _).1 (here, as')),
          )))))

Ensures-set : (signer_count : ℕ) → Ensures (read_set signer_count) (IsSignerSet signer_count)
unfolding read_set
Ensures-set signer_count =
    let P = IsSignerSet signer_count in
    Ensures-skip P _ _ (λ size. Ensures-check P _ _ _ (λ fits.
      Ensures-bind P (λ is. (length is ≡ size) × AreIndexes signer_count none is) _ _
        (Ensures-indexes signer_count size none)
        (λ is (e, ok_indexes).
          Ensures-pure P (record { signer_indexes = is })
            (let (lo, hi) = (and-eq-true_iff _ _).0 fits in
              record {
                some_signer = rw e (leb→le _ _ lo);
                no_more = rw e (leb→le _ _ hi);
                indexes = ok_indexes;
              }))))

present : (n : ℕ) → not (n == 0) ≡ true → 1 ≤ n
present n h = ground arith

Ensures-sets :
    (version : ℕ) (network : NetworkId) (mode : WalletMode) (n : ℕ) (signers : List Signer)
    → version ≡ 1
    → length signers ≡ n
    → 1 ≤ n
    → Ensures (read_sets version network mode n signers) IsSound
unfolding read_sets
Ensures-sets version network mode n signers v e some_signer = Ensures-skip IsSound _ _ (λ count.
    Ensures-bind IsSound (All (IsSignerSet n)) _ _
      (Ensures-times (IsSignerSet n) count (read_set n) (Ensures-set n))
      (λ sets s. Ensures-skip IsSound _ _ (λ receive. Ensures-skip IsSound _ _ (λ change.
        Ensures-check IsSound _ _ _ (λ r. Ensures-check IsSound _ _ _ (λ c.
          Ensures-skip IsSound _ _ (λ recovery. Ensures-pure IsSound _ (record {
            version = v;
            signers = rw e some_signer;
            sets = rw e s;
            receive = present (length receive) r;
            change = present (length change) c;
          }))))))))

-- The header's reader returns a version that is supported.
Ensures-version : Ensures (read_contract_header contract_id (1 ∷ [])) (λ v. v ≡ 1)
unfolding read_contract_header
Ensures-version =
    let P : ℕ → Type 0 = λ v. v ≡ 1 in
    Ensures-skip P _ _ (λ id. Ensures-check P _ _ _ (λ known.
      Ensures-skip P _ _
        (λ version. Ensures-check P _ _ _ (λ supported. Ensures-pure P version (ground arith)))))

Ensures-descriptor : Ensures read_descriptor IsSound
unfolding read_descriptor
Ensures-descriptor =
    Ensures-bind IsSound (λ v. v ≡ 1) _ _ Ensures-version
      (λ version v. Ensures-skip IsSound _ _ (λ network_code. Ensures-skip IsSound _ _ (λ network.
        Ensures-skip IsSound _ _ (λ mode_code. Ensures-skip IsSound _ _ (λ mode.
          Ensures-skip IsSound _ _ (λ count. Ensures-check IsSound _ _ _ (λ some_signer.
            Ensures-bind IsSound (λ ss. length ss ≡ count) _ _
              (Ensures-times_length count read_signer)
              (λ signers e.
                Ensures-sets version network mode count signers v e
                  (present count some_signer)))))))))

-- A descriptor that decodes has version 1, a signer, two descriptor texts that are not empty, and
-- only sets of one to three of its signers in strictly ascending order.
pub decode_wallet_descriptor-IsSound :
    (bytes : Bytes) (d : WalletDescriptor) → decode_wallet_descriptor bytes ≡ ok d → IsSound d
unfolding decode_wallet_descriptor
decode_wallet_descriptor-IsSound bytes d h =
    Ensures-whole IsSound _ read_descriptor bytes d Ensures-descriptor h
