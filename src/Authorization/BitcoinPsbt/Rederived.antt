-- ===== src/Authorization/BitcoinPsbt/Rederived.antt =====
-- The challenges that `rederiveCompletingEHat` returns.
use sigbash_sdk.Prelude.{
  ℕ, ◌≡◌, ◌↔◌, refl, ◌∙◌, ap, List, [], ◌∷◌, length, All, get_elem?, Bool, true, false, ==_iff,
  Option, none, some, Option-cases, Result, ok, inl, inr, ok-injective, zero, suc, guard-eq-ok, ltb,
  plain_error, bad_index, >>=-eq-ok,
}
use sigbash_sdk.Calls.{◌>>=◌, ◌>>◌}
use sigbash_sdk.Bytes.{Bytes}
use sigbash_sdk.Json.{Number}
use sigbash_sdk.Contracts.AuthorizationSubject.{TxInput, TxOutput}
use sigbash_sdk.Contracts.AuthorizationSubject.Preimages.{authz_prevout_q, input_at}
use sigbash_sdk.Authorization.Psbt.{ParsedPsbt}
use sigbash_sdk.Authorization.Psbt.Maps.{parse_psbt_bytes}
use sigbash_sdk.Authorization.Psbt.Sound.{parse_psbt_bytes-HasWholeLeaves}
use sigbash_sdk.Authorization.Envelope.{Envelope, Position, completing_position_of}
use sigbash_sdk.Authorization.Envelope.Widths.{IsEnvelope, IsPosition}
use sigbash_sdk.Authorization.BitcoinPsbt.{adapter_inputs, adapter_outputs, is_acp_type, same_bool}
use sigbash_sdk.Authorization.BitcoinPsbt.Inputs.{
  AreAdapterInputs, adapter_inputs-AreAdapterInputs, adapter_outputs-AreAdapterOutputs, map_found,
}
use sigbash_sdk.Authorization.BitcoinPsbt.Challenge.{IsSighash, IsSigned, IsChallenge}
use sigbash_sdk.Authorization.BitcoinPsbt.EHat.{authz_e_hat-IsEHat}
use sigbash_sdk.Authorization.BitcoinPsbt.Leaves.{leaf_hash_of-IsLeaf_found}
use sigbash_sdk.Authorization.BitcoinPsbt.Rederive.{
  completing_of, leaf_at, leaf_hash_of, completing_sighash, challenge_at, rederive_of,
  rederive_completing_e_hat,
}

same_bool-eq-true : (a b : Bool) → same_bool a b ≡ true → a ≡ b
same_bool-eq-true true true h = refl
same_bool-eq-true true false h = cc
same_bool-eq-true false true h = cc
same_bool-eq-true false false h = refl

is_acp_type_iff : (n : Number) → (is_acp_type n ≡ true) ↔ (n ≡ Number.natural 0x81)
is_acp_type_iff (Number.natural n) =
    (λ h. ap Number.natural ((==_iff n 0x81).0 h), λ e. (==_iff n 0x81).1 (cc e))
is_acp_type_iff (Number.negative n) = (λ h. cc, λ e. cc)
is_acp_type_iff (Number.fractional n) = (λ h. cc, λ e. cc)

is_acp_iff :
    (declared : Bool) (n : Number)
    → same_bool declared (is_acp_type n) ≡ true
    → (declared ≡ true) ↔ (n ≡ Number.natural 0x81)
is_acp_iff declared n h = rw (same_bool-eq-true declared (is_acp_type n) h) (is_acp_type_iff n)

completing_of-eq-ok : (o : Option Position) (p : Position) → completing_of o ≡ ok p → o ≡ some p
unfolding completing_of
completing_of-eq-ok none p h = cc
completing_of-eq-ok (some q) p h = ap some (ok-injective q p h)

get_elem?-All :
    {A : Type 0} (P : A → Type 0) (xs : List A) (i : ℕ) (a : A)
    → All P xs
    → get_elem? xs i ≡ some a
    → P a
get_elem?-All P [] i a h e = absurd cc
get_elem?-All P (x ∷ xs) zero a (p, h) e = let same : x ≡ a = cc in rw (← same) p
get_elem?-All P (x ∷ xs) (suc i) a (p, h) e = get_elem?-All P xs i a h e

input_at-eq-ok :
    (inputs : List TxInput) (i : ℕ) (t : TxInput)
    → input_at inputs i ≡ ok t
    → get_elem? inputs i ≡ some t
unfolding input_at
input_at-eq-ok inputs i t h = elim (Option-cases (get_elem? inputs i)) [
  | inl missing ↦ absurd (let e = rw (missing, input_at) at h in cc e)
  | inr (u, found) ↦ found ∙ ap some (ok-injective _ _ (rw (found, input_at) at h))
]

module _ (sha256 : Bytes → Bytes) (compress : Bytes → Bytes → Bytes)
    (r_nonce : Bytes → Bytes → Result Bytes) where
  completing_sighash-IsSighash :
      (declared acp : Bool) (leaf : Option Bytes) (inputs : List TxInput) (outputs : List TxOutput)
      (position : ℕ) (sighash : Bytes)
      → same_bool declared acp ≡ true
      → completing_sighash sha256 compress r_nonce acp leaf inputs outputs position ≡ ok sighash
      → IsSighash sha256 declared leaf inputs outputs position sighash
  unfolding completing_sighash
  completing_sighash-IsSighash declared true (some l) inputs outputs position sighash agree h =
      IsSighash.acp_leaf l (same_bool-eq-true _ _ agree) refl h
  completing_sighash-IsSighash declared true none inputs outputs position sighash agree h =
      IsSighash.acp_key (same_bool-eq-true _ _ agree) refl h
  completing_sighash-IsSighash declared false (some l) inputs outputs position sighash agree h =
      IsSighash.whole_leaf l (same_bool-eq-true _ _ agree) refl h
  completing_sighash-IsSighash declared false none inputs outputs position sighash agree h =
      IsSighash.whole_key (same_bool-eq-true _ _ agree) refl (ok-injective _ _ h)

  module _ (width : (x : Bytes) → length (sha256 x) ≡ 32) (psbt : ParsedPsbt) (envelope : Envelope)
      (widths : IsEnvelope envelope) (salt e : Bytes) where
    challenge_at-IsSigned :
        (completing : Position) (inputs : List TxInput)
        → get_elem? envelope.positions envelope.completing_position ≡ some completing
        → same_bool completing.posture.is_acp (is_acp_type completing.posture.hash_type) ≡ true
        → AreAdapterInputs psbt.unsigned_tx.inputs psbt.inputs inputs
        → challenge_at sha256 compress r_nonce psbt envelope salt completing inputs ≡ ok e
        → IsSigned sha256 compress r_nonce psbt envelope salt completing inputs e
    unfolding challenge_at ◌>>=◌
    challenge_at-IsSigned completing inputs found agree resolved h =
        let position = envelope.completing_position in
        let posture = completing.posture in
        let acp = is_acp_type posture.hash_type in
        let outputs = adapter_outputs psbt.unsigned_tx.outputs in
        let choice =
          leaf_hash_of sha256 compress r_nonce posture.mux_branch posture.leaf_hash
            (leaf_at psbt.inputs position) in
        let (leaf, hl, h1) = >>=-eq-ok choice _ h in
        let message = completing_sighash sha256 compress r_nonce acp leaf inputs outputs position in
        let (sighash, hs, h2) = >>=-eq-ok message _ h1 in
        let (spent, hsp, h3) = >>=-eq-ok (input_at inputs position) _ h2 in
        let (r_x, nonce, h4) = >>=-eq-ok (r_nonce salt envelope.session_id) _ h3 in
        let spent_found = input_at-eq-ok inputs position spent hsp in
        let (input, input_found) =
          map_found psbt.unsigned_tx.inputs psbt.inputs inputs position spent resolved
            spent_found in
        let is_position =
          get_elem?-All IsPosition envelope.positions position completing widths.positions found in
        record {
          spent = spent;
          spent_found = spent_found;
          input = input;
          input_found = input_found;
          leaf = leaf;
          leaf_bound =
              leaf_hash_of-IsLeaf_found sha256 compress r_nonce width completing psbt.inputs
                position input leaf is_position input_found hl;
          outputs = outputs;
          outputs_kept = adapter_outputs-AreAdapterOutputs psbt.unsigned_tx.outputs;
          sighash = sighash;
          signed =
              completing_sighash-IsSighash posture.is_acp acp leaf inputs outputs position sighash
                agree hs;
          r_x = r_x;
          nonce = nonce;
          e_hat =
              authz_e_hat-IsEHat sha256 compress r_nonce r_x
                (authz_prevout_q sha256 spent.script_pub_key) sighash e h4;
        }

    rederive_of-IsChallenge :
        (raw : Bytes)
        → parse_psbt_bytes raw ≡ ok psbt
        → rederive_of sha256 compress r_nonce psbt envelope salt ≡ ok e
        → IsChallenge sha256 compress r_nonce raw envelope salt e
    unfolding rederive_of ◌>>=◌ ◌>>◌ completing_position_of
    rederive_of-IsChallenge raw parsed h =
        let spending = psbt.unsigned_tx.inputs in
        let (completing, hc, h1) =
          >>=-eq-ok (completing_of (completing_position_of envelope)) _ h in
        let found = completing_of-eq-ok (completing_position_of envelope) completing hc in
        let posture = completing.posture in
        let (agree, h2) =
          guard-eq-ok (same_bool posture.is_acp (is_acp_type posture.hash_type)) _ _ h1 in
        let (inputs, hi, h3) = >>=-eq-ok (adapter_inputs spending 0 psbt.inputs spending) _ h2 in
        let resolved = adapter_inputs-AreAdapterInputs spending psbt.inputs inputs hi in
        let (within, h4) =
          guard-eq-ok (ltb envelope.completing_position (length inputs)) (plain_error bad_index) _
            h3 in
        record {
          psbt = psbt;
          parsed = parsed;
          whole_leaves = parse_psbt_bytes-HasWholeLeaves raw psbt parsed;
          completing = completing;
          found = found;
          posture = is_acp_iff posture.is_acp posture.hash_type agree;
          inputs = inputs;
          resolved = resolved;
          signed = challenge_at-IsSigned completing inputs found agree resolved h4;
        }

  -- Where the envelope has its widths and digests have 32 bytes, a challenge that is re-derived from a
  -- raw subject is bound to it. The subject is a PSBT, each leaf of which has a control block and a
  -- script, and whose inputs are taken with the prevouts of their input maps; the completing position
  -- is one of the envelope's and of the PSBT's; its ANYONECANPAY flag is set exactly where its hash
  -- type is 0x81; the sighash has 32 bytes and is that of the posture and the branch, for version 2 and
  -- lock time 0; its leaf is the first one that the PSBT carries there, which the disclosed hash does
  -- not contradict, or the disclosed one where the PSBT carries none, and on the key path there is no
  -- leaf in the PSBT or in the sighash; and the challenge is e' + beta modulo 2 ^ 256, with the nonce
  -- of the salt and the session and the key of the position's prevout.
  pub rederive_completing_e_hat-IsChallenge :
      ((x : Bytes) → length (sha256 x) ≡ 32)
      → (raw : Bytes) (envelope : Envelope) (salt e : Bytes) → IsEnvelope envelope
      → rederive_completing_e_hat sha256 compress r_nonce raw envelope salt ≡ ok e
      → IsChallenge sha256 compress r_nonce raw envelope salt e
  unfolding rederive_completing_e_hat ◌>>=◌
  rederive_completing_e_hat-IsChallenge width raw envelope salt e widths h =
      let (psbt, parsed, h1) = >>=-eq-ok (parse_psbt_bytes raw) _ h in
      rederive_of-IsChallenge width psbt envelope widths salt e raw parsed h1
