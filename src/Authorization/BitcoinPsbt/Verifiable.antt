-- ===== src/Authorization/BitcoinPsbt/Verifiable.antt =====
-- The subjects that the adapter's gate passes.
use sigbash_sdk.Prelude.{
  ℕ, suc, ◌≡◌, refl, List, [], ◌∷◌, length, Bool, true, false, not, ◌&&◌, ◌==◌, ltb, Result, ok,
  err, guard, if◌then◌else◌, Bool-cases, inl, inr,
}
use sigbash_sdk.Prelude
use sigbash_sdk.Calls.{◌>>=◌, ◌>>◌}
use sigbash_sdk.Bytes.{Bytes}
use sigbash_sdk.Text.{Text}
use sigbash_sdk.Authorization.Psbt.{ParsedTxInput, ParsedTxOutput, ParsedPsbtInput, ParsedPsbt}
use sigbash_sdk.Authorization.Psbt.Maps.{parse_psbt_bytes}
use sigbash_sdk.Authorization.BitcoinPsbt.{
  is_accepted, is_p2tr, posture_of, has_witness_utxo, resolve_prevout, check_acp, check_position,
  check_positions, check_verifiable,
}

-- The rules for an ANYONECANPAY position: a taproot prevout, read from the witness UTXO, and not the
-- last of several positions.
pub record IsAcp (count i : ℕ) (input : ParsedPsbtInput) (prevout : ParsedTxOutput) : Type 0 where
  pub taproot : is_p2tr prevout.script_pub_key ≡ true
  pub witness : has_witness_utxo input ≡ true
  pub completes : not (suc i == count && ltb 1 count) ≡ true

pub record IsPosition (spending : List ParsedTxInput) (count i : ℕ) (input : ParsedPsbtInput)
    : Type 0 where
  pub posture : is_accepted (posture_of input) ≡ true
  pub prevout : ParsedTxOutput
  pub resolved : resolve_prevout spending i input ≡ ok prevout
  pub acp : (posture_of input == 0x81) ≡ true → IsAcp count i input prevout

abbrev pub ArePositions : List ParsedTxInput → ℕ → ℕ → List ParsedPsbtInput → Type 0
ArePositions spending count i [] = Unit
ArePositions spending count i (input ∷ inputs) =
    IsPosition spending count i input × ArePositions spending count (suc i) inputs

-- A PSBT with a position, an input map for each input, and every position as the rules want it.
pub record IsVerifiable (raw : Bytes) : Type 0 where
  pub psbt : ParsedPsbt
  pub parsed : parse_psbt_bytes raw ≡ ok psbt
  pub some_position : not (length psbt.inputs == 0) ≡ true
  pub covered : (length psbt.inputs == length psbt.unsigned_tx.inputs) ≡ true
  pub positions : ArePositions psbt.unsigned_tx.inputs (length psbt.inputs) 0 psbt.inputs

check_acp-IsAcp :
    (count i : ℕ) (input : ParsedPsbtInput) (prevout : ParsedTxOutput)
    → check_acp count i input prevout ≡ ok tt
    → IsAcp count i input prevout
unfolding check_acp ◌>>◌
check_acp-IsAcp count i input prevout h =
    let (taproot, h1) = Prelude.guard-eq-ok _ _ _ h in
    let (witness, h2) = Prelude.guard-eq-ok _ _ _ h1 in
    let (completes, done) = Prelude.guard-eq-ok _ _ _ h2 in
    record { taproot = taproot; witness = witness; completes = completes }

IsAcp-branch :
    (t : Bool) (count i : ℕ) (input : ParsedPsbtInput) (prevout : ParsedTxOutput)
    → (if t then check_acp count i input prevout else ok tt) ≡ ok tt
    → t ≡ true
    → IsAcp count i input prevout
IsAcp-branch true count i input prevout h e = check_acp-IsAcp count i input prevout h
IsAcp-branch false count i input prevout h e = absurd cc

check_position-IsPosition :
    (spending : List ParsedTxInput) (count i : ℕ) (input : ParsedPsbtInput)
    → check_position spending count i input ≡ ok tt
    → IsPosition spending count i input
unfolding check_position ◌>>◌ ◌>>=◌
check_position-IsPosition spending count i input h =
    let (posture, h1) = Prelude.guard-eq-ok _ _ _ h in
    let (prevout, resolved, h2) = Prelude.>>=-eq-ok (resolve_prevout spending i input) _ h1 in
    record {
      posture = posture;
      prevout = prevout;
      resolved = resolved;
      acp = IsAcp-branch (posture_of input == 0x81) count i input prevout h2;
    }

check_positions-ArePositions :
    (spending : List ParsedTxInput) (count i : ℕ) (inputs : List ParsedPsbtInput)
    → check_positions spending count i inputs ≡ ok tt
    → ArePositions spending count i inputs
unfolding check_positions ◌>>◌
check_positions-ArePositions spending count i [] h = tt
check_positions-ArePositions spending count i (input ∷ inputs) h =
    let (here, later) = Prelude.>>-eq-ok (check_position spending count i input) _ h in
    (
      check_position-IsPosition spending count i input here,
      check_positions-ArePositions spending count (suc i) inputs later,
    )

-- A subject that the gate passes is a PSBT with at least one position and an input map for each input,
-- each of whose positions declares an accepted sighash posture and has a prevout; where the posture is
-- ANYONECANPAY, the prevout is taproot, stands in a witness UTXO, and is not the last of several.
pub check_verifiable-IsVerifiable :
    (raw : Bytes) (network : Text) → check_verifiable raw network ≡ ok tt → IsVerifiable raw
unfolding check_verifiable ◌>>◌ ◌>>=◌
check_verifiable-IsVerifiable raw network h =
    let (psbt, parsed, h1) = Prelude.>>=-eq-ok (parse_psbt_bytes raw) _ h in
    let (some_position, h2) = Prelude.guard-eq-ok _ _ _ h1 in
    let (covered, h3) = Prelude.guard-eq-ok _ _ _ h2 in
    record {
      psbt = psbt;
      parsed = parsed;
      some_position = some_position;
      covered = covered;
      positions =
          check_positions-ArePositions psbt.unsigned_tx.inputs (length psbt.inputs) 0 psbt.inputs
            h3;
    }
