-- ===== src/Authorization/BitcoinPsbt/Inputs.antt =====
-- What `buildAdapterInputs` and `buildAdapterOutputs` make of a PSBT.
use sigbash_sdk.Prelude.{
  ℕ, zero, suc, ◌+◌, ◌≡◌, refl, sym, ◌∙◌, ap, List, [], ◌∷◌, get_elem?, Option, none, some,
  Option-cases, Result, ok, inl, inr, arith, ok-injective,
}
use sigbash_sdk.Prelude
use sigbash_sdk.Calls.{◌>>=◌}
use sigbash_sdk.Bytes.{Bytes}
use sigbash_sdk.Contracts.AuthorizationSubject.{TxInput, TxOutput}
use sigbash_sdk.Authorization.Psbt.{
  ParsedTxInput, ParsedTxOutput, ParsedTx, ParsedWitnessUtxo, ParsedPsbtInput,
}
use sigbash_sdk.Authorization.Psbt.Reader.{parse_transaction}
use sigbash_sdk.Authorization.BitcoinPsbt.{
  at_index, output_at, resolve_prevout, adapter_inputs, adapter_outputs,
}

-- The input of the transaction with the value and the script that it spends.
abbrev pub spending_of : ParsedTxInput → ℕ → Bytes → TxInput
spending_of spent value script = record {
  txid = spent.txid;
  vout = spent.vout;
  sequence = spent.sequence;
  amount = value;
  script_pub_key = script;
}

-- The witness UTXO, or the output of the previous transaction that the input points to.
pub data IsPrevout (spent : ParsedTxInput) (input : ParsedPsbtInput) (value : ℕ) (script : Bytes)
    : Type 0 where
  from_witness :
      (u : ParsedWitnessUtxo)
      → input.witness_utxo ≡ some u
      → u.value ≡ value
      → u.script_pub_key ≡ script
      → IsPrevout spent input value script
  from_previous :
      (raw : Bytes) (previous : ParsedTx) (o : ParsedTxOutput)
      → input.witness_utxo ≡ none
      → input.non_witness_utxo ≡ some raw
      → parse_transaction raw ≡ ok previous
      → get_elem? previous.outputs spent.vout ≡ some o
      → o.value ≡ value
      → o.script_pub_key ≡ script
      → IsPrevout spent input value script

pub record IsAdapterInput (spent : ParsedTxInput) (input : ParsedPsbtInput) (t : TxInput)
    : Type 0 where
  pub same : spending_of spent t.amount t.script_pub_key ≡ t
  pub prevout : IsPrevout spent input t.amount t.script_pub_key

-- One for each input of the transaction, from the input map at its position.
abbrev pub AreAdapterInputs : List ParsedTxInput → List ParsedPsbtInput → List TxInput → Type 0
AreAdapterInputs [] maps [] = Unit
AreAdapterInputs [] maps (t ∷ ts) = ⊥
AreAdapterInputs (spent ∷ rest) [] ts = ⊥
AreAdapterInputs (spent ∷ rest) (input ∷ maps) [] = ⊥
AreAdapterInputs (spent ∷ rest) (input ∷ maps) (t ∷ ts) =
    IsAdapterInput spent input t × AreAdapterInputs rest maps ts

at_index-eq-ok :
    {A : Type 0} (xs : List A) (i : ℕ) (a b : A)
    → at_index xs i ≡ ok a
    → get_elem? xs i ≡ some b
    → b ≡ a
unfolding at_index
at_index-eq-ok xs i a b h e = ok-injective _ _ (rw (e, at_index) at h)

output_at-eq-ok :
    (outputs : List ParsedTxOutput) (vout : ℕ) (o : ParsedTxOutput)
    → output_at outputs vout ≡ ok o
    → get_elem? outputs vout ≡ some o
unfolding output_at
output_at-eq-ok outputs vout o h = elim (Option-cases (get_elem? outputs vout)) [
  | inl missing ↦ absurd (let e = rw (missing, output_at) at h in cc e)
  | inr (o', found) ↦ found ∙ ap some (ok-injective _ _ (rw (found, output_at) at h))
]

module _ (spending : List ParsedTxInput) (i : ℕ) (spent : ParsedTxInput)
    (found : get_elem? spending i ≡ some spent) where
  previous-IsPrevout :
      (input : ParsedPsbtInput) (raw : Bytes) (o : ParsedTxOutput)
      → input.witness_utxo ≡ none
      → input.non_witness_utxo ≡ some raw
      → (parse_transaction raw >>= λ previous.
          at_index spending i >>= λ s. output_at (previous.outputs) (s.vout))
        ≡ ok o
      → IsPrevout spent input o.value o.script_pub_key
  unfolding ◌>>=◌
  previous-IsPrevout input raw o none_there there h =
      let (previous, parsed, h1) = Prelude.>>=-eq-ok (parse_transaction raw) _ h in
      let (s, at, h2) = Prelude.>>=-eq-ok (at_index spending i) _ h1 in
      let same : spent ≡ s = at_index-eq-ok spending i s spent at found in
      let h3 : output_at previous.outputs spent.vout ≡ ok o = rw same h2 in
      IsPrevout.from_previous raw previous o none_there there parsed
        (output_at-eq-ok previous.outputs spent.vout o h3) refl refl

  resolve_prevout-IsPrevout :
      (input : ParsedPsbtInput) (o : ParsedTxOutput)
      → resolve_prevout spending i input ≡ ok o
      → IsPrevout spent input o.value o.script_pub_key
  unfolding resolve_prevout
  resolve_prevout-IsPrevout input o h = elim (Option-cases (input.witness_utxo)) [
    | inr (u, there) ↦
        (let e = ok-injective _ _ (rw there at h) in
          IsPrevout.from_witness u there (ap (λ (p : ParsedTxOutput). p.value) e)
            (ap (λ (p : ParsedTxOutput). p.script_pub_key) e))
    | inl missing ↦ elim (Option-cases (input.non_witness_utxo)) [
      | inl neither ↦ absurd (let e = rw (missing, neither) at h in cc e)
      | inr (raw, there) ↦ previous-IsPrevout input raw o missing there (rw (missing, there) at h)
    ]
  ]

-- The loop over the inputs behind the first `i` ones.
adapter_inputs-from :
    (spending : List ParsedTxInput) (i : ℕ) (maps : List ParsedPsbtInput)
    (rest : List ParsedTxInput) (ts : List TxInput)
    → ((k : ℕ) → get_elem? spending (i + k) ≡ get_elem? rest k)
    → adapter_inputs spending i maps rest ≡ ok ts
    → AreAdapterInputs rest maps ts
unfolding adapter_inputs ◌>>=◌
adapter_inputs-from spending i maps [] ts tail h = rw (← ok-injective _ _ h) tt
adapter_inputs-from spending i [] (spent ∷ rest) ts tail h = absurd cc
adapter_inputs-from spending i (input ∷ maps) (spent ∷ rest) ts tail h =
    let (o, prevout, h1) = Prelude.>>=-eq-ok (resolve_prevout spending i input) _ h in
    let (later, others, h2) = Prelude.>>=-eq-ok (adapter_inputs spending (suc i) maps rest) _ h1 in
    let here : get_elem? spending i ≡ some spent =
      let e : i + 0 ≡ i = omega arith in rw e at (tail 0) in
    let behind : (k : ℕ) → get_elem? spending (suc i + k) ≡ get_elem? rest k =
      λ k. let e : suc i + k ≡ i + suc k = omega arith in rw e (tail (suc k)) in
    rw (← ok-injective _ _ h2) (
      record {
        same = refl;
        prevout = resolve_prevout-IsPrevout spending i spent here input o prevout;
      },
      adapter_inputs-from spending (suc i) maps rest later behind others,
    )

pub adapter_inputs-AreAdapterInputs :
    (spending : List ParsedTxInput) (maps : List ParsedPsbtInput) (ts : List TxInput)
    → adapter_inputs spending 0 maps spending ≡ ok ts
    → AreAdapterInputs spending maps ts
adapter_inputs-AreAdapterInputs spending maps ts h =
    adapter_inputs-from spending 0 maps spending ts (λ k. let e : 0 + k ≡ k = omega arith in rw e) h

-- Every position has an input map.
pub map_found :
    (spending : List ParsedTxInput) (maps : List ParsedPsbtInput) (ts : List TxInput) (k : ℕ)
    (t : TxInput)
    → AreAdapterInputs spending maps ts
    → get_elem? ts k ≡ some t
    → (input : ParsedPsbtInput) × (get_elem? maps k ≡ some input)
map_found [] maps [] k t h e = absurd cc
map_found [] maps (u ∷ ts) k t h e = elim h [ ]
map_found (s ∷ rest) [] ts k t h e = elim h [ ]
map_found (s ∷ rest) (m ∷ maps) [] k t h e = elim h [ ]
map_found (s ∷ rest) (m ∷ maps) (u ∷ ts) zero t h e = (m, refl)
map_found (s ∷ rest) (m ∷ maps) (u ∷ ts) (suc k) t (h, hs) e = map_found rest maps ts k t hs e

-- The outputs of the transaction, one for one.
abbrev pub AreAdapterOutputs : List ParsedTxOutput → List TxOutput → Type 0
AreAdapterOutputs [] [] = Unit
AreAdapterOutputs [] (t ∷ ts) = ⊥
AreAdapterOutputs (o ∷ os) [] = ⊥
AreAdapterOutputs (o ∷ os) (t ∷ ts) =
    (o.value ≡ t.value) × (o.script_pub_key ≡ t.script_pub_key) × AreAdapterOutputs os ts

pub adapter_outputs-AreAdapterOutputs :
    (os : List ParsedTxOutput) → AreAdapterOutputs os (adapter_outputs os)
unfolding adapter_outputs
adapter_outputs-AreAdapterOutputs [] = tt
adapter_outputs-AreAdapterOutputs (o ∷ os) = (refl, refl, adapter_outputs-AreAdapterOutputs os)
