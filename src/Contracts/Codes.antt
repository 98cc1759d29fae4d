-- ===== src/Contracts/Codes.antt =====
-- The wire codes of the enumerations under src/contracts: network.ts, proposal.ts, policy.ts,
-- signingSession.ts, policyKeyAccess.ts, protocolAuthority.ts and walletDescriptor.ts, with
-- `invertCodeMap` of encoding.ts. A code table is the list of its entries in source order.
pub mod Tables
pub mod Laws
pub mod Agreement
use sigbash_sdk.Prelude.{
  ℕ, List, [], ◌∷◌, map, Option, none, some, ◌==◌, if◌then◌else◌, Result, ok, err, version_error,
}

-- `Object.entries(codes).map(([name, code]) => [code, name])`
unfoldable pub invert_code_map : {K : Type 0} → List (K × ℕ) → List (ℕ × K)
invert_code_map [] = []
invert_code_map ((name, code) ∷ codes) = (code, name) ∷ invert_code_map codes

-- A property of `Object.fromEntries(entries)`: of two entries with one key the later one counts.
unfoldable pub property_of : {K : Type 0} → ℕ → List (ℕ × K) → Option K
property_of key [] = none
property_of key ((k, v) ∷ entries) = elim (property_of key entries) [
  | some later ↦ some later
  | none ↦ if k == key then some v else none
]

-- `const x = CODE_TO_X[code]; if (x === undefined) throw new ContractVersionError(…)`
unfoldable pub decode_code : {K : Type 0} → List (K × ℕ) → ℕ → Result K
unfolding invert_code_map property_of
decode_code codes code = elim (property_of code (invert_code_map codes)) [
  | none ↦ err version_error
  | some name ↦ ok name
]
