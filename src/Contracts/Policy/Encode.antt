-- ===== src/Contracts/Policy/Encode.antt =====
-- `encodeCanonicalPolicyAstV1` and `encodeNode`. The parts of an array of bytes are concatenated in
-- their order; an absent optional field is an empty part.
use sigbash_sdk.Prelude.{
  ℕ, ◌+◌, List, [], ◌∷◌, map, length, Bool, true, false, Option, none, some, leb, if◌then◌else◌,
  Result, ok, err, range_error, ◌>>◌, guard, ◌==◌,
}
use sigbash_sdk.Bytes.{Bytes, u8be, u16be, u32be, u64be, concat_bytes, contract_header}
use sigbash_sdk.Text.{Text, units}
use sigbash_sdk.Json.{Number, Json}
use sigbash_sdk.Contracts.Fields.{text_field, tagged_hash}
use sigbash_sdk.Contracts.Policy.{
  JsonRuntime, PolicyNode, PolicyNodes, operator_code, node_count, k_of, weights_of,
}
use sigbash_sdk.Contracts.Policy.Texts.{canonical_json, sort_entries}

abbrev pub contract_id : ℕ
contract_id = 0x07

abbrev pub policy_version : ℕ
policy_version = 1

abbrev pub max_safe_integer : ℕ
max_safe_integer = 0x1fffffffffffff

abbrev pub flag_of : {A : Type 0} → Option A → ℕ
flag_of none = 0
flag_of (some a) = 1

-- `(k !== undefined ? 0x01 : 0x00) | (weights !== undefined ? 0x02 : 0x00)`
abbrev pub param_flags : Option Json → Option (List ℕ) → ℕ
param_flags none none = 0
param_flags (some k) none = 1
param_flags none (some ws) = 2
param_flags (some k) (some ws) = 3

unfoldable pub optional_u32 : Option ℕ → Result Bytes
optional_u32 none = ok []
optional_u32 (some n) = u32be n

-- `u32be` refuses whatever is no natural number.
unfoldable pub optional_k : Option Json → Result Bytes
optional_k none = ok []
optional_k (some (Json.number (Number.natural n))) = u32be n
optional_k (some _) = err range_error

unfoldable pub optional_weights : Option (List ℕ) → Result Bytes
optional_weights none = ok []
optional_weights (some ws) = concat_bytes (u16be (length ws) ∷ map u32be ws)

abbrev pub bool_byte : Bool → ℕ
bool_byte true = 0x01
bool_byte false = 0x00

module _ (runtime : JsonRuntime) where
  unfoldable pub json_value : Json → Result Bytes
  json_value value = concat_bytes (u8be 0x04 ∷ text_field (canonical_json runtime value) ∷ [])

  unfoldable pub encode_value : Json → Result Bytes
  encode_value (Json.string t) = concat_bytes (u8be 0x01 ∷ text_field t ∷ [])
  encode_value (Json.boolean b) = concat_bytes (u8be 0x02 ∷ u8be (bool_byte b) ∷ [])
  encode_value (Json.number (Number.natural n)) =
      if leb n max_safe_integer
      then concat_bytes (u8be 0x03 ∷ u64be n ∷ [])
      else json_value (Json.number (Number.natural n))
  encode_value value = json_value value

  unfoldable pub encode_param : Text × Json → Result Bytes
  encode_param (key, value) = concat_bytes (text_field key ∷ encode_value value ∷ [])

  unfoldable pub encode_params : List (Text × Json) → Result Bytes
  encode_params params =
      concat_bytes (u16be (length params) ∷ map encode_param (sort_entries params))

  unfoldable mutual
    pub encode_node : PolicyNode → Result Bytes
    encode_node (PolicyNode.operator weight op params children) = concat_bytes (
        u8be 0x01
        ∷ u8be (flag_of weight)
        ∷ optional_u32 weight
        ∷ u8be (operator_code op)
        ∷ u8be (param_flags (k_of params) (weights_of params))
        ∷ optional_k (k_of params)
        ∷ optional_weights (weights_of params)
        ∷ u16be (node_count children)
        ∷ encode_nodes children
        ∷ [])
    encode_node (PolicyNode.condition weight kind params) = concat_bytes (
        u8be 0x02
        ∷ u8be (flag_of weight)
        ∷ optional_u32 weight
        ∷ text_field kind
        ∷ encode_params params
        ∷ [])

    pub encode_nodes : PolicyNodes → Result Bytes
    encode_nodes PolicyNodes.nil = concat_bytes []
    encode_nodes (PolicyNodes.cons node nodes) =
        concat_bytes (encode_node node ∷ encode_nodes nodes ∷ [])

  -- The canonical tree carries version 1.
  unfoldable pub encode_policy : PolicyNode → Result Bytes
  encode_policy root =
      concat_bytes (contract_header contract_id policy_version ∷ encode_node root ∷ [])

  -- `computePolicyAstDigest`
  unfoldable pub compute_policy_digest : (Bytes → Bytes) → PolicyNode → Result Bytes
  compute_policy_digest sha256 root =
      sigbash_sdk.Prelude.◌>>=◌ (encode_policy root)
        λ bytes. ok (tagged_hash sha256 (units "SIGBASH/POLICY/V1") bytes)
