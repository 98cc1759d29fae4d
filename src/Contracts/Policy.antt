-- ===== src/Contracts/Policy.antt =====
-- src/contracts/policyAst.ts and src/contracts/policyEncoding.ts: policy trees, their canonical JSON
-- texts and their binary encoding. `JSON.stringify` of a number and of a string, and `JSON.parse`,
-- are the runtime's. An object is the list of its properties, so a property that is named `__proto__`,
-- which assignment does not store, is left out.
pub mod Texts
pub mod Canonical
pub mod Canonicalize
pub mod Sorted
pub mod Encode
pub mod Decode
pub mod Order
pub mod Fuel
pub mod Values
pub mod RoundTrip
use sigbash_sdk.Prelude.{ℕ, zero, suc, List, [], ◌∷◌, Option, none, some, Result}
use sigbash_sdk.Text.{Text}
use sigbash_sdk.Json.{Number, Json}
use sigbash_sdk.Contracts.Codes.{decode_code}

pub record JsonRuntime : Type 0 where
  pub stringify_number : Number → Text
  pub stringify_string : Text → Text
  pub json_parse : Text → Option Json

pub data OperatorType : Type 0 where
  and_op or_op not_op implies_op iff_op threshold_op weighted_threshold_op majority_op exactly_op
        at_most_op veto_op nor_op nand_op xor_op :
      OperatorType

abbrev pub operator_codes : List (OperatorType × ℕ)
operator_codes =
    (OperatorType.and_op, 0x01)
    ∷ (OperatorType.or_op, 0x02)
    ∷ (OperatorType.not_op, 0x03)
    ∷ (OperatorType.implies_op, 0x04)
    ∷ (OperatorType.iff_op, 0x05)
    ∷ (OperatorType.threshold_op, 0x06)
    ∷ (OperatorType.weighted_threshold_op, 0x07)
    ∷ (OperatorType.majority_op, 0x08)
    ∷ (OperatorType.exactly_op, 0x09)
    ∷ (OperatorType.at_most_op, 0x0a)
    ∷ (OperatorType.veto_op, 0x0b)
    ∷ (OperatorType.nor_op, 0x0c)
    ∷ (OperatorType.nand_op, 0x0d)
    ∷ (OperatorType.xor_op, 0x0e)
    ∷ []

-- `OPERATOR_CODES[operator]`
unfoldable pub operator_code : OperatorType → ℕ
operator_code OperatorType.and_op = 0x01
operator_code OperatorType.or_op = 0x02
operator_code OperatorType.not_op = 0x03
operator_code OperatorType.implies_op = 0x04
operator_code OperatorType.iff_op = 0x05
operator_code OperatorType.threshold_op = 0x06
operator_code OperatorType.weighted_threshold_op = 0x07
operator_code OperatorType.majority_op = 0x08
operator_code OperatorType.exactly_op = 0x09
operator_code OperatorType.at_most_op = 0x0a
operator_code OperatorType.veto_op = 0x0b
operator_code OperatorType.nor_op = 0x0c
operator_code OperatorType.nand_op = 0x0d
operator_code OperatorType.xor_op = 0x0e

-- `CODE_TO_OPERATOR[code]`, which throws where it is `undefined`.
unfoldable pub decode_operator : ℕ → Result OperatorType
unfolding decode_code
decode_operator = decode_code operator_codes

-- `k` is a number in the source's type, and any JSON value where it was promoted from `threshold`.
pub record OperatorParams : Type 0 where
  pub k : Option Json
  pub weights : Option (List ℕ)

mutual
  -- The optional number is the node's weight.
  pub data PolicyNode : Type 0 where
    operator : Option ℕ → OperatorType → Option OperatorParams → PolicyNodes → PolicyNode
    condition : Option ℕ → Text → List (Text × Json) → PolicyNode

  pub data PolicyNodes : Type 0 where
    nil : PolicyNodes
    cons : PolicyNode → PolicyNodes → PolicyNodes

unfoldable pub node_count : PolicyNodes → ℕ
node_count PolicyNodes.nil = 0
node_count (PolicyNodes.cons n ns) = suc (node_count ns)

-- `operatorParams?.k` and `operatorParams?.weights`
abbrev pub k_of : Option OperatorParams → Option Json
k_of none = none
k_of (some params) = params.k

abbrev pub weights_of : Option OperatorParams → Option (List ℕ)
weights_of none = none
weights_of (some params) = params.weights
