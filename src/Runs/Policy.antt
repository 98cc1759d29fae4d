-- ===== src/Runs/Policy.antt =====
-- A policy tree of one operator over two conditions.
use sigbash_sdk.Prelude.{
  ℕ, ◌≡◌, refl, List, [], ◌∷◌, ◌++◌, Option, none, some, Bool, false, ok, arith,
}
use mathlib.Core.List.{Permᴰ}
use sigbash_sdk.Bytes.{
  Bytes, concat_bytes, u8be, u16be, u32be, u64be, big_endian, length_delimited, contract_header,
}
use sigbash_sdk.Text.{units, utf8, scalar_bytes, is_pair, well_formed, is_single, starts_with_mark}
use sigbash_sdk.Json.{Number, Json}
use sigbash_sdk.Contracts.Fields.{text_field}
use sigbash_sdk.Contracts.Policy.{
  JsonRuntime, OperatorType, PolicyNode, PolicyNodes, operator_code, node_count,
}
use sigbash_sdk.Contracts.Policy.Texts.{sort_entries, insert_entry, canonical_json, before}
use sigbash_sdk.Contracts.Policy.Encode.{
  optional_u32, optional_k, optional_weights, json_value, encode_value, encode_param, encode_params,
  encode_node, encode_policy,
}
use sigbash_sdk.Contracts.Policy.Decode.{decode_policy}
use sigbash_sdk.Contracts.Policy.RoundTrip.{IsPolicy, decode-encode_policy}
use sigbash_sdk.Contracts.Policy.Canonical.{is_duplicate_insensitive, node_json}
use sigbash_sdk.Contracts.Policy.Canonicalize.{canonical_children, ordered, node_sort_key}
use sigbash_sdk.Contracts.Policy.Sorted.{canonical_children-perm, ordered_swap}

-- A runtime whose numbers and texts are written without quotation, and whose parser knows `null`.
abbrev runtime : JsonRuntime
runtime = record {
  stringify_number = λ n. units "0";
  stringify_string = λ t. t;
  json_parse = λ t. some Json.null;
}

abbrev first : PolicyNode
first =
    PolicyNode.condition none (units "c")
      ((units "a", Json.number (Number.natural 7)) ∷ (units "b", Json.null) ∷ [])

abbrev second : PolicyNode
second = PolicyNode.condition (some 2) (units "d") []

abbrev root : PolicyNode
root =
    PolicyNode.operator none OperatorType.threshold_op
      (some (record { k = some (Json.number (Number.natural 2)); weights = none }))
      (PolicyNodes.cons first (PolicyNodes.cons second PolicyNodes.nil))

abbrev root_bytes : Bytes
root_bytes =
    7
    ∷ 1
    ∷ 1
    ∷ 0
    ∷ 6
    ∷ 1
    ∷ 0
    ∷ 0
    ∷ 0
    ∷ 2
    ∷ 0
    ∷ 2
    ∷ ((2 ∷ 0 ∷ 0 ∷ 0 ∷ 0 ∷ 1 ∷ 99 ∷ 0 ∷ 2 ∷ 0 ∷ 0 ∷ 0 ∷ 1 ∷ 97 ∷ 3 ∷ [])
        ++ (0 ∷ 0 ∷ 0 ∷ 0 ∷ 0 ∷ 0 ∷ 0 ∷ 7 ∷ 0 ∷ 0 ∷ 0 ∷ 1 ∷ 98 ∷ 4 ∷ [])
        ++ (0 ∷ 0 ∷ 0 ∷ 4 ∷ 110 ∷ 117 ∷ 108 ∷ 108 ∷ [])
        ++ (2 ∷ 1 ∷ 0 ∷ 0 ∷ 0 ∷ 2 ∷ 0 ∷ 0 ∷ 0 ∷ 1 ∷ 100 ∷ 0 ∷ 0 ∷ []))

root_encodes : encode_policy runtime root ≡ ok root_bytes
unfolding encode_policy encode_node encode_params encode_param encode_value json_value optional_u32
    optional_k optional_weights concat_bytes u8be u16be u32be u64be big_endian length_delimited
    contract_header text_field utf8 scalar_bytes is_pair sort_entries insert_entry canonical_json
    before operator_code node_count
root_encodes = refl

root-IsPolicy : IsPolicy runtime root
unfolding node_count well_formed is_pair is_single starts_with_mark before canonical_json
root-IsPolicy = (
  refl,
  record { k_natural = refl; not_empty = refl },
  (
    record {
      kind_faithful = refl;
      kind_present = refl;
      params_faithful =
          ((refl, sigbash_sdk.Prelude.inl refl), ((refl, record { text = refl; back = refl }), tt));
      ascending = ((refl, tt), (tt, tt));
    },
    (
      record { kind_faithful = refl; kind_present = refl; params_faithful = tt; ascending = tt },
      tt,
    ),
  ),
)

decode-encode_policy_example : decode_policy runtime root_bytes ≡ ok root
decode-encode_policy_example =
    decode-encode_policy runtime root root_bytes root-IsPolicy root_encodes

counted : is_duplicate_insensitive OperatorType.xor_op ≡ false
unfolding is_duplicate_insensitive
counted = refl

canonical_children-perm_example :
    Permᴰ
      (canonical_children runtime OperatorType.xor_op (second ∷ first ∷ second ∷ []))
      (second ∷ first ∷ second ∷ [])
canonical_children-perm_example =
    canonical_children-perm runtime OperatorType.xor_op (second ∷ first ∷ second ∷ []) counted

keys_differ : node_sort_key runtime first ≡ node_sort_key runtime second → first ≡ second
unfolding node_sort_key canonical_json node_json
keys_differ e = absurd cc

ordered_swap_example :
    ordered runtime OperatorType.or_op ([] ++ first ∷ second ∷ [])
    ≡ ordered runtime OperatorType.or_op ([] ++ second ∷ first ∷ [])
ordered_swap_example = ordered_swap runtime OperatorType.or_op [] first second [] keys_differ
