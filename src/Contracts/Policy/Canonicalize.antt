-- ===== src/Contracts/Policy/Canonicalize.antt =====
-- src/contracts/policyAst.ts: `canonicalizeNode`, and `parseCanonicalPolicyAst` over it.
use sigbash_sdk.Prelude.{
  ℕ, zero, List, [], ◌∷◌, ◌++◌, length, Bool, true, false, not, ◌&&◌, ◌||◌, ◌==◌, leb, Option, none,
  some, if◌then◌else◌, Result, ok, err, guard, plain_error, bad_value, bad_length, empty_field,
  version_error, eqb,
}
use sigbash_sdk.Calls.{◌>>=◌, ◌>>◌, map_calls}
use sigbash_sdk.Text.{Text, units}
use sigbash_sdk.Json.{Number, Json, Items, Members, find_member, elements}
use sigbash_sdk.Contracts.Policy.{JsonRuntime, OperatorType, OperatorParams, PolicyNode}
use sigbash_sdk.Contracts.Policy.Encode.{max_safe_integer}
use sigbash_sdk.Contracts.Policy.Texts.{canonical_json}
use sigbash_sdk.Contracts.Policy.Canonical.{
  operator_named, is_associative, is_commutative, is_duplicate_insensitive, is_unary, flatten,
  node_json, nodes_of, weight_of, Keyed, sort_children, remove_duplicates, nodes_under,
}

abbrev fail : {A : Type 0} → Result A
fail = err (plain_error bad_value)

-- A non-negative safe integer.
unfoldable pub safe_natural : Json → Result ℕ
safe_natural (Json.number (Number.natural n)) =
    guard (leb n max_safe_integer) (plain_error bad_value) >> ok n
safe_natural _ = fail

-- A weight is absent or a non-negative safe integer.
unfoldable pub weight_field : Option Json → Result (Option ℕ)
weight_field none = ok none
weight_field (some value) = do n ← safe_natural value; ok (some n)

unfoldable pub weights_field : Option Json → Result (Option (List ℕ))
weights_field none = ok none
weights_field (some (Json.array xs)) = do ws ← map_calls safe_natural (elements xs); ok (some ws)
weights_field (some _) = fail

-- `node.operatorParams ? { ...node.operatorParams } : undefined`. A text or an array with elements
-- spreads to the names of their positions, which are refused.
unfoldable pub spread : Option Json → Result (Option Members)
spread none = ok none
spread (some Json.null) = ok none
spread (some (Json.boolean false)) = ok none
spread (some (Json.boolean true)) = ok (some Members.end)
spread (some (Json.number (Number.natural zero))) = ok none
spread (some (Json.number n)) = ok (some Members.end)
spread (some (Json.string [])) = ok none
spread (some (Json.string (c ∷ t))) = fail
spread (some (Json.array Items.nil)) = ok (some Members.end)
spread (some (Json.array (Items.cons x xs))) = fail
spread (some (Json.object ms)) = ok (some ms)

-- Every name is `k` or `weights`.
unfoldable pub known_params : Members → Bool
known_params Members.end = true
known_params (Members.member name value ms) =
    (eqb name (units "k") || eqb name (units "weights")) && known_params ms

unfoldable pub k_field : Option Json → Result (Option Json)
k_field none = ok none
k_field (some value) = do n ← safe_natural value; ok (some (Json.number (Number.natural n)))

-- `params.k !== deprecatedThreshold`, for a `k` that is a number
abbrev same_number : Json → Json → Bool
same_number (Json.number (Number.natural m)) (Json.number (Number.natural n)) = m == n
same_number k threshold = false

-- `k`, with the deprecated `threshold` in its place where it is absent; as it stands there.
unfoldable pub reconcile : Option Json → Option Json → Result (Option Json)
reconcile (some k) (some threshold) =
    guard (same_number k threshold) (plain_error bad_value) >> ok (some k)
reconcile (some k) none = ok (some k)
reconcile none threshold = ok threshold

-- `normalizeOperatorParams`
unfoldable pub normalize_params : Option Json → Option Json → Result (Option OperatorParams)
normalize_params given threshold = spread given >>= λ params. elim params [
  | none ↦ elim threshold [
    | none ↦ ok none
    | some t ↦ ok (some (record { k = some t; weights = none }))
  ]
  | some ms ↦
      (k_field (find_member (units "k") ms) >>= λ k.
      weights_field (find_member (units "weights") ms) >>= λ ws.
      guard (known_params ms) (plain_error bad_value)
      >> (reconcile k threshold >>= λ final. ok (some (record { k = final; weights = ws }))))
]

-- The results for the children, taken in their order.
unfoldable pub in_order : List (Result PolicyNode) → Result (List PolicyNode)
in_order [] = ok []
in_order (r ∷ rs) = do node ← r; nodes ← in_order rs; ok (node ∷ nodes)

unfoldable pub is_operator_node : Members → Option Json → Bool
is_operator_node ms (some (Json.string t)) = eqb t (units "operator")
is_operator_node ms _ = false

unfoldable pub is_condition_node : Members → Option Json → Bool
is_condition_node ms (some (Json.string t)) = eqb t (units "condition")
is_condition_node ms _ = false

abbrev operator_of : Option OperatorType → Result OperatorType
operator_of none = err version_error
operator_of (some op) = ok op

-- `!Array.isArray(rawChildren) || rawChildren.length === 0`
unfoldable pub children_field :
    Option (List (Result PolicyNode)) → Result (List (Result PolicyNode))
children_field (some (r ∷ rs)) = ok (r ∷ rs)
children_field _ = err (plain_error empty_field)

unfoldable pub kind_field : Option Json → Result Text
kind_field (some (Json.string (c ∷ t))) = ok (c ∷ t)
kind_field _ = err (plain_error empty_field)

unfoldable pub entries_of : Members → List (Text × Json)
entries_of Members.end = []
entries_of (Members.member key value ms) = (key, value) ∷ entries_of ms

unfoldable pub params_field : Option Json → Result (List (Text × Json))
params_field none = ok []
params_field (some (Json.object ms)) = ok (entries_of ms)
params_field (some _) = fail

unfoldable pub build_condition : Members → Result PolicyNode
build_condition ms = do
  kind ← kind_field (find_member (units "conditionType") ms)
  params ← params_field (find_member (units "conditionParams") ms)
  weight ← weight_field (find_member (units "weight") ms)
  ok (PolicyNode.condition weight kind params)

module _ (runtime : JsonRuntime) where
  -- `weight === undefined ? base : `${weight}|${base}``
  unfoldable pub node_sort_key : PolicyNode → Text
  node_sort_key node = elim (weight_of node) [
    | none ↦ canonical_json runtime (node_json node)
    | some w ↦
        runtime.stringify_number (Number.natural w)
        ++ units "|"
        ++ canonical_json runtime (node_json node)
  ]

  unfoldable pub keyed : List PolicyNode → List Keyed
  keyed [] = []
  keyed (node ∷ nodes) = (node_sort_key node, node) ∷ keyed nodes

  -- The children of a commutative operator, sorted, and without repetitions where they are idle.
  unfoldable pub ordered : OperatorType → List PolicyNode → List PolicyNode
  ordered op children =
      let sorted = sort_children (keyed children) in
      nodes_under (if is_duplicate_insensitive op then remove_duplicates sorted else sorted)

  unfoldable pub canonical_children : OperatorType → List PolicyNode → List PolicyNode
  canonical_children op children =
      let flattened = if is_associative op then flatten op children else children in
      if is_commutative op then ordered op flattened else flattened

  unfoldable pub build_operator : Members → Option (List (Result PolicyNode)) → Result PolicyNode
  build_operator ms results = do
    op ← operator_of (operator_named (find_member (units "operator") ms))
    raw ← children_field results
    guard (not (is_unary op) || length raw == 1) (plain_error bad_length)
    children ← in_order raw
    params ←
        normalize_params (find_member (units "operatorParams") ms)
          (find_member (units "threshold") ms)
    weight ← weight_field (find_member (units "weight") ms)
    ok (PolicyNode.operator weight op params (nodes_of (canonical_children op children)))

  unfoldable pub build_node : Members → Option (List (Result PolicyNode)) → Result PolicyNode
  build_node ms results =
      let type = find_member (units "type") ms in
      if is_operator_node ms type
      then build_operator ms results
      else if is_condition_node ms type
      then build_condition ms
      else fail

  unfoldable mutual
    -- `canonicalizeNode`; what is no plain object is refused.
    pub canonicalize_node : Json → Result PolicyNode
    canonicalize_node (Json.object ms) = build_node ms (child_results ms)
    canonicalize_node _ = err (plain_error bad_value)

    -- What the call on each element of `children` gives, where that is an array.
    pub child_results : Members → Option (List (Result PolicyNode))
    child_results Members.end = none
    child_results (Members.member name value ms) =
        let here = array_results value in
        let later = child_results ms in if eqb name (units "children") then here else later

    pub array_results : Json → Option (List (Result PolicyNode))
    array_results (Json.array xs) = some (item_results xs)
    array_results _ = none

    pub item_results : Items → List (Result PolicyNode)
    item_results Items.nil = []
    item_results (Items.cons x xs) = canonicalize_node x ∷ item_results xs

  unfoldable pub policy_field : Option Json → Result PolicyNode
  policy_field none = err (plain_error empty_field)
  policy_field (some root) = canonicalize_node root

  abbrev is_supported : Option Json → Bool
  is_supported (some (Json.string t)) = eqb t (units "1.1")
  is_supported _ = false

  -- `parseCanonicalPolicyAst` of a value, and of a text.
  unfoldable pub parse_policy_document : Json → Result PolicyNode
  parse_policy_document (Json.object ms) = do
    guard (is_supported (find_member (units "version") ms)) version_error
    policy_field (find_member (units "policy") ms)
  parse_policy_document _ = fail

  unfoldable pub parse_policy_text : Text → Result PolicyNode
  parse_policy_text input = elim (runtime.json_parse input) [
    | none ↦ err version_error
    | some value ↦ parse_policy_document value
  ]
