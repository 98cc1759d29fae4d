-- ===== src/Contracts/Policy/Canonical.antt =====
-- src/contracts/policyAst.ts: `canonicalizeNode`, over a value that `JSON.parse` gave, and
-- `parseCanonicalPolicyAst`. The children's results are computed first and used where the source
-- calls `canonicalizeNode`.
use sigbash_sdk.Prelude.{
  ℕ, List, [], ◌∷◌, ◌++◌, Bool, true, false, Option, none, some, if◌then◌else◌, Result, err,
  plain_error, bad_value, eqb,
}
use sigbash_sdk.Text.{Text, units}
use sigbash_sdk.Json.{Number, Json, Items, Members}
use sigbash_sdk.Contracts.Policy.{OperatorType, OperatorParams, PolicyNode, PolicyNodes}
use sigbash_sdk.Contracts.Policy.Texts.{before}

abbrev fail : {A : Type 0} → Result A
fail = err (plain_error bad_value)

abbrev operator_names : List (Text × OperatorType)
operator_names =
    (units "AND", OperatorType.and_op)
    ∷ (units "OR", OperatorType.or_op)
    ∷ (units "NOT", OperatorType.not_op)
    ∷ (units "IMPLIES", OperatorType.implies_op)
    ∷ (units "IFF", OperatorType.iff_op)
    ∷ (units "THRESHOLD", OperatorType.threshold_op)
    ∷ (units "WEIGHTED_THRESHOLD", OperatorType.weighted_threshold_op)
    ∷ (units "MAJORITY", OperatorType.majority_op)
    ∷ (units "EXACTLY", OperatorType.exactly_op)
    ∷ (units "AT_MOST", OperatorType.at_most_op)
    ∷ (units "VETO", OperatorType.veto_op)
    ∷ (units "NOR", OperatorType.nor_op)
    ∷ (units "NAND", OperatorType.nand_op)
    ∷ (units "XOR", OperatorType.xor_op)
    ∷ []

unfoldable find_name : Text → List (Text × OperatorType) → Option OperatorType
find_name t [] = none
find_name t ((name, op) ∷ names) = if eqb name t then some op else find_name t names

-- `OPERATOR_SET.has(operator)`, for a string
unfoldable pub operator_named : Option Json → Option OperatorType
unfolding find_name
operator_named (some (Json.string t)) = find_name t operator_names
operator_named _ = none

-- The text of an operator.
unfoldable pub operator_text : OperatorType → Text
operator_text OperatorType.and_op = units "AND"
operator_text OperatorType.or_op = units "OR"
operator_text OperatorType.not_op = units "NOT"
operator_text OperatorType.implies_op = units "IMPLIES"
operator_text OperatorType.iff_op = units "IFF"
operator_text OperatorType.threshold_op = units "THRESHOLD"
operator_text OperatorType.weighted_threshold_op = units "WEIGHTED_THRESHOLD"
operator_text OperatorType.majority_op = units "MAJORITY"
operator_text OperatorType.exactly_op = units "EXACTLY"
operator_text OperatorType.at_most_op = units "AT_MOST"
operator_text OperatorType.veto_op = units "VETO"
operator_text OperatorType.nor_op = units "NOR"
operator_text OperatorType.nand_op = units "NAND"
operator_text OperatorType.xor_op = units "XOR"

-- `ASSOCIATIVE_OPERATORS`
unfoldable pub is_associative : OperatorType → Bool
is_associative OperatorType.and_op = true
is_associative OperatorType.or_op = true
is_associative _ = false

-- `COMMUTATIVE_OPERATORS`
unfoldable pub is_commutative : OperatorType → Bool
is_commutative OperatorType.not_op = false
is_commutative OperatorType.implies_op = false
is_commutative OperatorType.iff_op = false
is_commutative OperatorType.weighted_threshold_op = false
is_commutative OperatorType.veto_op = false
is_commutative _ = true

-- `DUPLICATE_INSENSITIVE_OPERATORS`
unfoldable pub is_duplicate_insensitive : OperatorType → Bool
is_duplicate_insensitive OperatorType.and_op = true
is_duplicate_insensitive OperatorType.or_op = true
is_duplicate_insensitive OperatorType.nand_op = true
is_duplicate_insensitive OperatorType.nor_op = true
is_duplicate_insensitive _ = false

-- `UNARY_OPERATORS`
unfoldable pub is_unary : OperatorType → Bool
is_unary OperatorType.not_op = true
is_unary OperatorType.veto_op = true
is_unary _ = false

-- `child.type === 'operator' && child.operator === operator`
abbrev pub has_operator : OperatorType → PolicyNode → Bool
has_operator op (PolicyNode.operator weight child params children) =
    eqb (operator_text child) (operator_text op)
has_operator op (PolicyNode.condition weight kind params) = false

unfoldable pub child_list : PolicyNodes → List PolicyNode
child_list PolicyNodes.nil = []
child_list (PolicyNodes.cons node nodes) = node ∷ child_list nodes

unfoldable pub nodes_of : List PolicyNode → PolicyNodes
nodes_of [] = PolicyNodes.nil
nodes_of (node ∷ nodes) = PolicyNodes.cons node (nodes_of nodes)

abbrev pub children_of : PolicyNode → List PolicyNode
children_of (PolicyNode.operator weight op params children) = child_list children
children_of (PolicyNode.condition weight kind params) = []

-- The children of a child with the same operator take its place.
unfoldable pub flatten : OperatorType → List PolicyNode → List PolicyNode
flatten op [] = []
flatten op (child ∷ children) =
    (if has_operator op child then children_of child else child ∷ []) ++ flatten op children

-- A property that is left out where it is `undefined`.
abbrev optional_member : Text → Option Json → Members → Members
optional_member name none members = members
optional_member name (some value) members = Members.member name value members

abbrev natural_json : ℕ → Json
natural_json n = Json.number (Number.natural n)

abbrev weight_json : Option ℕ → Option Json
weight_json none = none
weight_json (some w) = some (natural_json w)

unfoldable pub weight_items : List ℕ → Items
weight_items [] = Items.nil
weight_items (w ∷ ws) = Items.cons (natural_json w) (weight_items ws)

abbrev weights_json : Option (List ℕ) → Option Json
weights_json none = none
weights_json (some ws) = some (Json.array (weight_items ws))

abbrev params_json : Option OperatorParams → Option Json
params_json none = none
params_json (some params) = some (
    Json.object (
      optional_member (units "k") params.k
        (optional_member (units "weights") (weights_json params.weights) Members.end)))

unfoldable pub members_of : List (Text × Json) → Members
members_of [] = Members.end
members_of ((key, value) ∷ entries) = Members.member key value (members_of entries)

unfoldable mutual
  -- A node as the object that the source holds.
  pub node_json : PolicyNode → Json
  node_json (PolicyNode.operator weight op params children) = Json.object (
      Members.member (units "type") (Json.string (units "operator")) (
        Members.member (units "operator") (Json.string (operator_text op)) (
          Members.member (units "children") (Json.array (nodes_json children)) (
            optional_member (units "operatorParams") (params_json params)
              (optional_member (units "weight") (weight_json weight) Members.end)))))
  node_json (PolicyNode.condition weight kind params) = Json.object (
      Members.member (units "type") (Json.string (units "condition")) (
        Members.member (units "conditionType") (Json.string kind) (
          Members.member (units "conditionParams") (Json.object (members_of params))
            (optional_member (units "weight") (weight_json weight) Members.end))))

  pub nodes_json : PolicyNodes → Items
  nodes_json PolicyNodes.nil = Items.nil
  nodes_json (PolicyNodes.cons node nodes) = Items.cons (node_json node) (nodes_json nodes)

abbrev pub weight_of : PolicyNode → Option ℕ
weight_of (PolicyNode.operator weight op params children) = weight
weight_of (PolicyNode.condition weight kind params) = weight

-- A child under its key.
abbrev pub Keyed : Type 0
Keyed = Text × PolicyNode

-- A child put in front of the first whose key is not below its own, so the sort is stable.
unfoldable pub insert_child : Keyed → List Keyed → List Keyed
insert_child child [] = child ∷ []
insert_child (k, c) ((l, d) ∷ children) =
    if before l k then (l, d) ∷ insert_child (k, c) children else (k, c) ∷ (l, d) ∷ children

unfoldable pub sort_children : List Keyed → List Keyed
sort_children [] = []
sort_children (child ∷ children) = insert_child child (sort_children children)

-- `filter((child, i) => i === 0 || key(child) !== key(children[i - 1]))`, behind a child of this key
unfoldable pub drop_repeats : Text → List Keyed → List Keyed
drop_repeats previous [] = []
drop_repeats previous ((k, c) ∷ children) =
    let rest = drop_repeats k children in if eqb k previous then rest else (k, c) ∷ rest

unfoldable pub remove_duplicates : List Keyed → List Keyed
remove_duplicates [] = []
remove_duplicates ((k, c) ∷ children) = (k, c) ∷ drop_repeats k children

unfoldable pub nodes_under : List Keyed → List PolicyNode
nodes_under [] = []
nodes_under ((k, c) ∷ children) = c ∷ nodes_under children
