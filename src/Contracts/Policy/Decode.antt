-- ===== src/Contracts/Policy/Decode.antt =====
-- `decodeCanonicalPolicyAstV1` and `decodeNode`. The recursion over a tree goes by fuel: every node
-- takes a byte, so the length of the input is enough.
use sigbash_sdk.Prelude.{
  ℕ, zero, suc, ◌%◌, List, [], ◌∷◌, length, Bool, not, Option, none, some, ◌==◌, leb, Result, ok,
  err, version_error, plain_error, bad_value, empty_field, eqb, if◌then◌else◌,
}
use sigbash_sdk.Bytes.{Bytes}
use sigbash_sdk.Bytes.Decoder.{
  M, ◌>>=◌, ◌>>◌, pure, throw, check, branch, lift, read_u8, read_u16, read_u32, read_u64,
  read_times, read_contract_header, whole,
}
use sigbash_sdk.Text.{Text}
use sigbash_sdk.Json.{Number, Json}
use sigbash_sdk.Contracts.Fields.{read_text}
use sigbash_sdk.Contracts.Policy.{
  JsonRuntime, OperatorParams, PolicyNode, PolicyNodes, decode_operator,
}
use sigbash_sdk.Contracts.Policy.Encode.{contract_id, policy_version, max_safe_integer}

unfoldable pub read_optional : Bool → M (Option ℕ)
read_optional present = branch present (do n ← read_u32; pure (some n)) (pure none)

unfoldable pub read_weights : Bool → M (Option (List ℕ))
read_weights present =
    branch present (do count ← read_u16; ws ← read_times count read_u32; pure (some ws)) (pure none)

-- The number that was read, as the value of `k`.
abbrev pub k_json : Option ℕ → Option Json
k_json none = none
k_json (some n) = some (Json.number (Number.natural n))

-- `operatorParams` stays `undefined` where neither flag is set.
abbrev pub params_of : Option Json → Option (List ℕ) → Option OperatorParams
params_of none none = none
params_of k weights = some (record { k = k; weights = weights })

-- The value under a name, where it stands in the entries.
unfoldable pub find_entry : Text → List (Text × Json) → Option Json
find_entry key [] = none
find_entry key ((k, v) ∷ entries) = if eqb k key then some v else find_entry key entries

unfoldable pub remove_entry : Text → List (Text × Json) → List (Text × Json)
remove_entry key [] = []
remove_entry key ((k, v) ∷ entries) =
    let rest = remove_entry key entries in if eqb k key then rest else (k, v) ∷ rest

-- An entry in front of later ones: their value for its name, if there is one, counts.
unfoldable pub put_entry : Text → Json → List (Text × Json) → List (Text × Json)
put_entry key value entries = elim (find_entry key entries) [
  | none ↦ (key, value) ∷ entries
  | some later ↦ (key, later) ∷ remove_entry key entries
]

-- `conditionParams[key] = value` in a loop: a name stays where it stood first, and has its last value.
unfoldable pub object_of : List (Text × Json) → List (Text × Json)
object_of [] = []
object_of ((key, value) ∷ entries) = put_entry key value (object_of entries)

-- A tag, and the value that it announces.
unfoldable pub read_tagged : (ℕ → M Json) → M Json
read_tagged payload = do tag ← read_u8; payload tag

unfoldable pub read_nodes : ℕ → M PolicyNode → M PolicyNodes
read_nodes zero child = pure PolicyNodes.nil
read_nodes (suc n) child = do
  node ← child
  nodes ← read_nodes n child
  pure (PolicyNodes.cons node nodes)

unfoldable pub read_operator : Option ℕ → M PolicyNode → M PolicyNode
read_operator weight child = do
  code ← read_u8
  op ← lift (decode_operator code)
  flags ← read_u8
  check (leb flags 0x03) version_error
  k ← read_optional (flags % 2 == 1)
  weights ← read_weights (leb 2 flags)
  count ← read_u16
  check (not (count == 0)) (plain_error empty_field)
  children ← read_nodes count child
  pure (PolicyNode.operator weight op (params_of (k_json k) weights) children)

module _ (runtime : JsonRuntime) where
  unfoldable pub read_bool : M Json
  read_bool = do
    raw ← read_u8
    check (leb raw 0x01) (plain_error bad_value)
    pure (Json.boolean (raw == 0x01))

  unfoldable pub read_uint : M Json
  read_uint = do
    raw ← read_u64
    check (leb raw max_safe_integer) (plain_error bad_value)
    pure (Json.number (Number.natural raw))

  abbrev pub parsed : Option Json → Result Json
  parsed none = err (plain_error bad_value)
  parsed (some value) = ok value

  unfoldable pub read_json : M Json
  read_json = do text ← read_text; lift (parsed (runtime.json_parse text))

  unfoldable pub read_string : M Json
  read_string = do text ← read_text; pure (Json.string text)

  unfoldable pub read_value : ℕ → M Json
  read_value tag = branch (tag == 0x01) read_string (
      branch (tag == 0x02) read_bool
        (branch (tag == 0x03) read_uint (branch (tag == 0x04) read_json (throw version_error))))

  unfoldable pub read_param : M (Text × Json)
  read_param = do key ← read_text; value ← read_tagged read_value; pure (key, value)

  unfoldable pub read_condition : Option ℕ → M PolicyNode
  read_condition weight = do
    kind ← read_text
    check (not (length kind == 0)) (plain_error empty_field)
    count ← read_u16
    entries ← read_times count read_param
    pure (PolicyNode.condition weight kind (object_of entries))

  unfoldable pub read_node : ℕ → M PolicyNode
  read_node zero = throw (plain_error bad_value)
  read_node (suc fuel) =
      let child = read_node fuel in
      do
        kind ← read_u8
        flags ← read_u8
        check (leb flags 0x01) version_error
        weight ← read_optional (flags == 0x01)
        branch (kind == 0x01) (read_operator weight child)
            (branch (kind == 0x02) (read_condition weight) (throw version_error))

  unfoldable pub read_policy : ℕ → M PolicyNode
  read_policy fuel = do
    version ← read_contract_header contract_id (policy_version ∷ [])
    read_node fuel

  unfoldable pub decode_policy : Bytes → Result PolicyNode
  decode_policy bytes = whole (read_policy (length bytes)) bytes
