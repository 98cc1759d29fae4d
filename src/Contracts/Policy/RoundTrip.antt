-- ===== src/Contracts/Policy/RoundTrip.antt =====
-- A policy tree encoded and decoded again.
use sigbash_sdk.Prelude.{
  ℕ, zero, suc, ◌%◌, ◌≤◌, ◌≡◌, refl, List, [], ◌∷◌, length, Option, none, some, true, not, ◌==◌,
  leb, ok, arith, All,
}
use sigbash_sdk.Bytes.{Bytes, concat_bytes, u8be, u16be}
use sigbash_sdk.Bytes.Decoder.{M}
use sigbash_sdk.Bytes.Whole.{whole_exact}
use sigbash_sdk.Bytes.Reads.{
  Reads-pure, Decodes, Decodes-next, Decodes-last, Decodes-check, Decodes-then, Decodes-then-branch,
  Decodes-else-branch, Decodes-lift, Decodes-times, Decodes-end,
}
use sigbash_sdk.Bytes.Fields.{Decodes-u8, Decodes-u16, Decodes-header}
use sigbash_sdk.Text.{Text, is_faithful}
use sigbash_sdk.Json.{Json}
use sigbash_sdk.Contracts.Fields.{text_field, Decodes-text}
use sigbash_sdk.Contracts.Policy.{
  JsonRuntime, OperatorType, OperatorParams, PolicyNode, PolicyNodes, operator_code, node_count,
  k_of, weights_of,
}
use sigbash_sdk.Contracts.Policy.Encode.{
  flag_of, param_flags, optional_k, optional_weights, encode_param, encode_params, encode_node,
  encode_nodes, encode_policy, contract_id, policy_version,
}
use sigbash_sdk.Contracts.Policy.Decode.{
  params_of, k_json, read_nodes, read_operator, read_param, read_condition, read_node, read_policy,
  decode_policy,
}
use sigbash_sdk.Contracts.Policy.Order.{
  AreAscending, sort_entries_of_ascending, object_of_ascending,
}
use sigbash_sdk.Contracts.Policy.Fuel.{node_size, nodes_size, size-le-length}
use sigbash_sdk.Contracts.Policy.Values.{
  decode_operator-operator_code, Decodes-optional, Decodes-k, k_number, Decodes-weights, IsValue,
  Decodes-value,
}

k_flag :
    (k : Option ℕ) (ws : Option (List ℕ)) → (param_flags (k_json k) ws % 2 == 1) ≡ (flag_of k == 1)
k_flag none none = refl
k_flag (some k) none = refl
k_flag none (some ws) = refl
k_flag (some k) (some ws) = refl

weights_flag :
    (k : Option Json) (ws : Option (List ℕ)) → leb 2 (param_flags k ws) ≡ (flag_of ws == 1)
weights_flag none none = refl
weights_flag (some k) none = refl
weights_flag none (some ws) = refl
weights_flag (some k) (some ws) = refl

flags_fit : (k : Option Json) (ws : Option (List ℕ)) → leb (param_flags k ws) 0x03 ≡ true
flags_fit none none = refl
flags_fit (some k) none = refl
flags_fit none (some ws) = refl
flags_fit (some k) (some ws) = refl

flag_fits : (w : Option ℕ) → leb (flag_of w) 0x01 ≡ true
flag_fits none = refl
flag_fits (some w) = refl

module _ (runtime : JsonRuntime) where
  -- A parameter whose name and value survive their encoding.
  abbrev pub IsParam : Text × Json → Type 0
  IsParam (key, value) = (is_faithful key ≡ true) × IsValue runtime value

  -- A condition with a type, and parameters in ascending order of their names.
  pub record IsCondition (kind : Text) (params : List (Text × Json)) : Type 0 where
    pub kind_faithful : is_faithful kind ≡ true
    pub kind_present : not (length kind == 0) ≡ true
    pub params_faithful : All IsParam params
    pub ascending : AreAscending params

  -- The parameters are absent rather than empty, and `k` is a natural number if it is there.
  pub record IsGiven (params : Option OperatorParams) : Type 0 where
    pub k_natural : k_json (k_number (k_of params)) ≡ k_of params
    pub not_empty : params_of (k_of params) (weights_of params) ≡ params

  -- Every operator has a child, and parameters as described; every condition is as described.
  abbrev mutual
    pub IsPolicy : PolicyNode → Type 0
    IsPolicy (PolicyNode.operator weight op params children) =
        (not (node_count children == 0) ≡ true) × IsGiven params × ArePolicies children
    IsPolicy (PolicyNode.condition weight kind params) = IsCondition kind params

    pub ArePolicies : PolicyNodes → Type 0
    ArePolicies PolicyNodes.nil = Unit
    ArePolicies (PolicyNodes.cons node nodes) = IsPolicy node × ArePolicies nodes

  Decodes-param :
      (param : Text × Json)
      → IsParam param
      → Decodes (encode_param runtime param) (read_param runtime) param
  unfolding encode_param read_param
  Decodes-param (key, value) (k, v) = Decodes-next _ _ _ _ _ _ (Decodes-text key k) (
      Decodes-last _ _ _ (
        Decodes-then _ _ _ value (key, value) (Reads-pure (key, value))
          (Decodes-value runtime value v)))

  All-params :
      (params : List (Text × Json))
      → All IsParam params
      → All (λ p. Decodes (encode_param runtime p) (read_param runtime) p) params
  All-params [] h = tt
  All-params (p ∷ params) (k, h) = (Decodes-param p k, All-params params h)

  Decodes-condition :
      (weight : Option ℕ) (kind : Text) (params : List (Text × Json))
      → IsCondition kind params
      → Decodes
          (concat_bytes (text_field kind ∷ encode_params runtime params ∷ []))
          (read_condition runtime weight)
          (PolicyNode.condition weight kind params)
  unfolding read_condition encode_params
  Decodes-condition weight kind params h =
      let node = PolicyNode.condition weight kind params in
      let sorted = sort_entries_of_ascending params h.ascending in
      let collected = object_of_ascending params h.ascending in
      Decodes-next _ _ _ _ kind node (Decodes-text kind h.kind_faithful) (
        Decodes-check _ _ _ _ _ h.kind_present (
          Decodes-last _ _ _ (
            rw sorted (
              Decodes-next _ _ _ _ (length params) node (Decodes-u16 (length params)) (
                Decodes-then _ _ _ params node (rw collected (Reads-pure node)) (
                  Decodes-times (encode_param runtime) (read_param runtime) params
                    (All-params params h.params_faithful)))))))

  Decodes-operator :
      (weight : Option ℕ) (op : OperatorType) (k : Option ℕ) (params : Option OperatorParams)
      (children : PolicyNodes) (child : M PolicyNode)
      → not (node_count children == 0) ≡ true
      → params_of (k_json k) (weights_of params) ≡ params
      → Decodes (encode_nodes runtime children) (read_nodes (node_count children) child) children
      → Decodes
          (concat_bytes (
            u8be (operator_code op)
            ∷ u8be (param_flags (k_json k) (weights_of params))
            ∷ optional_k (k_json k)
            ∷ optional_weights (weights_of params)
            ∷ u16be (node_count children)
            ∷ encode_nodes runtime children
            ∷ []))
          (read_operator weight child)
          (PolicyNode.operator weight op params children)
  unfolding read_operator
  Decodes-operator weight op k params children child some_child given decoded =
      let node = PolicyNode.operator weight op params children in
      let ws = weights_of params in
      let flags = param_flags (k_json k) ws in
      Decodes-next _ _ _ _ (operator_code op) node (Decodes-u8 (operator_code op)) (
        Decodes-lift _ _ _ op node (decode_operator-operator_code op) (
          Decodes-next _ _ _ _ flags node (Decodes-u8 flags) (
            Decodes-check _ _ _ _ _ (flags_fit (k_json k) ws) (
              Decodes-next _ _ _ _ k node (Decodes-k k _ (k_flag k ws)) (
                Decodes-next _ _ _ _ ws node (Decodes-weights ws _ (weights_flag (k_json k) ws)) (
                  Decodes-next _ _ _ _ (node_count children) node
                    (Decodes-u16 (node_count children))
                    (Decodes-check _ _ _ _ _ some_child (
                      Decodes-last _ _ _ (
                        Decodes-then _ _ _ children node (rw given (Reads-pure node))
                          decoded)))))))))

  Decodes-operator_json :
      (weight : Option ℕ) (op : OperatorType) (params : Option OperatorParams)
      (children : PolicyNodes) (child : M PolicyNode)
      → not (node_count children == 0) ≡ true
      → IsGiven params
      → Decodes (encode_nodes runtime children) (read_nodes (node_count children) child) children
      → Decodes
          (concat_bytes (
            u8be (operator_code op)
            ∷ u8be (param_flags (k_of params) (weights_of params))
            ∷ optional_k (k_of params)
            ∷ optional_weights (weights_of params)
            ∷ u16be (node_count children)
            ∷ encode_nodes runtime children
            ∷ []))
          (read_operator weight child)
          (PolicyNode.operator weight op params children)
  Decodes-operator_json weight op params children child some_child g decoded =
      let k = k_number (k_of params) in
      let given : params_of (k_json k) (weights_of params) ≡ params =
        rw (g.k_natural) (g.not_empty) in
      let h = Decodes-operator weight op k params children child some_child given decoded in
      rw (g.k_natural) at h

  mutual
    unfolding encode_node read_node read_nodes node_count node_size

    Decodes-node :
        (node : PolicyNode) (fuel : ℕ)
        → IsPolicy node
        → node_size node ≤ fuel
        → Decodes (encode_node runtime node) (read_node runtime fuel) node
    Decodes-node (PolicyNode.operator weight op params children) zero h l = absurd (omega arith)
    Decodes-node (PolicyNode.operator weight op params children) (suc fuel) (c, g, h) l =
        let node = PolicyNode.operator weight op params children in
        Decodes-next _ _ _ _ 1 node (Decodes-u8 1) (
          Decodes-next _ _ _ _ (flag_of weight) node (Decodes-u8 (flag_of weight)) (
            Decodes-check _ _ _ _ _ (flag_fits weight) (
              Decodes-next _ _ _ _ weight node (Decodes-optional weight _ refl) (
                Decodes-then-branch _ _ _ _ _ refl (
                  Decodes-operator_json weight op params children (read_node runtime fuel) c g
                    (Decodes-nodes children fuel h (omega arith)))))))
    Decodes-node (PolicyNode.condition weight kind params) zero h l = absurd (omega arith)
    Decodes-node (PolicyNode.condition weight kind params) (suc fuel) h l =
        let node = PolicyNode.condition weight kind params in
        Decodes-next _ _ _ _ 2 node (Decodes-u8 2) (
          Decodes-next _ _ _ _ (flag_of weight) node (Decodes-u8 (flag_of weight)) (
            Decodes-check _ _ _ _ _ (flag_fits weight) (
              Decodes-next _ _ _ _ weight node (Decodes-optional weight _ refl) (
                Decodes-else-branch _ _ _ _ _ refl
                  (Decodes-then-branch _ _ _ _ _ refl (Decodes-condition weight kind params h))))))

    Decodes-nodes :
        (nodes : PolicyNodes) (fuel : ℕ)
        → ArePolicies nodes
        → nodes_size nodes ≤ fuel
        → Decodes
            (encode_nodes runtime nodes)
            (read_nodes (node_count nodes) (read_node runtime fuel))
            nodes
    Decodes-nodes PolicyNodes.nil fuel h l = Decodes-end PolicyNodes.nil
    Decodes-nodes (PolicyNodes.cons node nodes) fuel (h, hs) l =
        let all = PolicyNodes.cons node nodes in
        Decodes-next _ _ _ _ node all (Decodes-node node fuel h (omega arith)) (
          Decodes-last _ _ _ (
            Decodes-then _ _ _ nodes all (Reads-pure all)
              (Decodes-nodes nodes fuel hs (omega arith))))

  Decodes-policy :
      (root : PolicyNode) (fuel : ℕ)
      → IsPolicy root
      → node_size root ≤ fuel
      → Decodes (encode_policy runtime root) (read_policy runtime fuel) root
  unfolding encode_policy read_policy
  Decodes-policy root fuel h l =
      Decodes-next _ _ _ _ _ root
        (Decodes-header contract_id policy_version (policy_version ∷ []) refl)
        (Decodes-last _ _ _ (Decodes-node root fuel h l))

  -- A policy tree that is encoded is decoded again, if each operator has a child and parameters that
  -- are absent rather than empty, with a natural number for `k`, each condition has a type and
  -- parameters in ascending order of their names, the texts are well-formed UTF-16 that begins with no
  -- byte order mark, and the runtime reads the canonical JSON texts of the other values back. The fuel,
  -- the length of the bytes, is enough for every tree.
  pub decode-encode_policy :
      (root : PolicyNode) (bytes : Bytes)
      → IsPolicy root
      → encode_policy runtime root ≡ ok bytes
      → decode_policy runtime bytes ≡ ok root
  unfolding decode_policy
  decode-encode_policy root bytes h e =
      whole_exact _ _ bytes root
        (Decodes-policy root (length bytes) h (size-le-length runtime root bytes e) bytes e)
