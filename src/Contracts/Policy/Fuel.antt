-- ===== src/Contracts/Policy/Fuel.antt =====
-- The fuel of the decoder: a tree has no more nodes than its encoding has bytes.
use sigbash_sdk.Prelude.{
  ℕ, ◌+◌, ◌≤◌, ◌≡◌, ap, List, [], ◌∷◌, ◌++◌, length, length-append, ok, Result, arith, ok-injective,
  leb, if-eq-ok,
}
use sigbash_sdk.Bytes.{Bytes, concat_bytes, u8be}
use sigbash_sdk.Bytes.Reads.{concat_bytes-eq-ok}
use sigbash_sdk.Contracts.Policy.{JsonRuntime, PolicyNode, PolicyNodes}
use sigbash_sdk.Contracts.Policy.Encode.{encode_node, encode_nodes, encode_policy}

unfoldable mutual
  pub node_size : PolicyNode → ℕ
  node_size (PolicyNode.operator weight op params children) = 1 + nodes_size children
  node_size (PolicyNode.condition weight kind params) = 1

  pub nodes_size : PolicyNodes → ℕ
  nodes_size PolicyNodes.nil = 0
  nodes_size (PolicyNodes.cons node nodes) = node_size node + nodes_size nodes

-- What the call writes takes at least `n` bytes.
unfoldable pub TakesAtLeast : ℕ → Result Bytes → Type 0
TakesAtLeast n p = (b : Bytes) → p ≡ ok b → n ≤ length b

TakesAtLeast-zero : (p : Result Bytes) → TakesAtLeast 0 p
unfolding TakesAtLeast
TakesAtLeast-zero p b h = omega arith

TakesAtLeast-add :
    (p : Result Bytes) (ps : List (Result Bytes)) (m n : ℕ)
    → TakesAtLeast m p
    → TakesAtLeast n (concat_bytes ps)
    → TakesAtLeast (m + n) (concat_bytes (p ∷ ps))
unfolding TakesAtLeast
TakesAtLeast-add p ps m n first later bs h =
    let (b, c, hb, hc, e) = concat_bytes-eq-ok p ps bs h in
    let le_b = first b hb in
    let le_c = later c hc in
    let total = length-append b c in
    let same : length (b ++ c) ≡ length bs = ap length e in omega arith

-- A part that is not counted.
TakesAtLeast-skip :
    (p : Result Bytes) (ps : List (Result Bytes)) (n : ℕ)
    → TakesAtLeast n (concat_bytes ps)
    → TakesAtLeast n (concat_bytes (p ∷ ps))
unfolding TakesAtLeast
TakesAtLeast-skip p ps n later bs h =
    let le = TakesAtLeast-add p ps 0 n (TakesAtLeast-zero p) later bs h in omega arith

TakesAtLeast-last :
    (p : Result Bytes) (n : ℕ) → TakesAtLeast n p → TakesAtLeast n (concat_bytes (p ∷ []))
unfolding TakesAtLeast
TakesAtLeast-last p n first bs h =
    let le = TakesAtLeast-add p [] n 0 first (TakesAtLeast-zero (concat_bytes [])) bs h in
    omega arith

TakesAtLeast-u8 : (n : ℕ) → TakesAtLeast 1 (u8be n)
unfolding TakesAtLeast u8be
TakesAtLeast-u8 n b h =
    let (fits, e) = if-eq-ok (leb n 0xff) _ _ h in
    let same = ok-injective _ _ e in rw (← same) (omega arith)

module _ (runtime : JsonRuntime) where
  mutual
    unfolding encode_node node_size

    node-TakesAtLeast :
        (node : PolicyNode) → TakesAtLeast (node_size node) (encode_node runtime node)
    node-TakesAtLeast (PolicyNode.operator weight op params children) =
        TakesAtLeast-add (u8be 1) _ 1 (nodes_size children) (TakesAtLeast-u8 1) (
          TakesAtLeast-skip _ _ _ (
            TakesAtLeast-skip _ _ _ (
              TakesAtLeast-skip _ _ _ (
                TakesAtLeast-skip _ _ _ (
                  TakesAtLeast-skip _ _ _ (
                    TakesAtLeast-skip _ _ _ (
                      TakesAtLeast-skip _ _ _
                        (TakesAtLeast-last _ _ (nodes-TakesAtLeast children)))))))))
    node-TakesAtLeast (PolicyNode.condition weight kind params) =
        TakesAtLeast-add (u8be 2) _ 1 0 (TakesAtLeast-u8 2) (TakesAtLeast-zero _)

    nodes-TakesAtLeast :
        (nodes : PolicyNodes) → TakesAtLeast (nodes_size nodes) (encode_nodes runtime nodes)
    nodes-TakesAtLeast PolicyNodes.nil = TakesAtLeast-zero _
    nodes-TakesAtLeast (PolicyNodes.cons node nodes) =
        TakesAtLeast-add (encode_node runtime node) _ _ _ (node-TakesAtLeast node)
          (TakesAtLeast-last _ _ (nodes-TakesAtLeast nodes))

  -- The encoding of a tree has at least as many bytes as the tree has nodes.
  pub size-le-length :
      (root : PolicyNode) (bytes : Bytes)
      → encode_policy runtime root ≡ ok bytes
      → node_size root ≤ length bytes
  unfolding encode_policy TakesAtLeast
  size-le-length root = TakesAtLeast-skip _ _ _ (TakesAtLeast-last _ _ (node-TakesAtLeast root))
