-- ===== src/Contracts/Policy/Values.antt =====
-- The fields of a policy tree encoded and decoded again.
use sigbash_sdk.Prelude.{
  ℕ, zero, suc, ◌≤◌, ◌≡◌, refl, List, [], ◌∷◌, map, length, Option, none, some, Bool, true, false,
  not, ◌==◌, leb, ok, Result, arith, All, Bool-cases, inl, inr, ◌⊎◌, if◌then◌else◌,
}
use sigbash_sdk.Bytes.{Bytes, concat_bytes, u8be, u32be, u64be}
use sigbash_sdk.Bytes.Decoder.{M, read_u32}
use sigbash_sdk.Bytes.Reads.{
  Reads-pure, Reads-check, Reads-lift, Decodes, Decodes-next, Decodes-last, Decodes-then,
  Decodes-then-branch, Decodes-else-branch, Decodes-times,
}
use sigbash_sdk.Bytes.Fields.{Decodes-u8, Decodes-u16, Decodes-u32, Decodes-u64}
use sigbash_sdk.Text.{is_faithful}
use sigbash_sdk.Json.{Number, Json}
use sigbash_sdk.Contracts.Fields.{Decodes-text}
use sigbash_sdk.Contracts.Policy.{JsonRuntime, OperatorType, operator_code, decode_operator}
use sigbash_sdk.Contracts.Policy.Texts.{canonical_json}
use sigbash_sdk.Contracts.Policy.Encode.{
  max_safe_integer, flag_of, bool_byte, optional_u32, optional_k, optional_weights, json_value,
  encode_value,
}
use sigbash_sdk.Contracts.Policy.Decode.{
  read_optional, read_weights, k_json, read_bool, read_uint, parsed, read_json, read_string,
  read_value, read_tagged,
}

pub decode_operator-operator_code : (op : OperatorType) → decode_operator (operator_code op) ≡ ok op
unfolding decode_operator operator_code
decode_operator-operator_code OperatorType.and_op = refl
decode_operator-operator_code OperatorType.or_op = refl
decode_operator-operator_code OperatorType.not_op = refl
decode_operator-operator_code OperatorType.implies_op = refl
decode_operator-operator_code OperatorType.iff_op = refl
decode_operator-operator_code OperatorType.threshold_op = refl
decode_operator-operator_code OperatorType.weighted_threshold_op = refl
decode_operator-operator_code OperatorType.majority_op = refl
decode_operator-operator_code OperatorType.exactly_op = refl
decode_operator-operator_code OperatorType.at_most_op = refl
decode_operator-operator_code OperatorType.veto_op = refl
decode_operator-operator_code OperatorType.nor_op = refl
decode_operator-operator_code OperatorType.nand_op = refl
decode_operator-operator_code OperatorType.xor_op = refl

pub Decodes-optional :
    (o : Option ℕ) (t : Bool) → t ≡ (flag_of o == 1) → Decodes (optional_u32 o) (read_optional t) o
unfolding optional_u32 read_optional
Decodes-optional none t e =
    Decodes-else-branch _ _ _ _ _ e
      (λ bs h. let same = sigbash_sdk.Prelude.ok-injective [] bs h in rw (← same) (Reads-pure none))
Decodes-optional (some n) t e =
    Decodes-then-branch _ _ _ _ _ e
      (Decodes-then _ _ _ n (some n) (Reads-pure (some n)) (Decodes-u32 n))

-- A `k` that is absent or a natural number.
abbrev pub k_number : Option Json → Option ℕ
k_number (some (Json.number (Number.natural n))) = some n
k_number _ = none

optional_k-number : (k : Option ℕ) → optional_k (k_json k) ≡ optional_u32 k
unfolding optional_k optional_u32
optional_k-number none = refl
optional_k-number (some n) = refl

pub Decodes-k :
    (k : Option ℕ) (t : Bool)
    → t ≡ (flag_of k == 1)
    → Decodes (optional_k (k_json k)) (read_optional t) k
Decodes-k k t e = rw (optional_k-number k) (Decodes-optional k t e)

All-u32 : (ns : List ℕ) → All (λ n. Decodes (u32be n) read_u32 n) ns
All-u32 [] = tt
All-u32 (n ∷ ns) = (Decodes-u32 n, All-u32 ns)

pub Decodes-weights :
    (o : Option (List ℕ)) (t : Bool)
    → t ≡ (flag_of o == 1)
    → Decodes (optional_weights o) (read_weights t) o
unfolding optional_weights read_weights
Decodes-weights none t e =
    Decodes-else-branch _ _ _ _ _ e
      (λ bs h. let same = sigbash_sdk.Prelude.ok-injective [] bs h in rw (← same) (Reads-pure none))
Decodes-weights (some ws) t e = Decodes-then-branch _ _ _ _ _ e (
    Decodes-next _ _ _ _ _ _ (Decodes-u16 (length ws)) (
      Decodes-then _ _ _ ws (some ws) (Reads-pure (some ws))
        (Decodes-times u32be read_u32 ws (All-u32 ws))))

-- A tag, and the reader of its payload.
Decodes-tagged :
    (tag : ℕ) (p : Result Bytes) (m : ℕ → M Json) (v : Json)
    → Decodes p (m tag) v
    → Decodes (concat_bytes (u8be tag ∷ p ∷ [])) (read_tagged m) v
unfolding read_tagged
Decodes-tagged tag p m v h = Decodes-next _ _ _ _ tag v (Decodes-u8 tag) (Decodes-last _ _ _ h)

module _ (runtime : JsonRuntime) where
  -- The text of the value survives its bytes, and `JSON.parse` gives the value back.
  pub record IsJsonText (value : Json) : Type 0 where
    pub text : is_faithful (canonical_json runtime value) ≡ true
    pub back : runtime.json_parse (canonical_json runtime value) ≡ some value

  -- A value that the decoder gives back. A string is written as it is, and so is a safe integer; what
  -- is written as JSON text must be read back by the runtime.
  abbrev pub IsValue : Json → Type 0
  IsValue (Json.string t) = is_faithful t ≡ true
  IsValue (Json.boolean b) = Unit
  IsValue (Json.number (Number.natural n)) =
      (leb n max_safe_integer ≡ true) ⊎ IsJsonText (Json.number (Number.natural n))
  IsValue value = IsJsonText value

  parsed-back :
      (value : Json)
      → IsJsonText value
      → parsed runtime (runtime.json_parse (canonical_json runtime value)) ≡ ok value
  parsed-back value h = rw (h.back) refl

  Decodes-json :
      (value : Json)
      → IsJsonText value
      → Decodes (json_value runtime value) (read_tagged (read_value runtime)) value
  unfolding json_value read_value read_json
  Decodes-json value h = Decodes-tagged 4 _ (read_value runtime) value (
      Decodes-else-branch _ _ _ _ _ refl (
        Decodes-else-branch _ _ _ _ _ refl (
          Decodes-else-branch _ _ _ _ _ refl (
            Decodes-then-branch _ _ _ _ _ refl (
              Decodes-then _ _ _ (canonical_json runtime value) value
                (Reads-lift (parsed-back value h)) (Decodes-text _ h.text))))))

  Decodes-uint :
      (n : ℕ)
      → leb n max_safe_integer ≡ true
      → Decodes
          (concat_bytes (u8be 3 ∷ u64be n ∷ []))
          (read_tagged (read_value runtime))
          (Json.number (Number.natural n))
  unfolding read_value read_uint
  Decodes-uint n h =
      let v = Json.number (Number.natural n) in
      Decodes-tagged 3 _ (read_value runtime) v (
        Decodes-else-branch _ _ _ _ _ refl (
          Decodes-else-branch _ _ _ _ _ refl (
            Decodes-then-branch _ _ _ _ _ refl
              (Decodes-then _ _ _ n v (Reads-check _ _ _ [] _ h (Reads-pure v)) (Decodes-u64 n)))))

  Decodes-bool :
      (b : Bool)
      → Decodes
          (concat_bytes (u8be 2 ∷ u8be (bool_byte b) ∷ []))
          (read_tagged (read_value runtime))
          (Json.boolean b)
  unfolding read_value read_bool
  Decodes-bool b =
      let v = Json.boolean b in
      Decodes-tagged 2 _ (read_value runtime) v (
        Decodes-else-branch _ _ _ _ _ refl (
          Decodes-then-branch _ _ _ _ _ refl (
            Decodes-then _ _ _ (bool_byte b) v
              (Reads-check _ _ _ [] _ (fits b) (rw (byte b) (Reads-pure v)))
              (Decodes-u8 (bool_byte b)))))
    where
      fits : (c : Bool) → leb (bool_byte c) 1 ≡ true
      fits true = refl
      fits false = refl

      byte : (c : Bool) → (bool_byte c == 1) ≡ c
      byte true = refl
      byte false = refl

  pub Decodes-value :
      (value : Json)
      → IsValue value
      → Decodes (encode_value runtime value) (read_tagged (read_value runtime)) value
  unfolding encode_value read_value read_string
  Decodes-value (Json.string t) h = Decodes-tagged 1 _ (read_value runtime) (Json.string t) (
      Decodes-then-branch _ _ _ _ _ refl
        (Decodes-then _ _ _ t (Json.string t) (Reads-pure (Json.string t)) (Decodes-text t h)))
  Decodes-value (Json.boolean b) h = Decodes-bool b
  Decodes-value (Json.number (Number.natural n)) h = natural_value (leb n max_safe_integer) refl h
    where
      natural_value :
          (t : Bool)
          → leb n max_safe_integer ≡ t
          → (leb n max_safe_integer ≡ true) ⊎ IsJsonText (Json.number (Number.natural n))
          → Decodes
              (if t
                then concat_bytes (u8be 0x03 ∷ u64be n ∷ [])
                else json_value runtime (Json.number (Number.natural n)))
              (read_tagged (read_value runtime))
              (Json.number (Number.natural n))
      natural_value true e k = Decodes-uint n e
      natural_value false e (inl k) = absurd cc
      natural_value false e (inr k) = Decodes-json _ k
  Decodes-value (Json.number (Number.negative n)) h = Decodes-json _ h
  Decodes-value (Json.number (Number.fractional n)) h = Decodes-json _ h
  Decodes-value Json.null h = Decodes-json _ h
  Decodes-value (Json.array xs) h = Decodes-json _ h
  Decodes-value (Json.object ms) h = Decodes-json _ h
