-- ===== src/Authorization/Envelope/Sound.antt =====
-- The envelopes that the parser returns.
use sigbash_sdk.Prelude.{
  ℕ, Bool, if◌then◌else◌, Option-cases, inl, inr, ◌≤◌, ◌<◌, ◌≡◌, refl, [], ◌∷◌, length, Option,
  none, some, true, false, leb, ltb, leb→le, ltb→lt, ==_iff, Result, ok, err, All, syntax_error,
  ◌==◌, if-eq-ok,
}
use sigbash_sdk.Calls.{
  ◌>>=◌, Yields, Yields-ok, Yields-err, Yields-guard, Yields-bind, Yields-skip, Yields-mono,
  Yields-map_calls,
}
use sigbash_sdk.Bytes.{Bytes}
use sigbash_sdk.Text.{Text}
use sigbash_sdk.Json.{Number, is_record, Json, Items, byte_elements, elements, with_byte}
use sigbash_sdk.Authorization.Envelope.{PositionDisclosure, Bundle, Envelope}
use sigbash_sdk.Authorization.Envelope.Widths.{
  IsBytes, IsOptionalBytes, IsPublicInputs, IsChunk, IsPosition, IsEnvelope,
}
use sigbash_sdk.Authorization.Envelope.Parse.{
  fixed_bytes, of_width, byte_of, index_of, optional_fixed_bytes, parse_disclosure,
  parse_public_inputs, parse_chunk_proof, parse_chunk_proofs, parse_bundle, parse_position,
  parse_envelope, parse_authorization_envelope,
}

some_test :
    (t : Bool) (as' bs : Bytes) → (if t then some as' else none) ≡ some bs → (t ≡ true) × (as' ≡ bs)
some_test true as' bs h = (refl, cc)
some_test false as' bs h = cc

with_byte-eq-some :
    (b : ℕ) (o : Option Bytes) (bs : Bytes)
    → with_byte b o ≡ some bs
    → (cs : Bytes) × (o ≡ some cs) × (b ≤ 0xff) × (b ∷ cs ≡ bs)
unfolding with_byte
with_byte-eq-some b none bs h = cc
with_byte-eq-some b (some cs) bs h =
    let (fits, e) = some_test (leb b 0xff) (b ∷ cs) bs h in (cs, refl, leb→le b 0xff fits, e)

byte_elements_lem : (xs : Items) (bs : Bytes) → byte_elements xs ≡ some bs → All (λ b. b ≤ 0xff) bs
unfolding byte_elements
byte_elements_lem Items.nil bs h = let e : [] ≡ bs = cc in rw (← e) tt
byte_elements_lem (Items.cons (Json.number (Number.natural b)) xs) bs h =
    let (cs, later, fits, e) = with_byte-eq-some b (byte_elements xs) bs h in
    rw (← e) (fits, byte_elements_lem xs cs later)
byte_elements_lem (Items.cons _ xs) bs h = cc

Yields-of_width :
    (n : ℕ) (o : Option Bytes)
    → ((bs : Bytes) → o ≡ some bs → All (λ b. b ≤ 0xff) bs)
    → Yields (of_width n o) (IsBytes n)
unfolding of_width
Yields-of_width n none p = Yields-err (IsBytes n) _
Yields-of_width n (some cs) p =
    Yields-guard (IsBytes n) (length cs == n) _ (ok cs)
      (λ w. Yields-ok (IsBytes n) cs (record { width = (==_iff _ _).0 w; bytes = p cs refl }))

Yields-fixed_bytes : (field : Option Json) (n : ℕ) → Yields (fixed_bytes field n) (IsBytes n)
unfolding fixed_bytes
Yields-fixed_bytes (some (Json.array xs)) n =
    Yields-of_width n (byte_elements xs) (byte_elements_lem xs)
Yields-fixed_bytes _ n = Yields-err (IsBytes n) _

Yields-optional_fixed_bytes :
    (field : Option Json) (n : ℕ) → Yields (optional_fixed_bytes field n) (IsOptionalBytes n)
unfolding optional_fixed_bytes
Yields-optional_fixed_bytes none n = Yields-ok (IsOptionalBytes n) none tt
Yields-optional_fixed_bytes (some v) n =
    Yields-bind (IsOptionalBytes n) (IsBytes n) (fixed_bytes (some v) n) _
      (Yields-fixed_bytes (some v) n) (λ bs k. Yields-ok (IsOptionalBytes n) (some bs) k)

Yields-byte_of : (field : Option Json) → Yields (byte_of field) (λ b. b ≤ 0xff)
unfolding byte_of
Yields-byte_of (some (Json.number (Number.natural n))) =
    let P : ℕ → Type 0 = λ b. b ≤ 0xff in
    Yields-guard P (leb n 0xff) _ (ok n) (λ fits. Yields-ok P n (leb→le n 0xff fits))
Yields-byte_of _ = Yields-err (λ b. b ≤ 0xff) _

Yields-disclosure :
    (field : Option Json) → Yields (parse_disclosure field) (λ p. IsOptionalBytes 32 p.leaf_hash)
unfolding parse_disclosure
Yields-disclosure field =
    let P : PositionDisclosure → Type 0 = λ p. IsOptionalBytes 32 p.leaf_hash in
    Yields-skip P _ _ (λ value. Yields-skip P _ _ (λ kind. Yields-skip P _ _ (λ branch.
      Yields-bind P (IsOptionalBytes 32) _ _ (Yields-optional_fixed_bytes _ 32)
        (λ leaf k. Yields-ok P _ k))))

-- The next field is an array of `n` bytes.
Yields-field :
    {A : Type 0} (P : A → Type 0) (field : Option Json) (n : ℕ) (next : Bytes → Result A)
    → ((bs : Bytes) → IsBytes n bs → Yields (next bs) P)
    → Yields (fixed_bytes field n >>= next) P
Yields-field P field n next =
    Yields-bind P (IsBytes n) (fixed_bytes field n) next (Yields-fixed_bytes field n)

Yields-IsPublicInputs : (field : Option Json) → Yields (parse_public_inputs field) IsPublicInputs
unfolding parse_public_inputs
Yields-IsPublicInputs field =
    let P = IsPublicInputs in
    Yields-skip P _ _ (λ value.
      Yields-bind P (λ b. b ≤ 0xff) _ _ (Yields-byte_of _)
        (λ mode m. Yields-field P _ 32 _ (λ a1 h1. Yields-field P _ 32 _ (λ a2 h2.
          Yields-field P _ 32 _ (λ a3 h3. Yields-field P _ 32 _ (λ a4 h4.
            Yields-field P _ 32 _ (λ a5 h5. Yields-field P _ 32 _ (λ a6 h6.
              Yields-field P _ 32 _ (λ a7 h7. Yields-field P _ 32 _ (λ a8 h8.
                Yields-field P _ 32 _ (λ a9 h9. Yields-field P _ 32 _ (λ b1 k1.
                  Yields-field P _ 16 _ (λ b2 k2. Yields-ok P _ (record {
                    challenge_e = h1;
                    path_id = h2;
                    session_seed = h3;
                    nullifier_n0 = h4;
                    nullifier_n1 = h5;
                    hash_outputs_blinded_commit = h6;
                    unified = h7;
                    hin = h8;
                    salt = h9;
                    coeffs = k1;
                    product = k2;
                    position_mode = m;
                  }))))))))))))))

Yields-IsChunk : (field : Json) → Yields (parse_chunk_proof field) IsChunk
unfolding parse_chunk_proof
Yields-IsChunk field =
    Yields-skip IsChunk _ _
      (λ value. Yields-field IsChunk _ 16 _ (λ commit k. Yields-ok IsChunk _ k))

Yields-proofs : (field : Option Json) → Yields (parse_chunk_proofs field) (All IsChunk)
unfolding parse_chunk_proofs
Yields-proofs none = Yields-ok (All IsChunk) [] tt
Yields-proofs (some (Json.array xs)) =
    Yields-mono (All IsChunk) _ _
      (Yields-map_calls IsChunk parse_chunk_proof Yields-IsChunk (elements xs)) (λ cs h. h.0)
Yields-proofs (some _) = Yields-err (All IsChunk) _

-- What a parsed bundle satisfies.
record IsBundle (b : Bundle) : Type 0 where
  public_inputs : IsPublicInputs b.public_inputs
  proof_session_id : IsBytes 32 b.proof_session_id
  chunks : All IsChunk b.output_chunk_proofs

Yields-IsBundle : (field : Option Json) → Yields (parse_bundle field) IsBundle
unfolding parse_bundle
Yields-IsBundle field =
    let P = IsBundle in
    Yields-skip P _ _ (λ value.
      Yields-bind P IsPublicInputs _ _ (Yields-IsPublicInputs _) (λ inputs h.
        Yields-field P _ 32 _ (λ session k.
          Yields-bind P (All IsChunk) _ _ (Yields-proofs _) (λ chunks l.
            Yields-ok P _ (record { public_inputs = h; proof_session_id = k; chunks = l })))))

Yields-IsPosition : (field : Json) → Yields (parse_position field) IsPosition
unfolding parse_position
Yields-IsPosition field =
    let P = IsPosition in
    Yields-skip P _ _ (λ value. Yields-bind P IsBundle _ _ (Yields-IsBundle _) (λ bundle b.
      Yields-bind P (λ p. IsOptionalBytes 32 p.leaf_hash) _ _ (Yields-disclosure _)
        (λ posture l.
          Yields-bind P (λ b. b ≤ 0xff) _ _ (Yields-byte_of _)
            (λ mode m. Yields-ok P _ (record {
              public_inputs = b.public_inputs;
              proof_session_id = b.proof_session_id;
              chunks = b.chunks;
              leaf_hash = l;
              position_mode = m;
            })))))

Yields-index_of : (i : Number) (count : ℕ) → Yields (index_of i count) (λ n. n < count)
unfolding index_of
Yields-index_of (Number.natural n) count =
    let P : ℕ → Type 0 = λ n. n < count in
    Yields-guard P (ltb n count) _ (ok n) (λ below. Yields-ok P n (ltb→lt n count below))
Yields-index_of _ count = Yields-err (λ n. n < count) _

-- An envelope that the parser returns has version 1, every field at its width (32 bytes, but 16 for
-- the polynomial product and the write commits, and a byte for the modes), and a completing
-- position that is one of its positions.
pub parse_envelope-IsEnvelope :
    (value : Json) (e : Envelope) → parse_envelope value ≡ ok e → IsEnvelope e
unfolding parse_envelope Yields
parse_envelope-IsEnvelope value =
    let P = IsEnvelope in
    Yields-guard P _ _ _ (λ v. Yields-skip P _ _ (λ completing. Yields-skip P _ _ (λ raw.
      Yields-guard P _ _ _ (λ nonempty.
        Yields-bind P (λ n. n < length raw) _ _ (Yields-index_of completing (length raw))
          (λ n below.
            Yields-bind P (λ ps. All IsPosition ps × (length ps ≡ length raw)) _ _
              (Yields-map_calls IsPosition parse_position Yields-IsPosition raw)
              (λ ps (hs, count). Yields-field P _ 32 _ (λ session k. Yields-ok P _ (record {
                version = refl;
                session_id = k;
                positions = hs;
                completing = rw count below;
              }))))))))

module _ (json_parse : Text → Option Json) where
  -- The same holds of the envelopes that are parsed from a text.
  pub parse_authorization_envelope-IsEnvelope :
      (input : Text) (e : Envelope)
      → parse_authorization_envelope json_parse input ≡ ok e
      → IsEnvelope e
  unfolding parse_authorization_envelope
  parse_authorization_envelope-IsEnvelope input e h = elim (Option-cases (json_parse input)) [
    | inl n ↦
        absurd (let k : err syntax_error ≡ ok e = rw (n, parse_authorization_envelope) at h in cc)
    | inr (value, s) ↦
        (let k = rw (s, parse_authorization_envelope) at h in
          parse_envelope-IsEnvelope value e ((if-eq-ok (is_record value) _ _ k).1))
  ]
