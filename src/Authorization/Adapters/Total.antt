-- ===== src/Authorization/Adapters/Total.antt =====
-- The pin aggregate of an envelope whose fields have their widths.
use sigbash_sdk.Prelude.{
  ℕ, ◌≡◌, refl, List, [], ◌∷◌, Bool, true, false, Option, none, some, Result, ok, length, ◌<◌, All,
  get_elem?, arith, ==_iff, zero, suc, ◌∙◌, if◌then◌else◌,
}
use sigbash_sdk.Calls
use sigbash_sdk.Bytes.{Bytes}
use sigbash_sdk.Contracts.AuthorizationSubject.Aggregates.{
  ChunkEntry, CompletingPins, assert_width, chunk_bytes, completing_bytes, pin_message,
  authz_pin_aggregate,
}
use sigbash_sdk.Authorization.Envelope.{
  ChunkPins, Position, Envelope, select_chunk, select_covenant_write_commit, commit_of,
  completing_position_of,
}
use sigbash_sdk.Authorization.Envelope.Widths.{IsChunk, IsPosition, IsEnvelope}
use sigbash_sdk.Authorization.Adapters.Aggregates.{completing_bundle, pin_aggregate_from_envelope}

-- The call returns.
abbrev pub Returns : {A : Type 0} → Result A → Type 0
Returns {A} r = (a : A) × (r ≡ ok a)

get_elem?_of_lt :
    {A : Type 0} (P : A → Type 0) (xs : List A) (i : ℕ)
    → All P xs
    → i < length xs
    → (x : A) × (get_elem? xs i ≡ some x) × P x
get_elem?_of_lt P [] i h l = absurd (omega arith)
get_elem?_of_lt P (x ∷ xs) zero (p, h) l = (x, refl, p)
get_elem?_of_lt P (x ∷ xs) (suc i) (p, h) l = get_elem?_of_lt P xs i h (omega arith)

-- Some chunk, of its width.
abbrev IsSelected : Option ChunkPins → Type 0
IsSelected o = (c : ChunkPins) × (o ≡ some c) × IsChunk c

if-IsSelected :
    (t : Bool) (c : ChunkPins) (o : Option ChunkPins)
    → IsChunk c
    → IsSelected o
    → IsSelected (if t then some c else o)
if-IsSelected true c o p s = (c, refl, p)
if-IsSelected false c o p s = s

-- The chunk that is selected is one of the chunks, or the one given before them.
select_chunk-IsSelected :
    (last : ChunkPins) (chunks : List ChunkPins)
    → IsChunk last
    → All IsChunk chunks
    → IsSelected (select_chunk (some last) chunks)
unfolding select_chunk
select_chunk-IsSelected last [] l h = (last, refl, l)
select_chunk-IsSelected last (c ∷ cs) l (p, h) =
    if-IsSelected c.is_final_chunk c _ p (select_chunk-IsSelected c cs p h)

commit_of-width : (o : Option ChunkPins) → IsSelected o → length (commit_of o) ≡ 16
unfolding commit_of
commit_of-width none (c, e, w) = absurd cc
commit_of-width (some d) (c, e, w) = let same : c ≡ d = cc in rw (← same) w.width

commit-width :
    (cs : List ChunkPins) → All IsChunk cs → length (commit_of (select_chunk none cs)) ≡ 16
unfolding commit_of select_chunk
commit-width [] k = refl
commit-width (c ∷ cs) (p, k) =
    commit_of-width _ (if-IsSelected c.is_final_chunk c _ p (select_chunk-IsSelected c cs p k))

assert_width-ok : (bs : Bytes) (n : ℕ) → length bs ≡ n → assert_width bs n ≡ ok tt
unfolding assert_width
assert_width-ok bs n h = let e = (==_iff (length bs) n).1 h in rw e refl

-- A chain of calls that return.
bind-ok :
    {A B : Type 0} (r : Result B) (next : B → Result A) {b : B} {a : A}
    → r ≡ ok b
    → next b ≡ ok a
    → Calls.◌>>=◌ r next ≡ ok a
unfolding Calls.◌>>=◌
bind-ok r next e h = rw e h

-- An assertion that holds, and what follows.
assert-ok :
    {A : Type 0} (bs : Bytes) (n : ℕ) (rest : Result A)
    → length bs ≡ n
    → Calls.◌>>◌ (assert_width bs n) rest ≡ rest
unfolding Calls.◌>>◌
assert-ok bs n rest h = rw (assert_width-ok bs n h) refl

chunk_bytes-ok :
    (c : ChunkEntry)
    → length c.hash_outputs_blinded_commit ≡ 32
    → length c.covenant_write_commit ≡ 16
    → Returns (chunk_bytes c)
unfolding chunk_bytes
chunk_bytes-ok c h w = (_, assert-ok _ 32 _ h ∙ assert-ok _ 16 _ w)

completing_bytes-ok :
    (p : CompletingPins)
    → length p.hash_outputs_blinded_commit_unified ≡ 32
    → length p.hin_blinded_commit_unified ≡ 32
    → length p.salt_blinded_commit_unified ≡ 32
    → length p.poly_coeffs_blinded_commit_unified ≡ 32
    → length p.input_set_poly_product ≡ 16
    → Returns (completing_bytes p)
unfolding completing_bytes
completing_bytes-ok p a b c d e = (
  _,
  assert-ok _ 32 _ a
      ∙ assert-ok _ 32 _ b
      ∙ assert-ok _ 32 _ c
      ∙ assert-ok _ 32 _ d
      ∙ assert-ok _ 16 _ e,
)

map_calls-ok :
    {A B : Type 0} (parse : A → Result B) (a : A) {b : B}
    → parse a ≡ ok b
    → Calls.map_calls parse (a ∷ []) ≡ ok (b ∷ [])
unfolding Calls.map_calls Calls.◌>>=◌
map_calls-ok parse a e = rw e refl

pub completing_bundle-ok :
    (e : Envelope)
    → IsEnvelope e
    → (p : Position) × (completing_bundle e ≡ ok p.bundle) × IsPosition p
unfolding completing_bundle completing_position_of
completing_bundle-ok e h =
    let (p, found, k) =
      get_elem?_of_lt IsPosition e.positions e.completing_position h.positions h.completing in
    (p, rw (found, completing_bundle) refl, k)

module _ (sha256 : Bytes → Bytes) where
  -- Every envelope at its widths, as the parser returns them, has a pin aggregate.
  pub pin_aggregate_total :
      (e : Envelope) → IsEnvelope e → Returns (pin_aggregate_from_envelope sha256 e)
  unfolding pin_aggregate_from_envelope authz_pin_aggregate pin_message select_covenant_write_commit
  pin_aggregate_total e h =
      let (p, found, k) = completing_bundle-ok e h in
      let pins = p.bundle.public_inputs in
      let (chunk, c) =
        chunk_bytes-ok
          (record {
            hash_outputs_blinded_commit = pins.hash_outputs_blinded_commit;
            covenant_write_commit = select_covenant_write_commit p.bundle;
          })
          k.public_inputs.hash_outputs_blinded_commit.width
          (commit-width p.bundle.output_chunk_proofs k.chunks) in
      let (five, d) =
        completing_bytes-ok
          (record {
            hash_outputs_blinded_commit_unified = pins.hash_outputs_blinded_commit_unified;
            hin_blinded_commit_unified = pins.hin_blinded_commit_unified;
            salt_blinded_commit_unified = pins.salt_blinded_commit_unified;
            poly_coeffs_blinded_commit_unified = pins.poly_coeffs_blinded_commit_unified;
            input_set_poly_product = pins.input_set_poly_product;
          })
          k.public_inputs.unified.width k.public_inputs.hin.width k.public_inputs.salt.width
          k.public_inputs.coeffs.width k.public_inputs.product.width in
      (
        _,
        bind-ok _ _ found
            (bind-ok _ _ (bind-ok _ _ (map_calls-ok chunk_bytes _ c) (bind-ok _ _ d refl)) refl),
      )
