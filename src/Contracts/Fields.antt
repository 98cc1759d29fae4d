-- ===== src/Contracts/Fields.antt =====
-- Text fields of the contracts (`lengthDelimited(utf8(s))`, and `new TextDecoder().decode(
-- readLengthDelimited(d, …))`), and the tagged hash of src/contracts/encoding.ts.
use sigbash_sdk.Prelude.{
  ◌≡◌, ◌≢◌, ◌∙◌, ap, sym, drop, drop-append, ◌++◌, length, true, false, Result, eqb, eqb_iff,
  Bool-cases, inl, inr, ◌⊎◌,
}
use sigbash_sdk.Bytes.{Bytes, length_delimited}
use sigbash_sdk.Bytes.Decoder.{M, ◌>>=◌, pure, read_length_delimited}
use sigbash_sdk.Bytes.Reads.{Decodes, Decodes-then, Reads-pure}
use sigbash_sdk.Bytes.Fields.{Decodes-length_delimited}
use sigbash_sdk.Bytes.Prefixes.{
  Extends, Extends-pure, Extends-bind, Extends-then, Extends-check, Extends-lift, Extends-branch,
  Extends-read_bytes, Extends-read_u8, Extends-read_u16, Extends-read_u32, Extends-read_u64,
  Extends-read_length_delimited, Extends-read_contract_header, Extends-read_times,
}
use sigbash_sdk.Text.{Text, utf8, decode_text, is_faithful}
use sigbash_sdk.Text.RoundTrip.{decode_text-utf8}

unfoldable pub text_field : Text → Result Bytes
text_field t = length_delimited (utf8 t)

unfoldable pub read_text : M Text
read_text = do bytes ← read_length_delimited; pure (decode_text bytes)

pub Decodes-text : (t : Text) → is_faithful t ≡ true → Decodes (text_field t) read_text t
unfolding text_field read_text
Decodes-text t h =
    Decodes-then (length_delimited (utf8 t)) read_length_delimited _ (utf8 t) t
      (rw (decode_text-utf8 t h) (Reads-pure t)) (Decodes-length_delimited (utf8 t))

pub Extends-read_text : Extends read_text
unfolding read_text
Extends-read_text = Extends-bind _ _ Extends-read_length_delimited (λ b. Extends-pure _)

-- Every reader that the contracts are built of.
pub ruleset extends_rules = (
  Extends-pure, Extends-bind, Extends-then, Extends-check, Extends-lift, Extends-branch,
  Extends-read_bytes, Extends-read_u8, Extends-read_u16, Extends-read_u32, Extends-read_u64,
  Extends-read_length_delimited, Extends-read_contract_header, Extends-read_times,
  Extends-read_text,
)

append-cancel : (t a b : Bytes) → t ++ a ≡ t ++ b → a ≡ b
append-cancel t a b h = sym (drop-append t a) ∙ ap (drop (length t)) h ∙ drop-append t b

ne_of_eqb : (a b : Bytes) → eqb a b ≡ false → a ≢ b
ne_of_eqb a b h e = cc ((eqb_iff a b).1 e)

-- SHA-256 is a function of another package.
module _ (sha256 : Bytes → Bytes) where
  unfoldable pub tagged_hash : Text → Bytes → Bytes
  tagged_hash tag msg = let tag_hash = sha256 (utf8 tag) in sha256 (tag_hash ++ tag_hash ++ msg)

  -- Two messages with one digest.
  abbrev pub Collision : Type 0
  Collision = (x : Bytes) × (y : Bytes) × (x ≢ y) × (sha256 x ≡ sha256 y)

  -- Messages with the same tagged hash are equal, or show a collision.
  pub tagged_hash-injective :
      (tag : Text) (a b : Bytes) → tagged_hash tag a ≡ tagged_hash tag b → (a ≡ b) ⊎ Collision
  unfolding tagged_hash
  tagged_hash-injective tag a b h =
      let t = sha256 (utf8 tag) in
      elim (Bool-cases (eqb (t ++ t ++ a) (t ++ t ++ b))) [
        | inl same ↦ inl (append-cancel (t ++ t) a b ((eqb_iff _ _).0 same))
        | inr other ↦ inr (t ++ t ++ a, t ++ t ++ b, ne_of_eqb _ _ other, h)
      ]
