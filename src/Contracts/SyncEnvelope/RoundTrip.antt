-- ===== src/Contracts/SyncEnvelope/RoundTrip.antt =====
-- The event header of src/contracts/syncEnvelope.ts, encoded and decoded.
use sigbash_sdk.Prelude.{
  ℕ, ◌≡◌, refl, List, [], ◌∷◌, Option, none, some, length, ==_iff, true, ok, All, guard-eq-ok, ◌↔◌,
}
use sigbash_sdk.Bytes.{Bytes, concat_bytes}
use sigbash_sdk.Bytes.Decoder.{read_bytes}
use sigbash_sdk.Bytes.Whole.{whole_exact}
use sigbash_sdk.Bytes.Ensures.{
  Ensures, Ensures-pure, Ensures-bind, Ensures-skip, Ensures-check, Ensures-branch, Ensures-times,
  Ensures-read_bytes, Ensures-whole,
}
use sigbash_sdk.Bytes.Reads.{
  Reads, Reads-pure, Reads-then-branch, Decodes-else-branch, Decodes, Decodes-next, Decodes-last,
  Decodes-check, Decodes-splice, Decodes-then, Decodes-times,
}
use sigbash_sdk.Bytes.Fields.{
  Decodes-u8, Decodes-u16, Decodes-u64, Decodes-fixed, Decodes-length_delimited, Decodes-header,
}
use sigbash_sdk.Contracts.Fields.{Decodes-text}
use sigbash_sdk.Text.{is_faithful}
use sigbash_sdk.Contracts.SyncEnvelope.{EventHeader, HasWidth, IsSized}
use sigbash_sdk.Contracts.SyncEnvelope.Codec.Encode.{
  optional_field, tail_parts, header_parts, encode_event_header,
}
use sigbash_sdk.Contracts.SyncEnvelope.Codec.Decode.{
  read_flagged, read_optional, read_event_header, decode_event_header,
}

Decodes-optional :
    (n : ℕ) (field : Option Bytes)
    → HasWidth n field
    → Decodes (optional_field field) (read_optional n) field
unfolding optional_field read_optional read_flagged
Decodes-optional n none h =
    Decodes-then _ _ _ _ _ (Reads-then-branch _ _ _ [] _ refl (Reads-pure none)) (Decodes-u8 0)
Decodes-optional n (some bytes) h = Decodes-next _ _ _ _ _ _ (Decodes-u8 1) (
    Decodes-else-branch _ _ _ _ _ refl (
      Decodes-check _ _ _ _ _ refl (
        Decodes-last _ _ _
          (Decodes-then _ _ _ _ _ (Reads-pure (some bytes)) (Decodes-fixed n bytes h)))))

All-hashes :
    (ps : List Bytes) → All (λ p. length p ≡ 32) ps → All (λ p. Decodes (ok p) (read_bytes 32) p) ps
All-hashes [] h = tt
All-hashes (p ∷ ps) (h, hs) = (Decodes-fixed 32 p h, All-hashes ps hs)

module _ (h : EventHeader) (sized : IsSized h) (text : is_faithful h.event_type ≡ true)
    (event : length h.event_id ≡ 16) (org : length h.org_client_id ≡ 16)
    (actor : length h.actor_user_id ≡ 16) where
  Decodes-parts : Decodes (concat_bytes (header_parts h)) read_event_header h
  unfolding header_parts tail_parts read_event_header
  Decodes-parts = Decodes-next _ _ _ _ _ _ (Decodes-header 5 1 (1 ∷ []) refl) (
      Decodes-next _ _ _ _ _ _ (Decodes-u8 h.schema_version) (
        Decodes-next _ _ _ _ _ _ (Decodes-fixed 16 h.event_id event) (
          Decodes-next _ _ _ _ _ _ (Decodes-text h.event_type text) (
            Decodes-next _ _ _ _ _ _ (Decodes-fixed 16 h.org_client_id org) (
              Decodes-next _ _ _ _ _ _ (Decodes-optional 16 h.wallet_client_id sized.wallet) (
                Decodes-next _ _ _ _ _ _ (Decodes-optional 16 h.subject_id sized.subject) (
                  Decodes-next _ _ _ _ _ _ (Decodes-fixed 16 h.actor_user_id actor) (
                    Decodes-next _ _ _ _ _ _ (Decodes-u64 h.client_timestamp_ms) (
                      Decodes-next _ _ _ _ _ _ (Decodes-u16 (length h.parent_event_hashes)) (
                        Decodes-splice _ _ _ _ _ _
                          (Decodes-times ok (read_bytes 32) h.parent_event_hashes
                            (All-hashes h.parent_event_hashes sized.parents))
                          (Decodes-next _ _ _ _ _ _
                            (Decodes-optional 32 h.semantic_commitment sized.commitment)
                            (Decodes-last _ _ _ (
                              Decodes-then _ _ _ _ _ (Reads-pure h)
                                (Decodes-length_delimited h.actor_signature))))))))))))))

pub event_header-Reads :
    (h : EventHeader) (bs : Bytes)
    → IsSized h
    → is_faithful h.event_type ≡ true
    → encode_event_header h ≡ ok bs
    → Reads read_event_header bs h
unfolding encode_event_header
event_header-Reads h bs sized text e =
    let (event, e₁) = guard-eq-ok _ _ _ e in
    let (org, e₂) = guard-eq-ok _ _ _ e₁ in
    let (actor, e₃) = guard-eq-ok _ _ _ e₂ in
    let (kind, e₄) = guard-eq-ok _ _ _ e₃ in
    Decodes-parts h sized text ((==_iff _ _).0 event) ((==_iff _ _).0 org) ((==_iff _ _).0 actor) bs
      e₄

Ensures-optional : (n : ℕ) → Ensures (read_optional n) (HasWidth n)
unfolding read_optional read_flagged
Ensures-optional n = Ensures-skip (HasWidth n) _ _ (λ flag.
    Ensures-branch (HasWidth n) _ _ _ (λ _. Ensures-pure (HasWidth n) none tt)
      (λ _. Ensures-check (HasWidth n) _ _ _ (λ _.
        Ensures-bind (HasWidth n) _ _ _ (Ensures-read_bytes _ n)
          (λ b w. Ensures-pure (HasWidth n) (some b) w))))

Ensures-header : Ensures read_event_header IsSized
unfolding read_event_header
Ensures-header = Ensures-skip IsSized _ _ (λ _. Ensures-skip IsSized _ _ (λ _.
    Ensures-skip IsSized _ _ (λ _. Ensures-skip IsSized _ _ (λ _. Ensures-skip IsSized _ _ (λ _.
      Ensures-bind IsSized _ _ _ (Ensures-optional 16) (λ wallet w.
        Ensures-bind IsSized _ _ _ (Ensures-optional 16) (λ subject s.
          Ensures-skip IsSized _ _ (λ _. Ensures-skip IsSized _ _ (λ _.
            Ensures-skip IsSized _ _ (λ n.
              Ensures-bind IsSized _ _ _
                (Ensures-times (λ p. length p ≡ 32) n (read_bytes 32) (Ensures-read_bytes _ 32))
                (λ ps p. Ensures-bind IsSized _ _ _ (Ensures-optional 32) (λ commitment c.
                  Ensures-skip IsSized _ _ (λ _.
                    Ensures-pure IsSized _
                      (record { wallet = w; subject = s; commitment = c; parents = p }))))))))))))))

-- Where the encoder accepts a header with a faithful event type, decoding its bytes gives it back
-- exactly when the wallet id and the subject id have 16 bytes, where they are there, and the
-- parent hashes and the semantic commitment 32.
pub decode-encode_event_header_iff :
    (h : EventHeader) (bs : Bytes)
    → is_faithful h.event_type ≡ true
    → encode_event_header h ≡ ok bs
    → (decode_event_header bs ≡ ok h) ↔ IsSized h
unfolding decode_event_header
decode-encode_event_header_iff h bs text e = (
  Ensures-whole IsSized _ read_event_header bs h Ensures-header,
  λ sized. whole_exact _ read_event_header bs h (event_header-Reads h bs sized text e),
)
