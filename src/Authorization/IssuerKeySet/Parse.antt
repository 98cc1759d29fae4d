-- ===== src/Authorization/IssuerKeySet/Parse.antt =====
-- `parseIssuerKeysetDoc`: the shape of the served document, checked before any key is trusted.
use sigbash_sdk.Prelude.{
  ℕ, List, [], ◌∷◌, length, take, all, Bool, false, not, ◌||◌, ◌&&◌, Option, none, some, ◌==◌, ltb,
  if◌then◌else◌, Result, ok, err, guard, key_set_error, type_error, eqb,
}
use sigbash_sdk.Calls.{◌>>=◌, ◌>>◌}
use sigbash_sdk.Bytes.{Bytes}
use sigbash_sdk.Text.{Text, units, between, decode_text}
use sigbash_sdk.Json.{Number, Json, property, is_null, elements}
use sigbash_sdk.Authorization.IssuerKeySet.{
  doc_version, retention_window, kid_prefix, KeyStatus, KeysetEntry, KeysetDoc, is_active,
}

abbrev fail : {A : Type 0} → Result A
fail = err key_set_error

-- `text.startsWith(prefix)`
abbrev pub starts_with : Text → Text → Bool
starts_with text prefix = eqb (take (length prefix) text) prefix

-- `typeof kid !== 'string' || !kid.startsWith(ISSUER_KID_PREFIX)`
unfoldable pub kid_of : Option Json → Result Text
kid_of (some (Json.string t)) = guard (starts_with t kid_prefix) key_set_error >> ok t
kid_of _ = fail

abbrev is_digit : ℕ → Bool
is_digit c = between 0x30 0x39 c || between 0x61 0x66 c

-- `/^[0-9a-f]{64}$/`
unfoldable pub is_public_key : Text → Bool
is_public_key t = length t == 64 && all is_digit t

unfoldable pub public_key_of : Option Json → Result Text
public_key_of (some (Json.string t)) = guard (is_public_key t) key_set_error >> ok t
public_key_of _ = fail

unfoldable pub status_of : Option Json → Result KeyStatus
status_of (some (Json.string t)) =
    if eqb t (units "active")
    then ok KeyStatus.active
    else if eqb t (units "retired")
    then ok KeyStatus.retired
    else fail
status_of _ = fail

unfoldable pub superseded_of : Option Json → Result (Option Number)
superseded_of none = ok none
superseded_of (some (Json.number n)) = ok (some n)
superseded_of _ = fail

-- `typeof entry.pknetwork === 'string' ? entry.pknetwork : ''`
abbrev network_of : Option Json → Text
network_of (some (Json.string t)) = t
network_of _ = []

-- `seen.has(kid)`
unfoldable pub has_kid : Text → List Text → Bool
has_kid kid [] = false
has_kid kid (k ∷ seen) = eqb k kid || has_kid kid seen

-- A field of `null` throws a TypeError.
unfoldable pub parse_entry : List Text → Json → Result KeysetEntry
parse_entry seen entry = do
  guard (not (is_null entry)) type_error
  kid ← kid_of (property (units "kid") entry)
  guard (not (has_kid kid seen)) key_set_error
  public_key ← public_key_of (property (units "public_key_hex") entry)
  status ← status_of (property (units "status") entry)
  superseded_at ← superseded_of (property (units "superseded_at") entry)
  ok (record {
    kid = kid;
    pknetwork = network_of (property (units "pknetwork") entry);
    public_key_hex = public_key;
    status = status;
    superseded_at = superseded_at;
  })

-- The `map` over the entries, with the kids that it has seen.
unfoldable pub parse_entries : List Text → List Json → Result (List KeysetEntry)
parse_entries seen [] = ok []
parse_entries seen (entry ∷ entries) = do
  key ← parse_entry seen entry
  keys ← parse_entries (key.kid ∷ seen) entries
  ok (key ∷ keys)

-- `doc.version !== …` and `doc.retention_seconds !== …`
abbrev is_natural : ℕ → Option Json → Bool
is_natural n (some (Json.number (Number.natural m))) = m == n
is_natural n _ = false

abbrev is_string : Text → Option Json → Bool
is_string t (some (Json.string s)) = eqb s t
is_string t _ = false

unfoldable pub keys_of : Option Json → Result (List Json)
keys_of (some (Json.array xs)) = ok (elements xs)
keys_of _ = fail

-- `keys.filter(k => k.status === 'active')` is not empty.
unfoldable pub has_active : List KeysetEntry → Bool
has_active [] = false
has_active (key ∷ keys) = is_active key || has_active keys

unfoldable pub parse_doc : Text → Json → Result KeysetDoc
parse_doc network doc = do
  guard (not (is_null doc)) type_error
  guard (is_natural doc_version (property (units "version") doc)) key_set_error
  guard (is_string network (property (units "network") doc)) key_set_error
  guard (is_natural retention_window (property (units "retention_seconds") doc)) key_set_error
  entries ← keys_of (property (units "keys") doc)
  guard (ltb 0 (length entries)) key_set_error
  keys ← parse_entries [] entries
  guard (has_active keys) key_set_error
  ok (record {
    version = doc_version;
    network = network;
    retention_seconds = retention_window;
    keys = keys;
  })

module _ (json_parse : Text → Option Json) where
  unfoldable pub parse_issuer_keyset_doc : Bytes → Text → Result KeysetDoc
  parse_issuer_keyset_doc raw_bytes network = elim (json_parse (decode_text raw_bytes)) [
    | none ↦ fail
    | some doc ↦ parse_doc network doc
  ]
