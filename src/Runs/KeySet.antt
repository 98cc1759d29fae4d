-- ===== src/Runs/KeySet.antt =====
-- A key set of one active key, loaded once.
use sigbash_sdk.Prelude.{
  ◌≡◌, refl, ◌↔◌, [], ◌∷◌, Option, none, some, true, Result, replicate, ok, Has, eqb,
}
use sigbash_sdk.Calls.{◌>>=◌, ◌>>◌}
use sigbash_sdk.Bytes.{Bytes}
use sigbash_sdk.Text.{Text, units}
use sigbash_sdk.Json.{Number, Json, Items, Members, elements, property, find_member}
use sigbash_sdk.Authorization.IssuerKeySet.{
  KeyStatus, KeysetEntry, KeysetDoc, LoadedKeySet, is_active, issuer_key_for_kid,
}
use sigbash_sdk.Authorization.IssuerKeySet.Compare.{
  constant_time_compare, differs, constant_time_compare_iff,
}
use sigbash_sdk.Authorization.IssuerKeySet.Parse.{
  kid_of, is_public_key, public_key_of, status_of, superseded_of, has_kid, parse_entry,
  parse_entries, keys_of, has_active, parse_doc, parse_issuer_keyset_doc,
}
use sigbash_sdk.Authorization.IssuerKeySet.Sound.{
  IsKeyset, parse_doc-IsKeyset, issuer_key_for_kid_iff,
}
use sigbash_sdk.Authorization.IssuerKeySet.Load.{
  Response, LoadOptions, Cache, cached_issuer_key_set, set_cached, matches_pin, load_issuer_key_set,
}
use sigbash_sdk.Authorization.IssuerKeySet.Cached.{
  IsLoaded, Reaches, reached_entry-IsLoaded, load_of_pin,
}

abbrev pub public_key : Text
public_key = replicate 64 0x61

abbrev entry_json : Json
entry_json = Json.object (
    Members.member (units "kid") (Json.string (units "authz-ed25519-v1.k")) (
      Members.member (units "public_key_hex") (Json.string public_key)
        (Members.member (units "status") (Json.string (units "active")) Members.end)))

abbrev doc_json : Json
doc_json = Json.object (
    Members.member (units "version") (Json.number (Number.natural 1)) (
      Members.member (units "network") (Json.string (units "signet")) (
        Members.member (units "retention_seconds") (Json.number (Number.natural 172800)) (
          Members.member (units "keys") (Json.array (Items.cons entry_json Items.nil))
            Members.end))))

abbrev pub key : KeysetEntry
key = record {
  kid = units "authz-ed25519-v1.k";
  pknetwork = [];
  public_key_hex = public_key;
  status = KeyStatus.active;
  superseded_at = none;
}

abbrev doc : KeysetDoc
doc = record { version = 1; network = units "signet"; retention_seconds = 172800; keys = key ∷ [] }

doc_parses : parse_doc (units "signet") doc_json ≡ ok doc
unfolding ◌>>=◌ ◌>>◌ elements property find_member kid_of is_public_key public_key_of status_of
    superseded_of has_kid parse_entry parse_entries keys_of has_active parse_doc eqb
doc_parses = refl

doc-IsKeyset : IsKeyset (units "signet") doc
doc-IsKeyset = parse_doc-IsKeyset (units "signet") doc_json doc doc_parses

parse_doc-IsKeyset_example : IsKeyset (units "signet") doc
parse_doc-IsKeyset_example = parse_doc-IsKeyset (units "signet") doc_json doc doc_parses

-- A runtime whose `JSON.parse` knows one document, and whose digest is a constant.
abbrev json_parse : Text → Option Json
json_parse text = some doc_json

abbrev digest : Bytes → Text
digest bytes = units "d1"

abbrev same_text : Text → Text
same_text t = t

abbrev fetch : Text → Result Response
fetch url = ok (record { is_ok = true; body = [] })

abbrev options : LoadOptions
options = record {
  server_url = units "https://s/";
  network = units "signet";
  expected_sha384 = some (units "d1");
}

abbrev pub loaded : LoadedKeySet
loaded = record { doc = doc; sha384 = units "d1"; raw_bytes = []; pinned = true }

abbrev cache : Cache
cache = (units "signet", loaded) ∷ []

loads :
    load_issuer_key_set fetch json_parse digest same_text same_text options [] ≡ ok (loaded, cache)
unfolding load_issuer_key_set parse_issuer_keyset_doc matches_pin constant_time_compare differs
    set_cached ◌>>=◌ ◌>>◌ elements property find_member kid_of is_public_key public_key_of status_of
    superseded_of has_kid parse_entry parse_entries keys_of has_active parse_doc eqb
loads = refl

cached : cached_issuer_key_set cache (units "signet") ≡ some loaded
unfolding cached_issuer_key_set eqb
cached = refl

reached_entry-IsLoaded_example : IsLoaded json_parse digest (units "signet") loaded
reached_entry-IsLoaded_example =
    reached_entry-IsLoaded json_parse digest same_text same_text cache (units "signet") loaded
      (Reaches.load_one fetch options loaded [] cache Reaches.start loads) cached

load_of_pin_example :
    (units "d1" ≡ units "d1")
    × (true ≡ true)
    × (cached_issuer_key_set cache (units "signet") ≡ some loaded)
load_of_pin_example =
    load_of_pin json_parse digest same_text same_text fetch options (units "d1") loaded [] cache
      refl loads

issuer_key_for_kid_iff_example :
    (issuer_key_for_kid loaded (units "authz-ed25519-v1.k") ≡ some key)
    ↔ (Has (key ∷ []) key × (key.kid ≡ units "authz-ed25519-v1.k") × (is_active key ≡ true))
issuer_key_for_kid_iff_example =
    issuer_key_for_kid_iff loaded (units "authz-ed25519-v1.k") key doc-IsKeyset.distinct

constant_time_compare_iff_example :
    (constant_time_compare (units "d1") (units "d1") ≡ true) ↔ (units "d1" ≡ units "d1")
constant_time_compare_iff_example = constant_time_compare_iff (units "d1") (units "d1")
