-- ===== src/Authorization/IssuerKeySet/Load.antt =====
-- `loadIssuerKeySet` and the cache of the process.
use sigbash_sdk.Prelude.{
  ℕ, List, [], ◌∷◌, ◌++◌, Bool, true, false, Option, none, some, ◌==◌, if◌then◌else◌, Result, ok,
  guard, key_set_error, eqb,
}
use sigbash_sdk.Calls.{◌>>=◌, ◌>>◌}
use sigbash_sdk.Bytes.{Bytes}
use sigbash_sdk.Text.{Text, units}
use sigbash_sdk.Json.{Json}
use sigbash_sdk.Authorization.IssuerKeySet.{LoadedKeySet}
use sigbash_sdk.Authorization.IssuerKeySet.Compare.{constant_time_compare}
use sigbash_sdk.Authorization.IssuerKeySet.Parse.{parse_issuer_keyset_doc}

pub record Response : Type 0 where
  pub is_ok : Bool
  pub body : Bytes

pub record LoadOptions : Type 0 where
  pub server_url : Text
  pub network : Text
  pub expected_sha384 : Option Text

-- A map from networks in the order of their first entry.
abbrev pub Cache : Type 0
Cache = List (Text × LoadedKeySet)

-- `cachedIssuerKeySet`
unfoldable pub cached_issuer_key_set : Cache → Text → Option LoadedKeySet
cached_issuer_key_set [] network = none
cached_issuer_key_set ((name, loaded) ∷ cache) network =
    if eqb name network then some loaded else cached_issuer_key_set cache network

-- `keySetCache.set(network, loaded)`
unfoldable pub set_cached : Text → LoadedKeySet → Cache → Cache
set_cached network loaded [] = (network, loaded) ∷ []
set_cached network loaded ((name, old) ∷ cache) =
    if eqb name network
    then (name, loaded) ∷ cache
    else (name, old) ∷ set_cached network loaded cache

-- `text` behind a character, where `text` is stripped already.
unfoldable pub strip_at : ℕ → Text → Text
strip_at c [] = if c == 0x2f then [] else c ∷ []
strip_at c (d ∷ text) = c ∷ d ∷ text

-- `serverUrl.replace(/\/+$/, '')`
unfoldable pub normalize_server_url : Text → Text
normalize_server_url [] = []
normalize_server_url (c ∷ text) = strip_at c (normalize_server_url text)

-- `expectedSha384 !== undefined`
abbrev pub is_pinned : Option Text → Bool
is_pinned none = false
is_pinned (some pin) = true

-- The URL of the request.
unfoldable pub request_url : (Text → Text) → LoadOptions → Text
request_url encode_uri_component options =
    normalize_server_url (options.server_url)
    ++ units "/api/v2/authorization/issuer-keyset?network="
    ++ encode_uri_component (options.network)

-- Where a pin is given, the digest is the pin in lower case.
unfoldable pub matches_pin : (Text → Text) → Option Text → Text → Bool
matches_pin to_lower_case none digest = true
matches_pin to_lower_case (some pin) digest = constant_time_compare digest (to_lower_case pin)

module _ (fetch : Text → Result Response) (json_parse : Text → Option Json) (sha384 : Bytes → Text)
    (to_lower_case encode_uri_component : Text → Text) where
  -- The key set, and the cache after the call; a call that throws leaves the cache as it was.
  unfoldable pub load_issuer_key_set : LoadOptions → Cache → Result (LoadedKeySet × Cache)
  load_issuer_key_set options cache = do
    response ← fetch (request_url encode_uri_component options)
    guard (response.is_ok) key_set_error
    guard (matches_pin to_lower_case (options.expected_sha384) (sha384 (response.body)))
        key_set_error
    doc ← parse_issuer_keyset_doc json_parse (response.body) (options.network)
    let loaded : LoadedKeySet = record {
      doc = doc;
      sha384 = sha384 (response.body);
      raw_bytes = response.body;
      pinned = is_pinned (options.expected_sha384);
    }
    ok (loaded, set_cached (options.network) loaded cache)
