-- ===== src/Authorization/IssuerKeySet.antt =====
-- src/authorization/issuerKeySet.ts: the issuer's published verification keys. The process's cache
-- is the state that `load_issuer_key_set` changes. `fetch`, `JSON.parse`, SHA-384, `toLowerCase`
-- and `encodeURIComponent` are parameters.
pub mod Parse
pub mod Load
pub mod Compare
pub mod Sound
pub mod Cached
use sigbash_sdk.Prelude.{
  ℕ, List, [], ◌∷◌, Bool, true, false, ◌&&◌, Option, none, some, eqb, if◌then◌else◌,
}
use sigbash_sdk.Bytes.{Bytes}
use sigbash_sdk.Text.{Text, units}
use sigbash_sdk.Json.{Number}

abbrev pub doc_version : ℕ
doc_version = 1

abbrev pub retention_window : ℕ
retention_window = 172800

abbrev pub kid_prefix : Text
kid_prefix = units "authz-ed25519-v1."

pub data KeyStatus : Type 0 where
  active retired : KeyStatus

pub record KeysetEntry : Type 0 where
  pub kid : Text
  pub pknetwork : Text
  pub public_key_hex : Text
  pub status : KeyStatus
  pub superseded_at : Option Number

pub record KeysetDoc : Type 0 where
  pub version : ℕ
  pub network : Text
  pub retention_seconds : ℕ
  pub keys : List KeysetEntry

pub record LoadedKeySet : Type 0 where
  pub doc : KeysetDoc
  pub sha384 : Text
  pub raw_bytes : Bytes
  pub pinned : Bool

abbrev pub is_active : KeysetEntry → Bool
is_active key = elim (key.status) [ KeyStatus.active ↦ true | KeyStatus.retired ↦ false ]

unfoldable pub find_key : Text → List KeysetEntry → Option KeysetEntry
find_key kid [] = none
find_key kid (key ∷ keys) =
    if eqb (key.kid) kid && is_active key then some key else find_key kid keys

-- `issuerKeyForKid`
unfoldable pub issuer_key_for_kid : LoadedKeySet → Text → Option KeysetEntry
issuer_key_for_kid key_set kid = find_key kid (key_set.doc.keys)
