-- ===== src/Authorization/IssuerKeySet/Cached.antt =====
-- The cache that loads reach.
use sigbash_sdk.Prelude.{
  ◌≡◌, refl, [], ◌∷◌, true, Bool-cases, inl, inr, Option, some, Result, ok, err, eqb, eqb_iff,
  eqb_refl, key_set_error, Option-cases,
}
use sigbash_sdk.Calls.{Yields, Yields-ok, Yields-guard, Yields-bind, Yields-skip}
use sigbash_sdk.Bytes.{Bytes}
use sigbash_sdk.Text.{Text, decode_text}
use sigbash_sdk.Json.{Json}
use sigbash_sdk.Authorization.IssuerKeySet.{KeysetDoc, LoadedKeySet}
use sigbash_sdk.Authorization.IssuerKeySet.Compare.{constant_time_compare_iff}
use sigbash_sdk.Authorization.IssuerKeySet.Parse.{parse_issuer_keyset_doc}
use sigbash_sdk.Authorization.IssuerKeySet.Sound.{IsKeyset, parse_doc-IsKeyset}
use sigbash_sdk.Authorization.IssuerKeySet.Load.{
  Response, LoadOptions, Cache, cached_issuer_key_set, set_cached, is_pinned, matches_pin,
  load_issuer_key_set,
}

-- A network's entry is what was set for it last, and setting it leaves the others.
cached-set_cached :
    (network : Text) (loaded : LoadedKeySet) (cache : Cache)
    → cached_issuer_key_set (set_cached network loaded cache) network ≡ some loaded
unfolding cached_issuer_key_set set_cached
cached-set_cached network loaded [] = rw (eqb_refl network) refl
cached-set_cached network loaded ((name, old) ∷ cache) = elim (Bool-cases (eqb name network)) [
  | inl same ↦ rw same (rw same refl)
  | inr other ↦ rw other (rw other (cached-set_cached network loaded cache))
]

module _ (json_parse : Text → Option Json) (sha384 : Bytes → Text) where
  -- A key set of the network, under the digest of the bytes it was parsed from.
  pub record IsLoaded (network : Text) (loaded : LoadedKeySet) : Type 0 where
    pub keyset : IsKeyset network loaded.doc
    pub digest : loaded.sha384 ≡ sha384 loaded.raw_bytes
    pub parsed : parse_issuer_keyset_doc json_parse loaded.raw_bytes network ≡ ok loaded.doc

  -- Every entry of the cache is a key set of its network.
  abbrev pub IsCache : Cache → Type 0
  IsCache [] = Unit
  IsCache ((network, loaded) ∷ cache) = IsLoaded network loaded × IsCache cache

  set_cached-IsCache :
      (network : Text) (loaded : LoadedKeySet) (cache : Cache)
      → IsLoaded network loaded
      → IsCache cache
      → IsCache (set_cached network loaded cache)
  unfolding set_cached
  set_cached-IsCache network loaded [] l c = (l, tt)
  set_cached-IsCache network loaded ((name, old) ∷ cache) l (o, c) =
      elim (Bool-cases (eqb name network)) [
        | inl same ↦ (let e = (eqb_iff name network).0 same in rw same (rw (← e) at l, c))
        | inr other ↦ rw other (o, set_cached-IsCache network loaded cache l c)
      ]

  cached-IsLoaded :
      (cache : Cache) (network : Text) (loaded : LoadedKeySet)
      → IsCache cache
      → cached_issuer_key_set cache network ≡ some loaded
      → IsLoaded network loaded
  unfolding cached_issuer_key_set
  cached-IsLoaded [] network loaded c h = absurd cc
  cached-IsLoaded ((name, old) ∷ cache) network loaded (o, c) h =
      elim (Bool-cases (eqb name network)) [
        | inl same ↦
            (let e : some old ≡ some loaded = rw same at h in
              let found : old ≡ loaded = cc in rw (← found, ← (eqb_iff name network).0 same) o)
        | inr other ↦
            (let e : cached_issuer_key_set cache network ≡ some loaded = rw other at h in
              cached-IsLoaded cache network loaded c e)
      ]

  -- What the parser gave.
  abbrev IsParsed : Text → Bytes → KeysetDoc → Type 0
  IsParsed network raw doc =
      IsKeyset network doc × (parse_issuer_keyset_doc json_parse raw network ≡ ok doc)

  Yields-issuer_keyset_doc :
      (raw : Bytes) (network : Text)
      → Yields (parse_issuer_keyset_doc json_parse raw network) (IsParsed network raw)
  unfolding parse_issuer_keyset_doc Yields
  Yields-issuer_keyset_doc raw network doc h = elim (Option-cases (json_parse (decode_text raw))) [
    | inl e ↦
        absurd (let k : err key_set_error ≡ ok doc = rw (e, parse_issuer_keyset_doc) at h in cc)
    | inr (json, e) ↦
        (parse_doc-IsKeyset network json doc (rw (e, parse_issuer_keyset_doc) at h), h)
  ]

  module _ (to_lower_case encode_uri_component : Text → Text) where
    abbrev load : (Text → Result Response) → LoadOptions → Cache → Result (LoadedKeySet × Cache)
    load fetch = load_issuer_key_set fetch json_parse sha384 to_lower_case encode_uri_component

    -- What a load that returns has done.
    pub record HasLoaded (options : LoadOptions) (before : Cache) (r : LoadedKeySet × Cache)
        : Type 0 where
      pub is_loaded : IsLoaded options.network r.0
      pub pin : matches_pin to_lower_case options.expected_sha384 r.0.sha384 ≡ true
      pub pinned : r.0.pinned ≡ is_pinned options.expected_sha384
      pub cache : r.1 ≡ set_cached options.network r.0 before

    Yields-load :
        (fetch : Text → Result Response) (options : LoadOptions) (before : Cache)
        → Yields (load fetch options before) (HasLoaded options before)
    unfolding load_issuer_key_set
    Yields-load fetch options before =
        let P = HasLoaded options before in
        Yields-skip P _ _ (λ response. Yields-guard P _ _ _ (λ fine. Yields-guard P _ _ _ (λ pin.
          Yields-bind P (IsParsed options.network response.body) _ _
            (Yields-issuer_keyset_doc response.body options.network)
            (λ doc (k, e). Yields-ok P _ (record {
              is_loaded = record { keyset = k; digest = refl; parsed = e };
              pin = pin;
              pinned = refl;
              cache = refl;
            })))))

    -- The caches that loads reach in a process, whatever the server answers each time.
    pub data Reaches : Cache → Type 0 where
      start : Reaches []
      load_one :
          (fetch : Text → Result Response) (options : LoadOptions) (loaded : LoadedKeySet)
          (before after : Cache)
          → Reaches before
          → load fetch options before ≡ ok (loaded, after)
          → Reaches after

    reached-IsCache : (cache : Cache) → Reaches cache → IsCache cache
    unfolding Yields
    reached-IsCache _ Reaches.start = tt
    reached-IsCache after (Reaches.load_one fetch options loaded before _ r h) =
        let done = Yields-load fetch options before (loaded, after) h in
        rw done.cache (
          set_cached-IsCache options.network loaded before done.is_loaded
            (reached-IsCache before r))

    -- In every cache that loads reach, whatever the servers answered, the entry of a network is
    -- what the parser gave for the bytes kept beside it: a document of that network that is well
    -- formed, under the digest of those bytes.
    pub reached_entry-IsLoaded :
        (cache : Cache) (network : Text) (loaded : LoadedKeySet)
        → Reaches cache
        → cached_issuer_key_set cache network ≡ some loaded
        → IsLoaded network loaded
    reached_entry-IsLoaded cache network loaded r h =
        cached-IsLoaded cache network loaded (reached-IsCache cache r) h

    -- A load under a pin that returns a key set has checked it: the digest of the served bytes is
    -- the pin in lower case, the set is marked as pinned, and the cache gives it for the network.
    pub load_of_pin :
        (fetch : Text → Result Response) (options : LoadOptions) (pin : Text)
        (loaded : LoadedKeySet) (before after : Cache)
        → options.expected_sha384 ≡ some pin
        → load_issuer_key_set fetch json_parse sha384 to_lower_case encode_uri_component options
            before
          ≡ ok (loaded, after)
        → (sha384 loaded.raw_bytes ≡ to_lower_case pin)
          × (loaded.pinned ≡ true)
          × (cached_issuer_key_set after options.network ≡ some loaded)
    unfolding Yields matches_pin
    load_of_pin fetch options pin loaded before after given h =
        let done = Yields-load fetch options before (loaded, after) h in
        let digest = (constant_time_compare_iff _ _).0 (rw (given, matches_pin) at done.pin) in
        (
          rw done.is_loaded.digest at digest,
          rw given at done.pinned,
          rw done.cache (cached-set_cached options.network loaded before),
        )
