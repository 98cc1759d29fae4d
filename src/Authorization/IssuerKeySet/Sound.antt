-- ===== src/Authorization/IssuerKeySet/Sound.antt =====
-- The documents that the parser returns, and the key that an id selects.
use sigbash_sdk.Prelude.{
  ◌≡◌, refl, List, [], ◌∷◌, Bool, true, false, not, ◌&&◌, ◌||◌, Bool-cases, inl, inr, Option, some,
  ok, eqb, eqb_iff, eqb_refl, All, Has, ◌↔◌,
}
use mathlib.Core.Bool.{and-eq-true_iff}
use sigbash_sdk.Calls.{Yields, Yields-ok, Yields-err, Yields-guard, Yields-bind, Yields-skip}
use sigbash_sdk.Text.{Text}
use sigbash_sdk.Json.{Json}
use sigbash_sdk.Authorization.IssuerKeySet.{
  doc_version, retention_window, kid_prefix, KeysetEntry, KeysetDoc, LoadedKeySet, is_active,
  find_key, issuer_key_for_kid,
}
use sigbash_sdk.Authorization.IssuerKeySet.Parse.{
  starts_with, kid_of, is_public_key, public_key_of, has_kid, parse_entry, parse_entries,
  has_active, parse_doc,
}

pub record IsEntry (key : KeysetEntry) : Type 0 where
  pub kid : starts_with key.kid kid_prefix ≡ true
  pub public_key : is_public_key key.public_key_hex ≡ true

-- No key's id is one of `seen` or of a key before it.
abbrev pub AreFresh : List Text → List KeysetEntry → Type 0
AreFresh seen [] = Unit
AreFresh seen (key ∷ keys) = (has_kid key.kid seen ≡ false) × AreFresh (key.kid ∷ seen) keys

pub record IsKeyset (network : Text) (doc : KeysetDoc) : Type 0 where
  pub version : doc.version ≡ doc_version
  pub doc_network : doc.network ≡ network
  pub retention : doc.retention_seconds ≡ retention_window
  pub entries : All IsEntry doc.keys
  pub distinct : AreFresh [] doc.keys
  pub some_active : has_active doc.keys ≡ true

not-eq-true : (b : Bool) → not b ≡ true → b ≡ false
not-eq-true true h = absurd cc
not-eq-true false h = refl

or-eq-false : (a b : Bool) → (a || b) ≡ false → b ≡ false
or-eq-false true b h = absurd cc
or-eq-false false b h = h

or-eq-false_left : (a b : Bool) → (a || b) ≡ false → a ≡ false
or-eq-false_left true b h = absurd cc
or-eq-false_left false b h = refl

Yields-kid_of : (field : Option Json) → Yields (kid_of field) (λ t. starts_with t kid_prefix ≡ true)
unfolding kid_of
Yields-kid_of (some (Json.string t)) =
    let P : Text → Type 0 = λ t. starts_with t kid_prefix ≡ true in
    Yields-guard P _ _ (ok t) (λ h. Yields-ok P t h)
Yields-kid_of _ = Yields-err (λ t. starts_with t kid_prefix ≡ true) _

Yields-public_key_of :
    (field : Option Json) → Yields (public_key_of field) (λ t. is_public_key t ≡ true)
unfolding public_key_of
Yields-public_key_of (some (Json.string t)) =
    let P : Text → Type 0 = λ t. is_public_key t ≡ true in
    Yields-guard P _ _ (ok t) (λ h. Yields-ok P t h)
Yields-public_key_of _ = Yields-err (λ t. is_public_key t ≡ true) _

Yields-IsEntry :
    (seen : List Text) (entry : Json)
    → Yields (parse_entry seen entry) (λ key. IsEntry key × (has_kid key.kid seen ≡ false))
unfolding parse_entry
Yields-IsEntry seen entry =
    let P : KeysetEntry → Type 0 = λ key. IsEntry key × (has_kid key.kid seen ≡ false) in
    Yields-guard P _ _ _ (λ present.
      Yields-bind P (λ t. starts_with t kid_prefix ≡ true) _ _ (Yields-kid_of _)
        (λ kid k. Yields-guard P _ _ _ (λ fresh.
          Yields-bind P (λ t. is_public_key t ≡ true) _ _ (Yields-public_key_of _)
            (λ key p. Yields-skip P _ _ (λ status. Yields-skip P _ _ (λ superseded.
              Yields-ok P _ (record { kid = k; public_key = p }, not-eq-true _ fresh)))))))

Yields-entries :
    (seen : List Text) (entries : List Json)
    → Yields (parse_entries seen entries) (λ keys. All IsEntry keys × AreFresh seen keys)
unfolding parse_entries
Yields-entries seen [] = Yields-ok (λ keys. All IsEntry keys × AreFresh seen keys) [] (tt, tt)
Yields-entries seen (entry ∷ entries) =
    let P : List KeysetEntry → Type 0 = λ keys. All IsEntry keys × AreFresh seen keys in
    Yields-bind P (λ key. IsEntry key × (has_kid key.kid seen ≡ false)) _ _
      (Yields-IsEntry seen entry)
      (λ key (e, f).
        Yields-bind P (λ keys. All IsEntry keys × AreFresh (key.kid ∷ seen) keys) _ _
          (Yields-entries (key.kid ∷ seen) entries)
          (λ keys (es, fs). Yields-ok P (key ∷ keys) ((e, es), (f, fs))))

-- A document that the parser returns has the supported version and retention, the requested
-- network, ids that have the lane's prefix and are distinct, public keys of 64 digits in lower
-- case, and an active key.
pub parse_doc-IsKeyset :
    (network : Text) (json : Json) (doc : KeysetDoc)
    → parse_doc network json ≡ ok doc
    → IsKeyset network doc
unfolding parse_doc Yields
parse_doc-IsKeyset network json =
    let P = IsKeyset network in
    Yields-guard P _ _ _ (λ present. Yields-guard P _ _ _ (λ version. Yields-guard P _ _ _ (λ same.
      Yields-guard P _ _ _ (λ retention. Yields-skip P _ _ (λ entries.
        Yields-guard P _ _ _ (λ nonempty.
          Yields-bind P (λ keys. All IsEntry keys × AreFresh [] keys) _ _
            (Yields-entries [] entries)
            (λ keys (es, fs). Yields-guard P _ _ _ (λ active. Yields-ok P _ (record {
              version = refl;
              doc_network = refl;
              retention = refl;
              entries = es;
              distinct = fs;
              some_active = active;
            })))))))))

-- A fresh key's id is none that was seen.
fresh-not_seen :
    (seen : List Text) (keys : List KeysetEntry) (key : KeysetEntry)
    → AreFresh seen keys
    → Has keys key
    → has_kid key.kid seen ≡ false
unfolding has_kid
fresh-not_seen seen [] key f m = absurd m
fresh-not_seen seen (k ∷ keys) key (f, fs) (inl e) = rw (← e) f
fresh-not_seen seen (k ∷ keys) key (f, fs) (inr m) =
    or-eq-false (eqb k.kid key.kid) (has_kid key.kid seen)
      (fresh-not_seen (k.kid ∷ seen) keys key fs m)

-- The search gives a key of the list, with the id, and active.
find_key-eq-some :
    (kid : Text) (keys : List KeysetEntry) (key : KeysetEntry)
    → find_key kid keys ≡ some key
    → Has keys key × (key.kid ≡ kid) × (is_active key ≡ true)
unfolding find_key
find_key-eq-some kid [] key h = absurd cc
find_key-eq-some kid (k ∷ keys) key h = elim (Bool-cases (eqb k.kid kid && is_active k)) [
  | inl here ↦
      (let e : some k ≡ some key = rw here at h in
        let same : k ≡ key = cc in
        let (a, b) = (and-eq-true_iff _ _).0 here in
        (inl same, rw (← same) ((eqb_iff _ _).0 a), rw (← same) b))
  | inr other ↦
      (let e : find_key kid keys ≡ some key = rw other at h in
        let (m, same, active) = find_key-eq-some kid keys key e in (inr m, same, active))
]

-- Among distinct ids, an active key of the list is the one that its id finds.
find_key_of_fresh :
    (seen : List Text) (keys : List KeysetEntry) (key : KeysetEntry)
    → AreFresh seen keys
    → Has keys key
    → is_active key ≡ true
    → find_key key.kid keys ≡ some key
unfolding find_key has_kid
find_key_of_fresh seen [] key f m h = absurd m
find_key_of_fresh seen (k ∷ keys) key (f, fs) (inl e) h =
    rw e (let r = eqb_refl key.kid in rw (r, h) refl)
find_key_of_fresh seen (k ∷ keys) key (f, fs) (inr m) h =
    let apart =
      or-eq-false_left (eqb k.kid key.kid) (has_kid key.kid seen)
        (fresh-not_seen (k.kid ∷ seen) keys key fs m) in
    rw apart (find_key_of_fresh (k.kid ∷ seen) keys key fs m h)

-- In a key set whose ids are distinct, a lookup gives a key exactly where that key is one of the
-- set, has the id, and is active; so a retired key is never given.
pub issuer_key_for_kid_iff :
    (key_set : LoadedKeySet) (kid : Text) (key : KeysetEntry)
    → AreFresh [] key_set.doc.keys
    → (issuer_key_for_kid key_set kid ≡ some key)
      ↔ (Has key_set.doc.keys key × (key.kid ≡ kid) × (is_active key ≡ true))
unfolding issuer_key_for_kid
issuer_key_for_kid_iff key_set kid key fresh = (
  find_key-eq-some kid key_set.doc.keys key,
  λ (m, e, a). rw (← e) (find_key_of_fresh [] key_set.doc.keys key fresh m a),
)
