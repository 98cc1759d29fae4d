-- ===== src/Prelude/Outcome.antt =====
-- What a call that may throw ends with: a value, or the error thrown.
use mathlib.Core.Path.{◌≡◌, refl}
use mathlib.Core.Bool.{Bool, true, false}
use sigbash_sdk.Prelude.Tests.{if◌then◌else◌}

-- What an `Error` of the plain class complains of.
pub data Fault : Type 0 where
  truncated trailing bad_length empty_field bad_value not_ascending bad_index too_long : Fault

-- The reasons that an artifact's format error carries.
pub data Reason : Type 0 where
  non_canonical unknown_version : Reason

-- The error classes that the code throws. Message texts are not kept.
pub data Error : Type 0 where
  range_error version_error decode_error psbt_error wallet_error : Error
  envelope_error key_set_error type_error syntax_error : Error
  format_error : Reason → Error
  plain_error : Fault → Error

pub data Result {ℓ} (A : Type ℓ) : Type ℓ where
  err : Error → Result A
  ok : A → Result A

-- `if (!t) throw e;`
abbrev pub guard : Bool → Error → Result (Unit {0})
guard t e = if t then ok tt else err e

infixl 5 ◌>>=◌ ◌>>◌
module _ {ℓ κ} {A : Type ℓ} {B : Type κ} where
  -- What follows a call sees its value, and is skipped where the call throws.
  abbrev pub ◌>>=◌ : Result A → (A → Result B) → Result B
  ◌>>=◌ (err e) next = err e
  ◌>>=◌ (ok a) next = next a

  -- Both calls of a successful chain returned.
  pub >>=-eq-ok :
      (r : Result A) (next : A → Result B) {b : B}
      → ◌>>=◌ r next ≡ ok b
      → (a : A) × (r ≡ ok a) × (next a ≡ ok b)
  >>=-eq-ok (err e) next h = cc
  >>=-eq-ok (ok a) next h = (a, refl, h)

module _ {ℓ} {A : Type ℓ} where
  abbrev pub ◌>>◌ : Result (Unit {0}) → Result A → Result A
  ◌>>◌ (err e) rest = err e
  ◌>>◌ (ok done) rest = rest

  -- Both calls of a successful chain without a value returned.
  pub >>-eq-ok :
      (r : Result (Unit {0})) (rest : Result A) {a : A}
      → ◌>>◌ r rest ≡ ok a
      → (r ≡ ok tt) × (rest ≡ ok a)
  >>-eq-ok (err e) rest h = cc
  >>-eq-ok (ok done) rest h = (refl, h)

  -- A test that throws when it fails: it held, and the rest of the code gave the result.
  pub if-eq-ok :
      (t : Bool) (e : Error) (rest : Result A) {a : A}
      → (if t then rest else err e) ≡ ok a
      → (t ≡ true) × (rest ≡ ok a)
  if-eq-ok false e rest h = cc
  if-eq-ok true e rest h = (refl, h)

  pub guard-eq-ok :
      (t : Bool) (e : Error) (rest : Result A) {a : A}
      → ◌>>◌ (guard t e) rest ≡ ok a
      → (t ≡ true) × (rest ≡ ok a)
  guard-eq-ok false e rest h = cc
  guard-eq-ok true e rest h = (refl, h)

  pub ok-injective : (a b : A) → ok a ≡ ok b → a ≡ b
  ok-injective a b h = cc

pub pair-eq {ℓ κ} :
    {A : Type ℓ} {B : Type κ} (a a' : A) (b b' : B)
    → ◌≡◌ {A = Result (A × B)} (ok (a, b)) (ok (a', b'))
    → a ≡ a'
pair-eq a a' b b' h = cc
