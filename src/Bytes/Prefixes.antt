-- ===== src/Bytes/Prefixes.antt =====
-- Readers look at no byte behind the ones that they take: more bytes at the end of the array change
-- neither the value nor the offset.
use sigbash_sdk.Prelude.{
  ℕ, zero, suc, ◌+◌, ◌≤◌, ◌≡◌, refl, ◌∙◌, ap, List, [], ◌∷◌, ◌++◌, length, take, drop,
  length-append, length-drop, drop-append_of_le, take-append_of_le, leb, leb→le, le→leb, ◌==◌, Bool,
  true, false, Result, ok, err, Error, plain_error, truncated, version_error, arith,
}
use sigbash_sdk.Prelude
use sigbash_sdk.Bytes.Decoder.{
  Decoder, M, ◌>>=◌, ◌>>◌, pure, throw, check, branch, lift, read_bytes_or, read_u8, read_u16,
  read_u32, read_u64, read_length_delimited, read_contract_header, read_times,
}

abbrev pub extend : List ℕ → Decoder → Decoder
extend more d = record d { bytes = d.bytes ++ more }

abbrev pub Extends : {A : Type 0} → M A → Type 0
Extends {A} m =
    (d : Decoder) (more : List ℕ) (v : A) (d' : Decoder)
    → m d ≡ ok (v, d')
    → (d'.bytes ≡ d.bytes) × (m (extend more d) ≡ ok (v, extend more d'))

pub Extends-pure : {A : Type 0} (a : A) → Extends (pure a)
unfolding pure
Extends-pure a d more v d' h = ground arith

pub Extends-throw : {A : Type 0} (e : Error) → Extends (throw {A = A} e)
unfolding throw
Extends-throw e d more v d' h = cc

pub Extends-check : (t : Bool) (e : Error) → Extends (check t e)
unfolding check
Extends-check true e d more v d' h = ground arith
Extends-check false e d more v d' h = cc

pub Extends-lift : {A : Type 0} (r : Result A) → Extends (lift r)
unfolding lift
Extends-lift (ok a) d more v d' h = ground arith
Extends-lift (err e) d more v d' h = cc

pub Extends-branch :
    {A : Type 0} (t : Bool) (m n : M A) → Extends m → Extends n → Extends (branch t m n)
unfolding branch
Extends-branch true m n p q = p
Extends-branch false m n p q = q

pub >>=-cases :
    {A B : Type 0} (r : Result (A × Decoder)) (f : A → M B) {w : B} {d' : Decoder}
    → elim r [ err e ↦ err e | ok (a, d) ↦ f a d ] ≡ ok (w, d')
    → (a : A) × (d : Decoder) × (r ≡ ok (a, d)) × (f a d ≡ ok (w, d'))
>>=-cases (ok (a, d)) f h = (a, d, refl, h)
>>=-cases (err e) f h = cc

pub Extends-bind :
    {A B : Type 0} (m : M A) (f : A → M B)
    → Extends m
    → ((a : A) → Extends (f a))
    → Extends (m >>= f)
unfolding ◌>>=◌
Extends-bind m f p q d more w d'' h =
    let (a, d', first, later) = >>=-cases (m d) f h in
    let (same, first') = p d more a d' first in
    let (same', later') = q a d' more w d'' later in (same' ∙ same, rw (first', ◌>>=◌) later')

pub Extends-then :
    {B : Type 0} (m : M (Unit {0})) (k : M B) → Extends m → Extends k → Extends (m >> k)
unfolding ◌>>◌
Extends-then m k p q d more w d'' h =
    let (a, d', first, later) = >>=-cases (m d) (λ _. k) h in
    let (same, first') = p d more a d' first in
    let (same', later') = q d' more w d'' later in (same' ∙ same, rw (first', ◌>>◌) later')

pub Extends-read_bytes : (e : Error) (n : ℕ) → Extends (read_bytes_or e n)
unfolding read_bytes_or
Extends-read_bytes e n d more v d' h =
    let (fits, r) = Prelude.if-eq-ok (leb (d.offset + n) (length d.bytes)) _ _ h in
    let within = leb→le _ _ fits in
    let longer : leb (d.offset + n) (length (d.bytes ++ more)) ≡ true =
      le→leb _ _ (omega (arith, length-append d.bytes more)) in
    let part : take n (drop d.offset (d.bytes ++ more)) ≡ take n (drop d.offset d.bytes) =
      rw (drop-append_of_le d.offset d.bytes more (omega arith)) (
        take-append_of_le n (drop d.offset d.bytes) more
          (omega (arith, length-drop d.offset d.bytes))) in
    rw (longer, part) (ground arith)

pub Extends-read_u8 : Extends read_u8
unfolding read_u8
Extends-read_u8 = Extends-bind _ _ (Extends-read_bytes _ 1) (λ a. Extends-pure _)

pub Extends-read_u16 : Extends read_u16
unfolding read_u16
Extends-read_u16 = Extends-bind _ _ (Extends-read_bytes _ 2) (λ a. Extends-pure _)

pub Extends-read_u32 : Extends read_u32
unfolding read_u32
Extends-read_u32 = Extends-bind _ _ (Extends-read_bytes _ 4) (λ a. Extends-pure _)

pub Extends-read_u64 : Extends read_u64
unfolding read_u64
Extends-read_u64 = Extends-bind _ _ (Extends-read_bytes _ 8) (λ a. Extends-pure _)

pub Extends-read_length_delimited : Extends read_length_delimited
unfolding read_length_delimited
Extends-read_length_delimited = Extends-bind _ _ Extends-read_u32 (Extends-read_bytes _)

pub Extends-read_contract_header :
    (expected : ℕ) (supported : List ℕ) → Extends (read_contract_header expected supported)
unfolding read_contract_header
Extends-read_contract_header expected supported = Extends-bind _ _ Extends-read_u8 (λ i.
    Extends-then _ _ (Extends-check _ _) (
      Extends-bind _ _ Extends-read_u8
        (λ v. Extends-then _ _ (Extends-check _ _) (Extends-pure v))))

pub Extends-read_times : {A : Type 0} (n : ℕ) (m : M A) → Extends m → Extends (read_times n m)
unfolding read_times
Extends-read_times zero m p = Extends-pure []
Extends-read_times (suc n) m p =
    Extends-bind _ _ p (λ x. Extends-bind _ _ (Extends-read_times n m p) (λ xs. Extends-pure _))
