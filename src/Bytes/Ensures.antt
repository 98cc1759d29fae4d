-- ===== src/Bytes/Ensures.antt =====
-- What a reader promises of every value that it returns.
use sigbash_sdk.Prelude.{
  ℕ, zero, suc, ◌+◌, ◌≤◌, ◌≡◌, refl, List, [], ◌∷◌, length, take, drop, length-take_of_le,
  length-drop, leb, leb→le, Bool, true, false, Result, ok, err, Error, arith, All,
}
use sigbash_sdk.Prelude
use sigbash_sdk.Bytes.Decoder.{
  Decoder, M, ◌>>=◌, ◌>>◌, pure, check, branch, read_bytes_or, read_times, whole_or,
}
use sigbash_sdk.Bytes.Prefixes.{>>=-cases}
use sigbash_sdk.Bytes.Whole.{whole-eq-ok}

abbrev pub Ensures : {A : Type 0} → M A → (A → Type 0) → Type 0
Ensures {A} m P = (d : Decoder) (v : A) (d' : Decoder) → m d ≡ ok (v, d') → P v

module _ {A : Type 0} (P : A → Type 0) where
  pub Ensures-pure : (a : A) → P a → Ensures (pure a) P
  unfolding pure
  Ensures-pure a p d v d' h = rw (← Prelude.pair-eq a v d d' h) p

  pub Ensures-check :
      (t : Bool) (e : Error) (m : M A) → (t ≡ true → Ensures m P) → Ensures (check t e >> m) P
  unfolding ◌>>◌ check
  Ensures-check true e m p d v d' h = p refl d v d' h
  Ensures-check false e m p d v d' h = cc

  pub Ensures-branch :
      (t : Bool) (m n : M A)
      → (t ≡ true → Ensures m P)
      → (t ≡ false → Ensures n P)
      → Ensures (branch t m n) P
  unfolding branch
  Ensures-branch true m n p q = p refl
  Ensures-branch false m n p q = q refl

  pub Ensures-bind :
      {B : Type 0} (Q : B → Type 0) (m : M B) (f : B → M A)
      → Ensures m Q
      → ((b : B) → Q b → Ensures (f b) P)
      → Ensures (m >>= f) P
  unfolding ◌>>=◌
  Ensures-bind Q m f p q d w d'' h =
      let (b, d', first, later) = >>=-cases (m d) f h in q b (p d b d' first) d' w d'' later

  -- Nothing is asked of the first value.
  pub Ensures-skip :
      {B : Type 0} (m : M B) (f : B → M A) → ((b : B) → Ensures (f b) P) → Ensures (m >>= f) P
  unfolding ◌>>=◌
  Ensures-skip m f q d w d'' h =
      let (b, d', first, later) = >>=-cases (m d) f h in q b d' w d'' later

pub Ensures-read_bytes : (e : Error) (n : ℕ) → Ensures (read_bytes_or e n) (λ bs. length bs ≡ n)
unfolding read_bytes_or
Ensures-read_bytes e n d v d' h =
    let (fits, r) = Prelude.if-eq-ok (leb (d.offset + n) (length d.bytes)) _ _ h in
    let within = leb→le _ _ fits in
    let same = Prelude.pair-eq _ v _ d' r in
    rw (← same)
      (length-take_of_le n (drop d.offset d.bytes) (omega (arith, length-drop d.offset d.bytes)))

pub Ensures-times :
    {A : Type 0} (P : A → Type 0) (n : ℕ) (m : M A)
    → Ensures m P
    → Ensures (read_times n m) (λ xs. All P xs)
unfolding read_times
Ensures-times P zero m p = Ensures-pure (All P) [] tt
Ensures-times P (suc n) m p = Ensures-bind (All P) P m _ p (λ x px.
    Ensures-bind (All P) (All P) (read_times n m) _ (Ensures-times P n m p)
      (λ xs pxs. Ensures-pure (All P) (x ∷ xs) (px, pxs)))

-- A whole array that decodes gives a value with what its reader promises.
pub Ensures-whole :
    {A : Type 0} (P : A → Type 0) (e : Error) (m : M A) (bytes : List ℕ) (v : A)
    → Ensures m P
    → whole_or e m bytes ≡ ok v
    → P v
Ensures-whole P e m bytes v p h = let (d, first, ends) = whole-eq-ok e m bytes v h in p _ v d first
