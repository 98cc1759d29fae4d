-- ===== src/Calls.antt =====
-- Calls that may throw, in sequence, and what holds of every value that such a sequence returns.
use sigbash_sdk.Prelude.{
  ◌≡◌, refl, ap, suc, Bool, true, false, List, [], ◌∷◌, length, All, if◌then◌else◌, Error, Result,
  ok, err, guard, >>=-eq-ok, guard-eq-ok,
}
use sigbash_sdk.Prelude

infixl 5 ◌>>=◌ ◌>>◌
module _ {A : Type 0} where
  unfoldable pub ◌>>=◌ : {B : Type 0} → Result B → (B → Result A) → Result A
  ◌>>=◌ r next = Prelude.◌>>=◌ r next

  unfoldable pub ◌>>◌ : Result (Unit {0}) → Result A → Result A
  ◌>>◌ r rest = Prelude.◌>>◌ r rest

-- `xs.map(parse)`, where `parse` may throw.
unfoldable pub map_calls : {A B : Type 0} → (A → Result B) → List A → Result (List B)
map_calls parse [] = ok []
map_calls parse (x ∷ xs) = do b ← parse x; bs ← map_calls parse xs; ok (b ∷ bs)

unfoldable pub Yields : {A : Type 0} → Result A → (A → Type 0) → Type 0
Yields {A} r P = (a : A) → r ≡ ok a → P a

-- A call of which nothing is asked.
abbrev pub Anything : {A : Type 0} → A → Type 0
Anything a = Unit

module _ {A : Type 0} (P : A → Type 0) where
  pub Yields-ok : (a : A) → P a → Yields (ok a) P
  unfolding Yields
  Yields-ok a p b h = let e : a ≡ b = cc in rw (← e) p

  pub Yields-err : (e : Error) → Yields (err e) P
  unfolding Yields
  Yields-err e b h = cc

  pub Yields-mono :
      (Q : A → Type 0) (r : Result A) → Yields r Q → ((a : A) → Q a → P a) → Yields r P
  unfolding Yields
  Yields-mono Q r q p a h = p a (q a h)

  pub Yields-guard :
      (t : Bool) (e : Error) (rest : Result A)
      → (t ≡ true → Yields rest P)
      → Yields (guard t e >> rest) P
  unfolding Yields ◌>>◌
  Yields-guard t e rest p b h = let (held, later) = guard-eq-ok t e rest h in p held b later

  pub Yields-if :
      (t : Bool) (first second : Result A)
      → (t ≡ true → Yields first P)
      → (t ≡ false → Yields second P)
      → Yields (if t then first else second) P
  Yields-if true first second p q = p refl
  Yields-if false first second p q = q refl

  pub Yields-bind :
      {B : Type 0} (Q : B → Type 0) (r : Result B) (next : B → Result A)
      → Yields r Q
      → ((b : B) → Q b → Yields (next b) P)
      → Yields (r >>= next) P
  unfolding Yields ◌>>=◌
  Yields-bind Q r next q p a h =
      let (b, first, later) = >>=-eq-ok r next h in p b (q b first) a later

  -- Nothing is asked of the value before.
  pub Yields-skip :
      {B : Type 0} (r : Result B) (next : B → Result A)
      → ((b : B) → Yields (next b) P)
      → Yields (r >>= next) P
  unfolding Yields ◌>>=◌
  Yields-skip r next p a h = let (b, first, later) = >>=-eq-ok r next h in p b a later

-- Each element was parsed.
pub Yields-map_calls :
    {A B : Type 0} (P : B → Type 0) (parse : A → Result B)
    → ((x : A) → Yields (parse x) P)
    → (xs : List A) → Yields (map_calls parse xs) (λ bs. All P bs × (length bs ≡ length xs))
unfolding map_calls
Yields-map_calls P parse p [] = Yields-ok _ [] (tt, refl)
Yields-map_calls P parse p (x ∷ xs) =
    let Q : List _ → Type 0 = λ bs. All P bs × (length bs ≡ length (x ∷ xs)) in
    let R : List _ → Type 0 = λ bs. All P bs × (length bs ≡ length xs) in
    Yields-bind Q P (parse x) _ (p x) (λ b h.
      Yields-bind Q R (map_calls parse xs) _ (Yields-map_calls P parse p xs)
        (λ bs (hs, e). Yields-ok Q (b ∷ bs) ((h, hs), ap suc e)))
