-- ===== src/Authorization/IssuerKeySet/Compare.antt =====
-- src/wasm-loader.ts: `constantTimeCompare`.
use sigbash_sdk.Prelude.{
  ◌≡◌, refl, ◌↔◌, [], ◌∷◌, length, Bool, true, false, not, ◌&&◌, ◌||◌, ◌==◌, arith, ==_iff,
  Bool-cases, inl, inr,
}
use mathlib.Core.Bool.{and-eq-true_iff}
use sigbash_sdk.Text.{Text}

-- The loop: whether `result |= a.charCodeAt(i) ^ b.charCodeAt(i)` leaves a bit set. It looks at every
-- code unit.
unfoldable pub differs : Bool → Text → Text → Bool
differs found (a ∷ as') (b ∷ bs) = differs (found || not (a == b)) as' bs
differs found _ _ = found

unfoldable pub constant_time_compare : Text → Text → Bool
constant_time_compare a b = length a == length b && not (differs false a b)

differs_of_found : (a b : Text) → differs true a b ≡ true
unfolding differs
differs_of_found [] b = refl
differs_of_found (x ∷ a) [] = refl
differs_of_found (x ∷ a) (y ∷ b) = differs_of_found a b

differs_refl : (a : Text) → differs false a a ≡ false
unfolding differs
differs_refl [] = refl
differs_refl (x ∷ a) = let e : (x == x) ≡ true = ground arith in rw e (differs_refl a)

eq_of_differs : (a b : Text) → length a ≡ length b → differs false a b ≡ false → a ≡ b
unfolding differs
eq_of_differs [] [] e h = refl
eq_of_differs [] (y ∷ b) e h = absurd (omega arith)
eq_of_differs (x ∷ a) [] e h = absurd (omega arith)
eq_of_differs (x ∷ a) (y ∷ b) e h = elim (Bool-cases (x == y)) [
  | inl same ↦
      (let k : differs false a b ≡ false = rw same at h in
        let later = eq_of_differs a b (omega arith) k in let here = (==_iff x y).0 same in cc)
  | inr other ↦
      (let k : differs true a b ≡ false = rw other at h in
        absurd (let t = differs_of_found a b in cc))
]

not-eq-true : (b : Bool) → not b ≡ true → b ≡ false
not-eq-true true h = absurd cc
not-eq-true false h = refl

-- The comparison that looks at every code unit says that two texts are the same exactly where they
-- are equal.
pub constant_time_compare_iff : (a b : Text) → (constant_time_compare a b ≡ true) ↔ (a ≡ b)
unfolding constant_time_compare
constant_time_compare_iff a b = (
  λ h.
      let (e, k) = (and-eq-true_iff _ _).0 h in
      eq_of_differs a b ((==_iff _ _).0 e) (not-eq-true _ k),
  λ e. rw e (let l : (length b == length b) ≡ true = ground arith in rw (l, differs_refl b) refl),
)
