-- ===== src/Text/RoundTrip.antt =====
-- `TextEncoder` and then `TextDecoder`, on a whole string.
use sigbash_sdk.Prelude.{
  ℕ, ◌≡◌, refl, ◌∙◌, ap, List, [], ◌∷◌, ◌++◌, true, arith, Bool-cases, inl, inr, ◌⊎◌,
}
use sigbash_sdk.Text.{
  Text, utf8, scalar_bytes, joined, lone, is_pair, is_single, idle, scalar_units, decode_from,
  decode_text, strip_mark, well_formed, starts_with_mark, is_faithful,
}
use mathlib.Core.Bool.{and-eq-true_iff}
use mathlib.Core.List.{append-nil}
use sigbash_sdk.Text.Scalars.{IsScalar, decode-scalar}

decode-single :
    (u : ℕ) (rest : List ℕ)
    → is_single u ≡ true
    → decode_from idle (scalar_bytes (lone u) ++ rest) ≡ u ∷ decode_from idle rest
unfolding is_single
decode-single u rest h =
    let same : lone u ≡ u = ground arith in
    let range : IsScalar u = ground arith in
    rw same (decode-scalar u rest range ∙ unfold scalar_units in ground arith)

decode-pair :
    (u v : ℕ) (rest : List ℕ)
    → is_pair u v ≡ true
    → decode_from idle (scalar_bytes (joined u v) ++ rest) ≡ u ∷ v ∷ decode_from idle rest
unfolding is_pair
decode-pair u v rest h =
    let range : IsScalar (joined u v) = ground arith in
    decode-scalar (joined u v) rest range ∙ unfold scalar_units in ground arith

nothing : decode_from idle [] ≡ []
unfolding decode_from
nothing = refl

decode-utf8 : (t : Text) → well_formed t ≡ true → decode_from idle (utf8 t) ≡ t
unfolding utf8 well_formed
decode-utf8 [] h = unfold decode_from in refl
decode-utf8 (u ∷ []) h =
    rw (append-nil (scalar_bytes (lone u))) at (decode-single u [] h ∙ ap (λ r. u ∷ r) nothing)
decode-utf8 (u ∷ v ∷ us) h = elim (Bool-cases (is_pair u v)) [
  | inl pair ↦
      rw (pair, utf8)
        (decode-pair u v (utf8 us) pair
          ∙ ap (λ r. u ∷ v ∷ r) (decode-utf8 us (rw (pair, well_formed) at h)))
  | inr single ↦
      let (here, later) = (and-eq-true_iff _ _).0 (rw (single, well_formed) at h) in
      rw (single, utf8)
        (decode-single u (utf8 (v ∷ us)) here ∙ ap (λ r. u ∷ r) (decode-utf8 (v ∷ us) later))
]

-- Only the byte order mark is taken off.
strip_mark_cases :
    (bs : List ℕ) → (strip_mark bs ≡ bs) ⊎ (starts_with_mark (decode_from idle bs) ≡ true)
unfolding strip_mark starts_with_mark decode_from
strip_mark_cases [] = inl refl
strip_mark_cases (a ∷ []) = inl refl
strip_mark_cases (a ∷ b ∷ []) = inl refl
strip_mark_cases (a ∷ b ∷ c ∷ bs) = ground arith

-- `new TextDecoder().decode(new TextEncoder().encode(t))` is `t`.
pub decode_text-utf8 : (t : Text) → is_faithful t ≡ true → decode_text (utf8 t) ≡ t
unfolding decode_text
decode_text-utf8 t h =
    let (good, plain) = (and-eq-true_iff _ _).0 h in
    let back = decode-utf8 t good in
    elim (strip_mark_cases (utf8 t)) [ inl same ↦ rw same back | inr marked ↦ ground (arith, back) ]
