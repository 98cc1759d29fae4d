-- ===== src/Bytes/Whole.antt =====
-- Whole arrays: what the decoder of a contract answers to the bytes that its encoder wrote, alone,
-- with bytes behind them, and cut short.
use sigbash_sdk.Prelude.{
  ℕ, ◌≡◌, ◌≢◌, refl, ap, List, [], ◌∷◌, ◌++◌, length, length-append, Result, ok, err, Error, arith,
}
use sigbash_sdk.Bytes.Decoder.{Decoder, M, advance, expect_exhausted_or, whole_or}
use sigbash_sdk.Bytes.Reads.{Reads}
use sigbash_sdk.Bytes.Prefixes.{Extends}
use mathlib.Core.List.{append-nil}

abbrev pub from_start : List ℕ → Decoder
from_start bytes = record { bytes = bytes; offset = 0 }

module _ {A : Type 0} (e : Error) (m : M A) (bs : List ℕ) (v : A) (reads : Reads m bs v) where
  at_start :
      (rest : List ℕ)
      → m (from_start (bs ++ rest)) ≡ ok (v, advance (length bs) (from_start (bs ++ rest)))
  at_start rest = reads (from_start (bs ++ rest)) rest (omega arith) refl

  -- The bytes of a value decode to it.
  pub whole_exact : whole_or e m bs ≡ ok v
  unfolding whole_or
  whole_exact = rw (append-nil bs) at (step [] (append-nil bs))
    where
      step : (rest : List ℕ) → bs ++ rest ≡ bs → whole_or e m (bs ++ rest) ≡ ok v
      step rest p = rw (at_start rest, whole_or) (ground (arith, ap length p))

  -- A byte behind them is an error.
  pub whole_trailing : (x : ℕ) (rest : List ℕ) → whole_or e m (bs ++ x ∷ rest) ≡ err e
  unfolding whole_or
  whole_trailing x rest =
      rw (at_start (x ∷ rest), whole_or) (ground (arith, length-append bs (x ∷ rest)))

-- A whole array that decodes was read to its end.
pub whole-eq-ok :
    {A : Type 0} (e : Error) (m : M A) (bytes : List ℕ) (w : A)
    → whole_or e m bytes ≡ ok w
    → (d : Decoder) × (m (from_start bytes) ≡ ok (w, d)) × (d.offset ≡ length d.bytes)
unfolding whole_or
whole-eq-ok {A} e m bytes w h = go (m (from_start bytes)) h
  where
    go :
        (r : Result (A × Decoder))
        → elim r [
          | err e' ↦ err e'
          | ok (a, d) ↦ elim (expect_exhausted_or e d) [ err e' ↦ err e' | ok _ ↦ ok a ]
        ]
          ≡ ok w
        → (d : Decoder) × (r ≡ ok (w, d)) × (d.offset ≡ length d.bytes)
    go (err e') p = cc
    go (ok (a, d)) p = (d, ground arith, ground arith)

-- Two results that are one have the same offset.
same_offset :
    {A : Type 0} (r : Result (A × Decoder)) (w v : A) (d d' : Decoder)
    → r ≡ ok (w, d)
    → r ≡ ok (v, d')
    → d.offset ≡ d'.offset
same_offset r w v d d' p q = ground arith

module _ {A : Type 0} (e : Error) (m : M A) (bs : List ℕ) (v : A) (reads : Reads m bs v)
    (stable : Extends m) where
  -- No proper prefix of the bytes decodes to anything.
  pub whole_truncated :
      (front back : List ℕ) (x : ℕ) (w : A) → bs ≡ front ++ x ∷ back → whole_or e m front ≢ ok w
  whole_truncated front back x w cut h =
      let (d, hd, ends) = whole-eq-ok e m front w h in
      let (same, longer) = stable (from_start front) (x ∷ back) w d hd in
      let full = rw (append-nil bs) at (at_start e m bs v reads []) in
      omega (
        arith,
        ap length cut,
        ap length same,
        length-append front (x ∷ back),
        same_offset _ w v _ _ (rw (← cut) at longer) full,
      )
