-- ===== src/Bytes/Reads.antt =====
-- What a reader does where the bytes that it expects stand next, and what it does with the bytes
-- that an encoder wrote. Each rule follows the shape of the decoders, so that the round trip of a
-- contract is read off its fields.
use sigbash_sdk.Prelude.{
  ℕ, zero, suc, ◌+◌, ◌-◌, ◌≤◌, ◌<◌, ◌^◌, ◌≡◌, refl, sym, ◌∙◌, ap, List, [], ◌∷◌, ◌++◌, map, length,
  take, drop, length-append, take-append, drop-append, drop-add, length-drop, leb, le→leb, leb→le,
  ◌==◌, ==_iff, Bool, true, false, Result, ok, err, Error, arith, inl, inr, Bool-cases, plain_error,
  trailing,
}
use sigbash_sdk.Bytes.{concat_bytes}
use sigbash_sdk.Bytes.Decoder.{
  Decoder, M, ◌>>=◌, ◌>>◌, pure, check, branch, lift, advance, read_bytes_or, read_times,
}
use sigbash_sdk.Prelude.{All}
use sigbash_sdk.Prelude
use mathlib.Core.List.{append_assoc, append-nil}

-- Where `bs` stands next, the reader returns `v` and moves past `bs`, whatever follows.
abbrev pub Reads : {A : Type 0} → M A → List ℕ → A → Type 0
Reads m bs v =
    (d : Decoder) (rest : List ℕ)
    → d.offset ≤ length d.bytes
    → drop d.offset d.bytes ≡ bs ++ rest
    → m d ≡ ok (v, advance (length bs) d)

-- What is left behind the bytes that were read.
drop-advance :
    (d : Decoder) (bs rest : List ℕ)
    → drop d.offset d.bytes ≡ bs ++ rest
    → drop (d.offset + length bs) d.bytes ≡ rest
drop-advance d bs rest h = drop-add d.offset (length bs) d.bytes ∙ rw h (drop-append bs rest)

within-advance :
    (d : Decoder) (bs rest : List ℕ)
    → d.offset ≤ length d.bytes
    → drop d.offset d.bytes ≡ bs ++ rest
    → d.offset + length bs ≤ length d.bytes
within-advance d bs rest k h =
    omega (arith, ap length h, length-drop d.offset d.bytes, length-append bs rest)

pub Reads-pure : {A : Type 0} (v : A) → Reads (pure v) [] v
unfolding pure
Reads-pure v d rest k h = let e : d.offset + 0 ≡ d.offset = omega arith in rw e

pub Reads-bind :
    {A B : Type 0} (m : M A) (f : A → M B) (v : A) (w : B) (bs cs : List ℕ)
    → Reads m bs v
    → Reads (f v) cs w
    → Reads (m >>= f) (bs ++ cs) w
unfolding ◌>>=◌
Reads-bind m f v w bs cs p q d rest k h =
    let h' : drop d.offset d.bytes ≡ bs ++ (cs ++ rest) = h ∙ append_assoc bs cs rest in
    let first = p d (cs ++ rest) k h' in
    let second =
      q (advance (length bs) d) rest (within-advance d bs (cs ++ rest) k h')
        (drop-advance d bs (cs ++ rest) h') in
    let e : d.offset + length bs + length cs ≡ d.offset + length (bs ++ cs) =
      omega (arith, length-append bs cs) in
    rw (first, ◌>>=◌) (rw (← e) second)

pub Reads-check :
    {B : Type 0} (t : Bool) (e : Error) (k : M B) (bs : List ℕ) (w : B)
    → t ≡ true
    → Reads k bs w
    → Reads (check t e >> k) bs w
unfolding ◌>>◌ check
Reads-check t e k bs w p q d rest b h = rw (p, ◌>>◌, check) (q d rest b h)

pub Reads-then-branch :
    {A : Type 0} (t : Bool) (m n : M A) (bs : List ℕ) (v : A)
    → t ≡ true
    → Reads m bs v
    → Reads (branch t m n) bs v
unfolding branch
Reads-then-branch t m n bs v h p d rest k e = rw (h, branch) (p d rest k e)

pub Reads-else-branch :
    {A : Type 0} (t : Bool) (m n : M A) (bs : List ℕ) (v : A)
    → t ≡ false
    → Reads n bs v
    → Reads (branch t m n) bs v
unfolding branch
Reads-else-branch t m n bs v h p d rest k e = rw (h, branch) (p d rest k e)

pub Reads-lift : {A : Type 0} {r : Result A} {v : A} → r ≡ ok v → Reads (lift r) [] v
unfolding lift
Reads-lift {v} p d rest k h = let e : d.offset + 0 ≡ d.offset = omega arith in rw (p, e)

pub Reads-read_bytes :
    (e : Error) (n : ℕ) (bs : List ℕ) → length bs ≡ n → Reads (read_bytes_or e n) bs bs
unfolding read_bytes_or
Reads-read_bytes e n bs p d rest k h =
    let fits : leb (d.offset + n) (length d.bytes) ≡ true =
      le→leb _ _ (rw (← p) (within-advance d bs rest k h)) in
    rw (fits, h, ← p, take-append bs rest)

-- The `bs` that `p` produces, if it does, is read back by `m` as `v`.
abbrev pub Decodes : {A : Type 0} → Result (List ℕ) → M A → A → Type 0
Decodes p m v = (bs : List ℕ) → p ≡ ok bs → Reads m bs v

pub concat_bytes-eq-ok :
    (p : Result (List ℕ)) (ps : List (Result (List ℕ))) (bs : List ℕ)
    → concat_bytes (p ∷ ps) ≡ ok bs
    → (b : List ℕ) × (c : List ℕ) × (p ≡ ok b) × (concat_bytes ps ≡ ok c) × (b ++ c ≡ bs)
unfolding concat_bytes
concat_bytes-eq-ok p ps bs h =
    let (b, first, h') = Prelude.>>=-eq-ok p _ h in
    let (c, later, e) = Prelude.>>=-eq-ok (concat_bytes ps) _ h' in
    (b, c, first, later, Prelude.ok-injective _ _ e)

module _ {A : Type 0} where
  pub Decodes-end : (v : A) → Decodes (concat_bytes []) (pure v) v
  unfolding concat_bytes
  Decodes-end v bs h = rw (← Prelude.ok-injective _ _ h) (Reads-pure v)

  pub Decodes-next :
      {B : Type 0} (p : Result (List ℕ)) (ps : List (Result (List ℕ))) (m : M B) (f : B → M A)
      (v : B) (w : A)
      → Decodes p m v
      → Decodes (concat_bytes ps) (f v) w
      → Decodes (concat_bytes (p ∷ ps)) (m >>= f) w
  Decodes-next p ps m f v w first later bs h =
      let (b, c, hb, hc, e) = concat_bytes-eq-ok p ps bs h in
      rw (← e) (Reads-bind m f v w b c (first b hb) (later c hc))

  pub Decodes-check :
      (p : Result (List ℕ)) (t : Bool) (e : Error) (m : M A) (v : A)
      → t ≡ true
      → Decodes p m v
      → Decodes p (check t e >> m) v
  Decodes-check p t e m v ht rest bs h = Reads-check t e m bs v ht (rest bs h)

  pub Decodes-then-branch :
      (p : Result (List ℕ)) (t : Bool) (m n : M A) (v : A)
      → t ≡ true
      → Decodes p m v
      → Decodes p (branch t m n) v
  Decodes-then-branch p t m n v h q bs e = Reads-then-branch t m n bs v h (q bs e)

  pub Decodes-else-branch :
      (p : Result (List ℕ)) (t : Bool) (m n : M A) (v : A)
      → t ≡ false
      → Decodes p n v
      → Decodes p (branch t m n) v
  Decodes-else-branch p t m n v h q bs e = Reads-else-branch t m n bs v h (q bs e)

  -- A check of the encoder holds when its bytes are read.
  pub Decodes-guard :
      (t : Bool) (e : Error) (p : Result (List ℕ)) (m : M A) (v : A)
      → (t ≡ true → Decodes p m v)
      → Decodes (Prelude.◌>>◌ (Prelude.guard t e) p) m v
  Decodes-guard t e p m v next bs h = let (ht, hp) = Prelude.guard-eq-ok t e p h in next ht bs hp

  -- The last part, with nothing after it.
  pub Decodes-last :
      (p : Result (List ℕ)) (m : M A) (v : A) → Decodes p m v → Decodes (concat_bytes (p ∷ [])) m v
  unfolding concat_bytes
  Decodes-last p m v last bs h =
      let (b, c, hb, hc, e) = concat_bytes-eq-ok p [] bs h in
      rw (← e, ← Prelude.ok-injective _ _ hc, append-nil b) (last b hb)

pub concat_bytes-append-eq-ok :
    (ps qs : List (Result (List ℕ))) (bs : List ℕ)
    → concat_bytes (ps ++ qs) ≡ ok bs
    → (b : List ℕ) × (c : List ℕ) × (concat_bytes ps ≡ ok b)
      × (concat_bytes qs ≡ ok c)
      × (b ++ c ≡ bs)
unfolding concat_bytes
concat_bytes-append-eq-ok [] qs bs h = ([], bs, refl, h, refl)
concat_bytes-append-eq-ok (p ∷ ps) qs bs h =
    let (b, c, hb, hc, e) = concat_bytes-eq-ok p (ps ++ qs) bs h in
    let (b', c', hb', hc', e') = concat_bytes-append-eq-ok ps qs c hc in
    (b ++ b', c', ground (arith, hb, hb'), hc', append_assoc b b' c' ∙ ap (λ r. b ++ r) e' ∙ e)

module _ {A B : Type 0} where
  -- Parts that were spliced in (`...parts`), before the others.
  pub Decodes-splice :
      (ps qs : List (Result (List ℕ))) (m : M B) (f : B → M A) (v : B) (w : A)
      → Decodes (concat_bytes ps) m v
      → Decodes (concat_bytes qs) (f v) w
      → Decodes (concat_bytes (ps ++ qs)) (m >>= f) w
  Decodes-splice ps qs m f v w first later bs h =
      let (b, c, hb, hc, e) = concat_bytes-append-eq-ok ps qs bs h in
      rw (← e) (Reads-bind m f v w b c (first b hb) (later c hc))

  -- A call that reads nothing, between the fields.
  pub Decodes-lift :
      (p : Result (List ℕ)) (r : Result B) (f : B → M A) (v : B) (w : A)
      → r ≡ ok v
      → Decodes p (f v) w
      → Decodes p (lift r >>= f) w
  Decodes-lift p r f v w e next bs h = Reads-bind (lift r) f v w [] bs (Reads-lift e) (next bs h)

  -- What a reader computes from the value that it has read.
  pub Decodes-then :
      (p : Result (List ℕ)) (m : M B) (f : B → M A) (v : B) (w : A)
      → Reads (f v) [] w
      → Decodes p m v
      → Decodes p (m >>= f) w
  Decodes-then p m f v w last first bs h =
      rw (append-nil bs) at (Reads-bind m f v w bs [] (first bs h) last)

-- A counted loop reads back the elements that a loop wrote.
pub Decodes-times :
    {X : Type 0} (enc : X → Result (List ℕ)) (m : M X) (xs : List X)
    → All (λ x. Decodes (enc x) m x) xs
    → Decodes (concat_bytes (map enc xs)) (read_times (length xs) m) xs
unfolding read_times
Decodes-times enc m [] h = Decodes-end []
Decodes-times enc m (x ∷ xs) (h, hs) =
    Decodes-next (enc x) (map enc xs) m _ x (x ∷ xs) h
      (Decodes-then _ _ _ xs (x ∷ xs) (Reads-pure _) (Decodes-times enc m xs hs))
