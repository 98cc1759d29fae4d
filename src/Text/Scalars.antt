-- ===== src/Text/Scalars.antt =====
-- One character, encoded and decoded.
use sigbash_sdk.Prelude.{
  ℕ, ◌+◌, ◌-◌, ◌*◌, ◌/◌, ◌%◌, ◌≤◌, ◌<◌, ◌≡◌, List, [], ◌∷◌, ◌++◌, ◌==◌, if◌then◌else◌, ◌∙◌, arith,
  ◌⊎◌,
}
use sigbash_sdk.Text.{scalar_bytes, idle, waiting, scalar_units, decode_from}

-- A character that is no surrogate.
abbrev pub IsScalar : ℕ → Type 0
IsScalar c = (c < 0xd800) ⊎ ((0xe000 ≤ c) × (c < 0x110000))

decode_one :
    (c : ℕ) (rest : List ℕ)
    → c < 0x80
    → decode_from idle (scalar_bytes c ++ rest) ≡ c ∷ decode_from idle rest
unfolding decode_from scalar_bytes
decode_one c rest h = ground arith

decode_two :
    (c : ℕ) (rest : List ℕ)
    → 0x80 ≤ c
    → c < 0x800
    → decode_from idle (scalar_bytes c ++ rest) ≡ c ∷ decode_from idle rest
unfolding decode_from scalar_bytes
decode_two c rest g h = ground arith

decode_three :
    (c : ℕ) (rest : List ℕ)
    → 0x800 ≤ c
    → c < 0x10000
    → ((c < 0xd800) ⊎ (0xe000 ≤ c))
    → decode_from idle (scalar_bytes c ++ rest) ≡ c ∷ decode_from idle rest
unfolding decode_from scalar_bytes
decode_three c rest g h k = ground arith

-- The bytes behind a lead byte, each in the range that the state asks for.
middle :
    (n p lo hi b : ℕ) (rest : List ℕ)
    → lo ≤ b
    → b ≤ hi
    → decode_from (waiting (2 + n) p lo hi) (b ∷ rest)
      ≡ decode_from (waiting (1 + n) (p * 64 + (b - 0x80)) 0x80 0xbf) rest
unfolding decode_from
middle n p lo hi b rest g h = ground arith

last_byte :
    (p c b : ℕ) (rest : List ℕ)
    → 0x80 ≤ b
    → b ≤ 0xbf
    → p * 64 + (b - 0x80) ≡ c
    → decode_from (waiting 1 p 0x80 0xbf) (b ∷ rest)
      ≡ scalar_units (c ∷ []) ++ decode_from idle rest
unfolding decode_from
last_byte p c b rest g h e = ground arith

lead_four :
    (q : ℕ) (bs : List ℕ)
    → q ≤ 4
    → decode_from idle ((0xf0 + q) ∷ bs)
      ≡ decode_from (waiting 3 q (if q == 0 then 0x90 else 0x80) (if q == 4 then 0x8f else 0xbf)) bs
unfolding decode_from
lead_four q bs h = ground arith

scalar_bytes-four :
    (c : ℕ)
    → 0x10000 ≤ c
    → scalar_bytes c
      ≡ (0xf0 + c / 262144) ∷ (0x80 + c / 4096 % 64) ∷ (0x80 + c / 64 % 64) ∷ (0x80 + c % 64) ∷ []
unfolding scalar_bytes
scalar_bytes-four c h = ground arith

decode_four :
    (c : ℕ) (rest : List ℕ)
    → 0x10000 ≤ c
    → c < 0x110000
    → decode_from idle (scalar_bytes c ++ rest) ≡ scalar_units (c ∷ []) ++ decode_from idle rest
decode_four c rest g h =
    let q = c / 262144 in
    let x = 0x80 + c / 4096 % 64 in
    let y = 0x80 + c / 64 % 64 in
    let z = 0x80 + c % 64 in
    rw (scalar_bytes-four c g) (
      lead_four q (x ∷ y ∷ z ∷ rest) (omega arith)
      ∙ middle 1 q _ _ x (y ∷ z ∷ rest) (ground arith) (ground arith)
      ∙ middle 0 (q * 64 + (x - 0x80)) 0x80 0xbf y (z ∷ rest) (omega arith) (omega arith)
      ∙ last_byte ((q * 64 + (x - 0x80)) * 64 + (y - 0x80)) c z rest (omega arith) (omega arith)
          (omega arith))

-- Any character, with what follows it.
pub decode-scalar :
    (c : ℕ) (rest : List ℕ)
    → IsScalar c
    → decode_from idle (scalar_bytes c ++ rest) ≡ scalar_units (c ∷ []) ++ decode_from idle rest
unfolding scalar_units
decode-scalar c rest h =
    ground (arith, decode_one c rest, decode_two c rest, decode_three c rest, decode_four c rest)
