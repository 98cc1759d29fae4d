-- ===== src/Text.antt =====
-- JavaScript strings, and what `TextEncoder` and `TextDecoder` make of them (the Encoding Standard's
-- UTF-8, with replacement and with the byte order mark taken off), which src/contracts uses for
-- every text field. A string is the list of its UTF-16 code units.
pub mod Scalars
pub mod RoundTrip
use sigbash_sdk.Prelude.{
  ℕ, zero, suc, ◌+◌, ◌-◌, ◌*◌, ◌/◌, ◌%◌, List, [], ◌∷◌, ◌++◌, Bool, true, false, ◌&&◌, not, leb,
  ltb, ◌==◌, if◌then◌else◌,
}
use Prim.Native.Char.{code}
use Prim.Native.String
use Prim.Native.String.{String}

abbrev pub Text : Type 0
Text = List ℕ

-- An ASCII literal as a string value.
abbrev pub units : String → Text
units String.[] = []
units (String.◌∷◌ c s) = code c ∷ units s

abbrev pub between : ℕ → ℕ → ℕ → Bool
between lo hi x = leb lo x && leb x hi

abbrev pub is_high : ℕ → Bool
is_high u = between 0xd800 0xdbff u

abbrev pub is_low : ℕ → Bool
is_low u = between 0xdc00 0xdfff u

-- A high surrogate with its low one behind it.
unfoldable pub is_pair : ℕ → ℕ → Bool
is_pair u v = is_high u && is_low v

-- A surrogate that stands alone is replaced.
abbrev pub lone : ℕ → ℕ
lone u = if between 0xd800 0xdfff u then 0xfffd else u

abbrev pub joined : ℕ → ℕ → ℕ
joined high low = 0x10000 + (high - 0xd800) * 0x400 + (low - 0xdc00)

unfoldable pub scalar_bytes : ℕ → List ℕ
scalar_bytes c =
    if ltb c 0x80
    then c ∷ []
    else if ltb c 0x800
    then (0xc0 + c / 64) ∷ (0x80 + c % 64) ∷ []
    else if ltb c 0x10000
    then (0xe0 + c / 4096) ∷ (0x80 + c / 64 % 64) ∷ (0x80 + c % 64) ∷ []
    else (0xf0 + c / 262144) ∷ (0x80 + c / 4096 % 64) ∷ (0x80 + c / 64 % 64) ∷ (0x80 + c % 64) ∷ []

-- `new TextEncoder().encode(text)`
unfoldable pub utf8 : Text → List ℕ
utf8 [] = []
utf8 (u ∷ []) = scalar_bytes (lone u)
utf8 (u ∷ v ∷ us) = elim (is_pair u v) [
  | true ↦ scalar_bytes (joined u v) ++ utf8 us
  | false ↦ scalar_bytes (lone u) ++ utf8 (v ∷ us)
]

-- The state of the decoder between two bytes; `needed` is 0 between two characters.
pub record State : Type 0 where
  pub needed : ℕ
  pub point : ℕ
  pub lower : ℕ
  pub upper : ℕ

abbrev pub idle : State
idle = record { needed = 0; point = 0; lower = 0x80; upper = 0xbf }

abbrev pub waiting : ℕ → ℕ → ℕ → ℕ → State
waiting needed point lower upper = record {
  needed = needed;
  point = point;
  lower = lower;
  upper = upper;
}

-- What a byte gives between two characters: the scalars put out, and the next state.
unfoldable pub lead : ℕ → List ℕ × State
lead b =
    if leb b 0x7f
    then (b ∷ [], idle)
    else if between 0xc2 0xdf b
    then ([], waiting 1 (b - 0xc0) 0x80 0xbf)
    else if between 0xe0 0xef b
    then (
      [],
      waiting 2 (b - 0xe0) (if b == 0xe0 then 0xa0 else 0x80) (if b == 0xed then 0x9f else 0xbf),
    )
    else if between 0xf0 0xf4 b
    then (
      [],
      waiting 3 (b - 0xf0) (if b == 0xf0 then 0x90 else 0x80) (if b == 0xf4 then 0x8f else 0xbf),
    )
    else (0xfffd ∷ [], idle)

unfoldable pub step : State → ℕ → List ℕ × State
unfolding lead
step s b =
    if s.needed == 0
    then lead b
    else if between s.lower s.upper b
    then if s.needed == 1
      then ((s.point * 64 + (b - 0x80)) ∷ [], idle)
      else ([], waiting (s.needed - 1) (s.point * 64 + (b - 0x80)) 0x80 0xbf)
    else (0xfffd ∷ (lead b).0, (lead b).1)

-- The code units of the scalars that were put out.
unfoldable pub scalar_units : List ℕ → Text
scalar_units [] = []
scalar_units (c ∷ cs) =
    (if ltb c 0x10000
      then c ∷ []
      else (0xd800 + (c - 0x10000) / 0x400) ∷ (0xdc00 + (c - 0x10000) % 0x400) ∷ [])
    ++ scalar_units cs

unfoldable pub decode_from : State → List ℕ → Text
unfolding step scalar_units
decode_from s [] = if s.needed == 0 then [] else 0xfffd ∷ []
decode_from s (b ∷ bs) = scalar_units ((step s b).0) ++ decode_from ((step s b).1) bs

unfoldable pub strip_mark : List ℕ → List ℕ
strip_mark (a ∷ b ∷ c ∷ bs) = if a == 0xef && (b == 0xbb && c == 0xbf) then bs else a ∷ b ∷ c ∷ bs
strip_mark bs = bs

-- `new TextDecoder().decode(bytes)`
unfoldable pub decode_text : List ℕ → Text
unfolding decode_from strip_mark
decode_text bytes = decode_from idle (strip_mark bytes)

unfoldable pub is_single : ℕ → Bool
is_single u = ltb u 0x10000 && not (between 0xd800 0xdfff u)

-- No surrogate stands alone.
unfoldable pub well_formed : Text → Bool
well_formed [] = true
well_formed (u ∷ []) = is_single u
well_formed (u ∷ v ∷ us) = elim (is_pair u v) [
  | true ↦ well_formed us
  | false ↦ is_single u && well_formed (v ∷ us)
]

unfoldable pub starts_with_mark : Text → Bool
starts_with_mark [] = false
starts_with_mark (u ∷ us) = u == 0xfeff

-- A string that survives the trip through its bytes.
abbrev pub is_faithful : Text → Bool
is_faithful t = well_formed t && not (starts_with_mark t)
