-- ===== src/Bytes/Decoder.antt =====
-- src/contracts/encoding.ts: the decoder, a position in a byte array. A reader is a function of
-- the decoder that ends with a value and the moved decoder, or with the error thrown.
use sigbash_sdk.Prelude.{
  ℕ, zero, suc, ◌+◌, ◌*◌, List, [], ◌∷◌, length, take, drop, leb, ◌==◌, if◌then◌else◌, Bool, true,
  false, ◌||◌, Result, ok, err, Error, plain_error, version_error, truncated, trailing,
}

-- `data` of the source is `bytes` here.
pub record Decoder : Type 0 where
  pub bytes : List ℕ
  pub offset : ℕ

abbrev pub M : Type 0 → Type 0
M A = Decoder → Result (A × Decoder)

infixl 5 ◌>>=◌ ◌>>◌
unfoldable pub ◌>>=◌ : {A B : Type 0} → M A → (A → M B) → M B
◌>>=◌ m f d = elim (m d) [ err e ↦ err e | ok (a, d') ↦ f a d' ]

unfoldable pub pure : {A : Type 0} → A → M A
pure a d = ok (a, d)

unfoldable pub throw : {A : Type 0} → Error → M A
throw e d = err e

unfoldable pub ◌>>◌ : {B : Type 0} → M (Unit {0}) → M B → M B
◌>>◌ m k d = elim (m d) [ err e ↦ err e | ok (a, d') ↦ k d' ]

unfoldable pub check : Bool → Error → M (Unit {0})
check true e d = ok (tt, d)
check false e d = err e

-- `if (t) m else n`, where either side may read.
unfoldable pub branch : {A : Type 0} → Bool → M A → M A → M A
branch true m n d = m d
branch false m n d = n d

-- A call that reads nothing and may throw.
unfoldable pub lift : {A : Type 0} → Result A → M A
lift (ok a) d = ok (a, d)
lift (err e) d = err e

-- Moves the offset by `n`.
abbrev pub advance : ℕ → Decoder → Decoder
advance n d = record d { offset = d.offset + n }

-- `readBytes` of the modules differ in the error that they throw at the end of the array.
unfoldable pub read_bytes_or : Error → ℕ → M (List ℕ)
read_bytes_or e n d =
    if leb (d.offset + n) (length d.bytes)
    then ok (take n (drop d.offset d.bytes), advance n d)
    else err e

abbrev pub read_bytes : ℕ → M (List ℕ)
read_bytes = read_bytes_or (plain_error truncated)

-- What `DataView.getUint…(0, false)` reads, after `acc`.
unfoldable pub from_big_endian : ℕ → List ℕ → ℕ
from_big_endian acc [] = acc
from_big_endian acc (b ∷ bs) = from_big_endian (acc * 256 + b) bs

unfoldable pub read_u8 : M ℕ
read_u8 = do bytes ← read_bytes 1; pure (from_big_endian 0 bytes)

unfoldable pub read_u16 : M ℕ
read_u16 = do bytes ← read_bytes 2; pure (from_big_endian 0 bytes)

unfoldable pub read_u32 : M ℕ
read_u32 = do bytes ← read_bytes 4; pure (from_big_endian 0 bytes)

unfoldable pub read_u64 : M ℕ
read_u64 = do bytes ← read_bytes 8; pure (from_big_endian 0 bytes)

unfoldable pub read_length_delimited : M (List ℕ)
read_length_delimited = do n ← read_u32; read_bytes n

unfoldable pub expect_exhausted_or : Error → M (Unit {0})
expect_exhausted_or e d = if d.offset == length d.bytes then ok (tt, d) else err e

abbrev pub expect_exhausted : M (Unit {0})
expect_exhausted = expect_exhausted_or (plain_error trailing)

-- `supportedVersions.includes(version)`
abbrev pub includes : List ℕ → ℕ → Bool
includes [] v = false
includes (x ∷ xs) v = x == v || includes xs v

unfoldable pub read_contract_header : ℕ → List ℕ → M ℕ
read_contract_header expected supported = do
  contract_id ← read_u8
  check (contract_id == expected) version_error
  version ← read_u8
  check (includes supported version) version_error
  pure version

-- The loop `for (let i = 0; i < n; i++) out.push(read(d))`.
unfoldable pub read_times : {A : Type 0} → ℕ → M A → M (List A)
read_times zero m = pure []
read_times (suc n) m = do x ← m; xs ← read_times n m; pure (x ∷ xs)

-- The usual shape of a contract's decoder: a body on a decoder at offset 0, then the check that
-- nothing is left.
unfoldable pub whole_or : {A : Type 0} → Error → M A → List ℕ → Result A
unfolding expect_exhausted_or
whole_or e m bytes = elim (m (record { bytes = bytes; offset = 0 })) [
  | err e' ↦ err e'
  | ok (a, d) ↦ elim (expect_exhausted_or e d) [ err e' ↦ err e' | ok _ ↦ ok a ]
]

abbrev pub whole : {A : Type 0} → M A → List ℕ → Result A
whole = whole_or (plain_error trailing)
