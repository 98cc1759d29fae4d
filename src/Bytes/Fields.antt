-- ===== src/Bytes/Fields.antt =====
-- The fields of the contract encodings, each read back by its reader.
use sigbash_sdk.Prelude.{
  ℕ, ◌+◌, ◌*◌, ◌%◌, ◌<◌, ◌^◌, ◌≡◌, refl, ◌∙◌, List, [], ◌∷◌, length, leb, ==_iff, true, ok, Error,
  range_error, arith, ok-injective, if-eq-ok, version_error,
}
use sigbash_sdk.Bytes.{u8be, u16be, u32be, u64be, big_endian, length_delimited, contract_header}
use sigbash_sdk.Bytes.Decoder.{
  ◌>>=◌, pure, read_bytes, read_bytes_or, from_big_endian, read_u8, read_u16, read_u32, read_u64,
  read_length_delimited, includes, read_contract_header,
}
use sigbash_sdk.Bytes.Numbers.{length-big_endian, from_big_endian-big_endian}
use sigbash_sdk.Bytes.Reads.{
  Reads, Reads-pure, Reads-bind, Reads-read_bytes, Decodes, Decodes-end, Decodes-next,
  Decodes-check, Decodes-last,
}
use mathlib.Core.List.{append-nil}

-- A number of `k` bytes, read as `k` bytes and a number.
Reads-number :
    (k n : ℕ)
    → n < 256 ^ k
    → Reads (do bytes ← read_bytes k; pure (from_big_endian 0 bytes)) (big_endian k n []) n
Reads-number k n h =
    let e : 0 * 256 ^ k + n ≡ n = omega arith in
    let value : from_big_endian 0 (big_endian k n []) ≡ n =
      from_big_endian-big_endian k 0 n [] h ∙ unfold from_big_endian in e in
    let width : length (big_endian k n []) ≡ k = omega (arith, length-big_endian k n []) in
    rw (append-nil (big_endian k n [])) at (
      Reads-bind (read_bytes k) (λ bytes. pure (from_big_endian 0 bytes)) (big_endian k n []) n
        (big_endian k n []) [] (Reads-read_bytes _ k _ width) (rw value (Reads-pure n)))

pub Decodes-u8 : (n : ℕ) → Decodes (u8be n) read_u8 n
unfolding u8be read_u8 big_endian
Decodes-u8 n bs h =
    let (fits, e) = if-eq-ok (leb n 0xff) range_error _ h in
    let e' = ok-injective _ _ e in
    let small : n < 256 = ground arith in
    let low : n % 256 ≡ n = omega arith in rw (← e') (rw low at (Reads-number 1 n small))

pub Decodes-u16 : (n : ℕ) → Decodes (u16be n) read_u16 n
unfolding u16be read_u16
Decodes-u16 n bs h =
    let (fits, e) = if-eq-ok (leb n 0xffff) range_error _ h in
    let e' = ok-injective _ _ e in rw (← e') (Reads-number 2 n (ground arith))

pub Decodes-u32 : (n : ℕ) → Decodes (u32be n) read_u32 n
unfolding u32be read_u32
Decodes-u32 n bs h =
    let (fits, e) = if-eq-ok (leb n 0xffffffff) range_error _ h in
    let e' = ok-injective _ _ e in rw (← e') (Reads-number 4 n (ground arith))

pub Decodes-u64 : (n : ℕ) → Decodes (u64be n) read_u64 n
unfolding u64be read_u64
Decodes-u64 n bs h =
    let (fits, e) = if-eq-ok (leb n 0xffffffffffffffff) range_error _ h in
    let e' = ok-injective _ _ e in rw (← e') (Reads-number 8 n (ground arith))

-- Bytes of a fixed width, written as they are.
pub Decodes-fixed_or :
    (e : Error) (n : ℕ) (bytes : List ℕ)
    → length bytes ≡ n
    → Decodes (ok bytes) (read_bytes_or e n) bytes
Decodes-fixed_or e n bytes h bs p = rw (← ok-injective _ _ p) (Reads-read_bytes e n bytes h)

pub Decodes-fixed :
    (n : ℕ) (bytes : List ℕ) → length bytes ≡ n → Decodes (ok bytes) (read_bytes n) bytes
Decodes-fixed = Decodes-fixed_or _

pub Decodes-length_delimited :
    (payload : List ℕ) → Decodes (length_delimited payload) read_length_delimited payload
unfolding length_delimited read_length_delimited
Decodes-length_delimited payload bs h =
    let (fits, e) = if-eq-ok (leb (length payload) 0xffffffff) range_error _ h in
    Decodes-next (u32be (length payload)) (ok payload ∷ []) read_u32 read_bytes (length payload)
      payload (Decodes-u32 (length payload))
      (Decodes-last (ok payload) _ payload (Decodes-fixed (length payload) payload refl)) bs e

pub Decodes-header :
    (contract_id version : ℕ) (supported : List ℕ)
    → includes supported version ≡ true
    → Decodes
        (contract_header contract_id version)
        (read_contract_header contract_id supported)
        version
unfolding contract_header read_contract_header
Decodes-header contract_id version supported h =
    Decodes-next (u8be contract_id) (u8be version ∷ []) read_u8 _ contract_id version
      (Decodes-u8 contract_id)
      (Decodes-check _ _ version_error _ version ((==_iff _ _).1 refl) (
        Decodes-next (u8be version) [] read_u8 _ version version (Decodes-u8 version)
          (Decodes-check _ _ version_error _ version h (Decodes-end version))))
