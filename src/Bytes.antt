-- ===== src/Bytes.antt =====
-- src/contracts/encoding.ts: the byte primitives of the contract encodings.
-- A `Uint8Array` is the list of its bytes; a call that may throw ends in a `Result`.
pub mod Numbers
pub mod Decoder
pub mod Reads
pub mod Fields
pub mod Whole
pub mod Prefixes
pub mod Ensures
pub mod LittleEndian
pub mod Hex
use sigbash_sdk.Prelude.{
  ℕ, zero, suc, ◌/◌, ◌%◌, List, [], ◌∷◌, ◌++◌, length, leb, ◌==◌, if◌then◌else◌, Result, ok, err,
  ◌>>=◌, range_error, plain_error, bad_length, guard,
}

abbrev pub Bytes : Type 0
Bytes = List ℕ

-- What `DataView.setUint…(0, n, false)` leaves in a fresh array of `k` bytes, before `acc`.
unfoldable pub big_endian : ℕ → ℕ → Bytes → Bytes
big_endian zero n acc = acc
big_endian (suc k) n acc = big_endian k (n / 256) ((n % 256) ∷ acc)

unfoldable pub u8be : ℕ → Result Bytes
u8be value = if leb value 0xff then ok (value ∷ []) else err range_error

unfoldable pub u16be : ℕ → Result Bytes
u16be value = if leb value 0xffff then ok (big_endian 2 value []) else err range_error

unfoldable pub u32be : ℕ → Result Bytes
u32be value = if leb value 0xffffffff then ok (big_endian 4 value []) else err range_error

unfoldable pub u64be : ℕ → Result Bytes
u64be value = if leb value 0xffffffffffffffff then ok (big_endian 8 value []) else err range_error

-- `concatBytes` over arguments that may throw: they are evaluated from left to right.
unfoldable pub concat_bytes : List (Result Bytes) → Result Bytes
concat_bytes [] = ok []
concat_bytes (part ∷ parts) = do bytes ← part; rest ← concat_bytes parts; ok (bytes ++ rest)

unfoldable pub length_delimited : Bytes → Result Bytes
length_delimited payload =
    if leb (length payload) 0xffffffff
    then concat_bytes (u32be (length payload) ∷ ok payload ∷ [])
    else err range_error

unfoldable pub contract_header : ℕ → ℕ → Result Bytes
contract_header contract_id version = concat_bytes (u8be contract_id ∷ u8be version ∷ [])

pub assert_fixed_length : Bytes → ℕ → Result (Unit {0})
assert_fixed_length bytes n = guard (length bytes == n) (plain_error bad_length)
