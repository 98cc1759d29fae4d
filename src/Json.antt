-- ===== src/Json.antt =====
-- The values that `JSON.parse` gives, and the tests on them that the code makes. `JSON.parse` is
-- the runtime's, so it is a parameter wherever it is called.
use sigbash_sdk.Prelude.{
  ℕ, List, [], ◌∷◌, Bool, true, false, Option, none, some, leb, if◌then◌else◌, eqb,
}
use sigbash_sdk.Bytes.{Bytes}
use sigbash_sdk.Text.{Text}

-- A finite number of JavaScript: `negative n` is -(n + 1), -0 is `natural 0`, and any other value is told
-- by its 64 bits. Infinity, which `JSON.parse` gives for a numeral that is too large, is left out.
pub data Number : Type 0 where
  natural negative fractional : ℕ → Number

mutual
  pub data Json : Type 0 where
    null : Json
    boolean : Bool → Json
    number : Number → Json
    string : Text → Json
    array : Items → Json
    object : Members → Json

  pub data Items : Type 0 where
    nil : Items
    cons : Json → Items → Items

  -- The own properties of an object; no two have one name.
  pub data Members : Type 0 where
    end : Members
    member : Text → Json → Members → Members

unfoldable pub elements : Items → List Json
elements Items.nil = []
elements (Items.cons x xs) = x ∷ elements xs

unfoldable pub find_member : Text → Members → Option Json
find_member key Members.end = none
find_member key (Members.member name value rest) =
    if eqb name key then some value else find_member key rest

-- `value[key]` for a value that is not null; `undefined` is `none`.
unfoldable pub property : Text → Json → Option Json
property key (Json.object members) = find_member key members
property key _ = none

-- `typeof value === 'object' && value !== null`, which an array satisfies.
abbrev pub is_record : Json → Bool
is_record (Json.array xs) = true
is_record (Json.object members) = true
is_record _ = false

abbrev pub is_null : Json → Bool
is_null Json.null = true
is_null _ = false

-- `value === true`
abbrev pub is_true : Option Json → Bool
is_true (some (Json.boolean true)) = true
is_true _ = false

-- An element put before the others, where it is a byte.
unfoldable pub with_byte : ℕ → Option Bytes → Option Bytes
with_byte b none = none
with_byte b (some bs) = if leb b 0xff then some (b ∷ bs) else none

-- The integers of an array of bytes, where every element is one.
unfoldable pub byte_elements : Items → Option Bytes
byte_elements Items.nil = some []
byte_elements (Items.cons (Json.number (Number.natural b)) xs) = with_byte b (byte_elements xs)
byte_elements (Items.cons _ xs) = none
