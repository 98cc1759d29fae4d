-- ===== src/Authorization/Psbt/Fuel.antt =====
-- `readSection` on the sections that BIP-174 writes, and the fuel of its loop.
use sigbash_sdk.Prelude.{
  ℕ, zero, suc, ◌≤◌, ◌<◌, refl, ap, List, [], ◌∷◌, ◌++◌, length, length-append, length-drop, arith,
  psbt_error, All,
}
use sigbash_sdk.Bytes.{Bytes}
use sigbash_sdk.Bytes.Reads.{
  Reads, Reads-pure, Reads-bind, Reads-then-branch, Reads-else-branch, Reads-read_bytes,
}
use sigbash_sdk.Contracts.AuthorizationSubject.{compact_size}
use sigbash_sdk.Authorization.Psbt.{SectionEntry}
use sigbash_sdk.Authorization.Psbt.Reader.{max_safe_integer}
use sigbash_sdk.Authorization.Psbt.Sections.{section_loop, read_section}
use sigbash_sdk.Authorization.Psbt.Transactions.{Reads-compact_size, Reads-var_bytes, Reads-then}

-- A section as BIP-174 writes it.
unfoldable pub serialize_section : List SectionEntry → Bytes
serialize_section [] = compact_size 0
serialize_section (e ∷ es) =
    compact_size (length e.key)
    ++ (e.key ++ ((compact_size (length e.value) ++ e.value) ++ serialize_section es))

pub record IsEntry (e : SectionEntry) : Type 0 where
  pub has_key : 1 ≤ length e.key
  pub key : length e.key ≤ max_safe_integer
  pub value : length e.value ≤ max_safe_integer

Reads-loop :
    (fuel : ℕ) (es : List SectionEntry)
    → All IsEntry es
    → length es < fuel
    → Reads (section_loop fuel) (serialize_section es) es
unfolding section_loop serialize_section
Reads-loop zero es h f = absurd (omega arith)
Reads-loop (suc fuel) [] h f =
    Reads-then _ _ 0 [] _ (Reads-compact_size 0 (omega arith))
      (Reads-then-branch _ _ _ [] _ refl (Reads-pure []))
Reads-loop (suc fuel) (e ∷ es) (w, ws) f =
    Reads-bind _ _ (length e.key) (e ∷ es) _ _ (Reads-compact_size (length e.key) w.key) (
      Reads-else-branch _ _ _ _ _ (ground arith) (
        Reads-bind _ _ e.key (e ∷ es) _ _ (Reads-read_bytes psbt_error (length e.key) e.key refl) (
          Reads-bind _ _ e.value (e ∷ es) _ _ (Reads-var_bytes e.value w.value)
            (Reads-then _ _ es (e ∷ es) _ (Reads-loop fuel es ws (omega arith)) (Reads-pure _)))))

-- Every entry takes a byte at least.
pub length-serialize_section :
    (es : List SectionEntry) → All IsEntry es → length es ≤ length (serialize_section es)
unfolding serialize_section
length-serialize_section [] h = omega arith
length-serialize_section (e ∷ es) (w, ws) =
    let n =
      length-append (compact_size (length e.key))
        (e.key ++ ((compact_size (length e.value) ++ e.value) ++ serialize_section es)) in
    let m =
      length-append e.key ((compact_size (length e.value) ++ e.value) ++ serialize_section es) in
    let l = length-append (compact_size (length e.value) ++ e.value) (serialize_section es) in
    omega (arith, length-serialize_section es ws, n, m, l, w.has_key)

-- Where a serialised section stands next, with a key in every entry and no length above a safe
-- integer, the section's reader returns its entries and moves past it, whatever follows.
pub Reads-section :
    (es : List SectionEntry) → All IsEntry es → Reads read_section (serialize_section es) es
unfolding read_section
Reads-section es h d rest k e =
    Reads-loop (suc (length d.bytes)) es h
      (omega (
        arith,
        length-serialize_section es h,
        ap length e,
        length-append (serialize_section es) rest,
        length-drop d.offset d.bytes,
      ))
      d rest k e
