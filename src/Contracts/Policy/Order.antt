-- ===== src/Contracts/Policy/Order.antt =====
-- Entries whose names ascend: sorting them and collecting them into an object changes nothing.
use sigbash_sdk.Prelude.{
  ◌≡◌, refl, List, [], ◌∷◌, Bool, true, false, ◌||◌, ◌⊎◌, ◌==◌, ltb, none, All, eqb, eqb_sound,
  Bool-cases, inl, inr, arith,
}
use sigbash_sdk.Text.{Text}
use sigbash_sdk.Json.{Json}
use sigbash_sdk.Contracts.Policy.Texts.{before, insert_entry, sort_entries}
use sigbash_sdk.Contracts.Policy.Decode.{find_entry, put_entry, object_of}

-- The name is below every name of the entries.
abbrev pub IsBelow : {A : Type 0} → Text → List (Text × A) → Type 0
IsBelow key entries = All (λ entry. before key entry.0 ≡ true) entries

-- Each name is below those behind it, so no name stands twice.
abbrev pub AreAscending : {A : Type 0} → List (Text × A) → Type 0
AreAscending [] = Unit
AreAscending ((key, value) ∷ entries) = IsBelow key entries × AreAscending entries

or-cases : (a b : Bool) → (a || b) ≡ true → (a ≡ true) ⊎ (b ≡ true)
or-cases true b h = inl refl
or-cases false b h = inr h

before_irrefl : (a : Text) → before a a ≡ false
unfolding before
before_irrefl [] = refl
before_irrefl (x ∷ a) =
    let below : ltb x x ≡ false = ground arith in
    let same : (x == x) ≡ true = ground arith in rw (below, same) (before_irrefl a)

pub before_asymm : (a b : Text) → before a b ≡ true → before b a ≡ false
unfolding before
before_asymm [] [] h = absurd cc
before_asymm [] (y ∷ b) h = refl
before_asymm (x ∷ a) [] h = absurd cc
before_asymm (x ∷ a) (y ∷ b) h = ground (arith, before_asymm a b)

insert_entry_of_below :
    {A : Type 0} (key : Text) (value : A) (entries : List (Text × A))
    → IsBelow key entries
    → insert_entry (key, value) entries ≡ (key, value) ∷ entries
unfolding insert_entry
insert_entry_of_below key value [] h = refl
insert_entry_of_below key value ((l, w) ∷ entries) (p, h) = rw (before_asymm key l p) refl

-- Entries in ascending order are sorted.
pub sort_entries_of_ascending :
    {A : Type 0} (entries : List (Text × A)) → AreAscending entries → sort_entries entries ≡ entries
unfolding sort_entries
sort_entries_of_ascending [] h = refl
sort_entries_of_ascending ((key, value) ∷ entries) (below, later) =
    rw (sort_entries_of_ascending entries later) (insert_entry_of_below key value entries below)

eqb_of_before : (a b : Text) → before a b ≡ true → eqb b a ≡ false
eqb_of_before a b h = elim (Bool-cases (eqb b a)) [
  | inl same ↦
      (let e = eqb_sound b a same in
        absurd (let k : before a a ≡ true = rw e at h in let l = before_irrefl a in cc))
  | inr other ↦ other
]

find_entry_of_below :
    (key : Text) (entries : List (Text × Json))
    → IsBelow key entries
    → find_entry key entries ≡ none
unfolding find_entry
find_entry_of_below key [] h = refl
find_entry_of_below key ((k, v) ∷ entries) (p, h) =
    rw (eqb_of_before key k p) (find_entry_of_below key entries h)

put_entry_of_below :
    (key : Text) (value : Json) (entries : List (Text × Json))
    → IsBelow key entries
    → put_entry key value entries ≡ (key, value) ∷ entries
unfolding put_entry
put_entry_of_below key value entries h = rw (find_entry_of_below key entries h, put_entry) refl

-- Collecting ascending entries keeps them all.
pub object_of_ascending :
    (entries : List (Text × Json)) → AreAscending entries → object_of entries ≡ entries
unfolding object_of
object_of_ascending [] h = refl
object_of_ascending ((key, value) ∷ entries) (below, later) =
    rw (object_of_ascending entries later) (put_entry_of_below key value entries below)
