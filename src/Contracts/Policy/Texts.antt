-- ===== src/Contracts/Policy/Texts.antt =====
-- `canonicalJson`, and the order that `sort` gives to the names of an object.
use sigbash_sdk.Prelude.{
  List, [], ◌∷◌, ◌++◌, Bool, true, false, ◌&&◌, ◌||◌, ◌==◌, ltb, if◌then◌else◌,
}
use sigbash_sdk.Text.{Text, units}
use sigbash_sdk.Json.{Json, Items, Members}
use sigbash_sdk.Contracts.Policy.{JsonRuntime}

-- `a < b` of two strings, by their code units.
unfoldable pub before : Text → Text → Bool
before a [] = false
before [] (y ∷ b) = true
before (x ∷ a) (y ∷ b) = ltb x y || (x == y && before a b)

-- An entry put in front of the first that is not below it.
unfoldable pub insert_entry : {A : Type 0} → Text × A → List (Text × A) → List (Text × A)
insert_entry entry [] = entry ∷ []
insert_entry (k, v) ((l, w) ∷ entries) =
    if before l k then (l, w) ∷ insert_entry (k, v) entries else (k, v) ∷ (l, w) ∷ entries

-- The entries in the order of `Object.keys(value).sort()`.
unfoldable pub sort_entries : {A : Type 0} → List (Text × A) → List (Text × A)
sort_entries [] = []
sort_entries (entry ∷ entries) = insert_entry entry (sort_entries entries)

-- `parts.join(',')`
unfoldable pub join_parts : List Text → Text
join_parts [] = []
join_parts (part ∷ []) = part
join_parts (part ∷ next ∷ parts) = part ++ units "," ++ join_parts (next ∷ parts)

-- The members' texts, behind their names.
unfoldable pub member_texts : (Text → Text) → List (Text × Text) → List Text
member_texts stringify [] = []
member_texts stringify ((key, text) ∷ entries) =
    (stringify key ++ units ":" ++ text) ∷ member_texts stringify entries

module _ (runtime : JsonRuntime) where
  unfoldable mutual
    pub canonical_json : Json → Text
    canonical_json Json.null = units "null"
    canonical_json (Json.boolean true) = units "true"
    canonical_json (Json.boolean false) = units "false"
    canonical_json (Json.number n) = runtime.stringify_number n
    canonical_json (Json.string t) = runtime.stringify_string t
    canonical_json (Json.array xs) = units "[" ++ join_parts (canonical_items xs) ++ units "]"
    canonical_json (Json.object ms) =
        units "{"
        ++ join_parts (member_texts runtime.stringify_string (sort_entries (canonical_members ms)))
        ++ units "}"

    pub canonical_items : Items → List Text
    canonical_items Items.nil = []
    canonical_items (Items.cons x xs) = canonical_json x ∷ canonical_items xs

    pub canonical_members : Members → List (Text × Text)
    canonical_members Members.end = []
    canonical_members (Members.member key value ms) =
        (key, canonical_json value) ∷ canonical_members ms
