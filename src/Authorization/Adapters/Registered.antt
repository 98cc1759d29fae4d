-- ===== src/Authorization/Adapters/Registered.antt =====
-- The registries that registrations reach.
use sigbash_sdk.Prelude.{
  ◌≡◌, ◌≢◌, ◌⊎◌, refl, sym, [], ◌∷◌, ◌++◌, true, Bool-cases, Option-cases, inl, inr, Option, none,
  some, ok-injective, All, err, plain_error, bad_value, eqb_sound, All-mono, All-append, eqb_refl,
  ok, guard-eq-ok, eqb, if◌then◌else◌,
}
use sigbash_sdk.Calls.{◌>>◌}
use sigbash_sdk.Text.{Text}
use sigbash_sdk.Authorization.Adapters.{Adapter, Registry, get_adapter, register_adapter, is_none}

is_none-eq-true : (o : Option Adapter) → is_none o ≡ true → o ≡ none
is_none-eq-true none h = refl
is_none-eq-true (some a) h = absurd cc

-- The entry that a registration puts behind the others.
get_adapter-append :
    (registry : Registry) (a : Adapter) (kind : Text)
    → get_adapter registry kind ≡ none
    → get_adapter (registry ++ (a ∷ [])) kind ≡ (if eqb (a.subject_kind) kind then some a else none)
unfolding get_adapter
get_adapter-append [] a kind h = refl
get_adapter-append (b ∷ registry) a kind h = elim (Bool-cases (eqb (b.subject_kind) kind)) [
  | inl same ↦ absurd (let e : some b ≡ none = rw same at h in cc)
  | inr other ↦
      (let e : get_adapter registry kind ≡ none = rw other at h in
        rw other (get_adapter-append registry a kind e))
]

get_adapter-append_of_some :
    (registry : Registry) (a b : Adapter) (kind : Text)
    → get_adapter registry kind ≡ some b
    → get_adapter (registry ++ (a ∷ [])) kind ≡ some b
unfolding get_adapter
get_adapter-append_of_some [] a b kind h = absurd cc
get_adapter-append_of_some (c ∷ registry) a b kind h =
    elim (Bool-cases (eqb (c.subject_kind) kind)) [
      | inl same ↦ (let e : some c ≡ some b = rw same at h in rw same e)
      | inr other ↦
          (let e : get_adapter registry kind ≡ some b = rw other at h in
            rw other (get_adapter-append_of_some registry a b kind e))
    ]

-- A registration that succeeds found no adapter of the kind, and puts the new one last.
register_adapter-eq-ok :
    (a : Adapter) (registry after : Registry)
    → register_adapter a registry ≡ ok after
    → (get_adapter registry (a.subject_kind) ≡ none) × (registry ++ (a ∷ []) ≡ after)
unfolding register_adapter ◌>>◌
register_adapter-eq-ok a registry after h =
    let (free, e) = guard-eq-ok (is_none (get_adapter registry (a.subject_kind))) _ _ h in
    (is_none-eq-true _ free, ok-injective _ _ e)

-- The registries that registrations reach from the empty one.
pub data Reaches : Registry → Type 0 where
  start : Reaches []
  register :
      (a : Adapter) (registry after : Registry)
      → Reaches registry
      → register_adapter a registry ≡ ok after
      → Reaches after

-- The adapter is the one that a lookup of its kind gives.
abbrev pub IsFound : Registry → Adapter → Type 0
IsFound registry a = get_adapter registry (a.subject_kind) ≡ some a

new-IsFound :
    (registry : Registry) (a : Adapter)
    → get_adapter registry (a.subject_kind) ≡ none
    → IsFound (registry ++ (a ∷ [])) a
new-IsFound registry a free =
    rw (get_adapter-append registry a (a.subject_kind) free, eqb_refl (a.subject_kind)) refl

-- In every registry that registrations reach from the empty one, each adapter is the one that a
-- lookup of its subject kind gives.
pub reached-IsFound : (registry : Registry) → Reaches registry → All (IsFound registry) registry
reached-IsFound _ Reaches.start = tt
reached-IsFound after (Reaches.register a registry _ before h) =
    let (free, e) = register_adapter-eq-ok a registry after h in
    let kept =
      All-mono (IsFound registry) (IsFound (registry ++ (a ∷ [])))
        (λ b k. get_adapter-append_of_some registry a b (b.subject_kind) k) registry
        (reached-IsFound registry before) in
    let all_found =
      All-append (IsFound (registry ++ (a ∷ []))) registry (a ∷ []) kept
        (new-IsFound registry a free, tt) in
    rw (← e) all_found

-- The registry behind a registration, at another kind.
get_adapter-append_of_ne :
    (registry : Registry) (a : Adapter) (kind : Text)
    → kind ≢ a.subject_kind
    → get_adapter (registry ++ (a ∷ [])) kind ≡ get_adapter registry kind
unfolding get_adapter
get_adapter-append_of_ne [] a kind other = elim (Bool-cases (eqb (a.subject_kind) kind)) [
  | inl same ↦ absurd (other (sym (eqb_sound _ _ same)))
  | inr differs ↦ rw differs
]
get_adapter-append_of_ne (b ∷ registry) a kind other =
    elim (Bool-cases (eqb (b.subject_kind) kind)) [
      | inl found ↦ rw found
      | inr next ↦ rw next (get_adapter-append_of_ne registry a kind other)
    ]

-- The kind was free, and the registry that the registration leaves gives the new adapter for it and
-- for `kind` what it gave before, be it an adapter or none.
abbrev pub Registers : Adapter → Registry → Text → Type 0
Registers a registry kind =
    (get_adapter registry (a.subject_kind) ≡ none)
    × (after : Registry) × (register_adapter a registry ≡ ok after)
    × IsFound after a
    × (get_adapter after kind ≡ get_adapter registry kind)

-- The kind was taken, and the registration throws.
abbrev pub IsRefused : Adapter → Registry → Type 0
IsRefused a registry =
    (b : Adapter) × (get_adapter registry (a.subject_kind) ≡ some b)
    × (register_adapter a registry ≡ err (plain_error bad_value))

-- A registration either finds the adapter's kind free, and then succeeds with a registry that gives
-- the new adapter for that kind and for any other kind exactly what it gave before, an adapter or
-- none; or it finds an adapter of the kind, and then throws.
pub register_adapter_lem :
    (a : Adapter) (registry : Registry) (kind : Text)
    → kind ≢ a.subject_kind
    → Registers a registry kind ⊎ IsRefused a registry
unfolding register_adapter ◌>>◌
register_adapter_lem a registry kind other =
    elim (Option-cases (get_adapter registry (a.subject_kind))) [
      | inl free ↦ inl (
        free,
        registry ++ (a ∷ []),
        rw free,
        new-IsFound registry a free,
        get_adapter-append_of_ne registry a kind other,
      )
      | inr (b, taken) ↦ inr (b, taken, rw taken)
    ]
