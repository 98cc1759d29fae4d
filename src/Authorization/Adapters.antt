-- ===== src/Authorization/Adapters.antt =====
-- src/authorization/adapterRegistry.ts: the registry of subject adapters, and the derivations over
-- an envelope. The module's map is a list in the order of registration.
pub mod Registered
pub mod Aggregates
pub mod Total
use sigbash_sdk.Prelude.{
  List, [], ◌∷◌, ◌++◌, map, Bool, true, false, Option, none, some, Result, ok, guard, eqb,
  if◌then◌else◌, plain_error, bad_value, not,
}
use sigbash_sdk.Calls.{◌>>◌}
use sigbash_sdk.Bytes.{Bytes}
use sigbash_sdk.Text.{Text}
use sigbash_sdk.Authorization.Envelope.{Envelope}

pub record Adapter : Type 0 where
  pub subject_kind : Text
  pub check_verifiable : Bytes → Text → Result (Unit {0})
  pub rederive_completing_e_hat : Bytes → Envelope → Bytes → Result Bytes

abbrev pub Registry : Type 0
Registry = List Adapter

-- `getAuthorizationAdapter`
unfoldable pub get_adapter : Registry → Text → Option Adapter
get_adapter [] kind = none
get_adapter (a ∷ registry) kind =
    if eqb (a.subject_kind) kind then some a else get_adapter registry kind

abbrev is_none : Option Adapter → Bool
is_none none = true
is_none (some a) = false

-- `registerAuthorizationAdapter`
unfoldable pub register_adapter : Adapter → Registry → Result Registry
register_adapter adapter registry = do
  guard (is_none (get_adapter registry (adapter.subject_kind))) (plain_error bad_value)
  ok (registry ++ (adapter ∷ []))

-- `registeredAuthorizationSubjects`
unfoldable pub registered_subjects : Registry → List Text
registered_subjects registry = map (λ a. a.subject_kind) registry

-- `if (!getAuthorizationAdapter(adapter.subjectKind)) registerAuthorizationAdapter(adapter);`
unfoldable pub ensure_registered : Adapter → Registry → Result Registry
ensure_registered adapter registry =
    if is_none (get_adapter registry (adapter.subject_kind))
    then register_adapter adapter registry
    else ok registry
