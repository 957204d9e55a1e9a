-- ===== src/Models/Registry.antt =====
-- src/foampilot/models/registry.py: the directory of backends and the candidates of a run.
mod Order
pub mod Sorting
pub mod Candidates
mod Examples
unfoldable pub use Order.{text_leb}
use foam_pilot.Prelude.{
  ℤ, ltb_ℤ, String, Bool, true, false, ◌&&◌, Option, none, some, List, [], ◌∷◌, ◌++◌, map, ltb,
  nat_beq, any, if◌then◌else◌, Result, ok, raise,
}
use text.Mathlib.Text.{◌==◌}

pub data BackendMode : Type 0 where
  normal qualification : BackendMode

-- what the registry and the gateway read of a `ModelBackend`; its exchange is the gateway's
-- environment
pub record ModelBackend : Type 0 where
  pub backend_id : String
  pub model : String
  pub identity_hash : String

pub record Registration : Type 0 where
  pub priority : ℤ
  pub backend : ModelBackend

pub data RegistryError : Type 0 where
  pair_not_unique pin_missing pin_not_one : RegistryError

-- whether a registration is for a pair of backend ID and model
unfoldable pub is_for : String → String → Registration → Bool
is_for backend_id model r = r.backend.backend_id == backend_id && r.backend.model == model

unfoldable pub register :
    ModelBackend → ℤ → List Registration → Result RegistryError (List Registration)
register b priority l =
    if any (is_for b.backend_id b.model) l
    then raise pair_not_unique
    else ok (l ++ record { priority = priority; backend = b } ∷ [])

-- `<=` on the tuples `(priority, backend_id, model)`
unfoldable pub key_leb : Registration → Registration → Bool
key_leb r s =
    if ltb_ℤ r.priority s.priority
    then true
    else if ltb_ℤ s.priority r.priority
    then false
    else if r.backend.backend_id == s.backend.backend_id
    then text_leb r.backend.model s.backend.model
    else text_leb r.backend.backend_id s.backend.backend_id

-- `sorted`: stable, by insertion from the right
unfoldable pub insert : Registration → List Registration → List Registration
insert r [] = r ∷ []
insert r (s ∷ l) = if key_leb r s then r ∷ s ∷ l else s ∷ insert r l

unfoldable pub ordered : List Registration → List Registration
ordered [] = []
ordered (r ∷ l) = insert r (ordered l)

-- the list comprehension of `candidates`
unfoldable pub matching : String → String → List Registration → List ModelBackend
matching backend_id model [] = []
matching backend_id model (r ∷ l) =
    let rest = matching backend_id model l in
    if is_for backend_id model r then r.backend ∷ rest else rest

-- `len(matched) != 1`
unfoldable pub exactly_one : List ModelBackend → Result RegistryError (List ModelBackend)
exactly_one (b ∷ []) = ok (b ∷ [])
exactly_one _ = raise pin_not_one

unfoldable pub candidates :
    BackendMode
    → Option String
    → Option String
    → List Registration
    → Result RegistryError (List ModelBackend)
candidates normal pinned_id pinned_model l = ok (map (λ r. r.backend) (ordered l))
candidates qualification (some backend_id) (some model) l =
    exactly_one (matching backend_id model (ordered l))
candidates qualification _ _ l = raise pin_missing

unfoldable pub registrations : List Registration → List (ℤ × ModelBackend)
registrations l = map (λ r. (r.priority, r.backend)) (ordered l)
