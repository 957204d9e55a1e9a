-- ===== src/Models/Registry/Sorting.antt =====
-- The order of the registrations in src/foampilot/models/registry.py.
use mathlib.Core.List.{Perm}
use mathlib.Core.List.Perm
use foam_pilot.Prelude.{
  String, ◌≡◌, refl, true, false, Option, List, [], ◌∷◌, map, arith, eq_iff, All, inl, inr,
  Bool-cases, ok,
}
use foam_pilot.Models.Registry.Order.{text_leb_total, text_leb_trans, text_leb_antisymm}
use foam_pilot.Models.Registry.{normal, Registration, key_leb, insert, ordered, candidates}

-- Each registration is at or before each later one in `(priority, backend_id, model)`.
abbrev pub IsOrdered : List Registration → Type 0
IsOrdered [] = Unit {0}
IsOrdered (r ∷ l) = All (λ s. key_leb r s ≡ true) l × IsOrdered l

key_leb_total : (r s : Registration) → key_leb r s ≡ false → key_leb s r ≡ true
unfolding key_leb
key_leb_total r s h = ground (
  arith,
  eq_iff r.backend.backend_id s.backend.backend_id,
  eq_iff s.backend.backend_id r.backend.backend_id,
  text_leb_total r.backend.backend_id s.backend.backend_id,
  text_leb_total r.backend.model s.backend.model,
)

key_leb_trans :
    (r s t : Registration) → key_leb r s ≡ true → key_leb s t ≡ true → key_leb r t ≡ true
unfolding key_leb
key_leb_trans r s t h k = ground (
  arith,
  eq_iff r.backend.backend_id s.backend.backend_id,
  eq_iff s.backend.backend_id t.backend.backend_id,
  eq_iff r.backend.backend_id t.backend.backend_id,
  text_leb_antisymm r.backend.backend_id s.backend.backend_id,
  text_leb_trans r.backend.backend_id s.backend.backend_id t.backend.backend_id,
  text_leb_trans r.backend.model s.backend.model t.backend.model,
)

pub All-insert :
    (P : Registration → Type 0) (r : Registration) (l : List Registration)
    → P r
    → All P l
    → All P (insert r l)
unfolding insert
All-insert P r [] h a = (h, tt)
All-insert P r (s ∷ l) h a = elim (Bool-cases (key_leb r s)) [
  | inl e ↦ rw e (h, a)
  | inr e ↦ rw e (a.0, All-insert P r l h a.1)
]

All_below :
    (r s : Registration) (l : List Registration)
    → key_leb r s ≡ true
    → All (λ t. key_leb s t ≡ true) l
    → All (λ t. key_leb r t ≡ true) l
All_below r s [] h a = tt
All_below r s (t ∷ l) h a = (key_leb_trans r s t h a.0, All_below r s l h a.1)

insert-IsOrdered : (r : Registration) (l : List Registration) → IsOrdered l → IsOrdered (insert r l)
unfolding insert
insert-IsOrdered r [] h = (tt, tt)
insert-IsOrdered r (s ∷ l) h = elim (Bool-cases (key_leb r s)) [
  | inl e ↦ rw e ((e, All_below r s l e h.0), h)
  | inr e ↦
      rw e (
        All-insert (λ t. key_leb s t ≡ true) r l (key_leb_total r s e) h.0,
        insert-IsOrdered r l h.1,
      )
]

ordered-IsOrdered : (l : List Registration) → IsOrdered (ordered l)
unfolding ordered
ordered-IsOrdered [] = tt
ordered-IsOrdered (r ∷ l) = insert-IsOrdered r (ordered l) (ordered-IsOrdered l)

insert-perm : (r : Registration) (l : List Registration) → Perm (insert r l) (r ∷ l)
unfolding insert
insert-perm r [] = Perm.refl (r ∷ [])
insert-perm r (s ∷ l) = elim (Bool-cases (key_leb r s)) [
  | inl e ↦ rw e (Perm.refl (r ∷ s ∷ l))
  | inr e ↦ rw e (Perm.trans (Perm.cons s (insert-perm r l)) (Perm.swap r s l))
]

ordered-perm : (l : List Registration) → Perm (ordered l) l
unfolding ordered
ordered-perm [] = Perm.refl []
ordered-perm (r ∷ l) = Perm.trans (insert-perm r (ordered l)) (Perm.cons r (ordered-perm l))

-- A normal run is offered every registered backend once, in the order of priority, backend ID and
-- model.
pub candidates-normal :
    (i m : Option String) (l : List Registration)
    → (candidates normal i m l ≡ ok (map (λ r. r.backend) (ordered l)))
      × IsOrdered (ordered l)
      × Perm (ordered l) l
unfolding candidates
candidates-normal i m l = (refl, ordered-IsOrdered l, ordered-perm l)
