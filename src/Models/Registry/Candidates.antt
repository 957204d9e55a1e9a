-- ===== src/Models/Registry/Candidates.antt =====
-- What the registry of src/foampilot/models/registry.py offers a run.
use text.Mathlib.Text.{◌==◌}
use mathlib.Core.Path.{subst}
use foam_pilot.Prelude.{
  ℤ, String, ◌≡◌, ◌≢◌, refl, sym, ap, ◌∙◌, Option-cases, ◌&&◌, Bool, true, false, Option, none,
  some, List, [], ◌∷◌, ◌++◌, arith, eq_iff, any, All, All-append, inl, inr, Bool-cases,
  if◌then◌else◌, Result, ok, raise,
}
use foam_pilot.Models.Registry.Sorting.{All-insert}
use foam_pilot.Models.Registry.{
  qualification, ModelBackend, Registration, RegistryError, pin_not_one, pair_not_unique, is_for,
  register, key_leb, insert, ordered, matching, exactly_one, candidates,
}

-- the pair of a registration
abbrev pub pair_of : Registration → Registration → Bool
pair_of r = is_for r.backend.backend_id r.backend.model

-- No two registrations have one pair of backend ID and model.
abbrev pub IsUnique : List Registration → Type 0
IsUnique [] = Unit {0}
IsUnique (r ∷ l) = All (λ s. pair_of r s ≡ false) l × IsUnique l

-- the first registration of a pair, in the order of the calls of `register`
abbrev pub find_pair : String → String → List Registration → Option ModelBackend
find_pair i m [] = none
find_pair i m (r ∷ l) = if is_for i m r then some r.backend else find_pair i m l

abbrev pub answer_of : Option ModelBackend → Result RegistryError (List ModelBackend)
answer_of none = raise pin_not_one
answer_of (some b) = ok (b ∷ [])

matching-insert_other :
    (i m : String) (r : Registration) (l : List Registration)
    → is_for i m r ≡ false
    → matching i m (insert r l) ≡ matching i m l
unfolding matching insert
matching-insert_other i m r [] h = rw h
matching-insert_other i m r (s ∷ l) h = elim (Bool-cases (key_leb r s)) [
  | inl e ↦ rw (e, h)
  | inr e ↦ rw (e, matching-insert_other i m r l h)
]

matching_none :
    (i m : String) (l : List Registration) → All (λ s. is_for i m s ≡ false) l → matching i m l ≡ []
unfolding matching
matching_none i m [] a = refl
matching_none i m (r ∷ l) a = rw (a.0, matching_none i m l a.1)

matching-insert_one :
    (i m : String) (r : Registration) (l : List Registration)
    → is_for i m r ≡ true
    → All (λ s. is_for i m s ≡ false) l
    → matching i m (insert r l) ≡ r.backend ∷ []
unfolding matching insert
matching-insert_one i m r [] h a = rw h
matching-insert_one i m r (s ∷ l) h a = elim (Bool-cases (key_leb r s)) [
  | inl e ↦ rw (e, h, a.0, matching_none i m l a.1)
  | inr e ↦ rw (e, a.0, matching-insert_one i m r l h a.1)
]

All-ordered : (P : Registration → Type 0) (l : List Registration) → All P l → All P (ordered l)
unfolding ordered
All-ordered P [] a = tt
All-ordered P (r ∷ l) a = All-insert P r (ordered l) a.0 (All-ordered P l a.1)

-- a registration for the pair `i`, `m` has that pair
others :
    (i m : String) (r : Registration) (l : List Registration)
    → is_for i m r ≡ true
    → All (λ s. pair_of r s ≡ false) l
    → All (λ s. is_for i m s ≡ false) l
unfolding is_for
others i m r [] h a = tt
others i m r (s ∷ l) h a = (
  ground (arith, a.0, eq_iff r.backend.backend_id i, eq_iff r.backend.model m),
  others i m r l h a.1,
)

-- A qualification run is offered exactly the backend that was registered under the pinned ID and
-- model, and raises if none was: nothing else in the directory, priorities included, matters.
pub candidates-pinned :
    (i m : String) (l : List Registration)
    → IsUnique l
    → candidates qualification (some i) (some m) l ≡ answer_of (find_pair i m l)
unfolding candidates ordered exactly_one matching
candidates-pinned i m [] u = refl
candidates-pinned i m (r ∷ l) u = elim (Bool-cases (is_for i m r)) [
  | inl e ↦
      rw e (rw (matching-insert_one i m r (ordered l) e (All-ordered _ l (others i m r l e u.0))))
  | inr e ↦ rw e (rw (matching-insert_other i m r (ordered l) e) (candidates-pinned i m l u.1))
]

any_all_false :
    (p : Registration → Bool) (l : List Registration) → any p l ≡ false → All (λ s. p s ≡ false) l
any_all_false p [] h = tt
any_all_false p (r ∷ l) h = (ground arith, any_all_false p l (ground arith))

IsUnique-snoc :
    (l : List Registration) (r : Registration)
    → IsUnique l
    → All (λ s. pair_of r s ≡ false) l
    → IsUnique (l ++ r ∷ [])
unfolding is_for
IsUnique-snoc [] r u a = (tt, tt)
IsUnique-snoc (s ∷ l) r u a = (
  All-append (λ t. pair_of s t ≡ false) l (r ∷ []) u.0
      (
        ground (
          arith,
          a.0,
          eq_iff r.backend.backend_id s.backend.backend_id,
          eq_iff s.backend.backend_id r.backend.backend_id,
          eq_iff r.backend.model s.backend.model,
          eq_iff s.backend.model r.backend.model,
        ),
        tt,
      ),
  IsUnique-snoc l r u.1 a.1,
)

find_any :
    (i m : String) (l : List Registration)
    → (find_pair i m l ≡ none → any (is_for i m) l ≡ false)
      × (find_pair i m l ≢ none → any (is_for i m) l ≡ true)
find_any i m [] = ((λ e. refl), (λ h. absurd (h refl)))
find_any i m (r ∷ l) = elim (Bool-cases (is_for i m r)) [
  | inl e ↦ rw e ((λ h. cc), (λ h. refl))
  | inr e ↦ rw e (find_any i m l)
]

-- One call of `register`; a call that raises leaves the directory as it was.
abbrev pub unless_raised :
    List Registration → Result RegistryError (List Registration) → List Registration
unless_raised l (ok l') = l'
unless_raised l (raise e) = l

abbrev pub after_call : ModelBackend × ℤ → List Registration → List Registration
after_call call l = unless_raised l (register call.0 call.1 l)

-- the directory after calls of `register`, one after the other
abbrev pub after_calls : List (ModelBackend × ℤ) → List Registration → List Registration
after_calls [] l = l
after_calls (call ∷ calls) l = after_calls calls (after_call call l)

-- the backend of the first call for a pair
abbrev pub first_call : String → String → List (ModelBackend × ℤ) → Option ModelBackend
first_call i m [] = none
first_call i m ((b, p) ∷ calls) =
    if b.backend_id == i && b.model == m then some b else first_call i m calls

abbrev or_else {ℓ} : {A : Type ℓ} → Option A → Option A → Option A
or_else (some a) o = some a
or_else none o = o

or_else-none {ℓ} : {A : Type ℓ} (o : Option A) → o ≡ or_else o none
or_else-none none = refl
or_else-none (some a) = refl

or_else-if {ℓ} :
    {A : Type ℓ} (o : Option A) (t : Bool) (a : A) (p : Option A)
    → or_else (or_else o (if t then some a else none)) p ≡ or_else o (if t then some a else p)
or_else-if (some x) t a p = refl
or_else-if none true a p = refl
or_else-if none false a p = refl

find_pair-snoc :
    (i m : String) (l : List Registration) (r : Registration)
    → find_pair i m (l ++ r ∷ [])
      ≡ or_else (find_pair i m l) (if is_for i m r then some r.backend else none)
find_pair-snoc i m [] r = refl
find_pair-snoc i m (s ∷ l) r = elim (Bool-cases (is_for i m s)) [
  | inl e ↦ rw e refl
  | inr e ↦ rw e (find_pair-snoc i m l r)
]

-- a call for a pair that is there changes nothing that is found
kept :
    (b : ModelBackend) (i m : String) (l : List Registration) {c : ModelBackend}
    → find_pair b.backend_id b.model l ≡ some c
    → find_pair i m l
      ≡ or_else (find_pair i m l) (if b.backend_id == i && b.model == m then some b else none)
kept b i m l {c} e = elim (Option-cases (find_pair i m l)) [
  | inr (d, n) ↦ rw n refl
  | inl n ↦ elim (Bool-cases (b.backend_id == i && b.model == m)) [
    | inr f ↦ rw (n, f) refl
    | inl t ↦
        let same_id : b.backend_id ≡ i = ground (arith, t, eq_iff b.backend_id i) in
        let same_model : b.model ≡ m = ground (arith, t, eq_iff b.model m) in
        let q : some c ≡ none =
          sym e
          ∙ ap (λ x. find_pair x b.model l) same_id
          ∙ ap (λ x. find_pair i x l) same_model
          ∙ n in
        cc
  ]
]

-- The directory `l'` is unique, and has what `l` has and, if that has none for its pair, `b`.
abbrev Grown : ModelBackend → List Registration → List Registration → Type 0
Grown b l l' =
    IsUnique l'
    × ((i m : String)
        → find_pair i m l'
          ≡ or_else (find_pair i m l) (if b.backend_id == i && b.model == m then some b else none))

after_call-IsUnique :
    (b : ModelBackend) (p : ℤ) (l : List Registration)
    → IsUnique l
    → Grown b l (after_call (b, p) l)
unfolding register is_for
after_call-IsUnique b p l u = elim (Option-cases (find_pair b.backend_id b.model l)) [
  | inl e ↦
      let none_is = (find_any b.backend_id b.model l).0 e in
      let call : register b p l ≡ ok (l ++ record { priority = p; backend = b } ∷ []) =
        rw none_is in
      subst (Grown b l) (sym (ap (unless_raised l) call)) (
        IsUnique-snoc l (record { priority = p; backend = b }) u
            (any_all_false (is_for b.backend_id b.model) l none_is),
        (λ i m. find_pair-snoc i m l (record { priority = p; backend = b })),
      )
  | inr (c, e) ↦
      let there = (find_any b.backend_id b.model l).1 (λ n. let q = sym e ∙ n in cc) in
      let call : register b p l ≡ raise pair_not_unique = rw there in
      subst (Grown b l) (sym (ap (unless_raised l) call)) (u, (λ i m. kept b i m l e))
]

after_calls-IsUnique :
    (calls : List (ModelBackend × ℤ)) (l : List Registration)
    → IsUnique l
    → IsUnique (after_calls calls l)
      × ((i m : String)
          → find_pair i m (after_calls calls l) ≡ or_else (find_pair i m l) (first_call i m calls))
after_calls-IsUnique [] l u = (u, (λ i m. or_else-none (find_pair i m l)))
after_calls-IsUnique ((b, p) ∷ calls) l u =
    let (v, f) = after_call-IsUnique b p l u in
    let (w, g) = after_calls-IsUnique calls (after_call (b, p) l) v in
    (
      w,
      (λ i m.
          g i m
          ∙ ap (λ o. or_else o (first_call i m calls)) (f i m)
          ∙ or_else-if (find_pair i m l) (b.backend_id == i && b.model == m) b
              (first_call i m calls)),
    )

-- Whatever calls of `register` are made on an empty directory, no pair of backend ID and model stands
-- twice in it, and what stands there for a pair is the backend of the first call for it.
pub register-IsUnique :
    (calls : List (ModelBackend × ℤ))
    → IsUnique (after_calls calls [])
      × ((i m : String) → find_pair i m (after_calls calls []) ≡ first_call i m calls)
register-IsUnique calls = let (u, f) = after_calls-IsUnique calls [] tt in (u, f)
