-- ===== src/Plans/Validation/Tests.antt =====
-- What the tests of src/foampilot/plans/validation.py find, one by one.
use text.Mathlib.Text.{◌==◌, starts_with}
use foam_pilot.Prelude.PosixPath
use foam_pilot.Prelude.{
  String, ◌≡◌, ◌≢◌, ◌↔◌, refl, Bool, true, false, not, ◌||◌, List, [], ◌∷◌, ◌++◌, any, All,
  Bool-cases, Option, none, some, ◌&&◌, inl, inr, IsDistinct, append-empty, arith, eq_iff,
}
use foam_pilot.Prelude.Texts.{after_equals, has_equals}
use foam_pilot.Plans.Validation.{
  MeshStrategy, provided, CommandStage, mesh, PlanIssue, IssueCode, Location, issue_if,
  has_duplicates, has_part, safe_relative, value_issues, values_of, each_value, overwrites,
  is_provided, is_mesh,
}
use foam_pilot.Plans.Validation.Spec.{In, IsConfined, Spares}

pub issue_if-empty :
    (b : Bool) (code : IssueCode) (l : Location) → (issue_if b code l ≡ []) ↔ (b ≡ false)
unfolding issue_if
issue_if-empty true code l = ((λ h. cc), (λ h. cc))
issue_if-empty false code l = ((λ h. refl), (λ h. refl))

-- two lists of issues are empty exactly when the conditions they stand for hold
pub both_empty :
    {P Q : Type 0} (xs ys : List PlanIssue)
    → (xs ≡ []) ↔ P
    → (ys ≡ []) ↔ Q
    → (xs ++ ys ≡ []) ↔ (P × Q)
both_empty xs ys p q = (
  (λ h. let both = (append-empty xs ys).0 h in (p.0 both.0, q.0 both.1)),
  (λ h. (append-empty xs ys).1 (p.1 h.0, q.1 h.1)),
)

pub test_empty :
    {P : Type 0} (b : Bool) (code : IssueCode) (l : Location)
    → (b ≡ false) ↔ P
    → (issue_if b code l ≡ []) ↔ P
test_empty b code l e =
    ((λ h. e.0 ((issue_if-empty b code l).0 h)), (λ h. (issue_if-empty b code l).1 (e.1 h)))

pub neither :
    {P Q : Type 0} (a b : Bool) → (a ≡ false) ↔ P → (b ≡ false) ↔ Q → (a || b ≡ false) ↔ (P × Q)
neither a b p q = ground (arith, p, q)

pub none_equal : (x : String) (l : List String) → (any (λ y. y == x) l ≡ false) ↔ All (λ y. y ≢ x) l
none_equal x [] = ((λ h. tt), (λ h. refl))
none_equal x (y ∷ l) = ground (arith, eq_iff y x, none_equal x l)

pub some_equal : (x : String) (l : List String) → (any (λ y. y == x) l ≡ true) ↔ In x l
some_equal x [] = ground arith
some_equal x (y ∷ l) = ground (arith, eq_iff y x, some_equal x l)

pub has_duplicates-IsDistinct : (l : List String) → (has_duplicates l ≡ false) ↔ IsDistinct l
unfolding has_duplicates
has_duplicates-IsDistinct [] = ((λ h. tt), (λ h. refl))
has_duplicates-IsDistinct (x ∷ l) = ground (arith, none_equal x l, has_duplicates-IsDistinct l)

pub has_part-absent :
    (part path : String) → (has_part part path ≡ false) ↔ All (λ p. p ≢ part) (PosixPath.parts path)
unfolding has_part
has_part-absent part path = none_equal part (PosixPath.parts path)

pub safe_relative-IsConfined :
    (path : String) → (not (safe_relative path) ≡ false) ↔ ((path ≢ "") × IsConfined path)
unfolding safe_relative
safe_relative-IsConfined path = ground (arith, eq_iff path "", has_part-absent ".." path)

pub value_issues-empty : (l : Location) (v : String) → (value_issues l v ≡ []) ↔ IsConfined v
unfolding value_issues
value_issues-empty l v =
    let e =
      both_empty _ _ (test_empty _ _ l (has_part-absent ".." v))
        (issue_if-empty (PosixPath.is_absolute v) _ l) in
    (
      (λ h. let c = e.0 h in record { relative = c.1; no_parent = c.0 }),
      (λ c. e.1 (c.no_parent, c.relative)),
    )

pub each_value-empty :
    (l : Location) (vs : List String) → (each_value l vs ≡ []) ↔ All IsConfined vs
unfolding each_value
each_value-empty l [] = ((λ h. tt), (λ h. refl))
each_value-empty l (v ∷ vs) = both_empty _ _ (value_issues-empty l v) (each_value-empty l vs)

pub overwrites-Spares :
    (path : String) (asset : Option String) → (overwrites path asset ≡ false) ↔ Spares path asset
unfolding overwrites
overwrites-Spares path none = ((λ h. tt), (λ h. refl))
overwrites-Spares path (some asset) = ground (arith, eq_iff path asset)

pub both_hold : {a b : Bool} → a ≡ true → b ≡ true → (a && b) ≢ false
both_hold h k e = ground (arith, h, k, e)

pub values_of-IsConfined :
    (a : String)
    → All IsConfined (values_of a) ↔ (
        IsConfined a
        × (starts_with a "-" ≡ true → has_equals a ≡ true → IsConfined (after_equals a)))
unfolding values_of
values_of-IsConfined a = elim (Bool-cases (starts_with a "-" && has_equals a)) [
  | inl e ↦ rw e (
    (λ h. (h.0, (λ _ _. h.1.0))),
    (λ h. (h.0, (h.1 (ground (arith, e)) (ground (arith, e)), tt))),
  )
  | inr e ↦ rw e ((λ h. (h.0, (λ d q. absurd (both_hold d q e)))), (λ h. (h.0, tt)))
]

pub is_provided_iff : (m : Option MeshStrategy) → (is_provided m ≡ true) ↔ (m ≡ some provided)
unfolding is_provided
is_provided_iff none = ((λ h. cc), (λ h. cc))
is_provided_iff (some m) = ground arith

pub is_mesh_iff : (s : CommandStage) → (is_mesh s ≡ true) ↔ (s ≡ mesh)
unfolding is_mesh
is_mesh_iff s = ground arith
