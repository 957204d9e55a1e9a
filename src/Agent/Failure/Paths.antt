-- ===== src/Agent/Failure/Paths.antt =====
-- The files that `_resolve_declared_paths` of src/foampilot/agent/failure.py hints at.
use mathlib.Core.Path.{subst}
use Prim.Native.String.{count}
use text.Mathlib.Text.{◌==◌}
use foam_pilot.Prelude.{
  ◌≤◌, String, ◌≡◌, ◌≢◌, ◌⊎◌, inl, inr, refl, sym, true, false, List, [], ◌∷◌, All, Some,
  IsDistinct, arith, eq_iff, Bool-cases, leb,
}
use foam_pilot.Agent.Failure.Hints.{
  insert, by_length, covers, declared_match, resolve_each, remove, distinct, resolve_declared_paths,
}

-- `m` is what the candidate `c` stands for: the longest declared path that is `c` or a directory
-- above it, or `c` itself if no declared path is.
abbrev pub IsResolution : List String → String → String → Type 0
IsResolution paths c m =
    (Some (λ q. q ≡ m) paths
      × (covers c m ≡ true)
      × All (λ q. covers c q ≡ true → count q ≤ count m) paths)
    ⊎ ((m ≡ c) × All (λ q. covers c q ≡ false) paths)

abbrev IsOrdered : List String → Type 0
IsOrdered [] = Unit {0}
IsOrdered (p ∷ l) = All (λ q. count q ≤ count p) l × IsOrdered l

module _ (P : String → Type 0) where
  All-insert : (p : String) (l : List String) → P p → All P l → All P (insert p l)
  unfolding insert
  All-insert p [] h a = (h, tt)
  All-insert p (q ∷ l) h a = elim (Bool-cases (leb (count q) (count p))) [
    | inl e ↦ rw e (h, a)
    | inr e ↦ rw e (a.0, All-insert p l h a.1)
  ]

  insert-All : (p : String) (l : List String) → All P (insert p l) → All P (p ∷ l)
  unfolding insert
  insert-All p [] a = a
  insert-All p (q ∷ l) a = elim (Bool-cases (leb (count q) (count p))) [
    | inl e ↦ rw e at a
    | inr e ↦
        let a' : P q × All P (insert p l) = rw e at a in
        let rest = insert-All p l a'.1 in (rest.0, (a'.0, rest.1))
  ]

  by_length-All : (l : List String) → All P (by_length l) → All P l
  unfolding by_length
  by_length-All [] a = tt
  by_length-All (p ∷ l) a =
      let rest = insert-All p (by_length l) a in (rest.0, by_length-All l rest.1)

  insert-Some : (p : String) (l : List String) → Some P (insert p l) → Some P (p ∷ l)
  unfolding insert
  insert-Some p [] s = s
  insert-Some p (q ∷ l) s = elim (Bool-cases (leb (count q) (count p))) [
    | inl e ↦ rw e at s
    | inr e ↦
        let s' : P q ⊎ Some P (insert p l) = rw e at s in
        elim s' [
          | inl h ↦ inr (inl h)
          | inr h ↦ elim (insert-Some p l h) [ inl k ↦ inl k | inr k ↦ inr (inr k) ]
        ]
  ]

  by_length-Some : (l : List String) → Some P (by_length l) → Some P l
  unfolding by_length
  by_length-Some [] s = s
  by_length-Some (p ∷ l) s = elim (insert-Some p (by_length l) s) [
    | inl h ↦ inl h
    | inr h ↦ inr (by_length-Some l h)
  ]

All-shorter :
    (p q : String) (l : List String)
    → count q ≤ count p
    → All (λ r. count r ≤ count q) l
    → All (λ r. count r ≤ count p) l
All-shorter p q [] h a = tt
All-shorter p q (r ∷ l) h a = (omega (arith, h, a.0), All-shorter p q l h a.1)

insert-IsOrdered : (p : String) (l : List String) → IsOrdered l → IsOrdered (insert p l)
unfolding insert
insert-IsOrdered p [] o = (tt, tt)
insert-IsOrdered p (q ∷ l) o = elim (Bool-cases (leb (count q) (count p))) [
  | inl e ↦
      let le : count q ≤ count p = ground (arith, e) in rw e ((le, All-shorter p q l le o.0), o)
  | inr e ↦
      let le : count p ≤ count q = ground (arith, e) in
      rw e (All-insert (λ r. count r ≤ count q) p l le o.0, insert-IsOrdered p l o.1)
]

by_length-IsOrdered : (l : List String) → IsOrdered (by_length l)
unfolding by_length
by_length-IsOrdered [] = tt
by_length-IsOrdered (p ∷ l) = insert-IsOrdered p (by_length l) (by_length-IsOrdered l)

covered_bound :
    (c p : String) (l : List String)
    → All (λ q. count q ≤ count p) l
    → All (λ q. covers c q ≡ true → count q ≤ count p) l
covered_bound c p [] a = tt
covered_bound c p (q ∷ l) a = ((λ h. a.0), covered_bound c p l a.1)

declared_match_none : (c : String) → declared_match c [] ≡ c
unfolding declared_match
declared_match_none c = refl

declared_match_hit :
    (c p : String) (l : List String) → covers c p ≡ true → declared_match c (p ∷ l) ≡ p
unfolding declared_match
declared_match_hit c p l e = ground (arith, e)

declared_match_miss :
    (c p : String) (l : List String)
    → covers c p ≡ false
    → declared_match c (p ∷ l) ≡ declared_match c l
unfolding declared_match
declared_match_miss c p l e = ground (arith, e)

still_longest :
    (c p m : String) (l : List String)
    → covers c p ≡ false
    → IsResolution l c m
    → IsResolution (p ∷ l) c m
still_longest c p m l e (inl (member, covered, longest)) =
    inl (inr member, covered, ((λ h. cc), longest))
still_longest c p m l e (inr (same, uncovered)) = inr (same, (e, uncovered))

declared_match-IsResolution :
    (c : String) (l : List String) → IsOrdered l → IsResolution l c (declared_match c l)
declared_match-IsResolution c [] o = inr (declared_match_none c, tt)
declared_match-IsResolution c (p ∷ l) o = elim (Bool-cases (covers c p)) [
  | inl e ↦
      subst (IsResolution (p ∷ l) c) (sym (declared_match_hit c p l e))
        (inl (inl refl, e, ((λ h. omega arith), covered_bound c p l o.0)))
  | inr e ↦
      subst (IsResolution (p ∷ l) c) (sym (declared_match_miss c p l e))
        (still_longest c p (declared_match c l) l e (declared_match-IsResolution c l o.1))
]

resolution :
    (paths : List String) (c : String) → IsResolution paths c (declared_match c (by_length paths))
resolution paths c =
    elim (declared_match-IsResolution c (by_length paths) (by_length-IsOrdered paths)) [
      | inl (member, covered, longest) ↦
          inl (by_length-Some _ paths member, covered, by_length-All _ paths longest)
      | inr (same, uncovered) ↦ inr (same, by_length-All _ paths uncovered)
    ]

-- what stays when one text is removed
remove-All : (P : String → Type 0) (x : String) (l : List String) → All P l → All P (remove x l)
unfolding remove
remove-All P x [] a = tt
remove-All P x (y ∷ l) a = elim (Bool-cases (y == x)) [
  | inl e ↦ rw e (remove-All P x l a.1)
  | inr e ↦ rw e (a.0, remove-All P x l a.1)
]

remove-absent : (x : String) (l : List String) → All (λ y. y ≢ x) (remove x l)
unfolding remove
remove-absent x [] = tt
remove-absent x (y ∷ l) = elim (Bool-cases (y == x)) [
  | inl e ↦ rw e (remove-absent x l)
  | inr e ↦ rw e ((λ h. ground (arith, eq_iff y x, h, e)), remove-absent x l)
]

remove-IsDistinct : (x : String) (l : List String) → IsDistinct l → IsDistinct (remove x l)
unfolding remove
remove-IsDistinct x [] d = tt
remove-IsDistinct x (y ∷ l) d = elim (Bool-cases (y == x)) [
  | inl e ↦ rw e (remove-IsDistinct x l d.1)
  | inr e ↦ rw e (remove-All _ x l d.0, remove-IsDistinct x l d.1)
]

remove-Some :
    (P : String → Type 0) (x : String) (l : List String) → Some P l → P x ⊎ Some P (remove x l)
unfolding remove
remove-Some P x (y ∷ l) s = elim (Bool-cases (y == x)) [
  | inl e ↦ elim s [
    | inl h ↦ inl (subst P ((eq_iff y x).0 e) h)
    | inr h ↦ rw e (remove-Some P x l h)
  ]
  | inr e ↦ elim s [
    | inl h ↦ rw e (inr (inl h))
    | inr h ↦ rw e (elim (remove-Some P x l h) [ inl k ↦ inl k | inr k ↦ inr (inr k) ])
  ]
]
remove-Some P x [] s = absurd s

distinct-IsDistinct : (l : List String) → IsDistinct (distinct l)
unfolding distinct
distinct-IsDistinct [] = tt
distinct-IsDistinct (x ∷ l) =
    (remove-absent x (distinct l), remove-IsDistinct x (distinct l) (distinct-IsDistinct l))

distinct-All : (P : String → Type 0) (l : List String) → All P l → All P (distinct l)
unfolding distinct
distinct-All P [] a = tt
distinct-All P (x ∷ l) a = (a.0, remove-All P x (distinct l) (distinct-All P l a.1))

distinct-Some : (P : String → Type 0) (l : List String) → Some P l → Some P (distinct l)
unfolding distinct
distinct-Some P [] s = s
distinct-Some P (x ∷ l) s = elim s [
  | inl h ↦ inl h
  | inr h ↦ remove-Some P x (distinct l) (distinct-Some P l h)
]

Some-later :
    (Q : String → String → Type 0) (c : String) (l xs : List String)
    → All (λ m. Some (λ d. Q d m) l) xs
    → All (λ m. Some (λ d. Q d m) (c ∷ l)) xs
Some-later Q c l [] a = tt
Some-later Q c l (x ∷ xs) a = (inr a.0, Some-later Q c l xs a.1)

module _ (paths : List String) where
  resolve_each-from :
      (files : List String)
      → All (λ m. Some (λ c. IsResolution paths c m) files) (resolve_each (by_length paths) files)
  unfolding resolve_each
  resolve_each-from [] = tt
  resolve_each-from (c ∷ files) = (
    inl (resolution paths c),
    Some-later (IsResolution paths) c files _ (resolve_each-from files),
  )

  resolve_each-of :
      (files : List String)
      → All (λ c. Some (IsResolution paths c) (resolve_each (by_length paths) files)) files
  unfolding resolve_each
  resolve_each-of [] = tt
  resolve_each-of (c ∷ files) = (
    inl (resolution paths c),
    Some-later (λ m d. IsResolution paths d m) (declared_match c (by_length paths)) _ files
        (resolve_each-of files),
  )

distinct_each :
    (Q : String → String → Type 0) (l files : List String)
    → All (λ c. Some (Q c) l) files
    → All (λ c. Some (Q c) (distinct l)) files
distinct_each Q l [] a = tt
distinct_each Q l (c ∷ files) a = (distinct-Some (Q c) l a.0, distinct_each Q l files a.1)

-- The files that a classification hints at are distinct, and are exactly what the candidates stand
-- for: a candidate stands for the longest declared path that is the candidate or a directory above
-- it, and for itself if no declared path is.
pub resolve_declared_paths-longest :
    (files paths : List String)
    → IsDistinct (resolve_declared_paths files paths)
      × All (λ m. Some (λ c. IsResolution paths c m) files) (resolve_declared_paths files paths)
      × All (λ c. Some (IsResolution paths c) (resolve_declared_paths files paths)) files
unfolding resolve_declared_paths
resolve_declared_paths-longest files paths =
    let each = resolve_each (by_length paths) files in
    (
      distinct-IsDistinct each,
      distinct-All _ each (resolve_each-from paths files),
      distinct_each (IsResolution paths) each files (resolve_each-of paths files),
    )
