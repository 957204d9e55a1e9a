-- ===== src/Prelude/Lists.antt =====
-- Lists measured by native numbers, and predicates over lists by recursion.
use Prim.Native.Nat.{ℕ, zero, suc, ◌+◌}
use mathlib.Core.Path.{◌≡◌, refl, ap, ◌∙◌}
use mathlib.Core.Option.{Option, none, some}
use mathlib.Core.List.{List, [], ◌∷◌, ◌++◌}
use mathlib.Core.Bool.{Bool, true, false, ◌&&◌, ◌||◌}
use mathlib.Core.Logic.{◌≢◌, ◌↔◌, ◌⊎◌}
use native.Mathlib.Omega.{arith}

module _ {ℓ} {A : Type ℓ} where
  abbrev pub length : List A → ℕ
  length [] = 0
  length (x ∷ xs) = suc (length xs)

  -- any(...) and all(...)
  abbrev pub any : (A → Bool) → List A → Bool
  any p [] = false
  any p (x ∷ xs) = p x || any p xs

  abbrev pub all : (A → Bool) → List A → Bool
  all p [] = true
  all p (x ∷ xs) = p x && all p xs

  pub length-append : (xs ys : List A) → length (xs ++ ys) ≡ length xs + length ys
  length-append [] ys = omega arith
  length-append (x ∷ xs) ys = omega (arith, length-append xs ys)

module _ {ℓ} {A : Type ℓ} where
  pub length-snoc : (xs : List A) (x : A) → length (xs ++ x ∷ []) ≡ length xs + 1
  length-snoc xs x = length-append xs (x ∷ [])

-- A predicate by recursion computes to tuples, which the tactics read and build.
abbrev pub All {ℓ κ} : {A : Type ℓ} → (A → Type κ) → List A → Type κ
All P [] = Unit
All P (x ∷ xs) = P x × All P xs

module _ {ℓ κ} {A : Type ℓ} (P : A → Type κ) where
  pub All-append : (xs ys : List A) → All P xs → All P ys → All P (xs ++ ys)
  All-append [] ys hx hy = hy
  All-append (x ∷ xs) ys hx hy = (hx.0, All-append xs ys hx.1 hy)

module _ {ℓ} {A : Type ℓ} where
  pub any-false : (p : A → Bool) (xs : List A) → (any p xs ≡ false) ↔ All (λ x. p x ≡ false) xs
  any-false p [] = ((λ h. tt), (λ h. refl))
  any-false p (x ∷ xs) = let (to, from) = any-false p xs in ground (arith, to, from)

  pub append-empty : (xs ys : List A) → (xs ++ ys ≡ []) ↔ ((xs ≡ []) × (ys ≡ []))
  append-empty [] ys = ((λ h. (refl, h)), (λ h. h.1))
  append-empty (x ∷ xs) ys = ((λ h. cc), (λ h. cc))

  pub All-↔ {κ κ'} :
      (P : A → Type κ) (Q : A → Type κ')
      → ((x : A) → P x ↔ Q x)
      → (xs : List A) → All P xs ↔ All Q xs
  All-↔ P Q e [] = ((λ h. tt), (λ h. tt))
  All-↔ P Q e (x ∷ xs) =
      let (to, from) = All-↔ P Q e xs in
      ((λ h. ((e x).0 h.0, to h.1)), (λ h. ((e x).1 h.0, from h.1)))

  -- the element at an index, if there is one
  abbrev pub get_elem? : List A → ℕ → Option A
  get_elem? [] n = none
  get_elem? (x ∷ xs) zero = some x
  get_elem? (x ∷ xs) (suc n) = get_elem? xs n

  -- the list `xs` is what `all` holds from `start` on
  abbrev pub StandsAt : List A → ℕ → List A → Type ℓ
  StandsAt all start xs = (k : ℕ) → get_elem? all (start + k) ≡ get_elem? xs k

  pub StandsAt-tail :
      (all : List A) (start : ℕ) (x : A) (xs : List A)
      → StandsAt all start (x ∷ xs)
      → StandsAt all (suc start) xs
  StandsAt-tail all start x xs h k = ap (get_elem? all) (omega arith) ∙ h (suc k)

  pub StandsAt-head :
      (all : List A) (start : ℕ) (x : A) (xs : List A)
      → StandsAt all start (x ∷ xs)
      → get_elem? all start ≡ some x
  StandsAt-head all start x xs h = ap (get_elem? all) (omega arith) ∙ h 0

-- an element of a list has the property
abbrev pub Some {ℓ} : {A : Type ℓ} → (A → Type 0) → List A → Type 0
Some P [] = ⊥
Some P (x ∷ xs) = P x ⊎ Some P xs

module _ {ℓ} {A : Type ℓ} where
  pub any-Some :
      (p : A → Bool) (P : A → Type 0)
      → ((x : A) → (p x ≡ true) ↔ P x)
      → (xs : List A) → (any p xs ≡ true) ↔ Some P xs
  any-Some p P e [] = ground arith
  any-Some p P e (x ∷ xs) = ground (arith, e x, any-Some p P e xs)

-- No value stands twice in a list.
abbrev pub IsDistinct {ℓ} : {A : Type ℓ} → List A → Type ℓ
IsDistinct [] = Unit
IsDistinct (x ∷ xs) = All (λ y. y ≢ x) xs × IsDistinct xs
