-- ===== src/Agent/Repair/Stop.antt =====
-- When `should_stop_repair` of src/foampilot/agent/repair.py lets the repair go on.
use mathlib.Core.Path.{subst}
use foam_pilot.Prelude.{
  ℕ, ◌<◌, String, ◌≡◌, ◌≢◌, ◌↔◌, refl, sym, Bool, true, false, Option, none, some, List, [], ◌∷◌,
  ◌++◌, arith, eq_iff,
}
use foam_pilot.Agent.Repair.{repeats, is_empty_patch, is_given, should_stop_repair}

-- the last two fingerprints are one
abbrev pub EndsTwice : List String → Type 0
EndsTwice l = (before : List String) × (x : String) × (l ≡ before ++ x ∷ x ∷ [])

repeats-EndsTwice : (l : List String) → repeats l ≡ true → EndsTwice l
unfolding repeats
repeats-EndsTwice [] h = cc
repeats-EndsTwice (x ∷ []) h = cc
repeats-EndsTwice (x ∷ y ∷ []) h = ([], x, ground (arith, eq_iff y x, h))
repeats-EndsTwice (x ∷ y ∷ z ∷ l) h =
    let (before, w, e) = repeats-EndsTwice (y ∷ z ∷ l) h in (x ∷ before, w, cc (e))

EndsTwice-repeats : (before : List String) (x : String) → repeats (before ++ x ∷ x ∷ []) ≡ true
unfolding repeats
EndsTwice-repeats [] x = (eq_iff x x).1 refl
EndsTwice-repeats (a ∷ []) x = (eq_iff x x).1 refl
EndsTwice-repeats (a ∷ b ∷ []) x = (eq_iff x x).1 refl
EndsTwice-repeats (a ∷ b ∷ c ∷ l) x = EndsTwice-repeats (b ∷ c ∷ l) x

repeats_iff : (l : List String) → (repeats l ≡ true) ↔ EndsTwice l
repeats_iff l = (
  repeats-EndsTwice l,
  (λ h.
      let (before, x, e) = h in subst (λ k. repeats k ≡ true) (sym e) (EndsTwice-repeats before x)),
)

is_empty_patch_iff : (n : Option ℕ) → (is_empty_patch n ≡ true) ↔ (n ≡ some 0)
unfolding is_empty_patch
is_empty_patch_iff none = ((λ h. cc), (λ h. cc))
is_empty_patch_iff (some n) = ground arith

is_given_iff : (n : Option ℕ) → (is_given n ≡ false) ↔ (n ≡ none)
unfolding is_given
is_given_iff none = ((λ h. refl), (λ h. refl))
is_given_iff (some n) = ((λ h. cc), (λ h. cc))

-- The repair goes on exactly when the environment did not fail, attempts are left, the last two
-- fingerprints are not one, and the patch, if its operations were counted, has some and changed
-- the generated bytes.
pub should_stop_repair-exactly :
    (fingerprints : List String) (attempts_used max_attempts : ℕ) (changed : Bool)
    (operations : Option ℕ) (environment_failed : Bool)
    → ((should_stop_repair fingerprints attempts_used max_attempts changed operations
          environment_failed).stop
        ≡ false)
      ↔ ((environment_failed ≡ false)
          × (attempts_used < max_attempts)
          × (¬ EndsTwice fingerprints)
          × (operations ≢ some 0)
          × (operations ≢ none → changed ≡ true))
unfolding should_stop_repair
should_stop_repair-exactly fingerprints attempts_used max_attempts changed operations
      environment_failed =
    let repeated = repeats_iff fingerprints in
    ground (arith, repeated.0, repeated.1, is_empty_patch_iff operations, is_given_iff operations)
