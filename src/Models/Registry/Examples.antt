-- ===== src/Models/Registry/Examples.antt =====
-- A directory of three backends for src/foampilot/models/registry.py, and the theorems about the
-- registry at it.
use foam_pilot.Prelude.{ℤ, pos, negsuc, String, ◌≡◌, refl, some, List, [], ◌∷◌, map, ok}
use foam_pilot.Models.Registry.{
  qualification, ModelBackend, Registration, candidates, ordered, insert, key_leb, text_leb, is_for,
}
use foam_pilot.Models.Registry.Candidates.{
  IsUnique, find_pair, after_calls, first_call, candidates-pinned, register-IsUnique,
}

abbrev slow : ModelBackend
slow = record { backend_id = "slow"; model = "m1"; identity_hash = "aa" }

abbrev quick : ModelBackend
quick = record { backend_id = "quick"; model = "m1"; identity_hash = "bb" }

abbrev other : ModelBackend
other = record { backend_id = "quick"; model = "m2"; identity_hash = "cc" }

abbrev directory : List Registration
directory =
    record { priority = pos 20; backend = slow }
    ∷ record { priority = pos 10; backend = other }
    ∷ record { priority = pos 10; backend = quick }
    ∷ []

directory-IsUnique : IsUnique directory
unfolding is_for
directory-IsUnique = ((refl, (refl, tt)), ((refl, tt), (tt, tt)))

sorted-directory : map (λ r. r.backend) (ordered directory) ≡ quick ∷ other ∷ slow ∷ []
unfolding ordered insert key_leb text_leb
sorted-directory = refl

candidates-pinned_example :
    candidates qualification (some "quick") (some "m2") directory ≡ ok (other ∷ [])
unfolding is_for
candidates-pinned_example = candidates-pinned "quick" "m2" directory directory-IsUnique

-- the second call for the pair of `other` raises
abbrev calls : List (ModelBackend × ℤ)
calls = (slow, pos 20) ∷ (other, negsuc 4) ∷ (other, pos 3) ∷ (quick, pos 10) ∷ []

register-IsUnique_example :
    IsUnique (after_calls calls [])
    × ((i m : String) → find_pair i m (after_calls calls []) ≡ first_call i m calls)
register-IsUnique_example = register-IsUnique calls
