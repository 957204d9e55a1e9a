-- ===== src/Models/Registry/Order.antt =====
-- Python's `<=` on texts, by code points, as `sorted` of src/foampilot/models/registry.py uses it.
use Prim.Native.Char.{code}
use Prim.Native.String.{String, [], ◌∷◌}
use text.Mathlib.TextEquality.{Char-path}
use foam_pilot.Prelude.{◌≡◌, Bool, true, false, arith, ltb, if◌then◌else◌, refl}

unfoldable pub text_leb : String → String → Bool
text_leb [] t = true
text_leb (c ∷ s) [] = false
text_leb (c ∷ s) (d ∷ t) =
    let rest = text_leb s t in
    if ltb (code c) (code d) then true else if ltb (code d) (code c) then false else rest

pub text_leb_total : (s t : String) → text_leb s t ≡ false → text_leb t s ≡ true
unfolding text_leb
text_leb_total [] t h = ground arith
text_leb_total (c ∷ s) [] h = refl
text_leb_total (c ∷ s) (d ∷ t) h = ground (arith, text_leb_total s t)

pub text_leb_trans :
    (s t u : String) → text_leb s t ≡ true → text_leb t u ≡ true → text_leb s u ≡ true
unfolding text_leb
text_leb_trans [] t u h k = refl
text_leb_trans (c ∷ s) [] u h k = ground arith
text_leb_trans (c ∷ s) (d ∷ t) [] h k = ground arith
text_leb_trans (c ∷ s) (d ∷ t) (e ∷ u) h k = ground (arith, text_leb_trans s t u)

pub text_leb_antisymm : (s t : String) → text_leb s t ≡ true → text_leb t s ≡ true → s ≡ t
unfolding text_leb
text_leb_antisymm [] [] h k = refl
text_leb_antisymm [] (d ∷ t) h k = cc
text_leb_antisymm (c ∷ s) [] h k = cc
text_leb_antisymm (c ∷ s) (d ∷ t) h k =
    let same_code : code c ≡ code d = ground arith in
    let rest : s ≡ t = text_leb_antisymm s t (ground arith) (ground arith) in
    λ i. Char-path c d same_code i ∷ rest i
