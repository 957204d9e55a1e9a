-- ===== src/Prelude/Lines.antt =====
-- Python's `str.splitlines` on what `read_text` gives, which has made each `\r\n` one line end.
use Prim.Native.Char.{Char, code}
use Prim.Native.Nat.{ℕ}
use Prim.Native.String.{String, [], ◌∷◌, ◌++◌ as str_append}
use mathlib.Core.Path.{◌≡◌, refl, sym, ap, ◌∙◌}
use mathlib.Core.Logic.{◌≢◌, ◌⊎◌, inl, inr}
use mathlib.Core.Bool.{Bool, false, ◌||◌, ◌&&◌}
use mathlib.Core.List.{List, ◌++◌, append-nil, append_assoc}
use text.Mathlib.TextLemmas.{cons-append}
use native.Mathlib.Omega.{arith}
use foam_pilot.Prelude.Tests.{nat_beq, if◌then◌else◌, Bool-cases}
use foam_pilot.Prelude.Lists.{All}

-- the code points at which `splitlines` splits
unfoldable is_line_break : ℕ → Bool
is_line_break n =
    nat_beq n 10
    || nat_beq n 11
    || nat_beq n 12
    || nat_beq n 13
    || nat_beq n 28
    || nat_beq n 29
    || nat_beq n 30
    || nat_beq n 133
    || nat_beq n 8232
    || nat_beq n 8233

unfoldable starts_newline : String → Bool
starts_newline [] = false
starts_newline (c ∷ s) = nat_beq (code c) 10

-- a character at the start of the first line
unfoldable put_first : Char → List String → List String
put_first c List.[] = List.◌∷◌ (c ∷ []) List.[]
put_first c (List.◌∷◌ l ls) = List.◌∷◌ (c ∷ l) ls

unfoldable pub splitlines : String → List String
unfolding is_line_break starts_newline put_first
splitlines [] = List.[]
splitlines (c ∷ s) =
    let rest = splitlines s in
    if is_line_break (code c)
    then if nat_beq (code c) 13 && starts_newline s then rest else List.◌∷◌ "" rest
    else put_first c rest

-- a text with a line break in it
unfoldable pub has_break : String → Bool
unfolding is_line_break
has_break [] = false
has_break (c ∷ s) = is_line_break (code c) || has_break s

-- the lines of a text without a break and of the line end behind it
pub splitlines-one :
    (s : String) → has_break s ≡ false → splitlines (str_append s "\n") ≡ List.◌∷◌ s List.[]
unfolding splitlines has_break
splitlines-one [] h = refl
splitlines-one (c ∷ s) h =
    let free : is_line_break (code c) ≡ false = ground arith in
    let rest : splitlines (str_append s "\n") ≡ List.◌∷◌ s List.[] =
      splitlines-one s (ground arith) in
    ap splitlines (cons-append c s "\n") ∙ rw (free, rest, splitlines, put_first) refl

put_first-non_empty : (c : Char) (ls : List String) → put_first c ls ≢ List.[]
unfolding put_first
put_first-non_empty c List.[] h = cc
put_first-non_empty c (List.◌∷◌ l ls) h = cc

splitlines-non_empty : (c : Char) (s : String) → splitlines (c ∷ s) ≢ List.[]
unfolding splitlines starts_newline
splitlines-non_empty c [] = elim (Bool-cases (is_line_break (code c))) [
  | inr b ↦ rw (b, splitlines) (put_first-non_empty c List.[])
  | inl b ↦ elim (Bool-cases (nat_beq (code c) 13 && false)) [
    | inr r ↦ rw (b, r, splitlines) (λ h. cc)
    | inl r ↦ absurd (ground (arith, r))
  ]
]
splitlines-non_empty c (d ∷ s) = elim (Bool-cases (is_line_break (code c))) [
  | inr b ↦ rw (b, splitlines) (put_first-non_empty c (splitlines (d ∷ s)))
  | inl b ↦ elim (Bool-cases (nat_beq (code c) 13 && nat_beq (code d) 10)) [
    | inr r ↦ rw (b, r, splitlines) (λ h. cc)
    | inl r ↦ rw (b, r, splitlines) (splitlines-non_empty d s)
  ]
]

put_first-append :
    (c : Char) (ls more : List String)
    → ls ≢ List.[]
    → put_first c (ls ++ more) ≡ put_first c ls ++ more
unfolding put_first
put_first-append c List.[] more h = absurd (h refl)
put_first-append c (List.◌∷◌ l ls) more h = refl

-- A line end behind a text closes its last line, or adds an empty one if the text ends in a break.
abbrev pub Closes : String → Type 0
Closes s =
    (more : List String) × ((more ≡ List.[]) ⊎ (more ≡ List.◌∷◌ "" List.[]))
    × (splitlines (str_append s "\n") ≡ splitlines s ++ more)

pub splitlines-Closes : (c : Char) (s : String) → Closes (c ∷ s)
unfolding splitlines starts_newline put_first
splitlines-Closes c [] = elim (Bool-cases (is_line_break (code c))) [
  | inr b ↦ (List.[], inl refl, ap splitlines (cons-append c [] "\n") ∙ rw (b, splitlines) refl)
  | inl b ↦ elim (Bool-cases (nat_beq (code c) 13)) [
    | inl r ↦
        (List.[], inl refl, ap splitlines (cons-append c [] "\n") ∙ rw (b, r, splitlines) refl)
    | inr r ↦ (
      List.◌∷◌ "" List.[],
      inr refl,
      ap splitlines (cons-append c [] "\n") ∙ rw (b, r, splitlines) refl,
    )
  ]
]
splitlines-Closes c (d ∷ s) =
    let (more, kind, e) = splitlines-Closes d s in
    let shape = ap splitlines (cons-append c (d ∷ s) "\n") in
    let next : starts_newline (str_append (d ∷ s) "\n") ≡ nat_beq (code d) 10 =
      ap starts_newline (cons-append d s "\n") in
    elim (Bool-cases (is_line_break (code c))) [
      | inr b ↦ (
        more,
        kind,
        shape
            ∙ rw (b, e, splitlines)
                (put_first-append c (splitlines (d ∷ s)) more (splitlines-non_empty d s)),
      )
      | inl b ↦ elim (Bool-cases (nat_beq (code c) 13 && nat_beq (code d) 10)) [
        | inl r ↦ (more, kind, shape ∙ rw (b, next, r, splitlines) e)
        | inr r ↦ (more, kind, shape ∙ rw (b, next, r, splitlines) (ap (List.◌∷◌ "") e))
      ]
    ]

-- the lines of lines that each have their end
unfoldable pub split_all : List String → List String
unfolding splitlines
split_all List.[] = List.[]
split_all (List.◌∷◌ l ls) = splitlines (str_append l "\n") ++ split_all ls

pub split_all_one-line :
    (l : String) → split_all (List.◌∷◌ l List.[]) ≡ splitlines (str_append l "\n")
unfolding split_all
split_all_one-line l = append-nil (splitlines (str_append l "\n"))

abbrev pub IsOneLine : String → Type 0
IsOneLine s = has_break s ≡ false

pub split_all-one : (ls : List String) → All IsOneLine ls → split_all ls ≡ ls
unfolding split_all
split_all-one List.[] h = refl
split_all-one (List.◌∷◌ l ls) h = rw (splitlines-one l h.0, split_all-one ls h.1) refl

pub split_all-append : (ls ms : List String) → split_all (ls ++ ms) ≡ split_all ls ++ split_all ms
unfolding split_all
split_all-append List.[] ms = refl
split_all-append (List.◌∷◌ l ls) ms =
    ap (λ x. splitlines (str_append l "\n") ++ x) (split_all-append ls ms)
    ∙ sym (append_assoc (splitlines (str_append l "\n")) (split_all ls) (split_all ms))
