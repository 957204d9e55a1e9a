-- ===== src/Artifacts/Manifest/Verification.antt =====
-- When `verify` of src/foampilot/artifacts/store.py finds no problem, and that `finalize` makes it so.
use mathlib.Core.Path.{subst}
use text.Mathlib.Text.{◌==◌}
use foam_pilot.Prelude.Dict.{Dict, get}
use foam_pilot.Prelude.Equality.{text_keys}
use foam_pilot.Prelude.{
  ◌≡◌, ◌≢◌, ◌↔◌, refl, sym, ap, ◌∙◌, String, true, Option, none, some, [], ◌∷◌, ◌++◌, All, ok,
  arith, inl, inr, Bool-cases, Option-cases, append-empty, eq_iff, nat_beq_iff,
}
use foam_pilot.Artifacts.Manifest.{
  Content, file, Files, Entry, link_entry, file_entry, same_entry, agree, Hashing, manifest_name,
  Problem, missing_manifest, invalid_manifest, missing_artifact, unexpected_artifact, entries,
  finalize, lacking, mismatches, compare, manifest_text, verify,
}

same_entry_iff : (e f : Entry) → (same_entry e f ≡ true) ↔ (e ≡ f)
unfolding same_entry
same_entry_iff (link_entry s) (link_entry t) = ground (arith, eq_iff s t)
same_entry_iff (link_entry s) (file_entry n t) = ground arith
same_entry_iff (file_entry m s) (link_entry t) = ground arith
same_entry_iff (file_entry m s) (file_entry n t) = ground (arith, eq_iff s t, nat_beq_iff m n)

abbrev Names : Dict String Entry → Dict String Entry → Type 0
Names d other = All (λ p. get p.0 other ≢ none) d

lacking-empty :
    (problem : String → Problem) (d other : Dict String Entry)
    → (lacking problem d other ≡ []) ↔ Names d other
unfolding lacking
lacking-empty problem [] other = ground arith
lacking-empty problem ((name, e) ∷ d) other =
    let (to, from) = lacking-empty problem d other in
    elim (Option-cases (get name other)) [
      | inl n ↦ rw (n, lacking) ((λ h. cc), (λ h. absurd (h.0 refl)))
      | inr (x, n) ↦ rw (n, lacking) ((λ h. ((λ z. cc), to h)), (λ h. from h.1))
    ]

agree_iff : (o p : Option Entry) → o ≢ none → (agree o p ≡ true) ↔ (o ≡ p)
unfolding agree
agree_iff none p h = absurd (h refl)
agree_iff (some e) none h = ground arith
agree_iff (some e) (some f) h = ground (arith, same_entry_iff e f)

abbrev Agreeing : Dict String Entry → Dict String Entry → Dict String Entry → Type 0
Agreeing d actual expected = All (λ p. get p.0 actual ≡ get p.0 expected) d

mismatches-empty :
    (d actual expected : Dict String Entry)
    → Names d actual
    → Names d expected
    → (mismatches d actual expected ≡ []) ↔ Agreeing d actual expected
unfolding mismatches
mismatches-empty [] actual expected h k = ground arith
mismatches-empty ((name, e) ∷ d) actual expected h k =
    let (to, from) = mismatches-empty d actual expected h.1 k.1 in
    elim (Option-cases (get name expected)) [
      | inl n ↦ absurd (k.0 n)
      | inr (x, n) ↦
          let (same, back) = agree_iff (get name actual) (some x) h.0 in
          elim (Bool-cases (agree (get name actual) (some x))) [
            | inl s ↦ rw (n, mismatches, s) ((λ z. (same s, to z)), (λ z. from z.1))
            | inr s ↦ rw (n, mismatches, s) ((λ z. cc), (λ z. let t = back z.0 in cc))
          ]
    ]

-- what holds of all entries holds of one that is looked up
get-All :
    (P : String × Entry → Type 0) (name : String) (d : Dict String Entry) {e : Entry}
    → All P d
    → get name d ≡ some e
    → P (name, e)
unfolding get
get-All P name [] h g = cc
get-All P name ((j, f) ∷ d) {e} h g = elim (Bool-cases (j == name)) [
  | inl b ↦
      let i : j ≡ name = (eq_iff j name).0 b in
      let q : f ≡ e = ground (arith, b, g) in let pair : (j, f) ≡ (name, e) = cc in subst P pair h.0
  | inr b ↦ get-All P name d h.1 (ground (arith, b, g))
]

Names-weaken : (l d : Dict String Entry) (j : String) (f : Entry) → Names l d → Names l ((j, f) ∷ d)
unfolding get
Names-weaken [] d j f h = tt
Names-weaken ((name, e) ∷ l) d j f h = (ground (arith, h.0), Names-weaken l d j f h.1)

Names-self : (d : Dict String Entry) → Names d d
unfolding get
Names-self [] = tt
Names-self ((j, f) ∷ d) = (ground (arith, eq_iff j j), Names-weaken d d j f (Names-self d))

-- both have the same names, with the same entries
abbrev pub SameEntries : Dict String Entry → Dict String Entry → Type 0
SameEntries expected actual = (name : String) → get name expected ≡ get name actual

same-Names :
    (expected actual : Dict String Entry)
    → SameEntries expected actual
    → (l : Dict String Entry) → Names l expected
    → Names l actual
same-Names expected actual h [] k = tt
same-Names expected actual h ((name, e) ∷ l) k =
    ((λ n. k.0 (h name ∙ n)), same-Names expected actual h l k.1)

same-Agreeing :
    (expected actual : Dict String Entry)
    → SameEntries expected actual
    → (l : Dict String Entry) → Agreeing l actual expected
same-Agreeing expected actual h [] = tt
same-Agreeing expected actual h ((name, e) ∷ l) = (sym (h name), same-Agreeing expected actual h l)

Agreeing-same :
    (expected actual : Dict String Entry)
    → Names expected actual
    → Agreeing actual actual expected
    → SameEntries expected actual
Agreeing-same expected actual n a name = elim (Option-cases (get name actual)) [
  | inr (x, g) ↦ sym (get-All (λ p. get p.0 actual ≡ get p.0 expected) name actual a g)
  | inl g ↦ elim (Option-cases (get name expected)) [
    | inl m ↦ m ∙ sym g
    | inr (x, m) ↦ absurd (get-All (λ p. get p.0 actual ≢ none) name expected n m g)
  ]
]

compare-exactly :
    (expected actual : Dict String Entry)
    → (compare (some expected) actual ≡ []) ↔ SameEntries expected actual
unfolding compare
compare-exactly expected actual =
    let missing = lacking missing_artifact expected actual in
    let extra = lacking unexpected_artifact actual expected in
    (
      (λ h.
          let (both, m) =
            (append-empty (missing ++ extra) (mismatches actual actual expected)).0 h in
          let (e, x) = (append-empty missing extra).0 both in
          let n : Names expected actual = (lacking-empty missing_artifact expected actual).0 e in
          let k : Names actual expected = (lacking-empty unexpected_artifact actual expected).0 x in
          Agreeing-same expected actual n
            ((mismatches-empty actual actual expected (Names-self actual) k).0 m)),
      (λ h.
          let n : Names expected actual =
            same-Names expected actual h expected (Names-self expected) in
          let k : Names actual expected =
            same-Names actual expected (λ name. sym (h name)) actual (Names-self actual) in
          (append-empty (missing ++ extra) (mismatches actual actual expected)).1 (
            (append-empty missing extra).1 (
              (lacking-empty missing_artifact expected actual).1 n,
              (lacking-empty unexpected_artifact actual expected).1 k,
            ),
            (mismatches-empty actual actual expected (Names-self actual) k).1
                (same-Agreeing expected actual h actual),
          )),
    )

module _ (hashing : Hashing) where
  -- the manifest is a file or a link to one, and a mapping of the entries that the directory has now
  pub record IsFrozen (files : Files) : Type 0 where
    pub text : String
    pub expected : Dict String Entry
    pub at_manifest : manifest_text hashing (get manifest_name files) ≡ some text
    pub loaded : hashing.load text ≡ some expected
    pub same : SameEntries expected (entries hashing files)

  verify-to : (files : Files) → verify hashing files ≡ [] → IsFrozen files
  unfolding verify compare
  verify-to files h = elim (Option-cases (manifest_text hashing (get manifest_name files))) [
    | inl n ↦ let v : verify hashing files ≡ missing_manifest ∷ [] = rw (n, verify) refl in cc
    | inr (text, n) ↦ elim (Option-cases (hashing.load text)) [
      | inl m ↦ let v : verify hashing files ≡ invalid_manifest ∷ [] = rw (n, verify, m) refl in cc
      | inr (expected, m) ↦
          let v : verify hashing files ≡ compare (some expected) (entries hashing files) =
            rw (n, verify, m) refl in
          record {
            text = text;
            expected = expected;
            at_manifest = n;
            loaded = m;
            same = (compare-exactly expected (entries hashing files)).0 (sym v ∙ h);
          }
    ]
  ]

  -- A run directory verifies without a problem exactly if its manifest is a file, or a symbolic link
  -- that leads to one, with a mapping that gives every path the entry that it has now: none is missing, none is new and none is changed.
  pub verify-exactly : (files : Files) → (verify hashing files ≡ []) ↔ IsFrozen files
  unfolding verify
  verify-exactly files = (
    verify-to files,
    (λ z.
        rw (z.at_manifest, verify, z.loaded)
          ((compare-exactly z.expected (entries hashing files)).1 z.same)),
  )

  entries-snoc :
      (files : Files) (content : Content)
      → entries hashing (files ++ (manifest_name, content) ∷ []) ≡ entries hashing files
  unfolding entries
  entries-snoc [] content = refl
  entries-snoc ((name, c) ∷ files) content = rw (entries-snoc files content) refl

  get-snoc :
      (name : String) (content : Content) (files : Files)
      → get name files ≡ none
      → get name (files ++ (name, content) ∷ []) ≡ some content
  unfolding get
  get-snoc name content [] h = ground (arith, eq_iff name name)
  get-snoc name content ((j, c) ∷ files) h = ground (arith, get-snoc name content files, h)

  -- Freezing a run directory without a manifest adds the manifest and nothing else, and the
  -- directory then verifies without a problem, if the text of the manifest brings back its entries.
  pub finalize-verify :
      (files : Files)
      → hashing.load (hashing.dump (entries hashing files)) ≡ some (entries hashing files)
      → get manifest_name files ≡ none
      → let frozen = files ++ (manifest_name, file (hashing.dump (entries hashing files))) ∷ [] in
        (finalize hashing files ≡ ok frozen) × (verify hashing frozen ≡ [])
  unfolding finalize manifest_text
  finalize-verify files h n =
      let text = hashing.dump (entries hashing files) in
      let same = entries-snoc files (file text) in
      (
        rw (n, finalize) refl,
        (verify-exactly (files ++ (manifest_name, file text) ∷ [])).1 (record {
          text = text;
          expected = entries hashing files;
          at_manifest = ap (manifest_text hashing) (get-snoc manifest_name (file text) files n);
          loaded = h;
          same = λ name. ap (get name) (sym same);
        }),
      )
