-- ===== src/Acceptance/Evaluator/Scopes.antt =====
-- `_scoped_samples` of src/foampilot/acceptance/evaluator.py gives the samples that are in the scope.
use mathlib.Core.Path.{subst}
use foam_pilot.Prelude.{
  ◌≡◌, ◌↔◌, inl, inr, refl, sym, ap, ◌∙◌, Bool, true, false, none, some, List, [], ◌∷◌, ◌++◌, All,
  Some, arith, Bool-cases, Option-cases,
}
use foam_pilot.Acceptance.Conditions.{
  Floats, Sample, Scope, latest, final, all_times, range, select, last_only, has_time, max_time,
  time_is, in_range, at_latest, scoped_samples,
}
use foam_pilot.Acceptance.Evaluator.Spec.{Untimed, AtMost, HasOrder, NotAfter, IsLatest, InScope}
use foam_pilot.Acceptance.Evaluator.Picks.{
  Picks, select-Picks, whole-Picks, select-yes, select-no, All-weaken, All-snoc, Some-snoc,
  last_only-snoc, snoc-cases, snoc-same,
}
use foam_pilot.Acceptance.Evaluator.Maximum.{
  one-NotAfter, max_time-above, max_time-bounds, max_time-IsAttained,
}

module _ {F : Type 0} (floats : Floats F) (order : HasOrder floats) where
  -- what is timed
  abbrev IsTimed : Sample F → Type 0
  IsTimed s = (t : F) × (s.time ≡ some t)

  has_time-cases :
      (s : Sample F) → (has_time s ≡ false → Untimed s) × (has_time s ≡ true → IsTimed s)
  unfolding has_time
  has_time-cases s = elim (Option-cases s.time) [
    | inl n ↦ ((λ h. n), (λ h. absurd (ground (arith, h, n))))
    | inr (t, n) ↦ ((λ h. absurd (ground (arith, h, n))), (λ h. (t, n)))
  ]

  all-Untimed : (l : List (Sample F)) → select has_time l ≡ [] → All Untimed l
  unfolding select
  all-Untimed [] h = tt
  all-Untimed (s ∷ l) h = elim (Bool-cases (has_time s)) [
    | inl e ↦ absurd (ground (arith, e, h))
    | inr e ↦ ((has_time-cases s).0 e, all-Untimed l (ground (arith, e, h)))
  ]

  -- what holds of the timed ones holds of all, if it holds of those without a time
  timed-All :
      (P : Sample F → Type 0) (l : List (Sample F))
      → ((s : Sample F) → Untimed s → P s)
      → All P (select has_time l)
      → All P l
  unfolding select
  timed-All P [] f h = tt
  timed-All P (s ∷ l) f h = elim (Bool-cases (has_time s)) [
    | inl e ↦ let k = subst (All P) (select-yes has_time s l e) h in (k.0, timed-All P l f k.1)
    | inr e ↦
        (f s ((has_time-cases s).0 e), timed-All P l f (subst (All P) (select-no has_time s l e) h))
  ]

  select-All :
      (P : Sample F → Type 0) (p : Sample F → Bool) (l : List (Sample F))
      → All P l
      → All P (select p l)
  unfolding select
  select-All P p [] h = tt
  select-All P p (s ∷ l) h = elim (Bool-cases (p s)) [
    | inl e ↦ rw (e, select) (h.0, select-All P p l h.1)
    | inr e ↦ rw (e, select) (select-All P p l h.1)
  ]

  Some-select :
      (P : Sample F → Type 0) (p : Sample F → Bool) (l : List (Sample F))
      → Some P (select p l)
      → Some P l
  unfolding select
  Some-select P p [] h = absurd h
  Some-select P p (s ∷ l) h = elim (Bool-cases (p s)) [
    | inl e ↦ elim (subst (Some P) (select-yes p s l e) h) [
      | inl k ↦ inl k
      | inr k ↦ inr (Some-select P p l k)
    ]
    | inr e ↦ inr (Some-select P p l (subst (Some P) (select-no p s l e) h))
  ]

  Some-All :
      (P Q R : Sample F → Type 0) (l : List (Sample F))
      → ((s : Sample F) → P s → Q s → R s)
      → Some P l
      → All Q l
      → (s : Sample F) × R s
  Some-All P Q R [] f h a = absurd h
  Some-All P Q R (s ∷ l) f (inl h) a = (s, f s h a.0)
  Some-All P Q R (s ∷ l) f (inr h) a = Some-All P Q R l f h a.1

  time_is-cases :
      (m : F) (u : Sample F)
      → (time_is floats m u ≡ true) ↔ ((v : F) × (u.time ≡ some v) × (floats.equal v m ≡ true))
  unfolding time_is
  time_is-cases m u = elim (Option-cases u.time) [
    | inl n ↦ rw (n, time_is) ((λ h. cc), (λ h. let q = h.1 in cc))
    | inr (v, n) ↦ rw (n, time_is) ((λ h. (v, refl, h)), (λ h. let q = h.1 in let k = h.2 in cc))
  ]

  in_range-cases :
      (start end : F) (s : Sample F)
      → (in_range floats start end s ≡ true)
        ↔ ((t : F) × (s.time ≡ some t) × AtMost floats start t × AtMost floats t end)
  unfolding in_range
  in_range-cases start end s = elim (Option-cases s.time) [
    | inl n ↦ rw (n, in_range) ((λ h. cc), (λ h. let q = h.1 in cc))
    | inr (t, n) ↦
        rw (n, in_range)
          (
            (λ h. (t, refl, ground (arith, h), ground (arith, h))),
            (λ h.
                let (v, q, a, b) = h in
                let same : v ≡ t = cc in
                let a' = subst (λ z. AtMost floats start z) same a in
                let b' = subst (λ z. AtMost floats z end) same b in ground (arith, a', b')),
          )
  ]

  All-each : (P : Sample F → Type 0) (l : List (Sample F)) → ((s : Sample F) → P s) → All P l
  All-each P [] f = tt
  All-each P (s ∷ l) f = (f s, All-each P l f)

  select-IsTimed : (l : List (Sample F)) → All IsTimed (select has_time l)
  unfolding select
  select-IsTimed [] = tt
  select-IsTimed (s ∷ l) = elim (Bool-cases (has_time s)) [
    | inl e ↦
        subst (All IsTimed) (sym (select-yes has_time s l e))
          ((has_time-cases s).1 e, select-IsTimed l)
    | inr e ↦ subst (All IsTimed) (sym (select-no has_time s l e)) (select-IsTimed l)
  ]

  untimed-is : (m : F) (s : Sample F) → has_time s ≡ false → time_is floats m s ≡ false
  unfolding has_time time_is
  untimed-is m s h = ground (arith, h)

  -- a time that is sought is one
  select-time_is :
      (m : F) (l : List (Sample F))
      → select (time_is floats m) (select has_time l) ≡ select (time_is floats m) l
  unfolding select
  select-time_is m [] = refl
  select-time_is m (s ∷ l) = elim (Bool-cases (has_time s)) [
    | inl e ↦
        ap (select (time_is floats m)) (select-yes has_time s l e)
        ∙ (elim (Bool-cases (time_is floats m s)) [
          | inl t ↦
              select-yes _ s (select has_time l) t
              ∙ ap (λ k. s ∷ k) (select-time_is m l)
              ∙ sym (select-yes (time_is floats m) s l t)
          | inr t ↦
              select-no _ s (select has_time l) t
              ∙ select-time_is m l
              ∙ sym (select-no (time_is floats m) s l t)
        ])
    | inr e ↦
        ap (select (time_is floats m)) (select-no has_time s l e)
        ∙ select-time_is m l
        ∙ sym (select-no (time_is floats m) s l (untimed-is m s e))
  ]

  -- without any time, the last sample is the latest
  last-Picks :
      (front : List (Sample F)) (x : Sample F)
      → let l = front ++ x ∷ [] in All Untimed l → Picks (IsLatest floats l) l (x ∷ [])
  last-Picks front x untimed Q =
      let l = front ++ x ∷ [] in
      let it : IsLatest floats l x = inl (untimed, (front, refl)) in
      (
        ((λ z. Some-snoc (IsLatest floats l) front x it), (λ z. λ k. cc)),
        (
          (λ h.
              All-weaken Untimed (λ u. IsLatest floats l u → Q u) l
                (λ u n latest_one. elim latest_one [
                  | inl (a, b) ↦ subst Q (snoc-same front b.0 x u b.1) h.0
                  | inr b ↦ let q : none ≡ some b.0 = sym n ∙ b.1 in absurd (ground (arith, q))
                ])
                untimed),
          (λ h. (All-snoc (λ u. IsLatest floats l u → Q u) front x h it, tt)),
        ),
      )

  no_time-Picks : (l : List (Sample F)) → All Untimed l → Picks (IsLatest floats l) l (last_only l)
  unfolding last_only
  no_time-Picks l untimed = elim (snoc-cases l) [
    | inl e ↦
        subst (λ k. Picks (IsLatest floats k) k (last_only k)) (sym e)
          (λ Q. (((λ z. absurd (z refl)), (λ z. absurd z)), ((λ z. tt), (λ z. tt))))
    | inr (front, x, e) ↦
        subst (λ k. Picks (IsLatest floats k) k (last_only k)) (sym e)
          (subst (Picks (IsLatest floats (front ++ x ∷ [])) (front ++ x ∷ []))
            (sym (last_only-snoc front x)) (last-Picks front x (subst (All Untimed) e untimed)))
  ]

  -- the samples at the greatest time, if it is one of theirs and none is after it
  at_max-IsLatest :
      (m : F) (l : List (Sample F))
      → All (NotAfter floats m) l
      → Some (λ s. s.time ≡ some m) l
      → All (λ u. (time_is floats m u ≡ true) ↔ IsLatest floats l u) l
  at_max-IsLatest m l bounds there =
      All-weaken (NotAfter floats m) (λ u. (time_is floats m u ≡ true) ↔ IsLatest floats l u) l
        (λ u below. (
          (λ h.
              let (v, n, e) = (time_is-cases m u).0 h in
              let above = ((order.same v m).0 e).1 in
              inr (
                v,
                n,
                All-weaken (NotAfter floats m) (NotAfter floats v) l
                    (λ w k a q. order.transitive a m v (k a q) above) bounds,
              )),
          (λ h. elim h [
            | inl (untimed, b) ↦
                absurd
                  (Some-All (λ s. s.time ≡ some m) Untimed (λ s. ⊥) l
                    (λ s a n. let q : none ≡ some m = sym n ∙ a in absurd (ground (arith, q))) there
                    untimed).1
            | inr b ↦
                let reached =
                  (Some-All (λ s. s.time ≡ some m) (NotAfter floats b.0) (λ s. AtMost floats m b.0)
                    l (λ s a k. k m a) there b.2).1 in
                (time_is-cases m u).1 (b.0, b.1, (order.same b.0 m).1 (below b.0 b.1, reached))
          ]),
        ))
        bounds

  timed-Picks :
      (l : List (Sample F)) (s : Sample F) (timed : List (Sample F)) (t : F)
      → select has_time l ≡ s ∷ timed
      → s.time ≡ some t
      → Picks (IsLatest floats l) l (select (time_is floats (max_time floats t timed)) (s ∷ timed))
  timed-Picks l s timed t e n =
      let m = max_time floats t timed in
      let bounds : All (NotAfter floats m) l =
        timed-All (NotAfter floats m) l
          (λ u k v q. let z : none ≡ some v = sym k ∙ q in absurd (ground (arith, z)))
          (subst (All (NotAfter floats m)) (sym e) (
            one-NotAfter floats order s t m n (max_time-above floats order t timed),
            max_time-bounds floats order t timed,
          )) in
      let found : Some (λ u. u.time ≡ some m) (s ∷ timed) =
        elim (max_time-IsAttained floats order t timed) [
          | inl q ↦ inl (n ∙ ap (λ z. some z) (sym q))
          | inr q ↦ inr q
        ] in
      let there =
        Some-select (λ u. u.time ≡ some m) has_time l
          (subst (Some (λ u. u.time ≡ some m)) (sym e) found) in
      subst (Picks (IsLatest floats l) l)
        (sym (select-time_is m l) ∙ ap (select (time_is floats m)) e)
        (select-Picks (time_is floats m) (IsLatest floats l) l (at_max-IsLatest m l bounds there))

  newest-Picks :
      (l timed : List (Sample F))
      → select has_time l ≡ timed
      → Picks (IsLatest floats l) l (at_latest floats timed l)
  unfolding at_latest
  newest-Picks l [] e = no_time-Picks l (all-Untimed l e)
  newest-Picks l (s ∷ timed) e =
      let (t, n) = (subst (All IsTimed) e (select-IsTimed l)).0 in
      rw (n, at_latest) (timed-Picks l s timed t e n)

  -- what the code selects is what is in the scope
  pub scoped-Picks :
      (scope : Scope F) (l : List (Sample F))
      → Picks (InScope floats scope l) l (scoped_samples floats scope l)
  unfolding scoped_samples
  scoped-Picks all_times l = whole-Picks l
  scoped-Picks latest l = newest-Picks l (select has_time l) refl
  scoped-Picks final l = newest-Picks l (select has_time l) refl
  scoped-Picks (range start end) l =
      select-Picks (in_range floats start end) (InScope floats (range start end) l) l (
        All-each (λ s. (in_range floats start end s ≡ true) ↔ InScope floats (range start end) l s)
          l (in_range-cases start end))
