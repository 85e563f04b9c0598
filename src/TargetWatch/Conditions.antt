-- ===== src/TargetWatch/Conditions.antt =====
-- orchestrator/target_watch.py: when the condition of a watch is met.
use mathlib.Core.Path.{subst}
use thorondor.Prelude.{
  Bool, true, false, Option, none, some, ◌≡◌, ◌↔◌, ◌⊎◌, refl, sym, ◌∙◌, ◌&&◌, ◌||◌, if◌then◌else◌,
  String, str_eq, eq_iff, lookup, Bool-cases, Option-cases, inl, inr,
}
use thorondor.PageCache.{StoredTargetSnapshot}
use thorondor.TargetWatch.{Words}
use thorondor.TargetWatch.Verdicts.{
  TargetState, TargetWatch, or_empty, is_same, is_changed, state_of, folded, state_matches,
  previous_matches, evaluate_watch,
}
use thorondor.TargetWatch.Changes.{Unchanged, is_same_iff, both_left, both_right}

module _ (w : Words) where
  -- An actual text is the expected one or, if the match is not exact, contains it; in both white space and
  -- case do not count.
  abbrev pub Agrees : Bool → String → String → Type 0
  Agrees true actual expected =
      w.casefold (w.normalize_text actual) ≡ w.casefold (w.normalize_text expected)
  Agrees false actual expected =
      w.contains (w.casefold (w.normalize_text expected)) (w.casefold (w.normalize_text actual))
      ≡ true

  -- An element is in a state: its text agrees with the state's, or without one its attribute does.
  abbrev pub IsIn : TargetState → Bool → StoredTargetSnapshot → Type 0
  IsIn state exact s =
      ((t : String) × (state.text ≡ some t) × Agrees exact (or_empty s.text) t)
      ⊎ ((state.text ≡ none)
          × Agrees exact (or_empty (lookup (w.casefold (or_empty state.attribute)) s.attributes))
              (or_empty state.value))

  -- The element was as expected or, without an expectation, not yet as desired.
  abbrev pub WasReady : TargetWatch → StoredTargetSnapshot → Type 0
  WasReady watch previous =
      ((e : TargetState) × (watch.expected ≡ some e) × IsIn e watch.exact previous)
      ⊎ ((watch.expected ≡ none) × ¬ IsIn watch.desired watch.exact previous)

  abbrev pub IsMet : TargetWatch → Option StoredTargetSnapshot → StoredTargetSnapshot → Type 0
  IsMet watch none current = ⊥
  IsMet watch (some previous) current =
      (previous.resolution ≡ "found")
      × (current.resolution ≡ "found")
      × ¬ Unchanged previous current
      × WasReady watch previous
      × IsIn watch.desired watch.exact current

  fold_iff :
      (exact : Bool) (actual expected : String)
      → ((if exact
            then str_eq (folded w actual) (folded w expected)
            else w.contains (folded w expected) (folded w actual))
          ≡ true)
        ↔ Agrees exact actual expected
  fold_iff true actual expected = eq_iff (folded w actual) (folded w expected)
  fold_iff false actual expected = ((λ h. h), (λ h. h))

  state_matches_iff :
      (s : StoredTargetSnapshot) (state : TargetState) (exact : Bool)
      → str_eq s.resolution "found" ≡ true
      → (state_matches w (some s) state exact ≡ true) ↔ IsIn state exact s
  unfolding state_matches
  state_matches_iff s state exact found = elim (Option-cases state.text) [
    | inl e ↦
        let q =
          fold_iff exact (or_empty (lookup (w.casefold (or_empty state.attribute)) s.attributes))
            (or_empty state.value) in
        (
          (λ h. inr (e, q.0 (rw (found, e) at h))),
          (λ is. elim is [ inl (t, x, a) ↦ absurd cc | inr (x, a) ↦ rw (found, e) (q.1 a) ]),
        )
    | inr (t, e) ↦
        let q = fold_iff exact (or_empty s.text) t in
        (
          (λ h. inl (t, e, q.0 (rw (found, e) at h))),
          (λ is. elim is [
            | inl (t', x, a) ↦
                let same : t' ≡ t = cc in
                rw (found, e) (q.1 (subst (Agrees exact (or_empty s.text)) same a))
            | inr (x, a) ↦ absurd cc
          ]),
        )
  ]

  ready_iff :
      (watch : TargetWatch) (p : StoredTargetSnapshot)
      → str_eq p.resolution "found" ≡ true
      → (previous_matches w watch.expected watch (some p) ≡ true) ↔ WasReady watch p
  ready_iff watch p found = elim (Option-cases watch.expected) [
    | inl e ↦
        let q = state_matches_iff p watch.desired watch.exact found in
        (
          (λ h. inr (
            e,
            (λ is. let held = q.1 is in let bad : false ≡ true = rw (e, found, held) at h in cc),
          )),
          (λ was. elim was [
            | inl (s, x, a) ↦ absurd cc
            | inr (x, a) ↦
                rw (e, found)
                  (elim (Bool-cases (state_matches w (some p) watch.desired watch.exact)) [
                    | inl y ↦ absurd (a (q.0 y))
                    | inr y ↦ rw y refl
                  ])
          ]),
        )
    | inr (s, e) ↦
        let q = state_matches_iff p s watch.exact found in
        (
          (λ h. inl (s, e, q.0 (rw e at h))),
          (λ was. elim was [
            | inl (s', x, a) ↦
                let same : s' ≡ s = cc in rw e (q.1 (subst (λ z. IsIn z watch.exact p) same a))
            | inr (x, a) ↦ absurd cc
          ]),
        )
  ]

  -- The test of `evaluate_watch` for an element that is found now.
  state_of-IsMet :
      (watch : TargetWatch) (previous : Option StoredTargetSnapshot)
      (current : StoredTargetSnapshot)
      → str_eq current.resolution "found" ≡ true
      → (is_changed w (state_of w previous current)
            && previous_matches w watch.expected watch previous
            && state_matches w (some current) watch.desired watch.exact
          ≡ true)
        ↔ IsMet watch previous current
  state_of-IsMet watch none current now = ((λ h. absurd cc), (λ h. absurd h))
  state_of-IsMet watch (some p) current now = elim (Bool-cases (str_eq p.resolution "found")) [
    | inl e ↦
        let found = (eq_iff p.resolution "found").0 e in
        let there = (eq_iff current.resolution "found").0 now in
        let before = ready_iff watch p e in
        let after = state_matches_iff current watch.desired watch.exact now in
        elim (Bool-cases (is_same p current)) [
          | inl x ↦
              rw (e, x)
                (
                  (λ h. absurd cc),
                  (λ (f, g, other, a, b). absurd (other ((is_same_iff p current).0 x))),
                )
          | inr x ↦
              rw (e, x)
                (
                  (λ h. (
                    found,
                    there,
                    (λ same.
                        let bad : true ≡ false = sym ((is_same_iff p current).1 same) ∙ x in cc),
                    before.0 (both_left _ _ h),
                    after.0 (both_right _ _ h),
                  )),
                  (λ (f, g, y, a, b). rw (before.1 a, after.1 b) refl),
                )
        ]
    | inr e ↦ rw e (
      (λ h. absurd cc),
      (λ (f, g, x, a, b).
          let there : str_eq p.resolution "found" ≡ true = (eq_iff p.resolution "found").1 f in
          let bad : true ≡ false = sym there ∙ e in absurd cc),
    )
  ]

  IsMet-resolution :
      (watch : TargetWatch) (previous : Option StoredTargetSnapshot)
      (current : StoredTargetSnapshot)
      → IsMet watch previous current
      → current.resolution ≡ "found"
  IsMet-resolution watch none current h = absurd h
  IsMet-resolution watch (some p) current (f, g, x, a, b) = g

  unfound :
      (current : StoredTargetSnapshot) (state : TargetState) (exact changed_ ready : Bool)
      → str_eq current.resolution "found" ≡ false
      → changed_ && ready && state_matches w (some current) state exact ≡ false
  unfolding state_matches
  unfound current state exact true true e = rw e refl
  unfound current state exact true false e = refl
  unfound current state exact false ready e = refl

  -- The condition of a watch is met exactly if the element was found before and is found now, its text or
  -- the value of some attribute has changed, it was as expected, or without an expectation not yet as
  -- desired, and it is as desired now. An element is as wanted if its text, or without a wanted text
  -- its attribute, equals the wanted one, or contains it where the match is not exact, both
  -- normalized and case-folded.
  pub evaluate_watch_iff :
      (watch : TargetWatch) (previous : Option StoredTargetSnapshot)
      (current : StoredTargetSnapshot)
      → ((evaluate_watch w watch previous current).condition_met ≡ true)
        ↔ IsMet watch previous current
  unfolding evaluate_watch
  evaluate_watch_iff watch previous current =
      elim (Bool-cases
        (str_eq current.resolution "ambiguous" || str_eq current.resolution "unsupported")) [
          | inl e ↦ rw e (
            (λ h. absurd cc),
            (λ met.
                let found = IsMet-resolution watch previous current met in
                let bad : false ≡ true = rw found at e in absurd cc),
          )
          | inr e ↦ elim (Bool-cases (str_eq current.resolution "missing")) [
            | inl x ↦
                rw (e, x)
                  (
                    (λ h. absurd cc),
                    (λ met.
                        let found = IsMet-resolution watch previous current met in
                        let bad : false ≡ true = rw found at x in absurd cc),
                  )
            | inr x ↦ elim (Bool-cases (str_eq current.resolution "found")) [
              | inl now ↦ rw (e, x) (state_of-IsMet watch previous current now)
              | inr off ↦
                  let fails =
                    unfound current watch.desired watch.exact
                      (is_changed w (state_of w previous current))
                      (previous_matches w watch.expected watch previous) off in
                  rw (e, x)
                    (
                      (λ h. let bad : false ≡ true = sym fails ∙ h in absurd cc),
                      (λ met.
                          let found = IsMet-resolution watch previous current met in
                          let same = (eq_iff current.resolution "found").1 found in
                          let bad : false ≡ true = sym off ∙ same in absurd cc),
                    )
            ]
          ]
        ]
