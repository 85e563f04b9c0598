-- ===== src/Prefilter/Filling.antt =====
-- orchestrator/prefilter.py: the second loop of `CandidatePrefilterImpl.filter`.
use thorondor.Prelude.{
  ℕ, zero, suc, ◌≤◌, ◌<◌, Bool, true, false, List, [], ◌∷◌, ◌++◌, ◌≡◌, ◌⊎◌, refl, sym, ◌∙◌, ◌==◌,
  not, leb, length, any, All, All-append, length-append, count, count-append, any-append, any-count,
  Bool-cases, inl, inr, arith, filter_by,
}
use thorondor.Prefilter.{Item, Scoring, is_selected, fill_up}

module _ {S : Type 0} (scoring : Scoring S) where
  pub fill_up-full :
      (most : ℕ) (items selected : List (Item S))
      → most ≤ length selected
      → fill_up scoring most items selected ≡ selected
  unfolding fill_up
  fill_up-full most [] selected h = refl
  fill_up-full most (i ∷ rest) selected h =
      let full : leb most (length selected) ≡ true = ground (arith, h) in rw full refl

  pub fill_up-keeps :
      (test : Item S → Bool) (most : ℕ) (items selected : List (Item S))
      → any test selected ≡ true
      → any test (fill_up scoring most items selected) ≡ true
  unfolding fill_up
  fill_up-keeps test most [] selected h = h
  fill_up-keeps test most (i ∷ rest) selected h = elim (Bool-cases (leb most (length selected))) [
    | inl e ↦ rw e h
    | inr e ↦ elim (Bool-cases (is_selected scoring i.index selected)) [
      | inl x ↦ rw (e, x) (fill_up-keeps test most rest selected h)
      | inr x ↦
          rw (e, x) (fill_up-keeps test most rest (selected ++ i ∷ []) (rw (any-append, h) refl))
    ]
  ]

  pub fill_up-length :
      (most : ℕ) (items selected : List (Item S))
      → length selected ≤ most
      → length (fill_up scoring most items selected) ≤ most
  unfolding fill_up
  fill_up-length most [] selected h = h
  fill_up-length most (i ∷ rest) selected h = elim (Bool-cases (leb most (length selected))) [
    | inl e ↦ rw e h
    | inr e ↦ elim (Bool-cases (is_selected scoring i.index selected)) [
      | inl x ↦ rw (e, x) (fill_up-length most rest selected h)
      | inr x ↦
          let room : suc (length selected) ≤ most = ground (arith, e) in
          rw (e, x)
            (fill_up-length most rest (selected ++ i ∷ [])
              (omega (arith, room, length-append selected (i ∷ []))))
    ]
  ]

  pub fill_up-All :
      (P : Item S → Type 0) (most : ℕ) (items selected : List (Item S))
      → All P items
      → All P selected
      → All P (fill_up scoring most items selected)
  unfolding fill_up
  fill_up-All P most [] selected h hs = hs
  fill_up-All P most (i ∷ rest) selected (pi, h) hs =
      elim (Bool-cases (leb most (length selected))) [
        | inl e ↦ rw e hs
        | inr e ↦ elim (Bool-cases (is_selected scoring i.index selected)) [
          | inl x ↦ rw (e, x) (fill_up-All P most rest selected h hs)
          | inr x ↦
              rw (e, x)
                (fill_up-All P most rest (selected ++ i ∷ []) h
                  (All-append P selected (i ∷ []) hs (pi, tt)))
        ]
      ]

  -- No index is selected twice.
  pub fill_up-once :
      (index most : ℕ) (items selected : List (Item S))
      → count (λ i. i.index == index) selected ≤ 1
      → count (λ i. i.index == index) (fill_up scoring most items selected) ≤ 1
  unfolding fill_up
  fill_up-once index most [] selected h = h
  fill_up-once index most (i ∷ rest) selected h = elim (Bool-cases (leb most (length selected))) [
    | inl e ↦ rw e h
    | inr e ↦ elim (Bool-cases (is_selected scoring i.index selected)) [
      | inl x ↦ rw (e, x) (fill_up-once index most rest selected h)
      | inr x ↦
          rw (e, x)
            (fill_up-once index most rest (selected ++ i ∷ [])
              (elim (Bool-cases (i.index == index)) [
                | inl same ↦
                    let same_index : i.index ≡ index = ground (arith, same) in
                    let nowhere : is_selected scoring index selected ≡ false =
                      rw (← same_index) x in
                    let no_count = sym (any-count (λ j. j.index == index) selected) ∙ nowhere in
                    rw (count-append, same) (ground (arith, no_count))
                | inr other ↦ rw (count-append, other) (omega (arith, h))
              ]))
    ]
  ]

  -- Unless the limit is reached, every item is selected.
  pub fill_up-fills :
      (index most : ℕ) (items selected : List (Item S))
      → is_selected scoring index items ≡ true
      → (most ≤ length (fill_up scoring most items selected))
        ⊎ (is_selected scoring index (fill_up scoring most items selected) ≡ true)
  unfolding fill_up
  fill_up-fills index most [] selected h = absurd cc
  fill_up-fills index most (i ∷ rest) selected h = elim (Bool-cases (leb most (length selected))) [
    | inl e ↦ rw e (inl (ground (arith, e)))
    | inr e ↦ elim (Bool-cases (is_selected scoring i.index selected)) [
      | inl x ↦
          rw (e, x)
            (elim (Bool-cases (i.index == index)) [
              | inl same ↦
                  let same_index : i.index ≡ index = ground (arith, same) in
                  inr
                    (fill_up-keeps (λ j. j.index == index) most rest selected (rw (← same_index) x))
              | inr other ↦ fill_up-fills index most rest selected (rw other at h)
            ])
      | inr x ↦
          rw (e, x)
            (elim (Bool-cases (i.index == index)) [
              | inl same ↦ inr (
                  fill_up-keeps (λ j. j.index == index) most rest (selected ++ i ∷ [])
                    (rw (any-append, same) (ground arith)))
              | inr other ↦ fill_up-fills index most rest (selected ++ i ∷ []) (rw other at h)
            ])
    ]
  ]

  without_last :
      (n index : ℕ) (items : List (Item S))
      → index < n
      → is_selected scoring index items ≡ true
      → is_selected scoring index (filter_by (λ i. not (i.index == n)) items) ≡ true
  without_last n index [] le h = absurd cc
  without_last n index (i ∷ rest) le h = elim (Bool-cases (i.index == index)) [
    | inl same ↦
        let apart : (i.index == n) ≡ false = ground (arith, same, le) in rw (apart, same) refl
    | inr other ↦
        let later = without_last n index rest le (rw other at h) in
        elim (Bool-cases (i.index == n)) [ inl x ↦ rw x later | inr x ↦ rw (x, other) later ]
  ]

  kept_length :
      (n : ℕ) (items : List (Item S))
      → length (filter_by (λ i. not (i.index == n)) items) ≤ length items
  kept_length n [] = omega arith
  kept_length n (i ∷ rest) = elim (Bool-cases (i.index == n)) [
    | inl x ↦ rw x (omega (arith, kept_length n rest))
    | inr x ↦ rw x (omega (arith, kept_length n rest))
  ]

  removed_last :
      (n : ℕ) (items : List (Item S))
      → is_selected scoring n items ≡ true
      → suc (length (filter_by (λ i. not (i.index == n)) items)) ≤ length items
  removed_last n [] h = absurd cc
  removed_last n (i ∷ rest) h = elim (Bool-cases (i.index == n)) [
    | inl x ↦ rw x (omega (arith, kept_length n rest))
    | inr x ↦ rw x (omega (arith, removed_last n rest (rw x at h)))
  ]

  -- Items that have all indexes below a number are at least so many.
  pub pigeonhole :
      (n : ℕ) (items : List (Item S))
      → ((index : ℕ) → index < n → is_selected scoring index items ≡ true)
      → n ≤ length items
  pigeonhole zero items h = omega arith
  pigeonhole (suc n) items h =
      let fewer = removed_last n items (h n (omega arith)) in
      let rest =
        pigeonhole n (filter_by (λ i. not (i.index == n)) items)
          (λ index le. without_last n index items le (h index (omega (arith, le)))) in
      omega (arith, fewer, rest)
