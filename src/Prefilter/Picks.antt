-- ===== src/Prefilter/Picks.antt =====
-- orchestrator/prefilter.py: the loops of `CandidatePrefilterImpl.filter`.
use thorondor.Prelude.{
  ℕ, suc, ◌+◌, ◌≤◌, Bool, true, false, List, [], ◌∷◌, ◌++◌, ◌≡◌, refl, sym, ap, ◌∙◌, ◌||◌, leb,
  length, any, All, All-append, length-append, count, count-append, any-append, any-count,
  Bool-cases, inl, inr, eq_iff, eq_refl, arith,
}
use thorondor.Prefilter.{
  Scoring, Item, SourceKey, of_id, of_url, source_key, same_key, has_source, best_by_source,
  take_sources,
}

same_key_refl : (k : SourceKey) → same_key k k ≡ true
same_key_refl (of_id a) = ground arith
same_key_refl (of_url u) = eq_refl u

pub same_key_eq : (j k : SourceKey) → same_key j k ≡ true → j ≡ k
same_key_eq (of_id a) (of_id b) h = let e : a ≡ b = ground (arith, h) in ap of_id e
same_key_eq (of_id a) (of_url v) h = absurd cc
same_key_eq (of_url u) (of_id b) h = absurd cc
same_key_eq (of_url u) (of_url v) h = ap of_url ((eq_iff u v).0 h)

module _ {S : Type 0} (scoring : Scoring S) where
  -- A source is among the best ones if it was or one of the items has it.
  pub best_by_source-sources :
      (key : SourceKey) (items best : List (Item S))
      → has_source scoring key (best_by_source scoring items best)
        ≡ has_source scoring key best || has_source scoring key items
  unfolding best_by_source
  best_by_source-sources key [] best = ground arith
  best_by_source-sources key (i ∷ rest) best =
      elim (Bool-cases (has_source scoring (source_key i.chunk) best)) [
        | inl e ↦
            rw (e, best_by_source-sources key rest best)
              (elim (Bool-cases (same_key (source_key i.chunk) key)) [
                | inl same ↦
                    let there : has_source scoring key best ≡ true =
                      rw (← same_key_eq (source_key i.chunk) key same) e in
                    rw (same, there) refl
                | inr other ↦ rw other refl
              ])
        | inr e ↦
            rw (e, best_by_source-sources key rest (best ++ i ∷ []), any-append) (ground arith)
      ]

  pub best_by_source-count :
      (test : Item S → Bool) (items best : List (Item S))
      → count test (best_by_source scoring items best) ≤ count test best + count test items
  unfolding best_by_source
  best_by_source-count test [] best = omega arith
  best_by_source-count test (i ∷ rest) best =
      elim (Bool-cases (has_source scoring (source_key i.chunk) best)) [
        | inl e ↦ rw e (omega (arith, best_by_source-count test rest best))
        | inr e ↦ rw e (
            omega (
              arith,
              best_by_source-count test rest (best ++ i ∷ []),
              count-append test best (i ∷ []),
            ))
      ]

  -- No two of the best items have the same source.
  pub best_by_source-once :
      (key : SourceKey) (items best : List (Item S))
      → count (λ i. same_key (source_key i.chunk) key) best ≤ 1
      → count (λ i. same_key (source_key i.chunk) key) (best_by_source scoring items best) ≤ 1
  unfolding best_by_source
  best_by_source-once key [] best h = h
  best_by_source-once key (i ∷ rest) best h =
      elim (Bool-cases (has_source scoring (source_key i.chunk) best)) [
        | inl e ↦ rw e (best_by_source-once key rest best h)
        | inr e ↦ rw e (
            best_by_source-once key rest (best ++ i ∷ [])
              (elim (Bool-cases (same_key (source_key i.chunk) key)) [
                | inl same ↦
                    let nowhere : has_source scoring key best ≡ false =
                      rw (← same_key_eq (source_key i.chunk) key same) e in
                    let no_count =
                      sym (any-count (λ j. same_key (source_key j.chunk) key) best) ∙ nowhere in
                    rw (count-append, same) (ground (arith, no_count))
                | inr other ↦ rw (count-append, other) (omega (arith, h))
              ]))
      ]

  pub best_by_source-All :
      (P : Item S → Type 0) (items best : List (Item S))
      → All P items
      → All P best
      → All P (best_by_source scoring items best)
  unfolding best_by_source
  best_by_source-All P [] best h hb = hb
  best_by_source-All P (i ∷ rest) best (pi, h) hb =
      elim (Bool-cases (has_source scoring (source_key i.chunk) best)) [
        | inl e ↦ rw e (best_by_source-All P rest best h hb)
        | inr e ↦
            rw e (
              best_by_source-All P rest (best ++ i ∷ []) h (All-append P best (i ∷ []) hb (pi, tt)))
      ]

  -- The first loop takes all items if there is room for them.
  pub take_sources-any :
      (test : Item S → Bool) (most : ℕ) (items selected : List (Item S))
      → length selected + length items ≤ most
      → any test (take_sources scoring most items selected) ≡ any test selected || any test items
  unfolding take_sources
  take_sources-any test most [] selected h = ground arith
  take_sources-any test most (i ∷ rest) selected h =
      let room : leb most (length selected) ≡ false = ground (arith, h) in
      rw
        (
          room,
          take_sources-any test most rest (selected ++ i ∷ [])
              (omega (arith, h, length-append selected (i ∷ []))),
          any-append,
        )
        (ground arith)

  pub take_sources-fills :
      (most : ℕ) (items selected : List (Item S))
      → most ≤ length selected + length items
      → most ≤ length (take_sources scoring most items selected)
  unfolding take_sources
  take_sources-fills most [] selected h = omega (arith, h)
  take_sources-fills most (i ∷ rest) selected h = elim (Bool-cases (leb most (length selected))) [
    | inl e ↦ rw e (ground (arith, e))
    | inr e ↦ rw e (
        take_sources-fills most rest (selected ++ i ∷ [])
          (omega (arith, h, length-append selected (i ∷ []))))
  ]

  pub take_sources-length :
      (most : ℕ) (items selected : List (Item S))
      → length selected ≤ most
      → length (take_sources scoring most items selected) ≤ most
  unfolding take_sources
  take_sources-length most [] selected h = h
  take_sources-length most (i ∷ rest) selected h = elim (Bool-cases (leb most (length selected))) [
    | inl e ↦ rw e h
    | inr e ↦
        let room : suc (length selected) ≤ most = ground (arith, e) in
        rw e (
          take_sources-length most rest (selected ++ i ∷ [])
            (omega (arith, room, length-append selected (i ∷ []))))
  ]

  pub take_sources-count :
      (test : Item S → Bool) (most : ℕ) (items selected : List (Item S))
      → count test (take_sources scoring most items selected)
        ≤ count test selected + count test items
  unfolding take_sources
  take_sources-count test most [] selected = omega arith
  take_sources-count test most (i ∷ rest) selected =
      elim (Bool-cases (leb most (length selected))) [
        | inl e ↦ rw e (omega arith)
        | inr e ↦ rw e (
            omega (
              arith,
              take_sources-count test most rest (selected ++ i ∷ []),
              count-append test selected (i ∷ []),
            ))
      ]

  pub take_sources-All :
      (P : Item S → Type 0) (most : ℕ) (items selected : List (Item S))
      → All P items
      → All P selected
      → All P (take_sources scoring most items selected)
  unfolding take_sources
  take_sources-All P most [] selected h hs = hs
  take_sources-All P most (i ∷ rest) selected (pi, h) hs =
      elim (Bool-cases (leb most (length selected))) [
        | inl e ↦ rw e hs
        | inr e ↦ rw e (
            take_sources-All P most rest (selected ++ i ∷ []) h
              (All-append P selected (i ∷ []) hs (pi, tt)))
      ]
