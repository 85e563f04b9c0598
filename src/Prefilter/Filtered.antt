-- ===== src/Prefilter/Filtered.antt =====
-- orchestrator/prefilter.py: what `CandidatePrefilterImpl.filter` keeps.
use thorondor.Prelude.{
  ℕ, suc, ◌+◌, ◌≤◌, ◌<◌, true, false, some, List, [], ◌∷◌, ◌≡◌, refl, ◌∙◌, ◌==◌, leb, length,
  get_elem?, any, All, count, any-sort, length-sort, sort, Bool-cases, inl, inr, String, arith,
}
use thorondor.Prefilter.{
  Chunk, Scoring, Item, SourceKey, source_key, same_key, before, score_from, has_source,
  best_by_source, is_selected, take_sources, fill_up, select,
}
use thorondor.Prefilter.Picks.{take_sources-length}
use thorondor.Prefilter.Filling.{fill_up-length, fill_up-fills, pigeonhole}

module _ {S : Type 0} (scoring : Scoring S) where
  score_from-below :
      (query : String) (start index : ℕ) (chunks : List Chunk)
      → index < start
      → count (λ i. i.index == index) (score_from scoring query start chunks) ≡ 0
  score_from-below query start index [] le = refl
  score_from-below query start index (c ∷ rest) le =
      let apart : (start == index) ≡ false = ground (arith, le) in
      rw apart (omega (arith, score_from-below query (start + 1) index rest (omega (arith, le))))

  pub score_from-once :
      (query : String) (start index : ℕ) (chunks : List Chunk)
      → count (λ i. i.index == index) (score_from scoring query start chunks) ≤ 1
  score_from-once query start index [] = omega arith
  score_from-once query start index (c ∷ rest) = elim (Bool-cases (start == index)) [
    | inl same ↦
        let below : index < start + 1 = ground (arith, same) in
        rw same (omega (arith, score_from-below query (start + 1) index rest below))
    | inr other ↦ rw other (omega (arith, score_from-once query (start + 1) index rest))
  ]

  pub score_from-index :
      (query : String) (start index : ℕ) (chunks : List Chunk)
      → start ≤ index
      → index < start + length chunks
      → is_selected scoring index (score_from scoring query start chunks) ≡ true
  score_from-index query start index [] le lt = absurd (omega (arith, le, lt))
  score_from-index query start index (c ∷ rest) le lt = elim (Bool-cases (start == index)) [
    | inl same ↦ rw same refl
    | inr other ↦
        let later : start + 1 ≤ index = ground (arith, other, le) in
        rw other (score_from-index query (start + 1) index rest later (omega (arith, lt)))
  ]

  abbrev pub Stands : List Chunk → Item S → Type 0
  Stands chunks i = get_elem? chunks i.index ≡ some i.chunk

  pub score_from-Stands :
      (query : String) (start : ℕ) (chunks all : List Chunk)
      → ((k : ℕ) → get_elem? all (start + k) ≡ get_elem? chunks k)
      → All (Stands all) (score_from scoring query start chunks)
  score_from-Stands query start [] all h = tt
  score_from-Stands query start (c ∷ rest) all h = (
    (let here : start + 0 ≡ start = omega arith in rw (← here) (h 0)),
    score_from-Stands query (start + 1) rest all
        (λ k. let next : start + 1 + k ≡ start + suc k = omega arith in rw next (h (suc k))),
  )

  pub score_from-source :
      (query : String) (start : ℕ) (key : SourceKey) (chunks : List Chunk)
      → has_source scoring key (score_from scoring query start chunks)
        ≡ any (λ c. same_key (source_key c) key) chunks
  score_from-source query start key [] = refl
  score_from-source query start key (c ∷ rest) =
      rw (score_from-source query (start + 1) key rest) refl

  pub select-length :
      (most : ℕ) (query : String) (chunks : List Chunk)
      → most ≤ length chunks
      → length (select scoring most (score_from scoring query 0 chunks)) ≡ most
  unfolding select
  select-length most query chunks more =
      let items = score_from scoring query 0 chunks in
      let scored = sort (before scoring) items in
      let sources = sort (before scoring) (best_by_source scoring scored []) in
      let taken = take_sources scoring most sources [] in
      let filled = fill_up scoring most scored taken in
      let at_most : length filled ≤ most =
        fill_up-length scoring most scored taken
          (take_sources-length scoring most sources [] (omega arith)) in
      let same = length-sort (before scoring) filled in
      elim (Bool-cases (leb most (length filled))) [
        | inl e ↦ ground (arith, e, at_most, same)
        | inr e ↦
            let short : length filled < most = ground (arith, e) in
            let many : length chunks ≤ length filled =
              pigeonhole scoring (length chunks) filled (λ index le.
                let there : is_selected scoring index scored ≡ true =
                  any-sort (λ i. i.index == index) (before scoring) items
                  ∙ score_from-index query 0 index chunks (omega arith) (omega (arith, le)) in
                elim (fill_up-fills scoring index most scored taken there) [
                  | inl full ↦ absurd (omega (arith, full, short))
                  | inr found ↦ found
                ]) in
            absurd (omega (arith, many, more, short))
      ]
