-- ===== src/Prefilter/Kept.antt =====
-- orchestrator/prefilter.py: how many chunks `CandidatePrefilterImpl.filter` keeps, and which.
use thorondor.Prelude.{
  ℕ, suc, ◌+◌, ◌≤◌, ◌<◌, Bool, true, List, [], ◌∷◌, map, ◌≡◌, ◌⊎◌, refl, sym, ap, ◌∙◌, ◌==◌, ◌||◌,
  not, leb, min, max, length, any, All, count, any-sort, count-sort, All-sort, sort, Bool-cases,
  inl, inr, String, arith,
}
use thorondor.Prefilter.{
  Chunk, Scoring, Item, SourceKey, source_key, same_key, before, score_from, has_source,
  best_by_source, take_sources, fill_up, select, filter,
}
use thorondor.Prefilter.Picks.{
  best_by_source-sources, best_by_source-count, best_by_source-once, best_by_source-All,
  take_sources-any, take_sources-fills, take_sources-count, take_sources-All,
}
use thorondor.Prefilter.Filling.{fill_up-full, fill_up-keeps, fill_up-All, fill_up-once}
use thorondor.Prefilter.Filtered.{
  score_from-once, Stands, score_from-Stands, score_from-source, select-length,
}

length-map : {A B : Type 0} (f : A → B) (xs : List A) → length (map f xs) ≡ length xs
length-map f [] = refl
length-map f (x ∷ xs) = ap suc (length-map f xs)

any-map :
    {A B : Type 0} (test : B → Bool) (f : A → B) (xs : List A)
    → any test (map f xs) ≡ any (λ x. test (f x)) xs
any-map test f [] = refl
any-map test f (x ∷ xs) = rw (any-map test f xs) refl

count-map :
    {A B : Type 0} (test : B → Bool) (f : A → B) (xs : List A)
    → count test (map f xs) ≡ count (λ x. test (f x)) xs
count-map test f [] = refl
count-map test f (x ∷ xs) = rw (count-map test f xs) refl

module _ {S : Type 0} (scoring : Scoring S) where
  -- The filter keeps as many chunks as its limit, which is at least 1, or all if there are no more; the
  -- two numbers that it reports are those of the kept and of the other chunks.
  pub filter-counts :
      (max_candidates : ℕ) (query : String) (chunks : List Chunk)
      → ((filter scoring max_candidates query chunks).chunks_sent_to_reranker
          ≡ min (length chunks) (max 1 max_candidates))
        × (length (filter scoring max_candidates query chunks).chunks
            ≡ (filter scoring max_candidates query chunks).chunks_sent_to_reranker)
        × ((filter scoring max_candidates query chunks).chunks_prefiltered
              + (filter scoring max_candidates query chunks).chunks_sent_to_reranker
            ≡ length chunks)
  unfolding filter
  filter-counts max_candidates query chunks =
      let most = max 1 max_candidates in
      elim (Bool-cases (leb (length chunks) most)) [
        | inl e ↦ rw e (ground (arith, e), refl, omega arith)
        | inr e ↦
            let more : most < length chunks = ground (arith, e) in
            let size = select-length scoring most query chunks (omega (arith, more)) in
            let kept =
              length-map (λ i. i.chunk) (select scoring most (score_from scoring query 0 chunks)) in
            rw e (omega (arith, size, kept, more), refl, omega (arith, size, kept, more))
      ]

  -- Of the selected items no two have the same index, and each is the chunk at its index.
  select-positions :
      (most : ℕ) (query : String) (chunks : List Chunk)
      → ((index : ℕ)
          → count (λ i. i.index == index) (select scoring most (score_from scoring query 0 chunks))
            ≤ 1)
        × All (Stands scoring chunks) (select scoring most (score_from scoring query 0 chunks))
  unfolding select
  select-positions most query chunks =
      let items = score_from scoring query 0 chunks in
      let scored = sort (before scoring) items in
      let best = best_by_source scoring scored [] in
      let sources = sort (before scoring) best in
      let taken = take_sources scoring most sources [] in
      let stand : All (Stands scoring chunks) scored =
        All-sort (Stands scoring chunks) (before scoring) items (
          score_from-Stands scoring query 0 chunks chunks
            (λ k. let same : 0 + k ≡ k = omega arith in rw same refl)) in
      (
        (λ index.
            let test : Item S → Bool = λ i. i.index == index in
            let first : count test taken ≤ 1 = omega (
              arith,
              take_sources-count scoring test most sources [],
              count-sort test (before scoring) best,
              best_by_source-count scoring test scored [],
              count-sort test (before scoring) items,
              score_from-once scoring query 0 index chunks,
            ) in
            omega (
              arith,
              count-sort test (before scoring) (fill_up scoring most scored taken),
              fill_up-once scoring index most scored taken first,
            )),
        All-sort (Stands scoring chunks) (before scoring) (fill_up scoring most scored taken) (
            fill_up-All scoring (Stands scoring chunks) most scored taken stand (
              take_sources-All scoring (Stands scoring chunks) most sources []
                (All-sort (Stands scoring chunks) (before scoring) best
                  (best_by_source-All scoring (Stands scoring chunks) scored [] stand tt))
                tt)),
      )

  -- Either every source of the chunks is a source of a selected item, or no two of these share one.
  select-sources :
      (most : ℕ) (query : String) (chunks : List Chunk)
      → ((key : SourceKey)
          → any (λ c. same_key (source_key c) key) chunks ≡ true
          → has_source scoring key (select scoring most (score_from scoring query 0 chunks)) ≡ true)
        ⊎ ((key : SourceKey)
            → count
                (λ i. same_key (source_key i.chunk) key)
                (select scoring most (score_from scoring query 0 chunks))
              ≤ 1)
  unfolding select
  select-sources most query chunks =
      let items = score_from scoring query 0 chunks in
      let scored = sort (before scoring) items in
      let best = best_by_source scoring scored [] in
      let sources = sort (before scoring) best in
      let taken = take_sources scoring most sources [] in
      elim (Bool-cases (leb (length sources) most)) [
        | inl e ↦ inl (λ key there.
            let test : Item S → Bool = λ i. same_key (source_key i.chunk) key in
            let in_items : any test items ≡ true =
              score_from-source scoring query 0 key chunks ∙ there in
            let in_scored : any test scored ≡ true =
              any-sort test (before scoring) items ∙ in_items in
            let in_best : any test best ≡ true =
              best_by_source-sources scoring key scored [] ∙ in_scored in
            let in_sources : any test sources ≡ true =
              any-sort test (before scoring) best ∙ in_best in
            let in_taken : any test taken ≡ true =
              take_sources-any scoring test most sources [] (ground (arith, e)) ∙ in_sources in
            any-sort test (before scoring) (fill_up scoring most scored taken)
            ∙ fill_up-keeps scoring test most scored taken in_taken)
        | inr e ↦ inr (λ key.
            let test : Item S → Bool = λ i. same_key (source_key i.chunk) key in
            let full : most ≤ length taken =
              take_sources-fills scoring most sources [] (ground (arith, e)) in
            let same : fill_up scoring most scored taken ≡ taken =
              fill_up-full scoring most scored taken full in
            let again = count-sort test (before scoring) (fill_up scoring most scored taken) in
            let same_count : count test (fill_up scoring most scored taken) ≡ count test taken =
              ap (count test) same in
            omega (
              arith,
              again,
              same_count,
              take_sources-count scoring test most sources [],
              count-sort test (before scoring) best,
              best_by_source-once scoring key scored [] (omega arith),
            ))
      ]

abbrev pub of_source : SourceKey → Chunk → Bool
of_source key c = same_key (source_key c) key

-- Every source of the chunks is one of the kept chunks.
abbrev pub KeepsSources : List Chunk → List Chunk → Type 0
KeepsSources chunks kept =
    (key : SourceKey) → not (any (of_source key) chunks) || any (of_source key) kept ≡ true

-- No two chunks are of one source.
abbrev pub IsSpread : List Chunk → Type 0
IsSpread kept = (key : SourceKey) → count (of_source key) kept ≤ 1

-- Kept chunks that stand at different positions of the chunks.
abbrev pub IsPick : {S : Type 0} → Scoring S → List Chunk → List Chunk → Type 0
IsPick {S} scoring chunks kept =
    (items : List (Item S)) × (kept ≡ map (λ i. i.chunk) items)
    × ((index : ℕ) → count (λ i. i.index == index) items ≤ 1)
    × All (Stands scoring chunks) items

module _ {S : Type 0} (scoring : Scoring S) where
  map-score_from :
      (query : String) (start : ℕ) (chunks : List Chunk)
      → map (λ i. i.chunk) (score_from scoring query start chunks) ≡ chunks
  map-score_from query start [] = refl
  map-score_from query start (c ∷ rest) = ap (λ r. c ∷ r) (map-score_from query (start + 1) rest)

  -- The kept chunks stand at different positions of the given ones: nothing is kept that was not given,
  -- nor twice.
  pub filter-IsPick :
      (max_candidates : ℕ) (query : String) (chunks : List Chunk)
      → IsPick scoring chunks (filter scoring max_candidates query chunks).chunks
  unfolding filter
  filter-IsPick max_candidates query chunks =
      let most = max 1 max_candidates in
      elim (Bool-cases (leb (length chunks) most)) [
        | inl e ↦ rw e (
          score_from scoring query 0 chunks,
          sym (map-score_from query 0 chunks),
          (λ index. score_from-once scoring query 0 index chunks),
          score_from-Stands scoring query 0 chunks chunks
              (λ k. let same : 0 + k ≡ k = omega arith in rw same refl),
        )
        | inr e ↦
            let (once, stand) = select-positions scoring most query chunks in
            rw e (select scoring most (score_from scoring query 0 chunks), refl, once, stand)
      ]

  -- Every source of the given chunks is kept, unless already the kept ones are all of different sources.
  pub filter-sources :
      (max_candidates : ℕ) (query : String) (chunks : List Chunk)
      → KeepsSources chunks (filter scoring max_candidates query chunks).chunks
        ⊎ IsSpread (filter scoring max_candidates query chunks).chunks
  unfolding filter
  filter-sources max_candidates query chunks =
      let most = max 1 max_candidates in
      elim (Bool-cases (leb (length chunks) most)) [
        | inl e ↦ inl (rw e (λ key. ground arith))
        | inr e ↦
            let selected = select scoring most (score_from scoring query 0 chunks) in
            elim (select-sources scoring most query chunks) [
              | inl kept ↦ inl (
                  rw e (λ key. elim (Bool-cases (any (of_source key) chunks)) [
                    | inl x ↦
                        let there = any-map (of_source key) (λ i. i.chunk) selected ∙ kept key x in
                        rw (x, there) refl
                    | inr x ↦ rw x refl
                  ]))
              | inr spread ↦ inr (
                  rw e (λ key.
                    let same = count-map (of_source key) (λ i. i.chunk) selected in
                    omega (arith, same, spread key)))
            ]
      ]
