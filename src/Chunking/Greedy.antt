-- ===== src/Chunking/Greedy.antt =====
-- semantic-chunking-service/chunking/cluster_semantic.py: what the two greedy groupings cover,
-- `_greedy_fallback_chunking` and `_greedy_merge_by_similarity`.
use thorondor.Prelude.{
  ℕ, suc, ◌+◌, ◌-◌, ◌≤◌, ◌<◌, Bool, true, false, List, [], ◌∷◌, ◌++◌, ◌≡◌, refl, sym, ◌⊎◌, inl, inr,
  ◌&&◌, ◌||◌, leb, ltb, if◌then◌else◌, length, get_elem?, Bool-cases, arith,
}
use thorondor.Chunking.{
  Sizes, Chunk, or_zero, cumsum, token_count, GroupState, close_group, extend_group, last_group,
  no_groups, greedy_loop, greedy_fallback, merge_loop, greedy_merge,
}

-- The chunks follow each other from `a` to `b`, none is empty, and each has at most `max_size` tokens or
-- is one segment.
abbrev pub Covers : (ℕ → ℕ → ℕ) → ℕ → ℕ → List Chunk → ℕ → Type 0
Covers tokens max_size a [] b = a ≡ b
Covers tokens max_size a ((x, y) ∷ rest) b =
    (x ≡ a) × (x < y) × ((tokens x y ≤ max_size) ⊎ (y ≡ x + 1)) × Covers tokens max_size y rest b

Covers-append :
    (tokens : ℕ → ℕ → ℕ) (max_size a b c : ℕ) (gs : List Chunk)
    → Covers tokens max_size a gs b
    → b < c
    → ((tokens b c ≤ max_size) ⊎ (c ≡ b + 1))
    → Covers tokens max_size a (gs ++ (b, c) ∷ []) c
Covers-append tokens max_size a b c [] h more fits = (sym h, more, fits, refl)
Covers-append tokens max_size a b c ((x, y) ∷ rest) (from, less, small, h) more fits =
    (from, less, small, Covers-append tokens max_size y b c rest h more fits)

-- The sums are those of the lengths from `i` on.
abbrev Sums : (ℕ → ℕ) → ℕ → List ℕ → Type 0
Sums sum i [] = Unit {0}
Sums sum i (length ∷ rest) = (sum (suc i) ≡ sum i + length) × Sums sum (suc i) rest

module _ (sum : ℕ → ℕ) (max_size : ℕ) where
  abbrev between : ℕ → ℕ → ℕ
  between a b = sum b - sum a

  -- The loops before segment `i`.
  record IsGrouping (i : ℕ) (g : GroupState) : Type 0 where
    covers : Covers between max_size 0 g.groupings g.current_start
    tokens : g.current_tokens + sum g.current_start ≡ sum i
    before : g.current_start ≤ i
    fits : (g.current_tokens ≤ max_size) ⊎ (i ≤ g.current_start + 1)

  close-fits :
      (i : ℕ) (g : GroupState)
      → IsGrouping i g
      → g.current_start < i
      → (between g.current_start i ≤ max_size) ⊎ (i ≡ g.current_start + 1)
  close-fits i g h less = elim h.fits [
    | inl small ↦ inl (omega (arith, small, h.tokens))
    | inr one ↦ inr (omega (arith, one, less))
  ]

  close-IsGrouping :
      (i length : ℕ) (g : GroupState)
      → sum (suc i) ≡ sum i + length
      → g.current_start < i
      → IsGrouping i g
      → IsGrouping (suc i) (close_group i length g)
  close-IsGrouping i length g step less h = record {
    covers =
        Covers-append between max_size 0 g.current_start i g.groupings h.covers less
          (close-fits i g h less);
    tokens = omega (arith, step);
    before = omega arith;
    fits = inr (omega arith);
  }

  extend-IsGrouping :
      (i length : ℕ) (g : GroupState)
      → sum (suc i) ≡ sum i + length
      → (g.current_tokens + length ≤ max_size) ⊎ (i ≤ g.current_start)
      → IsGrouping i g
      → IsGrouping (suc i) (extend_group length g)
  extend-IsGrouping i length g step room h = record {
    covers = h.covers;
    tokens = omega (arith, step, h.tokens);
    before = omega (arith, h.before);
    fits = elim room [ inl small ↦ inl small | inr here ↦ inr (omega (arith, here)) ];
  }

  -- Both loops close a group only if it has a segment, and whenever it would be too large.
  choose-IsGrouping :
      (i length : ℕ) (g : GroupState) (b : Bool)
      → sum (suc i) ≡ sum i + length
      → (ltb max_size (g.current_tokens + length) ≡ true → b ≡ true)
      → IsGrouping i g
      → IsGrouping
          (suc i)
          (if b && ltb g.current_start i then close_group i length g else extend_group length g)
  choose-IsGrouping i length g true step must h = elim (Bool-cases (ltb g.current_start i)) [
    | inl e ↦ rw e (close-IsGrouping i length g step (ground (arith, e)) h)
    | inr e ↦ rw e (extend-IsGrouping i length g step (inr (ground (arith, e))) h)
  ]
  choose-IsGrouping i length g false step must h =
      elim (Bool-cases (ltb max_size (g.current_tokens + length))) [
        | inl e ↦ let no : false ≡ true = must e in absurd cc
        | inr e ↦ extend-IsGrouping i length g step (inl (ground (arith, e))) h
      ]

  last_group-Covers :
      (n : ℕ) (g : GroupState) → IsGrouping n g → Covers between max_size 0 (last_group n g) n
  last_group-Covers n g h = elim (Bool-cases (ltb g.current_start n)) [
    | inl e ↦
        let less : g.current_start < n = ground (arith, e) in
        rw e (
          Covers-append between max_size 0 g.current_start n g.groupings h.covers less
            (close-fits n g h less))
    | inr e ↦
        let end : g.current_start ≡ n = ground (arith, e, h.before) in rw e (rw end at h.covers)
  ]

  greedy_loop-IsGrouping :
      (i n : ℕ) (lengths : List ℕ) (g : GroupState)
      → i + length lengths ≡ n
      → Sums sum i lengths
      → IsGrouping i g
      → IsGrouping n (greedy_loop max_size i lengths g)
  unfolding greedy_loop
  greedy_loop-IsGrouping i n [] g end sums h = let e : n ≡ i = omega (arith, end) in rw e h
  greedy_loop-IsGrouping i n (size ∷ rest) g end (step, sums) h =
      greedy_loop-IsGrouping (suc i) n rest _ (omega (arith, end)) sums
        (choose-IsGrouping i size g (ltb max_size (g.current_tokens + size)) step (λ e. e) h)

  merge_loop-IsGrouping :
      (min_size : ℕ) (low : ℕ → Bool) (i n : ℕ) (lengths : List ℕ) (g : GroupState)
      → i + length lengths ≡ n
      → Sums sum i lengths
      → IsGrouping i g
      → IsGrouping n (
          merge_loop
            (record { max_chunk_size = max_size; min_chunk_size = min_size })
            low
            i
            lengths
            g)
  unfolding merge_loop
  merge_loop-IsGrouping min_size low i n [] g end sums h =
      let e : n ≡ i = omega (arith, end) in rw e h
  merge_loop-IsGrouping min_size low i n (size ∷ rest) g end (step, sums) h =
      let apart = low i && leb min_size g.current_tokens in
      merge_loop-IsGrouping min_size low (suc i) n rest _ (omega (arith, end)) sums (
        choose-IsGrouping i size g (ltb max_size (g.current_tokens + size) || apart) step
          (λ e. rw e refl) h)

Sums-shift :
    (sum : ℕ → ℕ) (i : ℕ) (lengths : List ℕ)
    → Sums (λ k. sum (suc k)) i lengths
    → Sums sum (suc i) lengths
Sums-shift sum i [] h = tt
Sums-shift sum i (size ∷ rest) (step, h) = (step, Sums-shift sum (suc i) rest h)

cumsum-first : (a : ℕ) (lengths : List ℕ) → or_zero (get_elem? (cumsum a lengths) 0) ≡ a
cumsum-first a [] = refl
cumsum-first a (size ∷ rest) = refl

cumsum-Sums :
    (a : ℕ) (lengths : List ℕ) → Sums (λ k. or_zero (get_elem? (cumsum a lengths) k)) 0 lengths
cumsum-Sums a [] = tt
cumsum-Sums a (size ∷ rest) = (
  cumsum-first (a + size) rest,
  Sums-shift (λ k. or_zero (get_elem? (cumsum a (size ∷ rest)) k)) 0 rest
      (cumsum-Sums (a + size) rest),
)

pub greedy_fallback-Covers :
    (max_size : ℕ) (lengths : List ℕ)
    → Covers
        (token_count (cumsum 0 lengths))
        max_size
        0
        (greedy_fallback max_size lengths)
        (length lengths)
unfolding greedy_fallback token_count
greedy_fallback-Covers max_size lengths =
    let sum : ℕ → ℕ = λ k. or_zero (get_elem? (cumsum 0 lengths) k) in
    last_group-Covers sum max_size (length lengths) _ (
      greedy_loop-IsGrouping sum max_size 0 (length lengths) lengths (no_groups 0) (omega arith)
        (cumsum-Sums 0 lengths)
        (record {
          covers = refl;
          tokens = omega arith;
          before = omega arith;
          fits = inr (omega arith);
        }))

-- Merging by similarity covers all the segments, in order and without a gap, with chunks that are not
-- empty and have at most the largest size or are one segment, whatever the similarities are.
pub greedy_merge-Covers :
    (s : Sizes) (low : ℕ → Bool) (first : ℕ) (rest : List ℕ)
    → Covers
        (token_count (cumsum 0 (first ∷ rest)))
        s.max_chunk_size
        0
        (greedy_merge s low first rest)
        (length (first ∷ rest))
unfolding greedy_merge token_count
greedy_merge-Covers s low first rest =
    let sum : ℕ → ℕ = λ k. or_zero (get_elem? (cumsum 0 (first ∷ rest)) k) in
    let (step, sums) = cumsum-Sums 0 (first ∷ rest) in
    last_group-Covers sum s.max_chunk_size (suc (length rest)) _ (
      merge_loop-IsGrouping sum s.max_chunk_size s.min_chunk_size low 1 (suc (length rest)) rest
        (no_groups first) (omega arith) sums
        (record {
          covers = refl;
          tokens = omega (arith, step);
          before = omega arith;
          fits = inr (omega arith);
        }))
