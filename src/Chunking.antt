-- ===== src/Chunking.antt =====
-- semantic-chunking-service/chunking/cluster_semantic.py: the choice of chunk boundaries by
-- `ClusterSemanticChunker`. A chunk is a pair of its first segment and the one after its last. A reward
-- is a number of a type that is a parameter, for numpy's floats.
pub mod Best
pub mod Links
pub mod Optimal
pub mod Greedy
pub mod Choice
mod Tests
use thorondor.Prelude.{
  ℕ, zero, suc, ◌+◌, ◌-◌, Bool, true, false, Option, none, some, List, [], ◌∷◌, ◌++◌, ◌==◌, ◌&&◌,
  ◌||◌, not, leb, ltb, if◌then◌else◌, is_some, length, get_elem?,
}

-- The sum of the similarities within a chunk is numpy's, `pairs`.
pub record Rewards (R : Type 0) : Type 0 where
  pub nought : R
  pub add : R → R → R
  pub lt : R → R → Bool
  pub pairs : ℕ → ℕ → R

pub record Sizes : Type 0 where
  pub max_chunk_size : ℕ
  pub min_chunk_size : ℕ

-- `dp[i]` and `parent[i]`; minus infinity and -1 are `none`.
pub record Cell (R : Type 0) : Type 0 where
  pub best : Option R
  pub parent : Option ℕ

abbrev pub Chunk : Type 0
Chunk = ℕ × ℕ

-- `cumsum`, from a sum on.
abbrev pub cumsum : ℕ → List ℕ → List ℕ
cumsum sum [] = sum ∷ []
cumsum sum (length ∷ rest) = sum ∷ cumsum (sum + length) rest

abbrev pub or_zero : Option ℕ → ℕ
or_zero none = 0
or_zero (some n) = n

unfoldable pub token_count : List ℕ → ℕ → ℕ → ℕ
token_count sums start end = or_zero (get_elem? sums end) - or_zero (get_elem? sums start)

abbrev pub reverse_onto : List Chunk → List Chunk → List Chunk
reverse_onto [] out = out
reverse_onto (c ∷ rest) out = reverse_onto rest (c ∷ out)

module _ {R : Type 0} (r : Rewards R) where
  -- `_calculate_chunk_reward`
  unfoldable pub chunk_reward : ℕ → ℕ → R
  chunk_reward start end = if leb end (start + 1) then r.nought else r.pairs start end

  abbrev pub beats : R → Option R → Bool
  beats total none = true
  beats total (some best) = r.lt best total

  abbrev pub best_of : Option (Cell R) → Option R
  best_of none = none
  best_of (some c) = c.best

  abbrev pub parent_of : Option (Cell R) → Option ℕ
  parent_of none = none
  parent_of (some c) = c.parent

  -- `dp[j] + chunk_reward` against `dp[i]`; a sum with minus infinity is not greater.
  abbrev pub improve : Option R → R → ℕ → Cell R → Cell R
  improve none reward j cell = cell
  improve (some v) reward j cell =
      if beats (r.add v reward) cell.best
      then record { best = some (r.add v reward); parent = some j }
      else cell

  -- A chunk that is too small is passed over, unless nothing can stand before it.
  abbrev pub consider : Bool → Option R → R → ℕ → Cell R → Cell R
  consider small found reward j cell =
      if small && is_some found then cell else improve found reward j cell

  -- The loop that follows the parents, the last chunk first; `fuel` rounds.
  unfoldable pub backtrack : ℕ → List (Cell R) → ℕ → List Chunk
  backtrack fuel dp zero = []
  backtrack zero dp (suc i) = []
  backtrack (suc fuel) dp (suc i) =
      let prev = or_zero (parent_of (get_elem? dp (suc i))) in
      (prev, suc i) ∷ backtrack fuel dp prev

  module _ (s : Sizes) (n : ℕ) (tokens : ℕ → ℕ → ℕ) (reward : ℕ → ℕ → R) where
    -- `_evaluate_chunk_candidate` where it does not break.
    unfoldable pub evaluate : List (Cell R) → ℕ → ℕ → Cell R → Cell R
    evaluate dp i j cell =
        consider (ltb (tokens j i) s.min_chunk_size && ltb i n) (best_of (get_elem? dp j))
          (reward j i) j cell

    -- The inner loop of `_fill_dp_table`, for the starts below `j`, from the last down.
    unfoldable pub scan : List (Cell R) → ℕ → ℕ → Cell R → Cell R
    unfolding evaluate
    scan dp i zero cell = cell
    scan dp i (suc j) cell = elim (ltb s.max_chunk_size (tokens j i)) [
      | true ↦ cell
      | false ↦ scan dp i j (evaluate dp i j cell)
    ]

    -- The outer loop, for `count` positions from `i` on; `dp` holds the cells before `i`.
    unfoldable pub fill : ℕ → ℕ → List (Cell R) → List (Cell R)
    unfolding scan
    fill zero i dp = dp
    fill (suc count) i dp =
        fill count (suc i) (dp ++ scan dp i i (record { best = none; parent = none }) ∷ [])

    unfoldable pub table : List (Cell R)
    unfolding fill
    table = fill n 1 (record { best = some r.nought; parent = none } ∷ [])

-- The state of the two greedy loops.
pub record GroupState : Type 0 where
  pub groupings : List Chunk
  pub current_start : ℕ
  pub current_tokens : ℕ

abbrev pub close_group : ℕ → ℕ → GroupState → GroupState
close_group i length g = record {
  groupings = g.groupings ++ (g.current_start, i) ∷ [];
  current_start = i;
  current_tokens = length;
}

abbrev pub extend_group : ℕ → GroupState → GroupState
extend_group length g = record g { current_tokens = g.current_tokens + length }

abbrev pub last_group : ℕ → GroupState → List Chunk
last_group n g =
    if ltb g.current_start n then g.groupings ++ (g.current_start, n) ∷ [] else g.groupings

-- `_greedy_fallback_chunking`
unfoldable pub greedy_loop : ℕ → ℕ → List ℕ → GroupState → GroupState
greedy_loop max_size i [] g = g
greedy_loop max_size i (length ∷ rest) g = greedy_loop max_size (suc i) rest (
    if ltb max_size (g.current_tokens + length) && ltb g.current_start i
    then close_group i length g
    else extend_group length g)

abbrev pub no_groups : ℕ → GroupState
no_groups tokens = record { groupings = []; current_start = 0; current_tokens = tokens }

unfoldable pub greedy_fallback : ℕ → List ℕ → List Chunk
unfolding greedy_loop
greedy_fallback max_size lengths =
    last_group (length lengths) (greedy_loop max_size 0 lengths (no_groups 0))

-- `_greedy_merge_by_similarity`: `low i` says whether segment `i` is not similar to the one before it.
unfoldable pub merge_loop : Sizes → (ℕ → Bool) → ℕ → List ℕ → GroupState → GroupState
merge_loop s low i [] g = g
merge_loop s low i (length ∷ rest) g =
    let exceeds = ltb s.max_chunk_size (g.current_tokens + length) in
    let apart = low i && leb s.min_chunk_size g.current_tokens in
    merge_loop s low (suc i) rest (
      if (exceeds || apart) && ltb g.current_start i
      then close_group i length g
      else extend_group length g)

-- The first segment is there: the caller has at least two.
unfoldable pub greedy_merge : Sizes → (ℕ → Bool) → ℕ → List ℕ → List Chunk
unfolding merge_loop
greedy_merge s low first rest =
    last_group (suc (length rest)) (merge_loop s low 1 rest (no_groups first))

-- `_dynamic_programming_chunking` with at least two segments, and the whole of it.
unfoldable pub optimal_groupings : {R : Type 0} → Rewards R → Sizes → List ℕ → List Chunk
unfolding token_count chunk_reward table backtrack greedy_fallback
optimal_groupings r s lengths =
    let n = length lengths in
    let dp = table r s n (token_count (cumsum 0 lengths)) (chunk_reward r) in
    if is_some (best_of r (get_elem? dp n))
    then reverse_onto (backtrack r n dp n) []
    else greedy_fallback s.max_chunk_size lengths

unfoldable pub groupings : {R : Type 0} → Rewards R → Sizes → List ℕ → List Chunk
unfolding optimal_groupings
groupings r s [] = []
groupings r s (length ∷ []) = (0, 1) ∷ []
groupings r s (length ∷ second ∷ rest) = optimal_groupings r s (length ∷ second ∷ rest)
