-- ===== src/Chunking/Choice.antt =====
-- semantic-chunking-service/chunking/cluster_semantic.py: what `_dynamic_programming_chunking` returns.
use thorondor.Prelude.{
  ℕ, zero, suc, ◌+◌, ◌≤◌, ◌<◌, false, Option, none, some, List, [], ◌∷◌, ◌≡◌, refl, ◌⊎◌, inl, inr,
  if◌then◌else◌, is_some, length, get_elem?, arith,
}
use thorondor.Chunking.{
  Rewards, Sizes, Cell, Chunk, best_of, table, backtrack, or_zero, cumsum, token_count,
  chunk_reward, reverse_onto, greedy_fallback, groupings, optimal_groupings,
}
use thorondor.Chunking.Best.{IsOrdered, IsChunking, value, IsBound}
use thorondor.Chunking.Greedy.{Covers, greedy_fallback-Covers}
use thorondor.Chunking.Optimal.{IsTable, table-IsTable, backtrack-IsChunking}

abbrev sum_at : ℕ → List ℕ → ℕ → ℕ
sum_at a lengths k = or_zero (get_elem? (cumsum a lengths) k)

first-le : (a : ℕ) (lengths : List ℕ) (k : ℕ) → k ≤ length lengths → a ≤ sum_at a lengths k
first-le a [] zero h = omega arith
first-le a [] (suc k) h = absurd (ground (arith, h))
first-le a (x ∷ rest) zero h = omega arith
first-le a (x ∷ rest) (suc k) h =
    let later = first-le (a + x) rest k (omega (arith, h)) in omega (arith, later)

sum_at-le :
    (a : ℕ) (lengths : List ℕ) (k l : ℕ)
    → k ≤ l
    → l ≤ length lengths
    → sum_at a lengths k ≤ sum_at a lengths l
sum_at-le a [] zero l le h = first-le a [] l h
sum_at-le a (x ∷ rest) zero l le h = first-le a (x ∷ rest) l h
sum_at-le a [] (suc k) zero le h = absurd (ground (arith, le))
sum_at-le a (x ∷ rest) (suc k) zero le h = absurd (ground (arith, le))
sum_at-le a [] (suc k) (suc l) le h = absurd (ground (arith, h))
sum_at-le a (x ∷ rest) (suc k) (suc l) le h =
    sum_at-le (a + x) rest k l (omega (arith, le)) (omega (arith, h))

token_count-le :
    (lengths : List ℕ) (k l m : ℕ)
    → k ≤ l
    → l < m
    → m ≤ length lengths
    → token_count (cumsum 0 lengths) l m ≤ token_count (cumsum 0 lengths) k m
unfolding token_count
token_count-le lengths k l m le below within =
    let less = sum_at-le 0 lengths k l le (omega (arith, below, within)) in omega (arith, less)

module _ {R : Type 0} (r : Rewards R) (s : Sizes) (lengths : List ℕ) where
  abbrev pub IsChunkingOf : List Chunk → Type 0
  IsChunkingOf gs =
      IsChunking r s (length lengths) (token_count (cumsum 0 lengths)) (chunk_reward r)
        (length lengths) gs

  abbrev pub reward_of : List Chunk → R
  reward_of gs = value r s (length lengths) (token_count (cumsum 0 lengths)) (chunk_reward r) gs

  -- A chunking of which none is better was found, or there is no chunking and the tokens are grouped
  -- greedily.
  abbrev pub IsChoice : List Chunk → Type 0
  IsChoice result =
      ((gs : List Chunk) × (result ≡ reverse_onto gs [])
        × IsChunkingOf gs
        × ((other : List Chunk)
            → IsChunkingOf other
            → r.lt (reward_of gs) (reward_of other) ≡ false))
      ⊎ (((other : List Chunk) → IsChunkingOf other → ⊥)
          × (result ≡ greedy_fallback s.max_chunk_size lengths))

  abbrev dp : List (Cell R)
  dp = table r s (length lengths) (token_count (cumsum 0 lengths)) (chunk_reward r)

  from_table :
      (best : Option R)
      → IsTable r s
          (length lengths)
          (token_count (cumsum 0 lengths))
          (chunk_reward r)
          dp
          (suc (length lengths))
      → best_of r (get_elem? dp (length lengths)) ≡ best
      → IsBound r s
          (length lengths)
          (token_count (cumsum 0 lengths))
          (chunk_reward r)
          IsChunkingOf
          best
      → IsChoice (
          if is_some best
          then reverse_onto (backtrack r (length lengths) dp (length lengths)) []
          else greedy_fallback s.max_chunk_size lengths)
  from_table none h e bound = inr (bound, refl)
  from_table (some v) h e bound =
      let (chunks, worth) =
        backtrack-IsChunking r s (length lengths) (token_count (cumsum 0 lengths)) (chunk_reward r)
          dp (length lengths) (length lengths) v h (omega arith) (omega arith) e in
      inl (backtrack r (length lengths) dp (length lengths), refl, chunks, rw worth bound)

  -- Of all ways to cut the segments into chunks of at most the largest size, and before the last chunk
  -- at least the smallest, the dynamic programme returns one with the greatest reward; where there is
  -- no way, it returns the greedy grouping. This if the rewards have a total order with which the sum
  -- agrees.
  pub optimal_groupings-IsChoice : IsOrdered r → IsChoice (optimal_groupings r s lengths)
  unfolding optimal_groupings
  optimal_groupings-IsChoice o =
      let h =
        table-IsTable r s (length lengths) (token_count (cumsum 0 lengths)) (chunk_reward r) o
          (token_count-le lengths) in
      from_table _ h refl (h.bounds (length lengths) (omega arith))

reverse-Covers :
    {R : Type 0} (r : Rewards R) (s : Sizes) (n : ℕ) (tokens : ℕ → ℕ → ℕ) (reward : ℕ → ℕ → R)
    (i m : ℕ) (gs out : List Chunk)
    → IsChunking r s n tokens reward i gs
    → Covers tokens s.max_chunk_size i out m
    → Covers tokens s.max_chunk_size 0 (reverse_onto gs out) m
reverse-Covers r s n tokens reward i m [] out h covers = rw (← h) covers
reverse-Covers r s n tokens reward i m ((j, e) ∷ rest) out (same, less, allowed, h) covers =
    reverse-Covers r s n tokens reward j m rest ((j, e) ∷ out) h
      (refl, ground (arith, same, less), inl (rw same (ground (arith, allowed))), rw same covers)

-- The chunks that the dynamic programme returns cover all the segments, in order and without a gap;
-- none is empty, and each has at most the largest size or is one segment. This if the rewards have a
-- total order with which the sum agrees.
pub groupings-Covers :
    {R : Type 0} (r : Rewards R) (s : Sizes) (lengths : List ℕ)
    → IsOrdered r
    → Covers
        (token_count (cumsum 0 lengths))
        s.max_chunk_size
        0
        (groupings r s lengths)
        (length lengths)
unfolding groupings
groupings-Covers r s [] o = refl
groupings-Covers r s (size ∷ []) o = (refl, omega arith, inr refl, refl)
groupings-Covers r s (size ∷ second ∷ rest) o =
    let lengths : List ℕ = size ∷ second ∷ rest in
    elim (optimal_groupings-IsChoice r s lengths o) [
      | inl (gs, same, chunks, best) ↦ rw same (
          reverse-Covers r s (length lengths) (token_count (cumsum 0 lengths)) (chunk_reward r)
            (length lengths) (length lengths) gs [] chunks refl)
      | inr (never, same) ↦ rw same (greedy_fallback-Covers s.max_chunk_size lengths)
    ]
