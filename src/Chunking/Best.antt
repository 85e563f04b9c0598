-- ===== src/Chunking/Best.antt =====
-- semantic-chunking-service/chunking/cluster_semantic.py: which chunkings `_fill_dp_table` chooses
-- between, and the inner loop. A chunking is listed with its last chunk first.
use thorondor.Prelude.{
  ℕ, zero, suc, ◌≤◌, ◌<◌, Bool, true, false, Option, none, some, List, [], ◌∷◌, ◌≡◌, refl, ◌==◌,
  ◌&&◌, ◌||◌, leb, ltb, inl, inr, get_elem?, Bool-cases, arith,
}
use thorondor.Chunking.{Rewards, Sizes, Cell, Chunk, best_of, improve, consider, evaluate, scan}

-- What the code relies on of the order and the sum of rewards; floats have it but for NaN.
pub record IsOrdered {R : Type 0} (r : Rewards R) : Type 0 where
  pub lt_asymm : (a b : R) → r.lt a b ≡ true → r.lt b a ≡ false
  pub le_trans : (a b c : R) → r.lt b a ≡ false → r.lt c b ≡ false → r.lt c a ≡ false
  pub add_mono : (a b c : R) → r.lt b a ≡ false → r.lt (r.add b c) (r.add a c) ≡ false

module _ {R : Type 0} (r : Rewards R) (s : Sizes) (n : ℕ) (tokens : ℕ → ℕ → ℕ)
    (reward : ℕ → ℕ → R) where
  -- A chunk that ends before the last segment has the least size, and every chunk at most the largest.
  abbrev pub is_allowed : ℕ → ℕ → Bool
  is_allowed j i =
      leb (tokens j i) s.max_chunk_size && (leb s.min_chunk_size (tokens j i) || leb n i)

  -- A chunking of the segments before `i`.
  abbrev pub IsChunking : ℕ → List Chunk → Type 0
  IsChunking i [] = i ≡ 0
  IsChunking i ((j, e) ∷ rest) = (e ≡ i) × (j < i) × (is_allowed j i ≡ true) × IsChunking j rest

  -- Its reward, summed from the first chunk on.
  abbrev pub value : List Chunk → R
  value [] = r.nought
  value ((j, e) ∷ rest) = r.add (value rest) (reward j e)

  -- No chunking that a predicate holds of has a greater reward, or there is none.
  abbrev pub IsBound : (List Chunk → Type 0) → Option R → Type 0
  IsBound P none = (gs : List Chunk) → P gs → ⊥
  IsBound P (some v) = (gs : List Chunk) → P gs → r.lt v (value gs) ≡ false

  -- A chunking whose last chunk begins at `start` or later.
  abbrev pub LastFrom : ℕ → ℕ → List Chunk → Type 0
  LastFrom start i [] = ⊥
  LastFrom start i ((j, e) ∷ rest) = (start ≤ j) × IsChunking i ((j, e) ∷ rest)

  -- What holds of the chunkings with a last chunk from `j` and of those with a later one holds of all.
  LastFrom-cases :
      (Q : List Chunk → Type 0) (i j : ℕ)
      → ((rest : List Chunk) → is_allowed j i ≡ true → IsChunking j rest → Q ((j, i) ∷ rest))
      → ((gs : List Chunk) → LastFrom (suc j) i gs → Q gs)
      → (gs : List Chunk) → LastFrom j i gs
      → Q gs
  LastFrom-cases Q i j here later [] h = absurd h
  LastFrom-cases Q i j here later ((k, e) ∷ rest) (from, (same, below, allowed, chunks)) =
      elim (Bool-cases (k == j)) [
        | inl q ↦
            let equal : k ≡ j = ground (arith, q) in
            rw (equal, same) (here rest (rw (← equal) allowed) (rw (← equal) chunks))
        | inr q ↦ later ((k, e) ∷ rest) (ground (arith, q, from), (same, below, allowed, chunks))
      ]

  pub scan-break :
      (dp : List (Cell R)) (i j : ℕ) (cell : Cell R)
      → ltb s.max_chunk_size (tokens j i) ≡ true
      → scan r s n tokens reward dp i (suc j) cell ≡ cell
  unfolding scan
  scan-break dp i j cell e = rw (e, scan) refl

  pub scan-next :
      (dp : List (Cell R)) (i j : ℕ) (cell : Cell R)
      → ltb s.max_chunk_size (tokens j i) ≡ false
      → scan r s n tokens reward dp i (suc j) cell
        ≡ scan r s n tokens reward dp i j (evaluate r s n tokens reward dp i j cell)
  unfolding scan
  scan-next dp i j cell e = rw (e, scan) refl

  module _ (o : IsOrdered r) where
    some-IsBound :
        (i j : ℕ) (u : R) (best : Option R) (parent : Option ℕ)
        → IsBound (IsChunking j) (some u)
        → IsBound (LastFrom (suc j) i) best
        → IsBound
            (LastFrom j i)
            (improve r (some u) (reward j i) j (record { best = best; parent = parent })).best
    some-IsBound i j u none parent known bound =
        LastFrom-cases (λ gs. r.lt (r.add u (reward j i)) (value gs) ≡ false) i j
          (λ rest allowed chunks. o.add_mono (value rest) u (reward j i) (known rest chunks))
          (λ gs h. absurd (bound gs h))
    some-IsBound i j u (some v) parent known bound =
        let total = r.add u (reward j i) in
        let reached = λ (rest : List Chunk) (chunks : IsChunking j rest).
          o.add_mono (value rest) u (reward j i) (known rest chunks) in
        elim (Bool-cases (r.lt v total)) [
          | inl e ↦ rw e (
              LastFrom-cases (λ gs. r.lt total (value gs) ≡ false) i j
                (λ rest allowed chunks. reached rest chunks)
                (λ gs h. o.le_trans (value gs) v total (bound gs h) (o.lt_asymm v total e)))
          | inr e ↦ rw e (
              LastFrom-cases (λ gs. r.lt v (value gs) ≡ false) i j
                (λ rest allowed chunks. o.le_trans _ total v (reached rest chunks) e) bound)
        ]

    -- A chunk that may not be one, or that nothing can stand before, changes no bound.
    skip-IsBound :
        (i j : ℕ) (best : Option R)
        → ((rest : List Chunk) → is_allowed j i ≡ true → IsChunking j rest → ⊥)
        → IsBound (LastFrom (suc j) i) best
        → IsBound (LastFrom j i) best
    skip-IsBound i j none never bound = LastFrom-cases (λ gs. ⊥) i j never bound
    skip-IsBound i j (some v) never bound =
        LastFrom-cases (λ gs. r.lt v (value gs) ≡ false) i j
          (λ rest allowed chunks. absurd (never rest allowed chunks)) bound

    consider-IsBound :
        (i j : ℕ) (small : Bool) (found : Option R) (cell : Cell R)
        → (small ≡ true → is_allowed j i ≡ true → ⊥)
        → IsBound (IsChunking j) found
        → IsBound (LastFrom (suc j) i) cell.best
        → IsBound (LastFrom j i) (consider r small found (reward j i) j cell).best
    consider-IsBound i j true none cell never known bound =
        skip-IsBound i j cell.best (λ rest allowed chunks. known rest chunks) bound
    consider-IsBound i j false none cell never known bound =
        skip-IsBound i j cell.best (λ rest allowed chunks. known rest chunks) bound
    consider-IsBound i j true (some u) cell never known bound =
        skip-IsBound i j cell.best (λ rest allowed chunks. never refl allowed) bound
    consider-IsBound i j false (some u) cell never known bound =
        some-IsBound i j u cell.best cell.parent known bound

    -- One candidate that is not too large.
    evaluate-IsBound :
        (dp : List (Cell R)) (i j : ℕ) (cell : Cell R)
        → IsBound (IsChunking j) (best_of r (get_elem? dp j))
        → IsBound (LastFrom (suc j) i) cell.best
        → IsBound (LastFrom j i) (evaluate r s n tokens reward dp i j cell).best
    unfolding evaluate
    evaluate-IsBound dp i j cell =
        consider-IsBound i j (ltb (tokens j i) s.min_chunk_size && ltb i n)
          (best_of r (get_elem? dp j)) cell (λ small allowed. ground (arith, small, allowed))

    too_large : (i j : ℕ) → ltb s.max_chunk_size (tokens j i) ≡ true → is_allowed j i ≡ true → ⊥
    too_large i j large allowed = ground (arith, large, allowed)

    -- Where the loop breaks, no earlier start is allowed either.
    break-IsBound :
        (i j : ℕ) (best : Option R)
        → ((k l : ℕ) → k ≤ l → l < i → tokens l i ≤ tokens k i)
        → j < i
        → ltb s.max_chunk_size (tokens j i) ≡ true
        → IsBound (LastFrom (suc j) i) best
        → IsBound (LastFrom 0 i) best
    break-IsBound i zero best mono below large bound =
        skip-IsBound i 0 best (λ rest allowed chunks. too_large i 0 large allowed) bound
    break-IsBound i (suc j) best mono below large bound =
        let more = mono j (suc j) (omega arith) below in
        break-IsBound i j best mono (omega (arith, below)) (ground (arith, large, more)) (
          skip-IsBound i (suc j) best (λ rest allowed chunks. too_large i (suc j) large allowed)
            bound)

    -- The inner loop, from what is known of the cells before `i`.
    pub scan-IsBound :
        (dp : List (Cell R)) (i j : ℕ) (cell : Cell R)
        → ((k : ℕ) → k < i → IsBound (IsChunking k) (best_of r (get_elem? dp k)))
        → ((k l : ℕ) → k ≤ l → l < i → tokens l i ≤ tokens k i)
        → j ≤ i
        → IsBound (LastFrom j i) cell.best
        → IsBound (LastFrom 0 i) (scan r s n tokens reward dp i j cell).best
    unfolding scan
    scan-IsBound dp i zero cell known mono below bound = bound
    scan-IsBound dp i (suc j) cell known mono below bound =
        elim (Bool-cases (ltb s.max_chunk_size (tokens j i))) [
          | inl e ↦
              rw (scan-break dp i j cell e)
                (break-IsBound i j cell.best mono (omega (arith, below)) e bound)
          | inr e ↦ rw (scan-next dp i j cell e) (
              scan-IsBound dp i j _ known mono (omega (arith, below))
                (evaluate-IsBound dp i j cell (known j (omega (arith, below))) bound))
        ]
