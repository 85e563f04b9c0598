-- ===== src/Chunking/Optimal.antt =====
-- semantic-chunking-service/chunking/cluster_semantic.py: the table of `_fill_dp_table`, the way back
-- through the parents, and the chunking that comes of it.
use thorondor.Prelude.{
  ℕ, zero, suc, ◌+◌, ◌≤◌, ◌<◌, false, Option, none, some, List, [], ◌∷◌, ◌++◌, ◌≡◌, refl, sym, ap,
  ◌∙◌, ◌==◌, inl, inr, length, get_elem?, length-append, get_elem?-concat_last, Bool-cases, arith,
}
use thorondor.Chunking.{
  Rewards, Sizes, Cell, Chunk, best_of, scan, fill, table, backtrack, or_zero, parent_of,
}
use thorondor.Chunking.Best.{IsOrdered, IsChunking, value, IsBound, LastFrom, scan-IsBound}
use thorondor.Chunking.Links.{Linked, scan-Linked}

get_elem?-append {ℓ} :
    {A : Type ℓ} (xs : List A) (x : A) (k : ℕ)
    → k < length xs
    → get_elem? (xs ++ x ∷ []) k ≡ get_elem? xs k
get_elem?-append [] x k h = absurd (ground (arith, h))
get_elem?-append (y ∷ xs) x zero h = refl
get_elem?-append (y ∷ xs) x (suc k) h = get_elem?-append xs x k (omega (arith, h))

module _ {R : Type 0} (r : Rewards R) (s : Sizes) (n : ℕ) (tokens : ℕ → ℕ → ℕ)
    (reward : ℕ → ℕ → R) where
  abbrev pub best_at : List (Cell R) → ℕ → Option R
  best_at dp k = best_of r (get_elem? dp k)

  abbrev pub parent_at : List (Cell R) → ℕ → Option ℕ
  parent_at dp k = parent_of r (get_elem? dp k)

  -- The cells before `i` are right.
  pub record IsTable (dp : List (Cell R)) (i : ℕ) : Type 0 where
    pub size : length dp ≡ i
    pub first : best_at dp 0 ≡ some r.nought
    pub bounds :
        (k : ℕ)
        → k < i
        → IsBound r s n tokens reward (IsChunking r s n tokens reward k) (best_at dp k)
    pub links :
        (k : ℕ) → 0 < k → k < i → Linked r s n tokens reward dp k (best_at dp k) (parent_at dp k)

  -- At a position after the first every chunking has a last chunk.
  all-IsBound :
      (i : ℕ) (best : Option R)
      → 0 < i
      → IsBound r s n tokens reward (LastFrom r s n tokens reward 0 i) best
      → IsBound r s n tokens reward (IsChunking r s n tokens reward i) best
  all-IsBound i none pos h = λ gs chunks. last gs pos chunks h
    where
      last :
          (gs : List Chunk)
          → 0 < i
          → IsChunking r s n tokens reward i gs
          → ((hs : List Chunk) → LastFrom r s n tokens reward 0 i hs → ⊥)
          → ⊥
      last [] pos chunks h = absurd (ground (arith, pos, chunks))
      last ((j, e) ∷ rest) pos chunks h = h ((j, e) ∷ rest) (omega arith, chunks)
  all-IsBound i (some v) pos h = λ gs chunks. last gs pos chunks h
    where
      last :
          (gs : List Chunk)
          → 0 < i
          → IsChunking r s n tokens reward i gs
          → ((hs : List Chunk)
              → LastFrom r s n tokens reward 0 i hs
              → r.lt v (value r s n tokens reward hs) ≡ false)
          → r.lt v (value r s n tokens reward gs) ≡ false
      last [] pos chunks h = absurd (ground (arith, pos, chunks))
      last ((j, e) ∷ rest) pos chunks h = h ((j, e) ∷ rest) (omega arith, chunks)

  -- What a link says is about cells before it.
  Linked-append :
      (dp : List (Cell R)) (c : Cell R) (k : ℕ) (best : Option R) (parent : Option ℕ)
      → k ≤ length dp
      → Linked r s n tokens reward dp k best parent
      → Linked r s n tokens reward (dp ++ c ∷ []) k best parent
  Linked-append dp c k none parent below h = h
  Linked-append dp c k (some v) parent below (j, u, at, less, allowed, found, total) = (
    j,
    u,
    at,
    less,
    allowed,
    ap (best_of r) (get_elem?-append dp c j (omega (arith, less, below))) ∙ found,
    total,
  )

  Linked-some :
      (dp : List (Cell R)) (i : ℕ) (v : R) (best : Option R) (parent : Option ℕ)
      → Linked r s n tokens reward dp i best parent
      → best ≡ some v
      → Linked r s n tokens reward dp i (some v) parent
  Linked-some dp i v best parent link e = rw e at link

  abbrev fresh : Cell R
  fresh = record { best = none; parent = none }

  no_last : (i : ℕ) (gs : List Chunk) → LastFrom r s n tokens reward i i gs → ⊥
  no_last i [] h = h
  no_last i ((j, e) ∷ rest) (from, (same, below, allowed, more)) = ground (arith, from, below)

  at_new :
      (dp : List (Cell R)) (c : Cell R) (i : ℕ)
      → length dp ≡ i
      → get_elem? (dp ++ c ∷ []) i ≡ some c
  at_new dp c i h = ap (λ m. get_elem? (dp ++ c ∷ []) m) (sym h) ∙ get_elem?-concat_last dp c

  step-bounds :
      (o : IsOrdered r) (dp : List (Cell R)) (i : ℕ)
      → ((k l : ℕ) → k ≤ l → l < i → tokens l i ≤ tokens k i)
      → 0 < i
      → IsTable dp i
      → (k : ℕ) → k < suc i
      → IsBound r s n tokens reward
          (IsChunking r s n tokens reward k)
          (best_at (dp ++ scan r s n tokens reward dp i i fresh ∷ []) k)
  step-bounds o dp i mono pos h k below = elim (Bool-cases (k == i)) [
    | inl q ↦
        let equal : k ≡ i = ground (arith, q) in
        let found =
          scan-IsBound r s n tokens reward o dp i i fresh h.bounds mono (omega arith) (no_last i) in
        rw (equal, at_new dp (scan r s n tokens reward dp i i fresh) i h.size)
          (all-IsBound i (scan r s n tokens reward dp i i fresh).best pos found)
    | inr q ↦
        let before : k < i = ground (arith, q, below) in
        rw
          (get_elem?-append dp (scan r s n tokens reward dp i i fresh) k
            (omega (arith, before, h.size)))
          (h.bounds k before)
  ]

  step-links :
      (dp : List (Cell R)) (i : ℕ)
      → IsTable dp i
      → (k : ℕ) → 0 < k
      → k < suc i
      → Linked r s n tokens reward
          (dp ++ scan r s n tokens reward dp i i fresh ∷ [])
          k
          (best_at (dp ++ scan r s n tokens reward dp i i fresh ∷ []) k)
          (parent_at (dp ++ scan r s n tokens reward dp i i fresh ∷ []) k)
  step-links dp i h k after below = elim (Bool-cases (k == i)) [
    | inl q ↦
        let equal : k ≡ i = ground (arith, q) in
        let c = scan r s n tokens reward dp i i fresh in
        rw (equal, at_new dp c i h.size)
          (Linked-append dp c i c.best c.parent (omega (arith, h.size))
            (scan-Linked r s n tokens reward dp i i fresh (omega arith) tt))
    | inr q ↦
        let before : k < i = ground (arith, q, below) in
        let c = scan r s n tokens reward dp i i fresh in
        rw (get_elem?-append dp c k (omega (arith, before, h.size))) (
          Linked-append dp c k (best_at dp k) (parent_at dp k) (omega (arith, before, h.size))
            (h.links k after before))
  ]

  IsTable-step :
      (o : IsOrdered r) (dp : List (Cell R)) (i : ℕ)
      → ((k l : ℕ) → k ≤ l → l < i → tokens l i ≤ tokens k i)
      → 0 < i
      → IsTable dp i
      → IsTable (dp ++ scan r s n tokens reward dp i i fresh ∷ []) (suc i)
  IsTable-step o dp i mono pos h = record {
    size = rw length-append (omega (arith, h.size));
    first = ap (best_of r) (get_elem?-append dp _ 0 (omega (arith, pos, h.size))) ∙ h.first;
    bounds = step-bounds o dp i mono pos h;
    links = step-links dp i h;
  }

  fill-IsTable :
      (o : IsOrdered r) (count i : ℕ) (dp : List (Cell R))
      → ((k l m : ℕ) → k ≤ l → l < m → m < i + count → tokens l m ≤ tokens k m)
      → 0 < i
      → IsTable dp i
      → IsTable (fill r s n tokens reward count i dp) (i + count)
  unfolding fill
  fill-IsTable o zero i dp mono pos h = let e : i + zero ≡ i = omega arith in rw e h
  fill-IsTable o (suc count) i dp mono pos h =
      let e : i + suc count ≡ suc i + count = omega arith in
      let next = IsTable-step o dp i (λ k l le below. mono k l i le below (omega arith)) pos h in
      rw e (
        fill-IsTable o count (suc i) _
          (λ k l m le below within. mono k l m le below (omega (arith, within))) (omega arith) next)

  pub backtrack-IsChunking :
      (dp : List (Cell R)) (fuel k : ℕ) (v : R)
      → IsTable dp (suc n)
      → k ≤ fuel
      → k ≤ n
      → best_at dp k ≡ some v
      → IsChunking r s n tokens reward k (backtrack r fuel dp k)
        × (value r s n tokens reward (backtrack r fuel dp k) ≡ v)
  unfolding backtrack
  backtrack-IsChunking dp fuel zero v h enough within e =
      let both : ◌≡◌ {A = Option R} (some r.nought) (some v) = sym h.first ∙ e in (refl, cc)
  backtrack-IsChunking dp zero (suc k) v h enough within e = absurd (ground (arith, enough))
  backtrack-IsChunking dp (suc fuel) (suc k) v h enough within e =
      let link = h.links (suc k) (omega arith) (omega (arith, within)) in
      let (j, u, at, less, allowed, found, total) = Linked-some dp (suc k) v _ _ link e in
      let prev : or_zero (parent_at dp (suc k)) ≡ j = ap or_zero at in
      let (chunks, worth) =
        backtrack-IsChunking dp fuel j u h (omega (arith, less, enough))
          (omega (arith, less, within)) found in
      rw prev ((refl, less, allowed, chunks), ap (λ w. r.add w (reward j (suc k))) worth ∙ total)

  first-IsTable : IsOrdered r → IsTable (record { best = some r.nought; parent = none } ∷ []) 1
  first-IsTable o = record {
    size = refl;
    first = refl;
    bounds = λ k below. bound k below;
    links = λ k after below. absurd (ground (arith, after, below));
  }
    where
      irreflexive : (a : R) → r.lt a a ≡ false
      irreflexive a = elim (Bool-cases (r.lt a a)) [ inl e ↦ o.lt_asymm a a e | inr e ↦ e ]

      first_value :
          (gs : List Chunk)
          → IsChunking r s n tokens reward 0 gs
          → r.lt r.nought (value r s n tokens reward gs) ≡ false
      first_value [] h = irreflexive r.nought
      first_value ((j, e) ∷ rest) (same, below, allowed, more) = absurd (ground (arith, below))

      bound :
          (k : ℕ)
          → k < 1
          → IsBound r s n tokens reward
              (IsChunking r s n tokens reward k)
              (best_at (record { best = some r.nought; parent = none } ∷ []) k)
      bound zero below = first_value
      bound (suc k) below = absurd (ground (arith, below))

  pub table-IsTable :
      IsOrdered r
      → ((k l m : ℕ) → k ≤ l → l < m → m ≤ n → tokens l m ≤ tokens k m)
      → IsTable (table r s n tokens reward) (suc n)
  unfolding table
  table-IsTable o mono =
      let e : suc n ≡ 1 + n = omega arith in
      rw e (
        fill-IsTable o n 1 _ (λ k l m le below within. mono k l m le below (omega (arith, within)))
          (omega arith) (first-IsTable o))
