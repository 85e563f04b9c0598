-- ===== src/Chunking/Links.antt =====
-- semantic-chunking-service/chunking/cluster_semantic.py: the parents that `_fill_dp_table` notes.
use thorondor.Prelude.{
  ℕ, zero, suc, ◌≤◌, ◌<◌, Bool, true, false, Option, none, some, List, ◌≡◌, refl, ◌&&◌, ltb, inl,
  inr, get_elem?, Bool-cases, arith,
}
use thorondor.Chunking.{Rewards, Sizes, Cell, best_of, improve, consider, evaluate, scan}
use thorondor.Chunking.Best.{is_allowed, scan-break, scan-next}

module _ {R : Type 0} (r : Rewards R) (s : Sizes) (n : ℕ) (tokens : ℕ → ℕ → ℕ)
    (reward : ℕ → ℕ → R) where
  -- The best reward of a cell is that of its parent and of the chunk between them.
  abbrev pub Linked : List (Cell R) → ℕ → Option R → Option ℕ → Type 0
  Linked dp i none parent = Unit {0}
  Linked dp i (some v) parent =
      (j : ℕ) × (u : R) × (parent ≡ some j)
      × (j < i)
      × (is_allowed r s n tokens reward j i ≡ true)
      × (best_of r (get_elem? dp j) ≡ some u)
      × (r.add u (reward j i) ≡ v)

  improve-Linked :
      (dp : List (Cell R)) (i j : ℕ) (u : R) (best : Option R) (parent : Option ℕ)
      → j < i
      → is_allowed r s n tokens reward j i ≡ true
      → best_of r (get_elem? dp j) ≡ some u
      → Linked dp i best parent
      → Linked dp i
          (improve r (some u) (reward j i) j (record { best = best; parent = parent })).best
          (improve r (some u) (reward j i) j (record { best = best; parent = parent })).parent
  improve-Linked dp i j u none parent below allowed found h =
      (j, u, refl, below, allowed, found, refl)
  improve-Linked dp i j u (some v) parent below allowed found h =
      elim (Bool-cases (r.lt v (r.add u (reward j i)))) [
        | inl e ↦ rw e (j, u, refl, below, allowed, found, refl)
        | inr e ↦ rw e h
      ]

  consider-Linked :
      (dp : List (Cell R)) (i j : ℕ) (small : Bool) (found : Option R) (cell : Cell R)
      → j < i
      → (small ≡ false → is_allowed r s n tokens reward j i ≡ true)
      → best_of r (get_elem? dp j) ≡ found
      → Linked dp i cell.best cell.parent
      → Linked dp i
          (consider r small found (reward j i) j cell).best
          (consider r small found (reward j i) j cell).parent
  consider-Linked dp i j true none cell below allowed same h = h
  consider-Linked dp i j false none cell below allowed same h = h
  consider-Linked dp i j true (some u) cell below allowed same h = h
  consider-Linked dp i j false (some u) cell below allowed same h =
      improve-Linked dp i j u cell.best cell.parent below (allowed refl) same h

  evaluate-Linked :
      (dp : List (Cell R)) (i j : ℕ) (cell : Cell R)
      → j < i
      → ltb s.max_chunk_size (tokens j i) ≡ false
      → Linked dp i cell.best cell.parent
      → Linked dp i
          (evaluate r s n tokens reward dp i j cell).best
          (evaluate r s n tokens reward dp i j cell).parent
  unfolding evaluate
  evaluate-Linked dp i j cell below fits h =
      consider-Linked dp i j (ltb (tokens j i) s.min_chunk_size && ltb i n) _ cell below
        (λ small. ground (arith, small, fits)) refl h

  pub scan-Linked :
      (dp : List (Cell R)) (i j : ℕ) (cell : Cell R)
      → j ≤ i
      → Linked dp i cell.best cell.parent
      → Linked dp i
          (scan r s n tokens reward dp i j cell).best
          (scan r s n tokens reward dp i j cell).parent
  unfolding scan
  scan-Linked dp i zero cell below h = h
  scan-Linked dp i (suc j) cell below h = elim (Bool-cases (ltb s.max_chunk_size (tokens j i))) [
    | inl e ↦ rw (scan-break r s n tokens reward dp i j cell e) h
    | inr e ↦ rw (scan-next r s n tokens reward dp i j cell e) (
        scan-Linked dp i j (evaluate r s n tokens reward dp i j cell) (omega (arith, below))
          (evaluate-Linked dp i j cell (omega (arith, below)) e h))
  ]
