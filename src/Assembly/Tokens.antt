-- ===== src/Assembly/Tokens.antt =====
-- orchestrator/assembly.py: `_truncate_to_budget` cuts a text after so many tokens.
use thorondor.Prelude.{
  ℕ, zero, suc, ◌+◌, ◌-◌, ◌≤◌, ◌<◌, Bool, true, false, Option, none, some, List, [], ◌∷◌, ◌≡◌, refl,
  ap, ◌==◌, ◌||◌, not, leb, ltb, length, get_elem?, take, Bool-cases, inl, inr, arith,
}
use thorondor.Assembly.{Chunk, Texts, match_ends, truncate_to_budget, cut, cut_at}

module _ {S : Type 0} (texts : Texts S) where
  -- How many tokens a text has.
  abbrev pub tokens : List ℕ → ℕ
  tokens text = length (match_ends texts false 0 text)

  abbrev CutAfter : Bool → ℕ → ℕ → ℕ → List ℕ → Type 0
  CutAfter inside i k end text =
      (d : ℕ) × (end ≡ i + d) × (length (match_ends texts inside i (take d text)) ≡ suc k)

  some_inj : {a b : ℕ} → ◌≡◌ {A = Option ℕ} (some a) (some b) → a ≡ b
  some_inj h = cc

  cut_later :
      (c : ℕ) (rest : List ℕ) (inside : Bool) (i k end : ℕ)
      → texts.is_space c ≡ false
      → CutAfter true (i + 1) k end rest
      → CutAfter inside i k end (c ∷ rest)
  cut_later c rest inside i k end other (d, at, count) = (suc d, omega (arith, at), rw other count)

  -- A match ends where it ends also in the text that is cut there, as the last one.
  cut_tokens :
      (text : List ℕ) (inside : Bool) (i k end : ℕ)
      → get_elem? (match_ends texts inside i text) k ≡ some end
      → CutAfter inside i k end text
  cut_tokens [] true i zero end h = (0, (let same = some_inj h in omega (arith, same)), refl)
  cut_tokens [] true i (suc k) end h = absurd cc
  cut_tokens [] false i k end h = absurd cc
  cut_tokens (c ∷ rest) true i zero end h = elim (Bool-cases (texts.is_space c)) [
    | inl space ↦ (0, (let same = some_inj (rw space at h) in omega (arith, same)), refl)
    | inr other ↦
        cut_later c rest true i zero end other
          (cut_tokens rest true (i + 1) zero end (rw other at h))
  ]
  cut_tokens (c ∷ rest) true i (suc k) end h = elim (Bool-cases (texts.is_space c)) [
    | inl space ↦
        let (d, at, count) = cut_tokens rest false (i + 1) k end (rw space at h) in
        (suc d, omega (arith, at), rw space (ap suc count))
    | inr other ↦
        cut_later c rest true i (suc k) end other
          (cut_tokens rest true (i + 1) (suc k) end (rw other at h))
  ]
  cut_tokens (c ∷ rest) false i k end h = elim (Bool-cases (texts.is_space c)) [
    | inl space ↦
        let (d, at, count) = cut_tokens rest false (i + 1) k end (rw space at h) in
        (suc d, omega (arith, at), rw space count)
    | inr other ↦
        cut_later c rest false i k end other (cut_tokens rest true (i + 1) k end (rw other at h))
  ]

  -- A chunk whose count is that of its tokens.
  abbrev pub IsCounted : Chunk → Type 0
  IsCounted c = tokens c.text ≡ c.token_count

  abbrev pub Fits : ℕ → Option Chunk → Type 0
  Fits token_budget none = Unit
  Fits token_budget (some c) = (c.token_count ≤ token_budget) × IsCounted c

  cut_at-Fits :
      (token_budget : ℕ) (c : Chunk) (found : Option ℕ)
      → 0 < token_budget
      → get_elem? (match_ends texts false 0 c.text) (token_budget - 1) ≡ found
      → Fits token_budget (cut_at texts token_budget c found)
  unfolding cut
  cut_at-Fits token_budget c none positive h = tt
  cut_at-Fits token_budget c (some end) positive h =
      let (d, at, count) = cut_tokens c.text false 0 (token_budget - 1) end h in
      let same : end ≡ d = omega (arith, at) in
      let cut_count : tokens (take end c.text) ≡ suc (token_budget - 1) = rw same count in
      (omega arith, omega (arith, cut_count, positive))

  -- A chunk that counts its tokens is cut, if at all, to one that counts them and is within the budget.
  pub truncate_to_budget-Fits :
      (token_budget : ℕ) (c : Chunk)
      → IsCounted c
      → Fits token_budget (truncate_to_budget texts token_budget c)
  unfolding truncate_to_budget
  truncate_to_budget-Fits token_budget c counted =
      elim (Bool-cases (leb c.token_count token_budget)) [
        | inl e ↦ rw e (ground (arith, e), counted)
        | inr e ↦ elim (Bool-cases (ltb token_budget 1)) [
          | inl x ↦ rw (e, x) tt
          | inr x ↦
              let positive : 0 < token_budget = ground (arith, x) in
              elim (Bool-cases
                (not (tokens c.text == c.token_count) || ltb (tokens c.text) token_budget)) [
                  | inl y ↦ rw (e, x, y) tt
                  | inr y ↦
                      rw (e, x, y)
                        (cut_at-Fits token_budget c
                          (get_elem? (match_ends texts false 0 c.text) (token_budget - 1)) positive
                          refl)
                ]
        ]
      ]
