-- ===== src/Assembly/Budget.antt =====
-- orchestrator/assembly.py: the limits that `assemble` keeps to.
use thorondor.Prelude.{
  ℕ, suc, ◌+◌, ◌-◌, ◌≤◌, false, Option, none, some, List, [], ◌∷◌, ◌++◌, ◌≡◌, refl, ap, ◌==◌, ◌||◌,
  not, leb, ltb, length, length-append, lookup, All, All-append, All-sort, sort, Bool-cases,
  Option-cases, inl, inr, arith,
}
use thorondor.Assembly.{
  Chunk, ScoredChunk, AssembledPassage, Assembled, Texts, truncate_to_budget, cut, cut_at,
  citation_id_for, citation_key, add_item, is_full, assemble_loop, assemble, nothing_assembled,
}
use thorondor.Assembly.Tokens.{tokens, IsCounted, Fits, truncate_to_budget-Fits}

abbrev pub sum_tokens : {S : Type 0} → List (AssembledPassage S) → ℕ
sum_tokens [] = 0
sum_tokens (p ∷ rest) = p.token_count + sum_tokens rest

sum_tokens-append :
    {S : Type 0} (xs : List (AssembledPassage S)) (p : AssembledPassage S)
    → sum_tokens (xs ++ p ∷ []) ≡ sum_tokens xs + p.token_count
sum_tokens-append [] p = omega arith
sum_tokens-append (x ∷ xs) p = omega (arith, sum_tokens-append xs p)

module _ {S : Type 0} (texts : Texts S) where
  -- What a round keeps, the loop keeps.
  pub assemble_loop-keeps :
      (P : Assembled S → Type 0) (Q : ScoredChunk S → Type 0) (token_budget : ℕ)
      (max_passages : Option ℕ)
      → ((item : ScoredChunk S) (a : Assembled S)
          → is_full texts max_passages a ≡ false
          → Q item
          → P a
          → P (
              add_item texts item
                (truncate_to_budget texts (token_budget - a.total_tokens) item.chunk)
                a))
      → (items : List (ScoredChunk S)) (a : Assembled S) → All Q items
      → P a
      → P (assemble_loop texts token_budget max_passages items a)
  unfolding assemble_loop
  assemble_loop-keeps P Q token_budget max_passages keep [] a q h = h
  assemble_loop-keeps P Q token_budget max_passages keep (item ∷ rest) a (qi, q) h =
      elim (Bool-cases (is_full texts max_passages a)) [
        | inl e ↦ rw e h
        | inr e ↦
            rw e
              (assemble_loop-keeps P Q token_budget max_passages keep rest _ q (keep item a e qi h))
      ]

  abbrev pub AtMost : Option ℕ → Assembled S → Type 0
  AtMost none a = Unit
  AtMost (some max_passages) a = length a.passages ≤ max_passages

  pub record IsWithin (token_budget : ℕ) (max_passages : Option ℕ) (a : Assembled S) : Type 0 where
    pub fits : a.total_tokens ≤ token_budget
    pub total : a.total_tokens ≡ sum_tokens a.passages
    pub few : AtMost max_passages a

  abbrev Small : ℕ → Option Chunk → Type 0
  Small token_budget none = Unit
  Small token_budget (some c) = c.token_count ≤ token_budget

  cut_at-Small :
      (token_budget : ℕ) (c : Chunk) (found : Option ℕ)
      → Small token_budget (cut_at texts token_budget c found)
  unfolding cut
  cut_at-Small token_budget c none = tt
  cut_at-Small token_budget c (some end) = omega arith

  truncate_to_budget-Small :
      (token_budget : ℕ) (c : Chunk) → Small token_budget (truncate_to_budget texts token_budget c)
  unfolding truncate_to_budget
  truncate_to_budget-Small token_budget c = elim (Bool-cases (leb c.token_count token_budget)) [
    | inl e ↦ rw e (ground (arith, e))
    | inr e ↦ elim (Bool-cases (ltb token_budget 1)) [
      | inl x ↦ rw (e, x) tt
      | inr x ↦
          elim (Bool-cases (
            not (tokens texts c.text == c.token_count) || ltb (tokens texts c.text) token_budget)) [
              | inl y ↦ rw (e, x, y) tt
              | inr y ↦ rw (e, x, y) (cut_at-Small token_budget c _)
            ]
    ]
  ]

  citation_id_for-same :
      (c : Chunk) (a : Assembled S)
      → ((citation_id_for texts c a).1.passages ≡ a.passages)
        × ((citation_id_for texts c a).1.total_tokens ≡ a.total_tokens)
  unfolding citation_id_for
  citation_id_for-same c a = elim (Option-cases (lookup (citation_key texts c) a.citation_ids)) [
    | inl n ↦ rw n (refl, refl)
    | inr (id, n) ↦ rw n (refl, refl)
  ]

  room_for_one :
      (max_passages : Option ℕ) (a b : Assembled S)
      → length b.passages ≡ suc (length a.passages)
      → is_full texts max_passages a ≡ false
      → AtMost max_passages b
  room_for_one none a b e room = tt
  room_for_one (some n) a b e room = ground (arith, e, room)

  add_item-IsWithin :
      (token_budget : ℕ) (max_passages : Option ℕ) (item : ScoredChunk S) (a : Assembled S)
      (found : Option Chunk)
      → is_full texts max_passages a ≡ false
      → Small (token_budget - a.total_tokens) found
      → IsWithin token_budget max_passages a
      → IsWithin token_budget max_passages (add_item texts item found a)
  unfolding add_item
  add_item-IsWithin token_budget max_passages item a none room small h = h
  add_item-IsWithin token_budget max_passages item a (some c) room small h =
      let (passages, total) = citation_id_for-same c a in
      let size = ap length passages in
      let sum = ap sum_tokens passages in
      let cited = (citation_id_for texts c a).1 in
      record {
        fits = omega (arith, h.fits, total, small);
        total = omega (arith, h.total, total, sum, sum_tokens-append cited.passages _);
        few =
            room_for_one max_passages a _
              (omega (arith, size, length-append cited.passages (_ ∷ []))) room;
      }

  pub no_condition : (items : List (ScoredChunk S)) → All (λ i. Unit {0}) items
  no_condition [] = tt
  no_condition (i ∷ rest) = (tt, no_condition rest)

  -- The passages have together at most as many tokens as the budget allows, which is the total that the
  -- loop counts, and they are at most as many as asked for.
  pub assemble-IsWithin :
      (token_budget : ℕ) (max_passages : Option ℕ) (scored : List (ScoredChunk S))
      → IsWithin token_budget max_passages (assemble texts token_budget max_passages scored)
  unfolding assemble
  assemble-IsWithin token_budget max_passages scored =
      assemble_loop-keeps (IsWithin token_budget max_passages) (λ i. Unit) token_budget max_passages
        (λ item a room q h.
          add_item-IsWithin token_budget max_passages item a _ room
            (truncate_to_budget-Small (token_budget - a.total_tokens) item.chunk) h)
        (sort (λ a b. texts.lt b.score a.score) scored) (nothing_assembled texts)
        (no_condition (sort (λ a b. texts.lt b.score a.score) scored))
        (record {
          fits = omega arith;
          total = refl;
          few = elim max_passages as (λ m. AtMost m (nothing_assembled texts)) [
            | none ↦ tt
            | some n ↦ omega arith
          ];
        })

  -- The passages whose count is that of the tokens of their text.
  abbrev pub CountsTokens : AssembledPassage S → Type 0
  CountsTokens p = tokens texts p.text ≡ p.token_count

  add_item-CountsTokens :
      (token_budget : ℕ) (item : ScoredChunk S) (a : Assembled S) (found : Option Chunk)
      → Fits texts token_budget found
      → All CountsTokens a.passages
      → All CountsTokens (add_item texts item found a).passages
  unfolding add_item
  add_item-CountsTokens token_budget item a none fits h = h
  add_item-CountsTokens token_budget item a (some c) (small, counted) h =
      let (passages, total) = citation_id_for-same c a in
      All-append CountsTokens (citation_id_for texts c a).1.passages (_ ∷ []) (rw passages h)
        (counted, tt)

  -- If the token count of every scored chunk is the number of matches of \S+ in its text, then so it is
  -- for every passage, also where the text is cut to the budget.
  pub assemble-CountsTokens :
      (token_budget : ℕ) (max_passages : Option ℕ) (scored : List (ScoredChunk S))
      → All (λ i. IsCounted texts i.chunk) scored
      → All CountsTokens (assemble texts token_budget max_passages scored).passages
  unfolding assemble
  assemble-CountsTokens token_budget max_passages scored counted =
      assemble_loop-keeps (λ a. All CountsTokens a.passages) (λ i. IsCounted texts i.chunk)
        token_budget max_passages
        (λ item a room q h.
          add_item-CountsTokens (token_budget - a.total_tokens) item a _
            (truncate_to_budget-Fits texts (token_budget - a.total_tokens) item.chunk q) h)
        (sort (λ a b. texts.lt b.score a.score) scored) (nothing_assembled texts)
        (All-sort (λ i. IsCounted texts i.chunk) (λ a b. texts.lt b.score a.score) scored counted)
        tt
