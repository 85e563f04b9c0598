-- ===== src/Merge/Kinds.antt =====
-- orchestrator/merge.py: the contributions to a URL, each kind once.
use mathlib.Core.Path.{fun_ext}
use thorondor.Prelude.{
  ℕ, Bool, true, false, Option, none, some, List, [], ◌∷◌, ◌≡◌, ◌⊎◌, refl, sym, ap, ◌∙◌, ◌&&◌, not,
  ==_iff, any, All, All-map, str_eq, eq_iff, Bool-cases, inl, inr, arith,
}
use thorondor.Merge.{
  DiscoveryContribution, Names, same_position, same_contribution, add_contribution,
}
use thorondor.Merge.Highest.{IsOrder}

-- An element is one of a list.
abbrev pub IsAmong : {A : Type 0} → A → List A → Type 0
IsAmong a [] = ⊥
IsAmong a (x ∷ xs) = (a ≡ x) ⊎ IsAmong a xs

pub All-IsAmong : {A : Type 0} (xs : List A) → All (λ a. IsAmong a xs) xs
All-IsAmong [] = tt
All-IsAmong (x ∷ xs) = (inl refl, All-map xs (λ a h. inr h) (All-IsAmong xs))

same_position_eq : (a b : Option ℕ) → same_position a b ≡ true → a ≡ b
same_position_eq none none h = refl
same_position_eq none (some b) h = absurd cc
same_position_eq (some a) none h = absurd cc
same_position_eq (some a) (some b) h = ap some ((==_iff a b).0 h)

same_position_refl : (a : Option ℕ) → same_position a a ≡ true
same_position_refl none = refl
same_position_refl (some a) = (==_iff a a).1 refl

module _ {S : Type 0} (n : Names S) where
  abbrev Contribution : Type 0
  Contribution = DiscoveryContribution S

  -- Of two contributions of a kind a third is of the kind of both or of neither.
  same_left :
      (d c x : Contribution)
      → same_contribution n d c ≡ true
      → same_contribution n d x ≡ same_contribution n c x
  same_left d c x h = elim (Bool-cases (str_eq d.subquery c.subquery)) [
    | inr a ↦ let bad : false ≡ true = rw a at h in absurd cc
    | inl a ↦ elim (Bool-cases (str_eq d.engine c.engine)) [
      | inr b ↦ let bad : false ≡ true = rw (a, b) at h in absurd cc
      | inl b ↦
          let p : same_position d.position c.position ≡ true = rw (a, b) at h in
          let one : d.subquery ≡ c.subquery = (eq_iff d.subquery c.subquery).0 a in
          let two : d.engine ≡ c.engine = (eq_iff d.engine c.engine).0 b in
          let three : d.position ≡ c.position = same_position_eq d.position c.position p in
          λ i.
            str_eq (one i) x.subquery
            && str_eq (two i) x.engine
            && same_position (three i) x.position
    ]
  ]

  same_refl : (c : Contribution) → same_contribution n c c ≡ true
  same_refl c =
      rw
        (
          (eq_iff c.subquery c.subquery).1 refl,
          (eq_iff c.engine c.engine).1 refl,
          same_position_refl c.position,
        )
        refl

  -- The kind is there once.
  abbrev pub Distinct : List Contribution → Type 0
  Distinct [] = Unit
  Distinct (c ∷ rest) = (any (same_contribution n c) rest ≡ false) × Distinct rest

  pub any_same :
      (d c : Contribution) (xs : List Contribution)
      → same_contribution n d c ≡ true
      → any (same_contribution n d) xs ≡ any (same_contribution n c) xs
  any_same d c xs h = ap (λ t. any t xs) (fun_ext (λ x. same_left d c x h))

  any-add_contribution :
      (d c : Contribution) (xs : List Contribution)
      → same_contribution n d c ≡ false
      → any (same_contribution n d) (add_contribution n xs c) ≡ any (same_contribution n d) xs
  unfolding add_contribution
  any-add_contribution d c [] h = rw h refl
  any-add_contribution d c (e ∷ xs) h = elim (Bool-cases (same_contribution n e c)) [
    | inl k ↦ elim (Bool-cases (n.lt e.score c.score)) [
      | inl l ↦
          let off : same_contribution n d e ≡ false = elim (Bool-cases (same_contribution n d e)) [
            | inl m ↦ let bad : true ≡ false = sym (same_left d e c m ∙ k) ∙ h in absurd cc
            | inr m ↦ m
          ] in
          rw (k, l, h, off) refl
      | inr l ↦ rw (k, l) refl
    ]
    | inr k ↦ rw (k, any-add_contribution d c xs h) refl
  ]

  pub add_contribution-Distinct :
      (c : Contribution) (xs : List Contribution) → Distinct xs → Distinct (add_contribution n xs c)
  unfolding add_contribution
  add_contribution-Distinct c [] h = (refl, tt)
  add_contribution-Distinct c (d ∷ xs) (once, h) = elim (Bool-cases (same_contribution n d c)) [
    | inl k ↦ elim (Bool-cases (n.lt d.score c.score)) [
      | inl l ↦ rw (k, l) (sym (any_same d c xs k) ∙ once, h)
      | inr l ↦ rw (k, l) (once, h)
    ]
    | inr k ↦ rw k (any-add_contribution d c xs k ∙ once, add_contribution-Distinct c xs h)
  ]

  pub add_contribution-All :
      (P : Contribution → Type 0) (c : Contribution) (xs : List Contribution)
      → P c
      → All P xs
      → All P (add_contribution n xs c)
  unfolding add_contribution
  add_contribution-All P c [] p h = (p, tt)
  add_contribution-All P c (d ∷ xs) p (q, h) = elim (Bool-cases (same_contribution n d c)) [
    | inl k ↦ elim (Bool-cases (n.lt d.score c.score)) [
      | inl l ↦ rw (k, l) (p, h)
      | inr l ↦ rw (k, l) (q, h)
    ]
    | inr k ↦ rw k (q, add_contribution-All P c xs p h)
  ]

  -- One of the kind is there, and with no lower score.
  abbrev pub covers : Contribution → Contribution → Bool
  covers x c = same_contribution n c x && not (n.lt c.score x.score)

  module _ (order : IsOrder n) where
    covers_self : (c : Contribution) → covers c c ≡ true
    covers_self c = elim (Bool-cases (n.lt c.score c.score)) [
      | inl l ↦ let bad : true ≡ false = sym l ∙ order.asym c.score c.score l in absurd cc
      | inr l ↦ rw (same_refl c, l) refl
    ]

    covers_higher :
        (x d c : Contribution)
        → same_contribution n d c ≡ true
        → n.lt d.score c.score ≡ true
        → covers x d ≡ true
        → covers x c ≡ true
    covers_higher x d c k l h = elim (Bool-cases (same_contribution n d x)) [
      | inr m ↦ let bad : false ≡ true = rw m at h in absurd cc
      | inl m ↦
          let same : same_contribution n c x ≡ true = sym (same_left d c x k) ∙ m in
          let low : not (n.lt d.score x.score) ≡ true = rw m at h in
          elim (Bool-cases (n.lt c.score x.score)) [
            | inl y ↦
                let across = order.cotrans d.score c.score x.score l in
                let back = order.asym c.score x.score y in
                absurd (ground (arith, across, back, low))
            | inr y ↦ rw (same, y) refl
          ]
    ]

    pub any_covers_new :
        (c : Contribution) (xs : List Contribution)
        → any (covers c) (add_contribution n xs c) ≡ true
    unfolding add_contribution
    any_covers_new c [] = rw (covers_self c) refl
    any_covers_new c (d ∷ xs) = elim (Bool-cases (same_contribution n d c)) [
      | inl k ↦ elim (Bool-cases (n.lt d.score c.score)) [
        | inl l ↦ rw (k, l, covers_self c) refl
        | inr l ↦ rw (k, l, k, l) refl
      ]
      | inr k ↦ rw (k, any_covers_new c xs) (ground arith)
    ]

    pub any_covers_kept :
        (x c : Contribution) (xs : List Contribution)
        → any (covers x) xs ≡ true
        → any (covers x) (add_contribution n xs c) ≡ true
    unfolding add_contribution
    any_covers_kept x c [] h = absurd cc
    any_covers_kept x c (d ∷ xs) h = elim (Bool-cases (same_contribution n d c)) [
      | inl k ↦ elim (Bool-cases (n.lt d.score c.score)) [
        | inl l ↦ elim (Bool-cases (covers x d)) [
          | inl m ↦ rw (k, l, covers_higher x d c k l m) refl
          | inr m ↦
              let tail : any (covers x) xs ≡ true = rw m at h in rw (k, l, tail) (ground arith)
        ]
        | inr l ↦ rw (k, l) h
      ]
      | inr k ↦ elim (Bool-cases (covers x d)) [
        | inl m ↦ rw (k, m) refl
        | inr m ↦
            let tail : any (covers x) xs ≡ true = rw m at h in
            rw (k, any_covers_kept x c xs tail) (ground arith)
      ]
    ]
