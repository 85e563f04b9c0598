-- ===== src/Merge/Falling.antt =====
-- orchestrator/merge.py: the order of the merged results.
use thorondor.Prelude.{
  true, false, List, [], ◌∷◌, ◌≡◌, insert_sorted, All-insert_sorted, sort, All, All-map, Bool-cases,
  inl, inr,
}
use thorondor.Merge.{DiscoveryResult, Names, result_before}
use thorondor.Merge.Highest.{IsOrder}

module _ {S : Type 0} (n : Names S) where
  -- No result has a higher score than one before it.
  abbrev pub IsFalling : List (DiscoveryResult S) → Type 0
  IsFalling [] = Unit
  IsFalling (x ∷ xs) = All (λ y. n.lt x.score y.score ≡ false) xs × IsFalling xs

  module _ (order : IsOrder n) where
    before_lem :
        (y x : DiscoveryResult S) → result_before n y x ≡ true → n.lt y.score x.score ≡ false
    before_lem y x h = elim (Bool-cases (n.lt x.score y.score)) [
      | inl l ↦ order.asym x.score y.score l
      | inr l ↦ elim (Bool-cases (n.lt y.score x.score)) [
        | inl m ↦ let bad : false ≡ true = rw (l, m) at h in absurd cc
        | inr m ↦ m
      ]
    ]

    not_before_lem :
        (y x : DiscoveryResult S) → result_before n y x ≡ false → n.lt x.score y.score ≡ false
    not_before_lem y x h = elim (Bool-cases (n.lt x.score y.score)) [
      | inl l ↦ let bad : true ≡ false = rw l at h in absurd cc
      | inr l ↦ l
    ]

    lower_still :
        (x y z : DiscoveryResult S)
        → n.lt x.score y.score ≡ false
        → n.lt y.score z.score ≡ false
        → n.lt x.score z.score ≡ false
    lower_still x y z h k = elim (Bool-cases (n.lt x.score z.score)) [
      | inl l ↦
          let across = order.cotrans x.score z.score y.score l in
          let bad : false ≡ true = rw (h, k) at across in absurd cc
      | inr l ↦ l
    ]

    insert_sorted-IsFalling :
        (x : DiscoveryResult S) (xs : List (DiscoveryResult S))
        → IsFalling xs
        → IsFalling (insert_sorted (result_before n) x xs)
    insert_sorted-IsFalling x [] h = (tt, tt)
    insert_sorted-IsFalling x (y ∷ ys) (low, h) = elim (Bool-cases (result_before n y x)) [
      | inl e ↦ rw e (
        All-insert_sorted (λ z. n.lt y.score z.score ≡ false) (result_before n) x ys
            (before_lem y x e) low,
        insert_sorted-IsFalling x ys h,
      )
      | inr e ↦
          let first = not_before_lem y x e in
          rw e ((first, All-map ys (λ z k. lower_still x y z first k) low), (low, h))
    ]

    pub sort-IsFalling : (xs : List (DiscoveryResult S)) → IsFalling (sort (result_before n) xs)
    sort-IsFalling [] = tt
    sort-IsFalling (x ∷ xs) =
        insert_sorted-IsFalling x (sort (result_before n) xs) (sort-IsFalling xs)
