-- ===== src/Merge/Offers.antt =====
-- orchestrator/merge.py: which contributions are offered for a URL, and which are kept.
use mathlib.Core.Path.{subst}
use thorondor.Prelude.{
  ◌≤◌, true, false, List, [], ◌∷◌, ◌++◌, ◌≡◌, refl, sym, ◌∙◌, if◌then◌else◌, any, any-count, count,
  ltb, All, All-append, All-map, String, Bool-cases, inl, inr, arith,
}
use thorondor.Merge.{
  DiscoveryContribution, DiscoveryResult, Names, same_contribution, contributions_of,
  add_contribution, add_contributions,
}
use thorondor.Merge.Bests.{has_key, all_contributions}
use thorondor.Merge.Highest.{IsOrder}
use thorondor.Merge.Kinds.{
  Distinct, any_same, covers, add_contribution-Distinct, add_contribution-All, any_covers_new,
  any_covers_kept,
}

module _ {S : Type 0} (n : Names S) where
  -- The contributions of all results of a URL, as they are given.
  abbrev pub offered : String → List (DiscoveryResult S × String) → List (DiscoveryContribution S)
  offered key [] = []
  offered key ((r, subquery) ∷ rest) =
      let others = offered key rest in
      if has_key n key r then contributions_of n r subquery r.contributions ++ others else others

  adds-Distinct :
      (known cs : List (DiscoveryContribution S))
      → Distinct n known
      → Distinct n (add_contributions n known cs)
  adds-Distinct known [] h = h
  adds-Distinct known (c ∷ cs) h =
      adds-Distinct (add_contribution n known c) cs (add_contribution-Distinct n c known h)

  adds-All :
      (P : DiscoveryContribution S → Type 0) (known cs : List (DiscoveryContribution S))
      → All P known
      → All P cs
      → All P (add_contributions n known cs)
  adds-All P known [] h k = h
  adds-All P known (c ∷ cs) h (p, k) =
      adds-All P (add_contribution n known c) cs (add_contribution-All n P c known p h) k

  pub all_contributions-Distinct :
      (key : String) (known : List (DiscoveryContribution S))
      (results : List (DiscoveryResult S × String))
      → Distinct n known
      → Distinct n (all_contributions n key known results)
  all_contributions-Distinct key known [] h = h
  all_contributions-Distinct key known ((r, s) ∷ rest) h = elim (Bool-cases (has_key n key r)) [
    | inl k ↦ rw k (
        all_contributions-Distinct key
          (add_contributions n known (contributions_of n r s r.contributions)) rest
          (adds-Distinct known (contributions_of n r s r.contributions) h))
    | inr k ↦ rw k (all_contributions-Distinct key known rest h)
  ]

  All-left :
      (P : DiscoveryContribution S → Type 0) (xs ys : List (DiscoveryContribution S))
      → All P (xs ++ ys)
      → All P xs × All P ys
  All-left P [] ys h = (tt, h)
  All-left P (x ∷ xs) ys (p, h) = let (a, b) = All-left P xs ys h in ((p, a), b)

  pub all_contributions-All :
      (P : DiscoveryContribution S → Type 0) (key : String) (known : List (DiscoveryContribution S))
      (results : List (DiscoveryResult S × String))
      → All P known
      → All P (offered key results)
      → All P (all_contributions n key known results)
  all_contributions-All P key known [] h k = h
  all_contributions-All P key known ((r, s) ∷ rest) h o = elim (Bool-cases (has_key n key r)) [
    | inl k ↦
        let cs = contributions_of n r s r.contributions in
        let (first, later) = All-left P cs (offered key rest) (rw k at o) in
        rw k (
          all_contributions-All P key (add_contributions n known cs) rest
            (adds-All P known cs h first) later)
    | inr k ↦ rw k (all_contributions-All P key known rest h (rw k at o))
  ]

  -- Of a kind there is at most one.
  pub Distinct-count :
      (x : DiscoveryContribution S) (cs : List (DiscoveryContribution S))
      → Distinct n cs
      → count (same_contribution n x) cs ≤ 1
  Distinct-count x [] h = omega arith
  Distinct-count x (c ∷ cs) (once, h) = elim (Bool-cases (same_contribution n x c)) [
    | inl k ↦
        let none_ : any (same_contribution n x) cs ≡ false = any_same n x c cs k ∙ once in
        let number = any-count (same_contribution n x) cs in
        let zero_ : ltb 0 (count (same_contribution n x) cs) ≡ false = sym number ∙ none_ in
        rw k (ground (arith, zero_))
    | inr k ↦ let rest = Distinct-count x cs h in rw k (omega (arith, rest))
  ]

  module _ (order : IsOrder n) where
    adds-kept :
        (x : DiscoveryContribution S) (known cs : List (DiscoveryContribution S))
        → any (covers n x) known ≡ true
        → any (covers n x) (add_contributions n known cs) ≡ true
    adds-kept x known [] h = h
    adds-kept x known (c ∷ cs) h =
        adds-kept x (add_contribution n known c) cs (any_covers_kept n order x c known h)

    adds-new :
        (known cs : List (DiscoveryContribution S))
        → All (λ x. any (covers n x) (add_contributions n known cs) ≡ true) cs
    adds-new known [] = tt
    adds-new known (c ∷ cs) = (
      adds-kept c (add_contribution n known c) cs (any_covers_new n order c known),
      adds-new (add_contribution n known c) cs,
    )

    all-kept :
        (x : DiscoveryContribution S) (key : String) (known : List (DiscoveryContribution S))
        (results : List (DiscoveryResult S × String))
        → any (covers n x) known ≡ true
        → any (covers n x) (all_contributions n key known results) ≡ true
    all-kept x key known [] h = h
    all-kept x key known ((r, s) ∷ rest) h = elim (Bool-cases (has_key n key r)) [
      | inl k ↦
          let cs = contributions_of n r s r.contributions in
          rw k (all-kept x key (add_contributions n known cs) rest (adds-kept x known cs h))
      | inr k ↦ rw k (all-kept x key known rest h)
    ]

    pub all_contributions-covers :
        (key : String) (known : List (DiscoveryContribution S))
        (results : List (DiscoveryResult S × String)) (x : List (DiscoveryContribution S))
        → x ≡ offered key results
        → All (λ c. any (covers n c) (all_contributions n key known results) ≡ true) x
    all_contributions-covers key known [] x e = subst (All _) (sym e) tt
    all_contributions-covers key known ((r, s) ∷ rest) x e = elim (Bool-cases (has_key n key r)) [
      | inl k ↦
          let cs = contributions_of n r s r.contributions in
          let next = all_contributions n key (add_contributions n known cs) rest in
          let same : all_contributions n key known ((r, s) ∷ rest) ≡ next = rw k refl in
          let e' : x ≡ cs ++ offered key rest = rw k at e in
          subst (λ t. All (λ c. any (covers n c) t ≡ true) x) (sym same)
            (subst (All (λ c. any (covers n c) next ≡ true)) (sym e') (
              All-append (λ c. any (covers n c) next ≡ true) cs (offered key rest)
                (All-map cs (λ c h. all-kept c key (add_contributions n known cs) rest h)
                  (adds-new known cs))
                (all_contributions-covers key (add_contributions n known cs) rest (offered key rest)
                  refl)))
      | inr k ↦
          let same : all_contributions n key known ((r, s) ∷ rest)
              ≡ all_contributions n key known rest =
            rw k refl in
          let e' : x ≡ offered key rest = rw k at e in
          subst (λ t. All (λ c. any (covers n c) t ≡ true) x) (sym same)
            (all_contributions-covers key known rest x e')
    ]
