-- ===== src/Merge/Highest.antt =====
-- orchestrator/merge.py: the first result of a URL with the highest score.
use mathlib.Core.Path.{subst}
use mathlib.Core.List.{append-nil, append_assoc}
use thorondor.Prelude.{
  true, false, Option, none, some, List, [], ◌∷◌, ◌++◌, ◌≡◌, refl, sym, ap, ◌∙◌, ◌&&◌, ◌||◌, not,
  if◌then◌else◌, is_some, any, All, All-append, All-map, String, Bool-cases, inl, inr,
}
use thorondor.Merge.{DiscoveryResult, Names, better}
use thorondor.Merge.Bests.{has_key, first_best}

-- The order of the scores, which is that of numbers: if `a` is lower than `b` then `b` is not lower
-- than `a`, and every other score is higher than `a` or lower than `b`.
pub record IsOrder {S : Type 0} (n : Names S) : Type 0 where
  pub asym : (a b : S) → n.lt a b ≡ true → n.lt b a ≡ false
  pub cotrans : (a b c : S) → n.lt a b ≡ true → n.lt a c || n.lt c b ≡ true

module _ {S : Type 0} (n : Names S) where
  -- A result of the URL is lower than `r`, or not higher.
  abbrev pub IsBelow : String → DiscoveryResult S → DiscoveryResult S × String → Type 0
  IsBelow key r (x, s) = not (has_key n key x) || n.lt x.score r.score ≡ true

  abbrev pub IsNotAbove : String → DiscoveryResult S → DiscoveryResult S × String → Type 0
  IsNotAbove key r (x, s) = has_key n key x && n.lt r.score x.score ≡ false

  -- Of the results of a URL, those before `r` are lower and those after it are not higher.
  abbrev pub IsHighest : String → List (DiscoveryResult S × String) → DiscoveryResult S → Type 0
  IsHighest key seen r =
      (before : List (DiscoveryResult S × String)) × (after : List (DiscoveryResult S × String))
      × (s : String) × (seen ≡ before ++ (r, s) ∷ after)
      × (has_key n key r ≡ true)
      × All (IsBelow key r) before
      × All (IsNotAbove key r) after

  abbrev Found : String → List (DiscoveryResult S × String) → Option (DiscoveryResult S) → Type 0
  Found key seen none = All (λ x. has_key n key x.0 ≡ false) seen
  Found key seen (some r) = IsHighest key seen r

  later :
      (key : String) (seen : List (DiscoveryResult S × String)) (r : DiscoveryResult S)
      (x : DiscoveryResult S × String)
      → IsNotAbove key r x
      → IsHighest key seen r
      → IsHighest key (seen ++ x ∷ []) r
  later key seen r x low (before, after, s, e, own, b, a) = (
    before,
    after ++ x ∷ [],
    s,
    ap (λ t. t ++ x ∷ []) e ∙ append_assoc before ((r, s) ∷ after) (x ∷ []),
    own,
    b,
    All-append (IsNotAbove key r) after (x ∷ []) a (low, tt),
  )

  module _ (order : IsOrder n) where
    raise :
        (key : String) (seen : List (DiscoveryResult S × String)) (r y : DiscoveryResult S)
        → n.lt r.score y.score ≡ true
        → IsHighest key seen r
        → All (IsBelow key y) seen
    raise key seen r y higher (before, after, s, e, own, b, a) =
        subst (All (IsBelow key y)) (sym e) (
          All-append (IsBelow key y) before ((r, s) ∷ after)
            (All-map before
              (λ x low.
                let across = order.cotrans r.score y.score (x.0).score higher in
                let back = order.asym (x.0).score r.score in
                elim (Bool-cases (has_key n key x.0)) [
                  | inl k ↦
                      let under : n.lt (x.0).score r.score ≡ true = rw k at low in
                      rw k (let no_ = back under in rw no_ at across)
                  | inr k ↦ rw k refl
                ])
              b)
            (
              rw own higher,
              All-map after
                  (λ x low.
                    let across = order.cotrans r.score y.score (x.0).score higher in
                    elim (Bool-cases (has_key n key x.0)) [
                      | inl k ↦
                          let under : n.lt r.score (x.0).score ≡ false = rw k at low in
                          rw k (rw under at across)
                      | inr k ↦ rw k refl
                    ])
                  a,
            ))

    step :
        (key : String) (seen : List (DiscoveryResult S × String))
        (found : Option (DiscoveryResult S)) (x : DiscoveryResult S) (s : String)
        → Found key seen found
        → Found key
            (seen ++ (x, s) ∷ [])
            (if has_key n key x then some (better n found x) else found)
    step key seen none x s h = elim (Bool-cases (has_key n key x)) [
      | inl k ↦ rw k (seen, [], s, refl, k, All-map seen (λ y f. rw f refl) h, tt)
      | inr k ↦ rw k (All-append (λ y. has_key n key y.0 ≡ false) seen ((x, s) ∷ []) h (k, tt))
    ]
    step key seen (some r) x s h = elim (Bool-cases (has_key n key x)) [
      | inl k ↦ elim (Bool-cases (n.lt r.score x.score)) [
        | inl l ↦ rw (k, l) (seen, [], s, refl, k, raise key seen r x l h, tt)
        | inr l ↦ rw (k, l) (later key seen r (x, s) (rw (k, l) refl) h)
      ]
      | inr k ↦ rw k (later key seen r (x, s) (rw k refl) h)
    ]

    first_best-Found :
        (key : String) (seen rest : List (DiscoveryResult S × String))
        (found : Option (DiscoveryResult S))
        → Found key seen found
        → Found key (seen ++ rest) (first_best n key found rest)
    first_best-Found key seen [] found h = subst (λ t. Found key t found) (sym (append-nil seen)) h
    first_best-Found key seen ((x, s) ∷ rest) found h =
        subst (λ t. Found key t (first_best n key found ((x, s) ∷ rest)))
          (append_assoc seen ((x, s) ∷ []) rest)
          (first_best-Found key (seen ++ (x, s) ∷ []) rest
            (if has_key n key x then some (better n found x) else found)
            (step key seen found x s h))

    pub first_best-IsHighest :
        (key : String) (results : List (DiscoveryResult S × String)) (r : DiscoveryResult S)
        → first_best n key none results ≡ some r
        → IsHighest key results r
    first_best-IsHighest key results r e =
        subst (Found key results) e (first_best-Found key [] results none tt)

  -- There is a best result if there is any.
  pub first_best-any :
      (key : String) (found : Option (DiscoveryResult S))
      (results : List (DiscoveryResult S × String))
      → is_some (first_best n key found results)
        ≡ is_some found || any (λ x. has_key n key x.0) results
  first_best-any key none [] = refl
  first_best-any key (some r) [] = refl
  first_best-any key none ((x, s) ∷ rest) = elim (Bool-cases (has_key n key x)) [
    | inl k ↦ rw k (first_best-any key (some x) rest)
    | inr k ↦ rw k (first_best-any key none rest)
  ]
  first_best-any key (some r) ((x, s) ∷ rest) = elim (Bool-cases (has_key n key x)) [
    | inl k ↦ rw k (first_best-any key (some (better n (some r) x)) rest)
    | inr k ↦ rw k (first_best-any key (some r) rest)
  ]
