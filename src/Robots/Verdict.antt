-- ===== src/Robots/Verdict.antt =====
-- orchestrator/robots_policy.py: the choice that `RobotsSnapshot.allows` makes between the rules that
-- match.
use thorondor.Prelude.{
  ℕ, zero, suc, ◌≤◌, Bool, true, some, List, [], ◌∷◌, ◌≡◌, refl, ◌↔◌, ◌⊎◌, inl, inr, ◌==◌, ◌&&◌,
  any, get_elem?, Bool-cases, leb, sym, &&-true, arith,
}
use thorondor.Robots.Rules.{Weighed, longest, verdict}

-- There is a rule among them that passes a test.
abbrev pub Has : (Weighed → Bool) → List Weighed → Type 0
Has test ms = (i : ℕ) × (a : Weighed) × (get_elem? ms i ≡ some a) × (test a ≡ true)

any-Has : (test : Weighed → Bool) (ms : List Weighed) → any test ms ≡ true → Has test ms
any-Has test [] h = absurd cc
any-Has test (w ∷ rest) h = elim (Bool-cases (test w)) [
  | inl e ↦ (0, w, refl, e)
  | inr e ↦ let (i, a, at, passes) = any-Has test rest (rw e at h) in (suc i, a, at, passes)
]

any_of :
    (test : Weighed → Bool) (ms : List Weighed) (i : ℕ) (a : Weighed)
    → get_elem? ms i ≡ some a
    → test a ≡ true
    → any test ms ≡ true
any_of test [] i a at passes = absurd cc
any_of test (w ∷ rest) zero a at passes = let same : w ≡ a = cc in rw (same, passes) refl
any_of test (w ∷ rest) (suc i) a at passes = elim (Bool-cases (test w)) [
  | inl e ↦ rw e refl
  | inr e ↦ rw e (any_of test rest i a at passes)
]

longest-bounds :
    (ms : List Weighed) (i : ℕ) (a : Weighed) → get_elem? ms i ≡ some a → a.weight ≤ longest ms
longest-bounds [] i a at = absurd cc
longest-bounds (w ∷ rest) zero a at = let same : w ≡ a = cc in rw (sym same) (omega arith)
longest-bounds (w ∷ rest) (suc i) a at =
    let later = longest-bounds rest i a at in omega (arith, later)

longest_is :
    (w : Weighed) (rest : List Weighed)
    → (i : ℕ) × (a : Weighed) × (get_elem? (w ∷ rest) i ≡ some a) × (longest (w ∷ rest) ≤ a.weight)
longest_is w [] = (0, w, refl, omega arith)
longest_is w (v ∷ rest) =
    let (i, a, at, most) = longest_is v rest in
    elim (Bool-cases (leb (longest (v ∷ rest)) w.weight)) [
      | inl e ↦ (0, w, refl, ground (arith, e))
      | inr e ↦ (suc i, a, at, ground (arith, e, most))
    ]

-- A disallowing rule has an allowing one beside it that is at least as long.
abbrev pub Outweighed : List Weighed → Weighed → Type 0
Outweighed ms d =
    (d.allow ≡ true)
    ⊎ ((i : ℕ) × (a : Weighed) × (get_elem? ms i ≡ some a)
        × (a.allow ≡ true)
        × (d.weight ≤ a.weight))

verdict_outweighs :
    (w : Weighed) (rest : List Weighed)
    → verdict (w ∷ rest) ≡ true
    → (i : ℕ) (d : Weighed) → get_elem? (w ∷ rest) i ≡ some d
    → Outweighed (w ∷ rest) d
unfolding verdict
verdict_outweighs w rest passes i d at =
    let most = longest (w ∷ rest) in
    let (j, a, found, best) = any-Has (λ v. v.allow && (v.weight == most)) (w ∷ rest) passes in
    let (allowed, longest_one) = &&-true a.allow (a.weight == most) best in
    let bound = longest-bounds (w ∷ rest) i d at in
    inr (j, a, found, allowed, ground (arith, bound, longest_one))

Outweighed-verdict :
    (w : Weighed) (rest : List Weighed)
    → ((i : ℕ) (d : Weighed) → get_elem? (w ∷ rest) i ≡ some d → Outweighed (w ∷ rest) d)
    → verdict (w ∷ rest) ≡ true
unfolding verdict
Outweighed-verdict w rest outweighed =
    let test : Weighed → Bool = λ v. v.allow && (v.weight == longest (w ∷ rest)) in
    let (i, d, at, most) = longest_is w rest in
    let passes : (j : ℕ) (a : Weighed)
        → get_elem? (w ∷ rest) j ≡ some a
        → a.allow ≡ true
        → longest (w ∷ rest) ≤ a.weight
        → any test (w ∷ rest) ≡ true =
      λ j a found allowed above.
        let bound = longest-bounds (w ∷ rest) j a found in
        let equal : (a.weight == longest (w ∷ rest)) ≡ true = ground (arith, bound, above) in
        any_of test (w ∷ rest) j a found (rw (allowed, equal) refl) in
    elim (outweighed i d at) [
      | inl allowed ↦ passes i d at allowed most
      | inr (j, a, found, allowed, heavier) ↦
          passes j a found allowed (omega (arith, most, heavier))
    ]

-- Of the rules that match a URL, none disallows it in the end exactly when beside every one that
-- disallows there is one that allows and is at least as specific.
pub verdict_iff :
    (ms : List Weighed)
    → (verdict ms ≡ true) ↔ ((i : ℕ) (d : Weighed) → get_elem? ms i ≡ some d → Outweighed ms d)
unfolding verdict
verdict_iff [] = (λ passes i d at. absurd cc, λ outweighed. refl)
verdict_iff (w ∷ rest) = (verdict_outweighs w rest, Outweighed-verdict w rest)
