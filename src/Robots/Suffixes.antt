-- ===== src/Robots/Suffixes.antt =====
-- orchestrator/robots_policy.py: the suffixes of a target that a pattern is tried on, for
-- `RobotsRule.matches`.
use thorondor.Prelude.{
  ℕ, ◌+◌, ◌≤◌, Bool, true, List, [], ◌∷◌, ◌++◌, ◌≡◌, refl, sym, ap, ◌∙◌, inl, inr, ◌==◌, not,
  length, length-append, Bool-cases, &&-true, arith,
}
use thorondor.Robots.Glob.{star, some_suffix, starts_with, denotes, is_star_free, cost}

-- A test that some suffix of a list passes is passed by a suffix of every longer list.
pub some_suffix-append :
    (test : List ℕ → Bool) (w u : List ℕ)
    → some_suffix test u ≡ true
    → some_suffix test (w ++ u) ≡ true
unfolding some_suffix
some_suffix-append test [] u h = h
some_suffix-append test (a ∷ w) u h =
    rw (some_suffix-append test w u h)
      (elim (Bool-cases (test (a ∷ w ++ u))) [ inl e ↦ rw e refl | inr e ↦ rw e refl ])

-- Who passes a test on some suffix passes it behind a first part.
pub some_suffix_split :
    (test : List ℕ → Bool) (t : List ℕ)
    → some_suffix test t ≡ true
    → (w u : List ℕ) × (t ≡ w ++ u) × (test u ≡ true)
unfolding some_suffix
some_suffix_split test [] h = ([], [], refl, h)
some_suffix_split test (a ∷ t) h = elim (Bool-cases (test (a ∷ t))) [
  | inl e ↦ ([], a ∷ t, refl, e)
  | inr e ↦
      let (w, u, same, passes) = some_suffix_split test t (rw e at h) in
      (a ∷ w, u, ap (λ rest. a ∷ rest) same, passes)
]

-- Of two ways to part a list, the later one is behind the earlier.
pub append_behind :
    (x t w r : List ℕ) → (x ++ t) ≡ (w ++ r) → length x ≤ length w → (v : List ℕ) × (t ≡ v ++ r)
append_behind [] t w r same h = (w, same)
append_behind (a ∷ x) t [] r same h = absurd (ground (arith, h))
append_behind (a ∷ x) t (b ∷ w) r same h =
    let tails : (x ++ t) ≡ (w ++ r) = cc in append_behind x t w r tails (omega (arith, h))

starts_with_split :
    (a : ℕ) (test : List ℕ → Bool) (u : List ℕ)
    → starts_with a test u ≡ true
    → (later : List ℕ) × (u ≡ a ∷ later) × (test later ≡ true)
starts_with_split a test [] h = absurd cc
starts_with_split a test (b ∷ later) h =
    let (same, more) = &&-true (a == b) (test later) h in
    let equal : b ≡ a = ground (arith, same) in (later, rw equal refl, more)

pub length-parts :
    (x t w u : List ℕ) → (x ++ t) ≡ (w ++ u) → length x + length t ≡ length w + length u
length-parts x t w u same = sym (length-append x t) ∙ ap length same ∙ length-append w u

-- A pattern that begins with characters other than stars needs these in the target.
pub denotes-append :
    (anchored : Bool) (x p u : List ℕ)
    → is_star_free x ≡ true
    → denotes anchored (x ++ p) u ≡ true
    → (v : List ℕ) × (u ≡ x ++ v) × (denotes anchored p v ≡ true)
unfolding denotes is_star_free
denotes-append anchored [] p u free h = (u, refl, h)
denotes-append anchored (a ∷ x) p u free h =
    let (plain, rest) = &&-true (not (a == star)) (is_star_free x) free in
    let starts : starts_with a (denotes anchored (x ++ p)) u ≡ true =
      elim (Bool-cases (a == star)) [ inl e ↦ absurd cc | inr e ↦ rw e at h ] in
    let (later, begins, more) = starts_with_split a (denotes anchored (x ++ p)) u starts in
    let (v, e, passes) = denotes-append anchored x p later rest more in
    (v, rw (begins, e) refl, passes)

pub cost-append : (n : ℕ) (x t : List ℕ) → cost n t ≤ cost n (x ++ t)
unfolding cost
cost-append n [] t = omega arith
cost-append n (a ∷ x) t = let rest = cost-append n x t in omega arith

pub is_star_free-append :
    (x t : List ℕ)
    → is_star_free (x ++ t) ≡ true
    → (is_star_free x ≡ true) × (is_star_free t ≡ true)
unfolding is_star_free
is_star_free-append [] t h = (refl, h)
is_star_free-append (a ∷ x) t h =
    let (plain, both) = &&-true (not (a == star)) (is_star_free (x ++ t)) h in
    let (rest, tail) = is_star_free-append x t both in (rw (plain, rest) refl, tail)
