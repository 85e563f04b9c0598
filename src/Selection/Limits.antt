-- ===== src/Selection/Limits.antt =====
-- orchestrator/selection.py: the limits that every selection keeps.
use mathlib.Core.Path.{subst}
use thorondor.Prelude.{
  ℕ, ◌+◌, ◌*◌, ◌≤◌, true, false, Option, none, some, List, [], ◌∷◌, ◌≡◌, ◌⊎◌, refl, sym, leb,
  if◌then◌else◌, length, All, All-map, String, str_eq, eq_iff, Bool-cases, inl, inr, arith,
}
use thorondor.Selection.{
  DiscoveryResult, Candidate, Hosts, member, unique_hosts, per_domain_limit, candidate_limit,
  normalized_hosts, normalized_allowlist, start_state, ordered_candidates, collect_candidates,
  select_with_diagnostics,
}
use thorondor.Selection.Bounds.{run_passes-IsBounded, start_state-IsBounded}
use thorondor.Selection.Counts.{results_of, collect_candidates-HasHost, run_passes-IsCounted}

-- All candidates are of one host.
abbrev pub IsOneHost : List Candidate → Type 0
IsOneHost candidates = (only : String) × All (λ c. c.host ≡ only) candidates

-- One host is allowed at most.
abbrev pub AllowsOne : Option (List String) → Type 0
AllowsOne none = ⊥
AllowsOne (some allowed) = length allowed ≤ 1

-- A host has at most three results, and at most a third of all, rounded up.
abbrev pub IsShare : ℕ → ℕ → Type 0
IsShare max_urls n = (n ≤ 3) × ((n ≤ 1) ⊎ (n * 3 ≤ max_urls + 2))

IsShare-le : (max_urls m n : ℕ) → m ≤ n → IsShare max_urls n → IsShare max_urls m
IsShare-le max_urls m n le (three, inl one) = (omega arith, inl (omega arith))
IsShare-le max_urls m n le (three, inr third) = (omega arith, inr (omega arith))

limit_third :
    (max_urls : ℕ)
    → (per_domain_limit max_urls none ≤ 1) ⊎ (per_domain_limit max_urls none * 3 ≤ max_urls + 2)
limit_third max_urls = elim (Bool-cases (leb max_urls 2)) [
  | inl e ↦ rw e (inl (omega arith))
  | inr e ↦ rw e (inr (ground (arith, e)))
]

per_domain_limit-IsShare :
    (max_urls : ℕ) (allowed : Option (List String))
    → AllowsOne allowed ⊎ IsShare max_urls (per_domain_limit max_urls allowed)
per_domain_limit-IsShare max_urls none = inr (ground arith, limit_third max_urls)
per_domain_limit-IsShare max_urls (some allowed) = elim (Bool-cases (leb (length allowed) 1)) [
  | inl e ↦ inl (ground (arith, e))
  | inr e ↦ rw e (inr (ground arith, limit_third max_urls))
]

members_one :
    (hosts : List String) (candidates : List Candidate)
    → All (λ c. member c.host hosts ≡ true) candidates
    → length hosts ≤ 1
    → IsOneHost candidates
members_one [] candidates all le = ("", All-map candidates (λ c m. absurd cc) all)
members_one (x ∷ []) candidates all le = (
  x,
  All-map candidates
      (λ c m. (eq_iff c.host x).0 (elim (Bool-cases (str_eq c.host x)) [
        | inl e ↦ e
        | inr e ↦ let bad : false ≡ true = rw e at m in absurd cc
      ]))
      all,
)
members_one (x ∷ y ∷ hosts) candidates all le = absurd (omega arith)

-- One more candidate, and its host if it is new.
members_more :
    (c : Candidate) (rest : List Candidate) (others : List String)
    → All (λ d. member d.host others ≡ true) rest
    → All
        (λ d. member d.host (if member c.host others then others else c.host ∷ others) ≡ true)
        (c ∷ rest)
members_more c rest others all = elim (Bool-cases (member c.host others)) [
  | inl e ↦
      let same : (if member c.host others then others else c.host ∷ others) ≡ others = rw e refl in
      subst (λ hosts. All (λ d. member d.host hosts ≡ true) (c ∷ rest)) (sym same) (e, all)
  | inr e ↦
      let same : (if member c.host others then others else c.host ∷ others) ≡ c.host ∷ others =
        rw e refl in
      let own : str_eq c.host c.host ≡ true = (eq_iff c.host c.host).1 refl in
      subst (λ hosts. All (λ d. member d.host hosts ≡ true) (c ∷ rest)) (sym same)
        (rw own refl, All-map rest (λ d m. rw m (ground arith)) all)
]

unique_hosts-members :
    (candidates : List Candidate)
    → All (λ c. member c.host (unique_hosts candidates) ≡ true) candidates
unfolding unique_hosts
unique_hosts-members [] = tt
unique_hosts-members (c ∷ rest) =
    members_more c rest (unique_hosts rest) (unique_hosts-members rest)

-- What is selected of the candidates, when at most so many results are asked for.
pub record IsLimited (h : Hosts) (max_urls : ℕ) (allowed : Option (List String))
    (candidates : List Candidate) (selected : List DiscoveryResult) : Type 0 where
  pub total : length selected ≤ max_urls
  pub per_host :
      (host : String)
      → IsOneHost candidates ⊎ (AllowsOne allowed ⊎ IsShare max_urls (results_of h host selected))

candidate_limit-IsShare :
    (max_urls : ℕ) (allowed : Option (List String)) (candidates : List Candidate)
    → IsOneHost candidates
      ⊎ (AllowsOne allowed ⊎ IsShare max_urls (candidate_limit max_urls allowed candidates))
candidate_limit-IsShare max_urls allowed candidates =
    elim (Bool-cases (leb (length (unique_hosts candidates)) 1)) [
      | inl e ↦ inl (
          members_one (unique_hosts candidates) candidates (unique_hosts-members candidates)
            (ground (arith, e)))
      | inr e ↦ rw e (inr (per_domain_limit-IsShare max_urls allowed))
    ]

-- Whatever the results and their order, at most `max_urls` of them are selected; and, unless all
-- candidates are of one host or at most one host is allowed, of no host more than three, and more than
-- one only up to a third of `max_urls`, rounded up.
pub select_with_diagnostics-IsLimited :
    (h : Hosts) (results : List DiscoveryResult) (max_urls : ℕ) (blocklist : List String)
    (allowlist : Option (List String))
    → IsLimited h max_urls
        (normalized_allowlist h allowlist)
        (collect_candidates h
          (normalized_hosts h blocklist)
          (normalized_allowlist h allowlist)
          results).0
        (select_with_diagnostics h results max_urls blocklist allowlist).selected
unfolding select_with_diagnostics
select_with_diagnostics-IsLimited h results max_urls blocklist allowlist =
    let allowed = normalized_allowlist h allowlist in
    let blocked = normalized_hosts h blocklist in
    let collected = collect_candidates h blocked allowed results in
    let limit = candidate_limit max_urls allowed collected.0 in
    let bounded =
      run_passes-IsBounded max_urls limit (ordered_candidates h collected.0)
        (start_state collected.1) (start_state-IsBounded max_urls limit collected.1) in
    let counted =
      run_passes-IsCounted h max_urls limit collected.0 collected.1
        (collect_candidates-HasHost h blocked allowed results) in
    record {
      total = bounded.total;
      per_host = λ host. elim (candidate_limit-IsShare max_urls allowed collected.0) [
        | inl one ↦ inl one
        | inr (inl few) ↦ inr (inl few)
        | inr (inr share) ↦
            let le = bounded.per_host host in
            let same = counted host in
            inr (inr (IsShare-le max_urls _ limit (rw (← same) le) share))
      ];
    }
