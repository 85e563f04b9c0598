-- ===== src/Selection/Tests.antt =====
-- orchestrator/selection.py: runs of the model on three results of two hosts.
use thorondor.Prelude.{
  Bool, true, false, none, some, List, [], ◌∷◌, ◌≡◌, refl, String, str_eq, map, lookup, insert,
}
use thorondor.Selection.{
  DiscoveryResult, Hosts, matches_host, collect_candidates, normalized_hosts, normalized_allowlist,
  select_with_diagnostics,
}
use thorondor.Selection.Limits.{IsLimited, select_with_diagnostics-IsLimited}

-- One URL is of the host "b", the others are of "a".
abbrev hosts : Hosts
hosts = record {
  host_for = λ url. elim (str_eq url "b/1") [ true ↦ "b" | false ↦ "a" ];
  canonical_host = λ host. host;
  score = λ r. 0;
  combined_lt = λ a b. false;
  score_lt = λ a b. false;
  text_lt = λ a b. false;
}

abbrev result : String → String → DiscoveryResult
result url engine = record { url = url; engine = engine; contributing = [] }

abbrev results : List DiscoveryResult
results = result "a/1" "x" ∷ result "a/2" "x" ∷ result "b/1" "x" ∷ []

select_run :
    map (λ r. r.url) (select_with_diagnostics hosts results 2 [] none).selected ≡ "a/1" ∷ "b/1" ∷ []
unfolding select_with_diagnostics lookup insert
select_run = refl

reasons_run :
    map (λ d. d.filtered_reason) (select_with_diagnostics hosts results 2 [] none).decisions
    ≡ none ∷ none ∷ some "domain_cap" ∷ []
unfolding select_with_diagnostics lookup insert
reasons_run = refl

subdomain_run :
    map
      (λ d. d.filtered_reason)
      (select_with_diagnostics hosts results 2 ("a" ∷ []) (some ("b" ∷ []))).decisions
    ≡ some "blocked_domain" ∷ some "blocked_domain" ∷ none ∷ []
unfolding select_with_diagnostics lookup insert
subdomain_run = refl

matches_run :
    ◌≡◌ {A = Bool × Bool}
      (matches_host "www.a.org" "a.org", matches_host "ba.org" "a.org")
      (true, false)
unfolding matches_host
matches_run = refl

select_with_diagnostics-IsLimited_example :
    IsLimited hosts 2
      (normalized_allowlist hosts none)
      (collect_candidates hosts
        (normalized_hosts hosts [])
        (normalized_allowlist hosts none)
        results).0
      (select_with_diagnostics hosts results 2 [] none).selected
select_with_diagnostics-IsLimited_example =
    select_with_diagnostics-IsLimited hosts results 2 [] none
