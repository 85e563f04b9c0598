-- ===== src/Selection/Counts.antt =====
-- orchestrator/selection.py: `host_counts` counts the selected results of each host.
use thorondor.Prelude.{
  ℕ, true, false, Option, none, some, List, [], ◌∷◌, ◌≡◌, refl, ap, leb, ◌&&◌, length, count,
  count-append, All, All-sort, lookup, lookup-insert, String, str_eq, eq_iff, Bool-cases, inl, inr,
  arith,
}
use thorondor.Selection.{
  DiscoveryResult, Candidate, SelectionDecision, SelectionState, Hosts, Pass, member, host_count,
  can_select, wanted, pass_name, add_selection, select_one, select_pass, append_unselected,
  start_state, run_passes, filter_reason, file_result, collect_candidates, candidate_before,
  ordered_candidates,
}

module _ (h : Hosts) where
  -- How many of the results are of a host.
  abbrev pub results_of : String → List DiscoveryResult → ℕ
  results_of host results = count (λ r. str_eq (h.host_for r.url) host) results

  abbrev pub IsCounted : SelectionState → Type 0
  IsCounted state = (host : String) → host_count state host ≡ results_of host state.selected

  -- A candidate has the host of its result.
  abbrev pub HasHost : Candidate → Type 0
  HasHost c = h.host_for c.result.url ≡ c.host

  file_result-HasHost :
      (r : DiscoveryResult) (rest : List Candidate × List SelectionDecision) (why : Option String)
      → All HasHost rest.0
      → All HasHost (file_result h r rest why).0
  file_result-HasHost r rest none all = (refl, all)
  file_result-HasHost r rest (some why) all = all

  pub collect_candidates-HasHost :
      (blocked : List String) (allowed : Option (List String)) (results : List DiscoveryResult)
      → All HasHost (collect_candidates h blocked allowed results).0
  unfolding collect_candidates
  collect_candidates-HasHost blocked allowed [] = tt
  collect_candidates-HasHost blocked allowed (r ∷ rest) =
      file_result-HasHost r (collect_candidates h blocked allowed rest)
        (filter_reason blocked allowed (h.host_for r.url))
        (collect_candidates-HasHost blocked allowed rest)

  add_selection-IsCounted :
      (state : SelectionState) (c : Candidate) (why : String)
      → HasHost c
      → IsCounted state
      → IsCounted (add_selection state c why)
  unfolding add_selection
  add_selection-IsCounted state c why own all host =
      let more =
        count-append (λ r. str_eq (h.host_for r.url) host) state.selected (c.result ∷ []) in
      let before = all host in
      elim (Bool-cases (str_eq c.host host)) [
        | inl e ↦
            let same : c.host ≡ host = (eq_iff c.host host).0 e in
            let there : host_count state c.host ≡ host_count state host =
              ap (host_count state) same in
            let one : str_eq (h.host_for c.result.url) host ≡ true = rw own e in
            rw (lookup-insert, e, more, one) (omega (arith, there, before))
        | inr e ↦
            let other : str_eq (h.host_for c.result.url) host ≡ false = rw own e in
            rw (lookup-insert, e, more, other) (omega (arith, before))
      ]

  select_one-IsCounted :
      (max_urls limit : ℕ) (pass : Pass) (c : Candidate) (state : SelectionState)
      → HasHost c
      → IsCounted state
      → IsCounted (select_one max_urls limit pass c state)
  unfolding select_one
  select_one-IsCounted max_urls limit pass c state own all =
      elim (Bool-cases (leb max_urls (length state.selected))) [
        | inl e ↦ rw e all
        | inr e ↦ elim (Bool-cases (wanted pass c state && can_select state c limit)) [
          | inl f ↦ rw (e, f) (add_selection-IsCounted state c (pass_name pass) own all)
          | inr f ↦ rw (e, f) all
        ]
      ]

  select_pass-IsCounted :
      (max_urls limit : ℕ) (pass : Pass) (ordered : List Candidate) (state : SelectionState)
      → All HasHost ordered
      → IsCounted state
      → IsCounted (select_pass max_urls limit pass ordered state)
  unfolding select_pass
  select_pass-IsCounted max_urls limit pass [] state own all = all
  select_pass-IsCounted max_urls limit pass (c ∷ rest) state (first, own) all =
      select_pass-IsCounted max_urls limit pass rest (select_one max_urls limit pass c state) own
        (select_one-IsCounted max_urls limit pass c state first all)

  append_unselected-IsCounted :
      (limit : ℕ) (ordered : List Candidate) (state : SelectionState)
      → IsCounted state
      → IsCounted (append_unselected limit ordered state)
  unfolding append_unselected
  append_unselected-IsCounted limit [] state all = all
  append_unselected-IsCounted limit (c ∷ rest) state all =
      append_unselected-IsCounted limit rest _
        (elim (Bool-cases (member c.result.url state.selected_keys)) [
          | inl e ↦ rw e all
          | inr e ↦ rw e all
        ])

  pub run_passes-IsCounted :
      (max_urls limit : ℕ) (candidates : List Candidate) (decisions : List SelectionDecision)
      → All HasHost candidates
      → IsCounted
          (run_passes max_urls limit (ordered_candidates h candidates) (start_state decisions))
  unfolding lookup
  run_passes-IsCounted max_urls limit candidates decisions own =
      let sorted = All-sort HasHost (candidate_before h) candidates own in
      let ordered = ordered_candidates h candidates in
      append_unselected-IsCounted limit ordered _ (
        select_pass-IsCounted max_urls limit Pass.score ordered _ sorted (
          select_pass-IsCounted max_urls limit Pass.domain_diversity ordered _ sorted (
            select_pass-IsCounted max_urls limit Pass.engine_diversity ordered _ sorted
              (λ host. refl))))
