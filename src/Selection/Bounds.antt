-- ===== src/Selection/Bounds.antt =====
-- orchestrator/selection.py: what the passes keep of the number of results and of `host_counts`.
use thorondor.Prelude.{
  ℕ, ◌≤◌, true, false, List, [], ◌∷◌, ◌≡◌, leb, ltb, ◌&&◌, not, length, length-append, lookup,
  lookup-insert, String, str_eq, Bool-cases, inl, inr, &&-true, arith,
}
use thorondor.Selection.{
  Candidate, SelectionDecision, SelectionState, Pass, member, host_count, can_select, wanted,
  pass_name, add_selection, select_one, select_pass, append_unselected, start_state, run_passes,
}

-- No more than `max_urls` results are selected, and no host is counted more often than the limit.
pub record IsBounded (max_urls limit : ℕ) (state : SelectionState) : Type 0 where
  pub total : length state.selected ≤ max_urls
  pub per_host : (host : String) → host_count state host ≤ limit

add_selection-IsBounded :
    (max_urls limit : ℕ) (state : SelectionState) (c : Candidate) (why : String)
    → leb max_urls (length state.selected) ≡ false
    → ltb (host_count state c.host) limit ≡ true
    → IsBounded max_urls limit state
    → IsBounded max_urls limit (add_selection state c why)
unfolding add_selection
add_selection-IsBounded max_urls limit state c why room free h = record {
  total = rw length-append (ground (arith, room));
  per_host = λ host. rw lookup-insert (elim (Bool-cases (str_eq c.host host)) [
    | inl e ↦ rw e (ground (arith, free))
    | inr e ↦ rw e (h.per_host host)
  ]);
}

select_one-IsBounded :
    (max_urls limit : ℕ) (pass : Pass) (c : Candidate) (state : SelectionState)
    → IsBounded max_urls limit state
    → IsBounded max_urls limit (select_one max_urls limit pass c state)
unfolding select_one
select_one-IsBounded max_urls limit pass c state h =
    elim (Bool-cases (leb max_urls (length state.selected))) [
      | inl e ↦ rw e h
      | inr e ↦ elim (Bool-cases (wanted pass c state && can_select state c limit)) [
        | inl f ↦
            let able = (&&-true (wanted pass c state) (can_select state c limit) f).1 in
            let free =
              (&&-true (not (member c.result.url state.selected_keys))
                (ltb (host_count state c.host) limit) able).1 in
            rw (e, f) (add_selection-IsBounded max_urls limit state c (pass_name pass) e free h)
        | inr f ↦ rw (e, f) h
      ]
    ]

select_pass-IsBounded :
    (max_urls limit : ℕ) (pass : Pass) (ordered : List Candidate) (state : SelectionState)
    → IsBounded max_urls limit state
    → IsBounded max_urls limit (select_pass max_urls limit pass ordered state)
unfolding select_pass
select_pass-IsBounded max_urls limit pass [] state h = h
select_pass-IsBounded max_urls limit pass (c ∷ rest) state h =
    select_pass-IsBounded max_urls limit pass rest (select_one max_urls limit pass c state)
      (select_one-IsBounded max_urls limit pass c state h)

append_unselected-IsBounded :
    (max_urls limit : ℕ) (ordered : List Candidate) (state : SelectionState)
    → IsBounded max_urls limit state
    → IsBounded max_urls limit (append_unselected limit ordered state)
unfolding append_unselected
append_unselected-IsBounded max_urls limit [] state h = h
append_unselected-IsBounded max_urls limit (c ∷ rest) state h =
    append_unselected-IsBounded max_urls limit rest _
      (elim (Bool-cases (member c.result.url state.selected_keys)) [
        | inl e ↦ rw e h
        | inr e ↦ rw e (record { total = h.total; per_host = h.per_host })
      ])

pub run_passes-IsBounded :
    (max_urls limit : ℕ) (ordered : List Candidate) (state : SelectionState)
    → IsBounded max_urls limit state
    → IsBounded max_urls limit (run_passes max_urls limit ordered state)
run_passes-IsBounded max_urls limit ordered state h =
    append_unselected-IsBounded max_urls limit ordered _ (
      select_pass-IsBounded max_urls limit Pass.score ordered _ (
        select_pass-IsBounded max_urls limit Pass.domain_diversity ordered _
          (select_pass-IsBounded max_urls limit Pass.engine_diversity ordered state h)))

pub start_state-IsBounded :
    (max_urls limit : ℕ) (decisions : List SelectionDecision)
    → IsBounded max_urls limit (start_state decisions)
unfolding lookup
start_state-IsBounded max_urls limit decisions = record {
  total = omega arith;
  per_host = λ host. omega arith;
}
