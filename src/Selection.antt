-- ===== src/Selection.antt =====
-- orchestrator/selection.py: which of the URLs that a search found are fetched. A set is a list here
-- and is only asked for its members. Parameters are `host_for` and `canonical_host`, which parse URLs, the
-- lexical score, the two comparisons of floats in the order of the candidates, and the order of texts.
pub mod Bounds
pub mod Counts
pub mod Limits
mod Tests
use thorondor.Prelude.{
  ℕ, ◌+◌, ◌/◌, Bool, true, false, Option, none, some, List, [], ◌∷◌, ◌++◌, ◌&&◌, ◌||◌, not, leb,
  ltb, if◌then◌else◌, length, any, filter_by, map, max, min, String, str_eq, Dict, lookup, insert,
  sort,
}

pub record DiscoveryResult : Type 0 where
  pub url : String
  pub engine : String
  -- The engines of `contributions`.
  pub contributing : List String

pub record Candidate : Type 0 where
  pub result : DiscoveryResult
  pub host : String
  pub lexical_score : ℕ

pub record SelectionDecision : Type 0 where
  pub result : DiscoveryResult
  pub selected : Bool
  pub selection_reason : Option String
  pub filtered_reason : Option String
  pub lexical_score : ℕ

pub record SelectionState : Type 0 where
  pub selected : List DiscoveryResult
  pub selected_keys : List String
  pub host_counts : Dict ℕ
  pub seen_engines : List String
  pub decisions : List SelectionDecision

pub record Hosts : Type 0 where
  pub host_for : String → String
  pub canonical_host : String → String
  pub score : DiscoveryResult → ℕ
  -- By `score + lexical_score * 0.25`, and by `score`.
  pub combined_lt : Candidate → Candidate → Bool
  pub score_lt : DiscoveryResult → DiscoveryResult → Bool
  pub text_lt : String → String → Bool

-- host.endswith(suffix)
unfoldable pub ends_with : String → String → Bool
ends_with String.[] suffix = str_eq "" suffix
ends_with (String.◌∷◌ c text) suffix = str_eq (String.◌∷◌ c text) suffix || ends_with text suffix

-- `_matches_host`
unfoldable pub matches_host : String → String → Bool
unfolding ends_with
matches_host host pattern_ = str_eq host pattern_ || ends_with host (String.◌∷◌ "." pattern_)

-- The order of (-(score + lexical_score * 0.25), -score, url)
abbrev pub candidate_before : Hosts → Candidate → Candidate → Bool
candidate_before h a b =
    h.combined_lt b a
    || not (h.combined_lt a b)
      && (h.score_lt b.result a.result
          || not (h.score_lt a.result b.result) && h.text_lt a.result.url b.result.url)

-- `_ordered_candidates`
abbrev pub ordered_candidates : Hosts → List Candidate → List Candidate
ordered_candidates h candidates = sort (candidate_before h) candidates

abbrev pub member : String → List String → Bool
member x xs = any (str_eq x) xs

abbrev pub add_host : String → List String → List String
add_host name others =
    if str_eq name "" then others else if member name others then others else name ∷ others

-- `_normalized_hosts` of hosts that are given.
unfoldable pub normalized_hosts : Hosts → List String → List String
normalized_hosts h [] = []
normalized_hosts h (host ∷ rest) = add_host (h.canonical_host host) (normalized_hosts h rest)

abbrev pub normalized_allowlist : Hosts → Option (List String) → Option (List String)
normalized_allowlist h none = none
normalized_allowlist h (some hosts) = some (normalized_hosts h hosts)

abbrev pub filtered : DiscoveryResult → String → ℕ → SelectionDecision
filtered result why score = record {
  result = result;
  selected = false;
  selection_reason = none;
  filtered_reason = some why;
  lexical_score = score;
}

abbrev pub outside : Option (List String) → String → Bool
outside none host = false
outside (some allowed) host = not (any (matches_host host) allowed)

-- Why a result is no candidate.
abbrev pub filter_reason : List String → Option (List String) → String → Option String
filter_reason blocked allowed host =
    if str_eq host ""
    then some "invalid_host"
    else if any (matches_host host) blocked
    then some "blocked_domain"
    else if outside allowed host
    then some "outside_allowlist"
    else none

abbrev pub file_result :
    Hosts
    → DiscoveryResult
    → List Candidate × List SelectionDecision
    → Option String
    → List Candidate × List SelectionDecision
file_result h r rest (some why) = (rest.0, filtered r why 0 ∷ rest.1)
file_result h r rest none =
    (record { result = r; host = h.host_for r.url; lexical_score = h.score r } ∷ rest.0, rest.1)

unfoldable pub collect_candidates :
    Hosts
    → List String
    → Option (List String)
    → List DiscoveryResult
    → List Candidate × List SelectionDecision
unfolding matches_host
collect_candidates h blocked allowed [] = ([], [])
collect_candidates h blocked allowed (r ∷ rest) =
    file_result h r (collect_candidates h blocked allowed rest)
      (filter_reason blocked allowed (h.host_for r.url))

abbrev pub is_single : Option (List String) → Bool
is_single none = false
is_single (some allowed) = leb (length allowed) 1

-- `math.ceil(max_urls / 3)` is `(max_urls + 2) / 3`.
abbrev pub per_domain_limit : ℕ → Option (List String) → ℕ
per_domain_limit max_urls allowed =
    if is_single allowed
    then max_urls
    else if leb max_urls 2
    then 1
    else min 3 (max 1 ((max_urls + 2) / 3))

unfoldable pub unique_hosts : List Candidate → List String
unique_hosts [] = []
unique_hosts (c ∷ rest) =
    let others = unique_hosts rest in if member c.host others then others else c.host ∷ others

abbrev pub candidate_limit : ℕ → Option (List String) → List Candidate → ℕ
candidate_limit max_urls allowed candidates =
    if leb (length (unique_hosts candidates)) 1 then max_urls else per_domain_limit max_urls allowed

abbrev pub or_zero : Option ℕ → ℕ
or_zero none = 0
or_zero (some n) = n

abbrev pub host_count : SelectionState → String → ℕ
host_count state host = or_zero (lookup host state.host_counts)

abbrev pub can_select : SelectionState → Candidate → ℕ → Bool
can_select state c limit =
    not (member c.result.url state.selected_keys) && ltb (host_count state c.host) limit

abbrev pub result_engines : DiscoveryResult → List String
result_engines r = filter_by (λ e. not (str_eq e "")) (r.engine ∷ r.contributing)

unfoldable pub add_selection : SelectionState → Candidate → String → SelectionState
add_selection state c why = record {
  selected = state.selected ++ c.result ∷ [];
  selected_keys = c.result.url ∷ state.selected_keys;
  host_counts = insert c.host (host_count state c.host + 1) state.host_counts;
  seen_engines = result_engines c.result ++ state.seen_engines;
  decisions =
      state.decisions
      ++ record {
        result = c.result;
        selected = true;
        selection_reason = some why;
        filtered_reason = none;
        lexical_score = c.lexical_score;
      }
        ∷ [];
}

-- The three predicates of the passes.
pub data Pass : Type 0 where
  engine_diversity domain_diversity score : Pass

abbrev pub pass_name : Pass → String
pass_name engine_diversity = "engine_diversity"
pass_name domain_diversity = "domain_diversity"
pass_name score = "score"

abbrev is_absent : Option ℕ → Bool
is_absent none = true
is_absent (some n) = false

abbrev pub wanted : Pass → Candidate → SelectionState → Bool
wanted engine_diversity c state =
    any (λ e. not (member e state.seen_engines)) (result_engines c.result)
wanted domain_diversity c state = is_absent (lookup c.host state.host_counts)
wanted score c state = true

-- One candidate of a pass; after the `break` the state does not change any more.
unfoldable pub select_one : ℕ → ℕ → Pass → Candidate → SelectionState → SelectionState
unfolding add_selection
select_one max_urls limit pass c state =
    if leb max_urls (length state.selected)
    then state
    else if wanted pass c state && can_select state c limit
    then add_selection state c (pass_name pass)
    else state

unfoldable pub select_pass : ℕ → ℕ → Pass → List Candidate → SelectionState → SelectionState
unfolding select_one
select_pass max_urls limit pass [] state = state
select_pass max_urls limit pass (c ∷ rest) state =
    select_pass max_urls limit pass rest (select_one max_urls limit pass c state)

abbrev pub unselected_reason : ℕ → ℕ → String
unselected_reason limit count = if leb limit count then "domain_cap" else "rank_cap"

unfoldable pub append_unselected : ℕ → List Candidate → SelectionState → SelectionState
append_unselected limit [] state = state
append_unselected limit (c ∷ rest) state =
    let why = unselected_reason limit (host_count state c.host) in
    let decision = filtered c.result why c.lexical_score in
    append_unselected limit rest (
      if member c.result.url state.selected_keys
      then state
      else record state { decisions = state.decisions ++ decision ∷ [] })

abbrev pub start_state : List SelectionDecision → SelectionState
start_state decisions = record {
  selected = [];
  selected_keys = [];
  host_counts = [];
  seen_engines = [];
  decisions = decisions;
}

abbrev pub run_passes : ℕ → ℕ → List Candidate → SelectionState → SelectionState
run_passes max_urls limit ordered state =
    let one = select_pass max_urls limit engine_diversity ordered state in
    let two = select_pass max_urls limit domain_diversity ordered one in
    let three = select_pass max_urls limit score ordered two in
    append_unselected limit ordered three

unfoldable pub select_with_diagnostics :
    Hosts → List DiscoveryResult → ℕ → List String → Option (List String) → SelectionState
unfolding normalized_hosts collect_candidates matches_host unique_hosts select_pass
    append_unselected
select_with_diagnostics h results max_urls blocklist allowlist =
    let allowed = normalized_allowlist h allowlist in
    let collected = collect_candidates h (normalized_hosts h blocklist) allowed results in
    run_passes max_urls (candidate_limit max_urls allowed collected.0)
      (ordered_candidates h collected.0) (start_state collected.1)
