-- ===== src/Robots/Snapshots.antt =====
-- orchestrator/robots_policy.py: `_RobotsParser.parse` after its lines are split, `from_http`, and
-- `RobotsCache`.
use thorondor.Prelude.{
  ℕ, ◌+◌, Bool, true, false, Option, none, some, List, [], ◌∷◌, ◌++◌, ◌≡◌, refl, ◌&&◌, ◌||◌, ltb,
  leb, if◌then◌else◌, max, min, arith, String, Dict, lookup, insert, remove, lookup-insert,
  lookup-remove, not, str_eq, Bool-cases, Option-cases, inl, inr, eq_refl,
}
use thorondor.Robots.Rules.{RobotsRule, RobotsSnapshot, SnapshotState}
use thorondor.Robots.Groups.{Directive, Texts, RobotsGroup, add_all, selected_groups}

abbrev pub all_rules : List RobotsGroup → List RobotsRule
all_rules [] = []
all_rules (g ∷ rest) = g.rules ++ all_rules rest

abbrev pub all_delays : List RobotsGroup → List ℕ
all_delays [] = []
all_delays (g ∷ rest) = g.crawl_delays ++ all_delays rest

abbrev pub largest : List ℕ → Option ℕ
largest [] = none
largest (d ∷ rest) = elim (largest rest) [ none ↦ some d | some e ↦ some (max d e) ]

-- An answer to the request for robots.txt: its status if there was one, the bytes of its body, and
-- the directives on the body's lines.
pub record HttpAnswer : Type 0 where
  pub status_code : Option ℕ
  pub body_bytes : ℕ
  pub directives : List Directive

abbrev pub is_client_error : Option ℕ → Bool
is_client_error none = false
is_client_error (some code) = leb 400 code && leb code 499

abbrev pub is_unreachable : Option ℕ → Bool
is_unreachable none = true
is_unreachable (some code) = leb 500 code || (leb 300 code && leb code 399)

abbrev pub without_rules : String → List ℕ → SnapshotState → ℕ → String → RobotsSnapshot
without_rules origin agent state now why = record {
  origin = origin;
  user_agent = agent;
  state = state;
  rules = [];
  sitemaps = [];
  crawl_delay_s = none;
  fetched_at = now;
  reason = some why;
}

abbrev pub failure_ttl_s : ℕ
failure_ttl_s = 60

abbrev pub Cache : Type 0
Cache = Dict RobotsSnapshot

module _ (t : Texts) where
  unfoldable pub parse : String → List Directive → List ℕ → ℕ → RobotsSnapshot
  unfolding add_all selected_groups
  parse origin directives agent now =
      let p = add_all t (record { groups = []; sitemaps = [] }) directives in
      let selected = selected_groups t agent p.groups in
      record {
        origin = origin;
        user_agent = agent;
        state = SnapshotState.available;
        rules = all_rules selected;
        sitemaps = p.sitemaps;
        crawl_delay_s = largest (all_delays selected);
        fetched_at = now;
        reason = none;
      }

  unfoldable pub from_http :
      String → List ℕ → HttpAnswer → ℕ → ℕ → Option RobotsSnapshot → RobotsSnapshot
  unfolding parse
  from_http origin agent answer now max_bytes cached =
      if is_client_error answer.status_code
      then without_rules origin agent SnapshotState.unavailable now "http_4xx"
      else if is_unreachable answer.status_code
      then elim cached [
        | some old ↦ old
        | none ↦ without_rules origin agent SnapshotState.unreachable now "upstream_unreachable"
      ]
      else if ltb max_bytes answer.body_bytes
      then without_rules origin agent SnapshotState.unreachable now "body_too_large"
      else parse origin answer.directives agent now

-- `RobotsCache`: `get` removes a snapshot that is too old.
abbrev pub ttl_of : ℕ → SnapshotState → ℕ
ttl_of ttl_s SnapshotState.unreachable = min ttl_s failure_ttl_s
ttl_of ttl_s SnapshotState.available = ttl_s
ttl_of ttl_s SnapshotState.unavailable = ttl_s

abbrev pub expires : ℕ → RobotsSnapshot → ℕ
expires ttl_s s = s.fetched_at + ttl_of ttl_s s.state

abbrev pub get_found :
    ℕ → String → ℕ → Cache → Option RobotsSnapshot → Option RobotsSnapshot × Cache
get_found ttl_s origin now cache none = (none, cache)
get_found ttl_s origin now cache (some s) =
    if leb (expires ttl_s s) now then (none, remove origin cache) else (some s, cache)

unfoldable pub get_cached : ℕ → String → ℕ → Cache → Option RobotsSnapshot × Cache
get_cached ttl_s origin now cache = get_found ttl_s origin now cache (lookup origin cache)

unfoldable pub put_cached : RobotsSnapshot → Cache → Cache
put_cached s cache = insert s.origin s cache

-- A snapshot that has not expired.
abbrev live : ℕ → ℕ → Option RobotsSnapshot → Option RobotsSnapshot
live ttl_s now none = none
live ttl_s now (some s) = if leb (expires ttl_s s) now then none else some s

get_found-live :
    (ttl_s : ℕ) (origin : String) (now : ℕ) (cache : Cache) (found : Option RobotsSnapshot)
    → (get_found ttl_s origin now cache found).0 ≡ live ttl_s now found
get_found-live ttl_s origin now cache none = refl
get_found-live ttl_s origin now cache (some s) = elim (Bool-cases (leb (expires ttl_s s) now)) [
  | inl e ↦ rw e refl
  | inr e ↦ rw e refl
]

-- Whether the origin could not be reached.
abbrev pub is_out : SnapshotState → Bool
is_out SnapshotState.unreachable = true
is_out SnapshotState.available = false
is_out SnapshotState.unavailable = false

live_lem :
    (ttl_s fetched now : ℕ) (state : SnapshotState)
    → leb (fetched + ttl_of ttl_s state) now
      ≡ not (ltb now (fetched + ttl_s) && (not (is_out state) || ltb now (fetched + 60)))
live_lem ttl_s fetched now SnapshotState.unreachable = ground arith
live_lem ttl_s fetched now SnapshotState.available = ground arith
live_lem ttl_s fetched now SnapshotState.unavailable = ground arith

-- After `put` of a snapshot, `get` of its origin returns it exactly while less time than the cache's time
-- to live has gone by since it was fetched, and, if the origin was unreachable, also less than 60
-- seconds; otherwise it returns nothing. `get` of another origin returns what it did before.
pub get_cached-put_cached :
    (ttl_s : ℕ) (s : RobotsSnapshot) (now : ℕ) (origin : String) (cache : Cache)
    → (get_cached ttl_s origin now (put_cached s cache)).0 ≡ (
        if str_eq s.origin origin
        then if ltb now (s.fetched_at + ttl_s)
            && (not (is_out s.state) || ltb now (s.fetched_at + 60))
          then some s
          else none
        else (get_cached ttl_s origin now cache).0)
unfolding get_cached put_cached
get_cached-put_cached ttl_s s now origin cache =
    rw (get_found-live, get_found-live, lookup-insert)
      (elim (Bool-cases (str_eq s.origin origin)) [
        | inl e ↦ rw (e, live_lem ttl_s s.fetched_at now s.state) (ground arith)
        | inr e ↦ rw e refl
      ])

-- An origin for which `get` returns nothing is fetched again: until the next `put` no later `get`
-- returns anything for it.
pub get_cached-none :
    (ttl_s : ℕ) (now later : ℕ) (origin : String) (cache : Cache)
    → (get_cached ttl_s origin now cache).0 ≡ none
    → (get_cached ttl_s origin later (get_cached ttl_s origin now cache).1).0 ≡ none
unfolding get_cached
get_cached-none ttl_s now later origin cache h = elim (Option-cases (lookup origin cache)) [
  | inl gone ↦ rw (gone, gone) refl
  | inr (s, there) ↦ elim (Bool-cases (leb (expires ttl_s s) now)) [
    | inl e ↦ rw (there, e, get_found-live, lookup-remove, eq_refl) refl
    | inr e ↦ let no : some s ≡ none = rw (there, e) at h in absurd cc
  ]
]
