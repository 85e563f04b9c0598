-- ===== src/Frontier.antt =====
-- orchestrator/crawl_policy.py, from `FrontierRecord` on: the crawl frontier.
-- A record is shared by `records`, `_by_key`, `_queue` and the callers; here it lives in `records`
-- and its position there stands for the reference. What the frontier asks of `CrawlPolicy` is the
-- interface `UrlPolicy`. A depth is a natural number; a priority is only stored, so that a number
-- stands for the float.
pub mod Ops
mod Keeps
pub mod Invariant
mod Discover
mod Steps
mod Reconcile
pub mod Runs
pub mod Admission
pub mod Ends
mod Tests
use thorondor.Prelude.{
  ℕ, ◌+◌, ◌≤◌, min, String, ◌≡◌, Bool, true, false, Option, none, some, List, [], ◌∷◌, ◌++◌, leb,
  if◌then◌else◌, is_some, length, modify, any, last_or, Dict, lookup, insert, not, ◌||◌,
}

pub data CrawlSource : Type 0 where
  seed sitemap link search_engine : CrawlSource

pub data CrawlState : Type 0 where
  discovered admitted queued fetched filtered failed cancelled : CrawlState

pub record UrlPolicy : Type 0 where
  pub max_discovered_urls : ℕ
  pub normalize : String → Option String
  pub rejection_reason : String → ℕ → Option String
  pub key : String → String
  pub within_url_limit : String → Bool
  -- A URL that is in scope at some depth is in scope nearer to the seed.
  pub scope_mono :
      (url : String) (d e : ℕ)
      → d ≤ e
      → rejection_reason url e ≡ none
      → rejection_reason url d ≡ none

pub record FrontierRecord : Type 0 where
  pub url : String
  pub depth : ℕ
  pub sources : List CrawlSource
  pub states : List CrawlState
  pub reason : Option String
  pub modified_at : Option String
  pub priority : Option ℕ
  pub order : ℕ

pub record CrawlFrontier : Type 0 where
  pub records : List FrontierRecord
  pub omitted_due_to_limit : ℕ
  pub non_http_urls_skipped : ℕ
  pub by_key : Dict ℕ
  pub queue : List ℕ

-- The keyword arguments of `discover`.
pub record Discovery : Type 0 where
  pub source : CrawlSource
  pub depth : ℕ
  pub safe : Bool
  pub robots_allowed : Bool
  pub modified_at : Option String
  pub priority : Option ℕ

abbrev pub empty : CrawlFrontier
empty = record {
  records = [];
  omitted_due_to_limit = 0;
  non_http_urls_skipped = 0;
  by_key = [];
  queue = [];
}

abbrev pub same_source : CrawlSource → CrawlSource → Bool
same_source seed seed = true
same_source sitemap sitemap = true
same_source link link = true
same_source search_engine search_engine = true
same_source _ _ = false

unfoldable pub add_source : CrawlSource → List CrawlSource → List CrawlSource
add_source s sources = if any (same_source s) sources then sources else sources ++ s ∷ []

unfoldable pub add_sources : List CrawlSource → List CrawlSource → List CrawlSource
unfolding add_source
add_sources [] sources = sources
add_sources (s ∷ more) sources = add_sources more (add_source s sources)

-- `states[-1]`; no record has an empty history.
abbrev pub last_state : FrontierRecord → CrawlState
last_state r = last_or discovered r.states

abbrev pub is_final : CrawlState → Bool
is_final fetched = true
is_final filtered = true
is_final failed = true
is_final cancelled = true
is_final _ = false

abbrev pub is_queued : CrawlState → Bool
is_queued queued = true
is_queued _ = false

unfoldable pub set_fetched : FrontierRecord → FrontierRecord
set_fetched r =
    if is_final (last_state r) then r else record r { states = r.states ++ fetched ∷ [] }

unfoldable pub set_failed : String → FrontierRecord → FrontierRecord
set_failed why r =
    if is_final (last_state r)
    then r
    else record r { reason = some why; states = r.states ++ failed ∷ [] }

unfoldable pub set_cancelled : String → FrontierRecord → FrontierRecord
set_cancelled why r =
    if is_final (last_state r)
    then r
    else record r { reason = some why; states = r.states ++ cancelled ∷ [] }

abbrev pub update : CrawlFrontier → ℕ → (FrontierRecord → FrontierRecord) → CrawlFrontier
update f i change = record f { records = modify change f.records i }

unfoldable pub mark_fetched : CrawlFrontier → ℕ → CrawlFrontier
mark_fetched f i = update f i set_fetched

unfoldable pub mark_failed : CrawlFrontier → ℕ → String → CrawlFrontier
mark_failed f i why = update f i (set_failed why)

unfoldable pub mark_cancelled : CrawlFrontier → ℕ → String → CrawlFrontier
mark_cancelled f i why = update f i (set_cancelled why)

abbrev pub keep_first {ℓ} : {A : Type ℓ} → Option A → Option A → Option A
keep_first none new = new
keep_first (some a) new = some a

unfoldable pub merge_discovery : Discovery → FrontierRecord → FrontierRecord
unfolding add_source
merge_discovery d r = record r {
  sources = add_source d.source r.sources;
  modified_at = keep_first r.modified_at d.modified_at;
  priority = keep_first r.priority d.priority;
  depth = min r.depth d.depth;
}

-- `reason is None and not safe`, `reason is None and not robots_allowed`, else the policy's reason.
unfoldable pub first_rejection : String → Bool → Bool → Option String → Option String
first_rejection unsafe safe robots_allowed (some reason) = some reason
first_rejection unsafe safe robots_allowed none =
    if not safe then some unsafe else if not robots_allowed then some "robots_refused" else none

module _ (p : UrlPolicy) where
  unfoldable pub is_known : CrawlFrontier → String → Bool
  is_known f url = is_some (lookup (p.key url) f.by_key)

  unfoldable pub is_full : CrawlFrontier → Bool
  is_full f = leb p.max_discovered_urls (length f.records)

  unfoldable pub admission_rejection : String → ℕ → Bool → Bool → Option String
  unfolding first_rejection
  admission_rejection url depth safe robots_allowed =
      first_rejection "unsafe_target" safe robots_allowed (p.rejection_reason url depth)

  unfoldable pub redirect_rejection : Option String → ℕ → Bool → Bool → Option String
  unfolding first_rejection
  redirect_rejection none depth safe robots_allowed = some "invalid_url"
  redirect_rejection (some url) depth safe robots_allowed =
      first_rejection "unsafe_redirect" safe robots_allowed (p.rejection_reason url depth)

  abbrev pub fresh : CrawlFrontier → String → Discovery → FrontierRecord
  fresh f url d = record {
    url = url;
    depth = d.depth;
    sources = d.source ∷ [];
    states = discovered ∷ [];
    reason = none;
    modified_at = d.modified_at;
    priority = d.priority;
    order = length f.records;
  }

  abbrev omit : CrawlFrontier → CrawlFrontier × Option ℕ
  omit f = (record f { omitted_due_to_limit = f.omitted_due_to_limit + 1 }, none)

  unfoldable pub record_filtered :
      CrawlFrontier → String → Discovery → String → CrawlFrontier × Option ℕ
  unfolding is_full
  record_filtered f url d why = if not (p.within_url_limit url) || is_full f then omit f else (
    record f {
      records =
          f.records
          ++ record (fresh f url d) { states = discovered ∷ filtered ∷ []; reason = some why } ∷ [];
    },
    some (length f.records),
  )

  -- The end of `discover`: a new record, filtered or queued.
  unfoldable pub admit :
      CrawlFrontier → String → Discovery → Option String → CrawlFrontier × Option ℕ
  admit f url d (some why) = (
    record f {
      records =
          f.records
          ++ record (fresh f url d) { states = discovered ∷ filtered ∷ []; reason = some why } ∷ [];
      by_key = insert (p.key url) (length f.records) f.by_key;
    },
    some (length f.records),
  )
  admit f url d none = (
    record f {
      records =
          f.records ++ record (fresh f url d) { states = discovered ∷ admitted ∷ queued ∷ [] } ∷ [];
      by_key = insert (p.key url) (length f.records) f.by_key;
      queue = f.queue ++ length f.records ∷ [];
    },
    some (length f.records),
  )

  unfoldable pub discover_normalized :
      CrawlFrontier → String → Discovery → Option ℕ → CrawlFrontier × Option ℕ
  unfolding is_full admission_rejection admit merge_discovery
  discover_normalized f url d (some i) = (update f i (merge_discovery d), some i)
  discover_normalized f url d none =
      if is_full f
      then omit f
      else admit f url d (admission_rejection url d.depth d.safe d.robots_allowed)

  unfoldable pub discover_url :
      CrawlFrontier → String → Discovery → Option String → CrawlFrontier × Option ℕ
  unfolding discover_normalized record_filtered
  discover_url f candidate d none = record_filtered f candidate d "invalid_url"
  discover_url f candidate d (some url) = discover_normalized f url d (lookup (p.key url) f.by_key)

  unfoldable pub discover : CrawlFrontier → String → Discovery → CrawlFrontier × Option ℕ
  unfolding discover_url
  discover f candidate d = discover_url f candidate d (p.normalize candidate)
