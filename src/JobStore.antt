-- ===== src/JobStore.antt =====
-- orchestrator/crawl_job_store.py: the tables of the crawl job store and its exceptions.
-- A table is a list of rows; each method is one transaction, a function from the tables to a result
-- and the tables after it (an exception rolls back). Times are natural numbers, in one unit.
-- `request_json` and `result_json` are opaque texts; of a `FetchResult` the store reads `outcome`.
pub mod Expiry
pub mod Claims
pub mod Progress
pub mod Ending
pub mod Pages
mod Rows
pub mod Paging
pub mod Absorbing
mod Kept
pub mod Final
pub mod Recovery
mod Replay
pub mod Idempotent
pub mod Counters
pub mod Bounds
pub mod Queue
pub mod Endings
mod Tests
use thorondor.Prelude.{
  ℕ, zero, suc, String, Bool, true, false, Option, none, some, List, [], ◌∷◌, str_eq, not, ◌&&◌,
  if◌then◌else◌, length, filter_by,
}

pub data JobState : Type 0 where
  queued running completed partial failed cancelled expired : JobState

pub record JobRow : Type 0 where
  pub job_id : String
  pub scope_hash : String
  pub idempotency_hash : Option String
  pub request_fingerprint : String
  pub request_json : String
  pub state : JobState
  pub created_at : ℕ
  pub started_at : Option ℕ
  pub terminal_at : Option ℕ
  pub retention_deadline : Option ℕ
  pub purge_after : Option ℕ
  pub cancel_requested : Bool
  pub pages_target : ℕ
  pub pages_processed : ℕ
  pub pages_succeeded : ℕ
  pub pages_failed : ℕ
  pub attempts : ℕ
  pub failure_summaries : List String
  pub outcome : Option String
  pub warnings : List String

pub record FetchResult : Type 0 where
  pub outcome : String
  pub result_json : String

pub record ResultRow : Type 0 where
  pub job_id : String
  pub result_key : String
  pub ordinal : ℕ
  pub result : FetchResult
  pub item_bytes : ℕ
  pub created_at : ℕ

pub record FailureRow : Type 0 where
  pub job_id : String
  pub failure_key : String
  pub summary : String
  pub created_at : ℕ

pub record Tables : Type 0 where
  pub jobs : List JobRow
  pub results : List ResultRow
  pub failures : List FailureRow

-- The settings of a `SqliteCrawlJobStore`.
pub record Settings : Type 0 where
  pub retention_s : ℕ
  pub tombstone_s : ℕ
  pub max_failure_summaries : ℕ
  pub max_failure_summary_chars : ℕ
  pub max_result_item_bytes : ℕ
  pub max_records : ℕ

-- `CrawlJobRecord`: the row, and the number of results that are stored.
pub record JobRecord : Type 0 where
  pub row : JobRow
  pub results_available : ℕ

-- `integrity_error` is SQLite's refusal of a row whose `job_id` is not in `crawl_jobs`.
pub data StoreError : Type 0 where
  idempotency_conflict not_found queue_full integrity_error : StoreError
  job_expired : JobRecord → StoreError
  result_too_large : ℕ → StoreError

pub data Result {ℓ} (A : Type ℓ) : Type ℓ where
  ok : A → Result A
  err : StoreError → Result A

-- `TERMINAL_JOB_STATES`.
abbrev pub is_terminal : JobState → Bool
is_terminal completed = true
is_terminal partial = true
is_terminal failed = true
is_terminal cancelled = true
is_terminal _ = false

abbrev pub is_running : JobState → Bool
is_running running = true
is_running _ = false

abbrev pub is_queued : JobState → Bool
is_queued queued = true
is_queued _ = false

abbrev pub is_expired : JobState → Bool
is_expired expired = true
is_expired _ = false

-- SELECT * FROM crawl_jobs WHERE job_id = ?
unfoldable pub find_job : String → List JobRow → Option JobRow
find_job id [] = none
find_job id (r ∷ rest) = if str_eq r.job_id id then some r else find_job id rest

-- UPDATE crawl_jobs SET ... WHERE job_id = ? AND ...
unfoldable pub update_jobs : (JobRow → Bool) → (JobRow → JobRow) → List JobRow → List JobRow
update_jobs test change [] = []
update_jobs test change (r ∷ rest) = (if test r then change r else r) ∷ update_jobs test change rest

abbrev pub has_id : String → JobRow → Bool
has_id id r = str_eq r.job_id id

-- DELETE FROM crawl_job_results, crawl_job_failures WHERE job_id = ?
abbrev pub drop_results : String → List ResultRow → List ResultRow
drop_results id = filter_by (λ r. not (str_eq r.job_id id))

abbrev pub drop_failures : String → List FailureRow → List FailureRow
drop_failures id = filter_by (λ r. not (str_eq r.job_id id))

abbrev pub results_of : String → List ResultRow → List ResultRow
results_of id = filter_by (λ r. str_eq r.job_id id)

-- `_record`
unfoldable pub to_record : Tables → JobRow → JobRecord
to_record db r = record { row = r; results_available = length (results_of r.job_id db.results) }
