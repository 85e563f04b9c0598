-- ===== src/JobStore/Progress.antt =====
-- orchestrator/crawl_job_store.py: `_append_result`, `_append_failure` and `_append_summary`.
use thorondor.Prelude.{
  ℕ, zero, suc, ◌+◌, ◌-◌, max, String, Bool, true, false, List, [], ◌∷◌, ◌++◌, ◌&&◌, not, ltb,
  str_eq, if◌then◌else◌, length, filter_by, any, is_some,
}
use thorondor.JobStore.{
  JobRow, ResultRow, FailureRow, FetchResult, Tables, Settings, Result, ok, err, integrity_error,
  result_too_large, is_running, find_job, update_jobs, has_id, results_of,
}

-- `summary[:n]`
unfoldable pub truncate : ℕ → String → String
truncate zero s = String.[]
truncate (suc n) String.[] = String.[]
truncate (suc n) (String.◌∷◌ c s) = String.◌∷◌ c (truncate n s)

abbrev pub contains : String → List String → Bool
contains key = any (λ k. str_eq k key)

-- `dict.fromkeys(keys)`
unfoldable pub distinct : List String → List String
distinct [] = []
distinct (k ∷ rest) = k ∷ filter_by (λ j. not (str_eq k j)) (distinct rest)

abbrev pub is_result : String → String → ResultRow → Bool
is_result id key r = str_eq r.job_id id && str_eq r.result_key key

abbrev pub is_failure : String → List String → FailureRow → Bool
is_failure id keys r = str_eq r.job_id id && contains r.failure_key keys

-- COALESCE(MAX(ordinal), 0)
unfoldable pub max_ordinal : List ResultRow → ℕ
max_ordinal [] = 0
max_ordinal (r ∷ rest) = max r.ordinal (max_ordinal rest)

abbrev pub one_if : Bool → ℕ
one_if true = 1
one_if false = 0

abbrev pub is_content : FetchResult → Bool
is_content result = str_eq result.outcome "content"

abbrev pub count_result : ℕ → Bool → JobRow → JobRow
count_result prior success r = record r {
  pages_processed = r.pages_processed + 1 - prior;
  pages_succeeded = r.pages_succeeded + one_if success;
  pages_failed = r.pages_failed + one_if (not success) - prior;
}

-- The arguments of `_append_result`, with the length in bytes of the encoded result.
pub record NewResult : Type 0 where
  pub job_id : String
  pub result_key : String
  pub result : FetchResult
  pub item_bytes : ℕ
  pub failure_keys : List String

abbrev pub new_result : NewResult → ℕ → List ResultRow → ResultRow
new_result a now results = record {
  job_id = a.job_id;
  result_key = a.result_key;
  ordinal = max_ordinal (results_of a.job_id results) + 1;
  result = a.result;
  item_bytes = a.item_bytes;
  created_at = now;
}

abbrev pub reconciled : NewResult → List String
reconciled a = distinct (a.result_key ∷ a.failure_keys)

abbrev pub prior_failures : NewResult → Tables → ℕ
prior_failures a db = length (filter_by (is_failure a.job_id (reconciled a)) db.failures)

-- The transaction once the row is known to be new and its job to be there. MAX(0, x - n) is `-`.
unfoldable pub add_result : NewResult → ℕ → Tables → Tables
unfolding update_jobs max_ordinal distinct
add_result a now db = record {
  jobs =
      update_jobs (λ r. has_id a.job_id r && is_running r.state)
        (count_result (prior_failures a db) (is_content a.result)) db.jobs;
  results = db.results ++ new_result a now db.results ∷ [];
  failures = filter_by (λ r. not (is_failure a.job_id (reconciled a) r)) db.failures;
}

unfoldable pub append_result : Settings → NewResult → ℕ → Tables → Result Bool × Tables
unfolding add_result find_job
append_result cfg a now db =
    if ltb cfg.max_result_item_bytes a.item_bytes
    then (err (result_too_large a.item_bytes), db)
    else if any (is_result a.job_id a.result_key) db.results
    then (ok false, db)
    else if is_some (find_job a.job_id db.jobs)
    then (ok true, add_result a now db)
    else (err integrity_error, db)

-- INSERT OR IGNORE, and an UPDATE of the summary where the row is there.
unfoldable pub put_failure : FailureRow → List FailureRow → List FailureRow
put_failure f [] = f ∷ []
put_failure f (r ∷ rest) =
    if str_eq r.job_id f.job_id && str_eq r.failure_key f.failure_key
    then record r { summary = f.summary } ∷ rest
    else r ∷ put_failure f rest

abbrev pub has_failure : String → String → List FailureRow → Bool
has_failure id key = any (λ r. str_eq r.job_id id && str_eq r.failure_key key)

unfoldable pub add_summary : Settings → String → List String → List String
add_summary cfg bounded values =
    if not (contains bounded values) && ltb (length values) cfg.max_failure_summaries
    then values ++ bounded ∷ []
    else values

abbrev pub count_failure : Settings → String → ℕ → JobRow → JobRow
count_failure cfg bounded inserted r = record r {
  failure_summaries = add_summary cfg bounded r.failure_summaries;
  pages_processed = r.pages_processed + inserted;
  pages_failed = r.pages_failed + inserted;
}

unfoldable pub add_failure : Settings → String → String → String → ℕ → Tables → Tables
unfolding put_failure add_summary update_jobs
add_failure cfg id key bounded now db = record db {
  failures =
      put_failure (record { job_id = id; failure_key = key; summary = bounded; created_at = now })
        db.failures;
  jobs =
      update_jobs (λ r. has_id id r && is_running r.state)
        (count_failure cfg bounded (one_if (not (has_failure id key db.failures)))) db.jobs;
}

-- A failure of a job that is not there violates the foreign key.
unfoldable pub append_failure :
    Settings → String → String → String → ℕ → Tables → Result (Unit {0}) × Tables
unfolding add_failure truncate find_job
append_failure cfg id key summary now db =
    if any (is_result id key) db.results
    then (ok tt, db)
    else if is_some (find_job id db.jobs)
    then (ok tt, add_failure cfg id key (truncate cfg.max_failure_summary_chars summary) now db)
    else (err integrity_error, db)

unfoldable pub append_summary : Settings → String → String → Tables → Tables
unfolding truncate update_jobs add_summary
append_summary cfg id summary db = record db {
  jobs =
      update_jobs (has_id id)
        (λ r. record r {
          failure_summaries =
              add_summary cfg (truncate cfg.max_failure_summary_chars summary) r.failure_summaries;
        })
        db.jobs;
}
