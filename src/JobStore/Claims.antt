-- ===== src/JobStore/Claims.antt =====
-- orchestrator/crawl_job_store.py: `_claim`, `_get`, `_get_any`, `_recover_interrupted`,
-- `_claim_next` and `_increment_attempt`.
use Prim.Native.String.{compare}
use text.Mathlib.Text.{is_lt}
use thorondor.Prelude.{
  ℕ, ◌+◌, String, Bool, true, false, Option, none, some, List, [], ◌∷◌, ◌++◌, ◌&&◌, ◌||◌, leb, ltb,
  ◌==◌, str_eq, if◌then◌else◌, length, filter_by,
}
use thorondor.JobStore.{
  JobRow, Tables, Settings, JobRecord, Result, ok, err, queued, running, failed, cancelled,
  idempotency_conflict, integrity_error, not_found, queue_full, job_expired, is_running, is_queued,
  is_expired, find_job, update_jobs, has_id, to_record,
}
use thorondor.JobStore.Expiry.{expire_due}

-- The arguments of `_claim`; of the request the store reads its JSON text and `max_pages`.
pub record Claim : Type 0 where
  pub job_id : String
  pub scope_hash : String
  pub idempotency_hash : String
  pub request_fingerprint : String
  pub request_json : String
  pub max_pages : ℕ

pub record ClaimResult : Type 0 where
  pub claimed : JobRecord
  pub replayed : Bool

abbrev pub holds_key : String → String → JobRow → Bool
holds_key scope key r =
    str_eq r.scope_hash scope
    && elim r.idempotency_hash [ none ↦ false | some held ↦ str_eq held key ]

-- SELECT * FROM crawl_jobs WHERE scope_hash = ? AND idempotency_hash = ?
unfoldable pub find_key : String → String → List JobRow → Option JobRow
find_key scope key [] = none
find_key scope key (r ∷ rest) = if holds_key scope key r then some r else find_key scope key rest

abbrev pub new_job : Claim → ℕ → JobRow
new_job c now = record {
  job_id = c.job_id;
  scope_hash = c.scope_hash;
  idempotency_hash = some c.idempotency_hash;
  request_fingerprint = c.request_fingerprint;
  request_json = c.request_json;
  state = queued;
  created_at = now;
  started_at = none;
  terminal_at = none;
  retention_deadline = none;
  purge_after = none;
  cancel_requested = false;
  pages_target = c.max_pages;
  pages_processed = 0;
  pages_succeeded = 0;
  pages_failed = 0;
  attempts = 0;
  failure_summaries = [];
  outcome = none;
  warnings = [];
}

-- A job id that is taken is a primary key twice, which rolls back to `before`.
unfoldable pub insert_job :
    Claim → ℕ → Tables → Tables → Option JobRow → Result ClaimResult × Tables
unfolding to_record
insert_job c now before db (some r) = (err integrity_error, before)
insert_job c now before db none =
    let after = record db { jobs = db.jobs ++ new_job c now ∷ [] } in
    (ok (record { claimed = to_record after (new_job c now); replayed = false }), after)

unfoldable pub claim_in :
    Settings → Claim → ℕ → Tables → Tables → Option JobRow → Result ClaimResult × Tables
unfolding to_record insert_job find_job
claim_in cfg c now before db (some r) =
    if str_eq r.request_fingerprint c.request_fingerprint
    then (ok (record { claimed = to_record db r; replayed = true }), db)
    else (err idempotency_conflict, db)
claim_in cfg c now before db none =
    if leb cfg.max_records (length db.jobs)
    then (err queue_full, db)
    else insert_job c now before db (find_job c.job_id db.jobs)

unfoldable pub claim : Settings → Claim → ℕ → Tables → Result ClaimResult × Tables
unfolding claim_in find_key expire_due
claim cfg c now db =
    let swept = expire_due cfg now db in
    claim_in cfg c now db swept (find_key c.scope_hash c.idempotency_hash swept.jobs)

-- A row of another scope is not found.
abbrev pub in_scope : String → Option JobRow → Option JobRow
in_scope scope none = none
in_scope scope (some r) = if str_eq r.scope_hash scope then some r else none

abbrev pub visible : Tables → Option JobRow → Result JobRecord
visible db none = err not_found
visible db (some r) =
    if is_expired r.state then err (job_expired (to_record db r)) else ok (to_record db r)

unfoldable pub get : Settings → String → String → ℕ → Tables → Result JobRecord × Tables
unfolding find_job expire_due to_record
get cfg id scope now db =
    let swept = expire_due cfg now db in
    (visible swept (in_scope scope (find_job id swept.jobs)), swept)

unfoldable pub get_any : String → Tables → Option JobRecord
unfolding find_job to_record
get_any id db = elim (find_job id db.jobs) [ none ↦ none | some r ↦ some (to_record db r) ]

-- The three updates of `_recover_interrupted`, in order.
abbrev pub recover_cancelled : Settings → ℕ → List JobRow → List JobRow
recover_cancelled cfg now =
    update_jobs (λ r. is_running r.state && r.cancel_requested)
      (λ r. record r {
        state = cancelled;
        terminal_at = some now;
        retention_deadline = some (now + cfg.retention_s);
        cancel_requested = false;
        outcome = some "cancelled";
      })

abbrev pub recover_exhausted : Settings → ℕ → ℕ → List JobRow → List JobRow
recover_exhausted cfg max_attempts now =
    update_jobs (λ r. is_running r.state && leb max_attempts r.attempts)
      (λ r. record r {
        state = failed;
        terminal_at = some now;
        retention_deadline = some (now + cfg.retention_s);
        outcome = some "local_processing_failure";
        failure_summaries = "restart_retry_exhausted" ∷ [];
      })

abbrev pub recover_queued : ℕ → List JobRow → List JobRow
recover_queued max_attempts =
    update_jobs (λ r. is_running r.state && ltb r.attempts max_attempts)
      (λ r. record r { state = queued })

abbrev pub count_jobs : (JobRow → Bool) → List JobRow → ℕ
count_jobs test jobs = length (filter_by test jobs)

unfoldable pub recover_interrupted : Settings → ℕ → ℕ → Tables → ℕ × Tables
unfolding update_jobs
recover_interrupted cfg max_attempts now db =
    let one = recover_cancelled cfg now db.jobs in
    let two = recover_exhausted cfg max_attempts now one in
    (
      count_jobs (λ r. is_running r.state && r.cancel_requested) db.jobs
          + count_jobs (λ r. is_running r.state && leb max_attempts r.attempts) one
          + count_jobs (λ r. is_running r.state && ltb r.attempts max_attempts) two,
      record db { jobs = recover_queued max_attempts two },
    )

-- ORDER BY created_at, job_id: texts are compared byte by byte.
abbrev pub older : JobRow → JobRow → Bool
older a b =
    ltb a.created_at b.created_at
    || (a.created_at == b.created_at && is_lt (compare a.job_id b.job_id))

-- The first of the queued rows in that order.
unfoldable pub oldest_queued : List JobRow → Option JobRow
oldest_queued [] = none
oldest_queued (r ∷ rest) =
    let best = oldest_queued rest in
    if is_queued r.state
    then elim best [ none ↦ some r | some b ↦ if older b r then some b else some r ]
    else best

abbrev pub keep_start : Option ℕ → ℕ → Option ℕ
keep_start none now = some now
keep_start (some t) now = some t

abbrev pub start_job : ℕ → JobRow → JobRow
start_job now r = record r {
  state = running;
  started_at = keep_start r.started_at now;
  attempts = r.attempts + 1;
}

unfoldable pub claim_next_in : ℕ → Tables → Option JobRow → Option JobRecord × Tables
claim_next_in now db none = (none, db)
claim_next_in now db (some r) =
    let after = record db {
      jobs = update_jobs (λ s. has_id r.job_id s && is_queued s.state) (start_job now) db.jobs;
    } in
    (get_any r.job_id after, after)

unfoldable pub claim_next : Settings → ℕ → Tables → Option JobRecord × Tables
unfolding claim_next_in oldest_queued expire_due get_any update_jobs
claim_next cfg now db =
    let swept = expire_due cfg now db in claim_next_in now swept (oldest_queued swept.jobs)

unfoldable pub increment_attempt : String → Tables → Result JobRecord × Tables
unfolding update_jobs get_any
increment_attempt id db =
    let after = record db {
      jobs =
          update_jobs (λ r. has_id id r && is_running r.state)
            (λ r. record r { attempts = r.attempts + 1 }) db.jobs;
    } in
    elim (get_any id after) [ none ↦ (err not_found, db) | some r ↦ (ok r, after) ]
