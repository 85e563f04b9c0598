-- ===== src/JobStore/Counters.antt =====
-- The page counts of a running job are exact.
use thorondor.Prelude.{
  ℕ, ◌+◌, ◌≤◌, String, ◌≡◌, refl, ◌∙◌, inl, inr, Bool, true, false, some, List, [], ◌∷◌, ◌++◌,
  arith, str_eq, eq_iff, eq_refl, length, filter_by, any, not, Bool-cases, ◌&&◌, ltb,
}
use thorondor.JobStore.{
  JobRow, ResultRow, FailureRow, Tables, Settings, FetchResult, is_running, find_job, update_jobs,
  has_id, results_of,
}
use thorondor.JobStore.Progress.{
  NewResult, append_result, add_result, append_failure, add_failure, put_failure, is_failure,
  is_content, has_failure, one_if, new_result, reconciled, prior_failures, count_result,
  count_failure, truncate, is_result,
}
use thorondor.JobStore.Rows.{KeepsId, find_job-update_jobs, job_id-find_job}

abbrev pub failures_of : String → List FailureRow → List FailureRow
failures_of id = filter_by (λ r. str_eq r.job_id id)

abbrev pub contents_of : String → List ResultRow → List ResultRow
contents_of id = filter_by (λ r. str_eq r.job_id id && is_content r.result)

-- The counts of a job's row are those of its results and failures.
pub record IsCounted (id : String) (db : Tables) (r : JobRow) : Type 0 where
  pub processed :
      r.pages_processed ≡ length (results_of id db.results) + length (failures_of id db.failures)
  pub succeeded : r.pages_succeeded ≡ length (contents_of id db.results)
  pub failed :
      r.pages_failed + r.pages_succeeded
      ≡ length (results_of id db.results) + length (failures_of id db.failures)

length-filter_by-concat {ℓ} :
    {A : Type ℓ} (p : A → Bool) (xs : List A) (x : A)
    → length (filter_by p (xs ++ x ∷ [])) ≡ length (filter_by p xs) + one_if (p x)
length-filter_by-concat p [] x = elim (Bool-cases (p x)) [ inl h ↦ rw h refl | inr h ↦ rw h refl ]
length-filter_by-concat p (y ∷ ys) x = elim (Bool-cases (p y)) [
  | inl h ↦ rw h (omega (arith, length-filter_by-concat p ys x))
  | inr h ↦ rw h (length-filter_by-concat p ys x)
]

contents-le-results :
    (id : String) (rows : List ResultRow)
    → length (contents_of id rows) ≤ length (results_of id rows)
contents-le-results id [] = omega arith
contents-le-results id (r ∷ rest) = ground (arith, contents-le-results id rest)

-- What is deleted and what is left of a job's failures are all of them.
failures_split :
    (id : String) (keys : List String) (rows : List FailureRow)
    → length (failures_of id (filter_by (λ r. not (is_failure id keys r)) rows))
        + length (filter_by (is_failure id keys) rows)
      ≡ length (failures_of id rows)
failures_split id keys [] = omega arith
failures_split id keys (r ∷ rest) = ground (arith, failures_split id keys rest)

length-put_failure :
    (id key summary : String) (now : ℕ) (rows : List FailureRow)
    → length (
        failures_of id (
          put_failure
            (record { job_id = id; failure_key = key; summary = summary; created_at = now })
            rows))
      ≡ length (failures_of id rows) + one_if (not (has_failure id key rows))
unfolding put_failure
length-put_failure id key summary now [] = ground (arith, eq_iff id id)
length-put_failure id key summary now (r ∷ rest) =
    ground (arith, length-put_failure id key summary now rest)

-- The job runs, and its counts are exact.
abbrev pub IsRunning : String → Tables → Type 0
IsRunning id db =
    (r : JobRow) × (find_job id db.jobs ≡ some r) × (is_running r.state ≡ true) × IsCounted id db r

-- The row that an update of the running job leaves.
updated :
    (change : JobRow → JobRow) (id : String) (jobs : List JobRow) (r : JobRow)
    → KeepsId change
    → find_job id jobs ≡ some r
    → is_running r.state ≡ true
    → find_job id (update_jobs (λ s. has_id id s && is_running s.state) change jobs)
      ≡ some (change r)
updated change id jobs r k at runs =
    let own : r.job_id ≡ id = job_id-find_job id jobs r at in
    let test : (str_eq r.job_id id && is_running r.state) ≡ true =
      ground (arith, own, runs, eq_iff r.job_id id) in
    find_job-update_jobs (λ s. has_id id s && is_running s.state) change id jobs r k at
    ∙ rw test refl

one_if-add-not : (b : Bool) → one_if b + one_if (not b) ≡ 1
one_if-add-not true = refl
one_if-add-not false = refl

add_result-IsCounted :
    (a : NewResult) (now : ℕ) (db : Tables) (r : JobRow)
    → IsCounted a.job_id db r
    → IsCounted a.job_id
        (add_result a now db)
        (count_result (prior_failures a db) (is_content a.result) r)
unfolding add_result
add_result-IsCounted a now db r c =
    let id = a.job_id in
    let new = new_result a now db.results in
    let own : str_eq id id ≡ true = eq_refl id in
    let more : one_if (str_eq id id) ≡ 1 = rw own refl in
    let content : one_if (str_eq id id && is_content a.result) ≡ one_if (is_content a.result) =
      rw own refl in
    let stored = length-filter_by-concat (λ t. str_eq t.job_id id) db.results new in
    let contents =
      length-filter_by-concat (λ t. str_eq t.job_id id && is_content t.result) db.results new in
    let split = failures_split id (reconciled a) db.failures in
    let fewer = contents-le-results id db.results in
    let either = one_if-add-not (is_content a.result) in
    record {
      processed = omega (arith, stored, split, more);
      succeeded = omega (arith, contents, content);
      failed = omega (arith, stored, split, more, contents, content, fewer, either);
    }

append_result-IsRunning :
    (cfg : Settings) (a : NewResult) (now : ℕ) (db : Tables)
    → IsRunning a.job_id db
    → IsRunning a.job_id (append_result cfg a now db).1
unfolding append_result add_result
append_result-IsRunning cfg a now db (r, at, runs, c) =
    let change = count_result (prior_failures a db) (is_content a.result) in
    elim (Bool-cases (ltb cfg.max_result_item_bytes a.item_bytes)) [
      | inl large ↦ rw large (r, at, runs, c)
      | inr fits ↦ elim (Bool-cases (any (is_result a.job_id a.result_key) db.results)) [
        | inl there ↦ rw (fits, there) (r, at, runs, c)
        | inr new ↦
            rw (fits, new, at)
              (
                change r,
                updated change a.job_id db.jobs r (λ s. refl) at runs,
                runs,
                add_result-IsCounted a now db r c,
              )
      ]
    ]

append_failure-IsRunning :
    (cfg : Settings) (id key summary : String) (now : ℕ) (db : Tables)
    → IsRunning id db
    → IsRunning id (append_failure cfg id key summary now db).1
unfolding append_failure add_failure
append_failure-IsRunning cfg id key summary now db (r, at, runs, c) =
    let bounded = truncate cfg.max_failure_summary_chars summary in
    let change = count_failure cfg bounded (one_if (not (has_failure id key db.failures))) in
    let more = length-put_failure id key bounded now db.failures in
    elim (Bool-cases (any (is_result id key) db.results)) [
      | inl there ↦ rw there (r, at, runs, c)
      | inr new ↦
          rw (new, at)
            (
              change r,
              updated change id db.jobs r (λ s. refl) at runs,
              runs,
              record {
                processed = omega (arith, more, c.processed);
                succeeded = c.succeeded;
                failed = omega (arith, more, c.failed);
              },
            )
    ]

-- What the worker of a job reports while it runs.
pub data Report : Type 0 where
  stored : (key : String) (result : FetchResult) (item_bytes : ℕ) (keys : List String) → Report
  failure : (key summary : String) → Report

unfoldable pub report : Settings → String → ℕ → Report → Tables → Tables
unfolding append_result append_failure
report cfg id now (stored key result item_bytes keys) db =
    (append_result cfg
      (record {
        job_id = id;
        result_key = key;
        result = result;
        item_bytes = item_bytes;
        failure_keys = keys;
      })
      now db).1
report cfg id now (failure key summary) db = (append_failure cfg id key summary now db).1

unfoldable pub report_all : Settings → String → List (ℕ × Report) → Tables → Tables
unfolding report
report_all cfg id [] db = db
report_all cfg id ((now, r) ∷ rest) db = report_all cfg id rest (report cfg id now r db)

report-IsRunning :
    (cfg : Settings) (id : String) (now : ℕ) (r : Report) (db : Tables)
    → IsRunning id db
    → IsRunning id (report cfg id now r db)
unfolding report
report-IsRunning cfg id now (stored key result item_bytes keys) db h =
    append_result-IsRunning cfg _ now db h
report-IsRunning cfg id now (failure key summary) db h =
    append_failure-IsRunning cfg id key summary now db h

-- Whatever results and failures are appended to a running job whose counts are exact, in any order
-- and with repetitions and late results for failed pages, its counts stay exact: `pages_processed` is
-- the number of its stored results and failures, `pages_succeeded` that of the results with content,
-- and `pages_failed` the difference.
pub report_all-IsRunning :
    (cfg : Settings) (id : String) (reports : List (ℕ × Report)) (db : Tables)
    → IsRunning id db
    → IsRunning id (report_all cfg id reports db)
unfolding report_all
report_all-IsRunning cfg id [] db h = h
report_all-IsRunning cfg id ((now, r) ∷ rest) db h =
    report_all-IsRunning cfg id rest (report cfg id now r db) (report-IsRunning cfg id now r db h)
