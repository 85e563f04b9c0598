-- ===== src/JobStore/Queue.antt =====
-- Which job `_claim_next` starts.
use mathlib.Core.Path.{subst}
use thorondor.Prelude.{
  ℕ, ◌+◌, ◌≤◌, ◌≡◌, ◌⊎◌, refl, sym, ◌∙◌, ap, inl, inr, true, false, Option, none, some, List, [],
  ◌∷◌, arith, eq_iff, if◌then◌else◌, All, Bool-cases, Option-cases, ◌&&◌, ltb,
}
use thorondor.JobStore.{
  JobRow, Tables, Settings, JobRecord, running, is_queued, find_job, has_id, to_record,
}
use thorondor.JobStore.Expiry.{expire_due}
use thorondor.JobStore.Claims.{
  claim_next, claim_next_in, oldest_queued, start_job, keep_start, get_any, older,
}
use thorondor.JobStore.Replay.{Differs}
use thorondor.JobStore.Rows.{find_job-update_jobs}

-- The ids are a primary key.
abbrev pub HasUniqueIds : List JobRow → Type 0
HasUniqueIds [] = Unit
HasUniqueIds (r ∷ rest) = All (Differs r) rest × HasUniqueIds rest

-- No queued job was created before this one.
abbrev pub IsOldest : JobRow → List JobRow → Type 0
IsOldest r = All (λ s. (is_queued s.state && ltb s.created_at r.created_at) ≡ false)

IsOldest-le :
    (r s : JobRow) (jobs : List JobRow)
    → r.created_at ≤ s.created_at
    → IsOldest s jobs
    → IsOldest r jobs
IsOldest-le r s [] h o = tt
IsOldest-le r s (t ∷ rest) h o = (ground (arith, o.0), IsOldest-le r s rest h o.1)

none_queued : (r : JobRow) (jobs : List JobRow) → oldest_queued jobs ≡ none → IsOldest r jobs
unfolding oldest_queued
none_queued r [] h = tt
none_queued r (s ∷ rest) h = (ground arith, none_queued r rest (ground arith))

-- One round of the search, from the best of the rest.
better : JobRow → Option JobRow → Option JobRow
better s best =
    if is_queued s.state
    then elim best [ none ↦ some s | some b ↦ if older b s then some b else some s ]
    else best

abbrev Best : JobRow → List JobRow → JobRow → Type 0
Best s rest r = (is_queued r.state ≡ true) × IsOldest r (s ∷ rest)

better-IsOldest :
    (s b r : JobRow) (rest : List JobRow)
    → is_queued b.state ≡ true
    → IsOldest b rest
    → better s (some b) ≡ some r
    → Best s rest r
unfolding better
better-IsOldest s b r rest q o h = elim (Bool-cases (is_queued s.state)) [
  | inl waits ↦ elim (Bool-cases (older b s)) [
    | inl before ↦
        let same : b ≡ r = ground (arith, h, waits, before) in
        subst (Best s rest) same (q, (ground (arith, before), o))
    | inr after ↦
        let same : s ≡ r = ground (arith, h, waits, after) in
        subst (Best s rest) same
          (waits, (ground arith, IsOldest-le s b rest (ground (arith, after)) o))
  ]
  | inr other ↦
      let same : b ≡ r = ground (arith, h, other) in
      subst (Best s rest) same (q, (ground (arith, other), o))
]

better_first :
    (s r : JobRow) (rest : List JobRow)
    → oldest_queued rest ≡ none
    → better s none ≡ some r
    → Best s rest r
unfolding better
better_first s r rest e h = elim (Bool-cases (is_queued s.state)) [
  | inl waits ↦
      let same : s ≡ r = ground (arith, h, waits) in
      subst (Best s rest) same (waits, (ground arith, none_queued s rest e))
  | inr other ↦ absurd (ground (arith, h, other))
]

oldest_queued-IsOldest :
    (jobs : List JobRow) (r : JobRow)
    → oldest_queued jobs ≡ some r
    → (is_queued r.state ≡ true) × IsOldest r jobs
unfolding oldest_queued better
oldest_queued-IsOldest [] r h = ground arith
oldest_queued-IsOldest (s ∷ rest) r h = elim (Option-cases (oldest_queued rest)) [
  | inl e ↦ better_first s r rest e (ap (better s) (sym e) ∙ h)
  | inr (b, e) ↦
      let (q, o) = oldest_queued-IsOldest rest b e in
      better-IsOldest s b r rest q o (ap (better s) (sym e) ∙ h)
]

better_source :
    (s r : JobRow) (best : Option JobRow) → better s best ≡ some r → (s ≡ r) ⊎ (best ≡ some r)
unfolding better
better_source s r none h = ground arith
better_source s r (some b) h = ground arith

Differs-oldest :
    (s : JobRow) (jobs : List JobRow) (r : JobRow)
    → All (Differs s) jobs
    → oldest_queued jobs ≡ some r
    → Differs s r
unfolding oldest_queued better
Differs-oldest s [] r d h = ground arith
Differs-oldest s (t ∷ rest) r d h = elim (better_source t r (oldest_queued rest) h) [
  | inl same ↦ subst (Differs s) same d.0
  | inr e ↦ Differs-oldest s rest r d.1 e
]

find_job-oldest :
    (jobs : List JobRow) (r : JobRow)
    → HasUniqueIds jobs
    → oldest_queued jobs ≡ some r
    → find_job r.job_id jobs ≡ some r
unfolding oldest_queued find_job better
find_job-oldest [] r u h = ground arith
find_job-oldest (s ∷ rest) r u h = elim (better_source s r (oldest_queued rest) h) [
  | inl same ↦ ground (arith, same, eq_iff s.job_id r.job_id)
  | inr e ↦
      ground (
        arith,
        Differs-oldest s rest r u.0 e,
        find_job-oldest rest r u.1 e,
        eq_iff s.job_id r.job_id,
      )
]

-- What a job is once it has started, from what it was: each column.
pub record HasStarted (now : ℕ) (r s : JobRow) : Type 0 where
  pub state : s.state ≡ running
  pub attempts : s.attempts ≡ r.attempts + 1
  pub started_at :
      ((r.started_at ≡ none) × (s.started_at ≡ some now))
      ⊎ ((t : ℕ) × (r.started_at ≡ some t) × (s.started_at ≡ some t))
  pub job_id : s.job_id ≡ r.job_id
  pub scope_hash : s.scope_hash ≡ r.scope_hash
  pub idempotency_hash : s.idempotency_hash ≡ r.idempotency_hash
  pub request_fingerprint : s.request_fingerprint ≡ r.request_fingerprint
  pub request_json : s.request_json ≡ r.request_json
  pub created_at : s.created_at ≡ r.created_at
  pub terminal_at : s.terminal_at ≡ r.terminal_at
  pub retention_deadline : s.retention_deadline ≡ r.retention_deadline
  pub purge_after : s.purge_after ≡ r.purge_after
  pub cancel_requested : s.cancel_requested ≡ r.cancel_requested
  pub pages_target : s.pages_target ≡ r.pages_target
  pub pages_processed : s.pages_processed ≡ r.pages_processed
  pub pages_succeeded : s.pages_succeeded ≡ r.pages_succeeded
  pub pages_failed : s.pages_failed ≡ r.pages_failed
  pub failure_summaries : s.failure_summaries ≡ r.failure_summaries
  pub outcome : s.outcome ≡ r.outcome
  pub warnings : s.warnings ≡ r.warnings

keep_start_lem :
    (held : Option ℕ) (now : ℕ)
    → ((held ≡ none) × (keep_start held now ≡ some now))
      ⊎ ((t : ℕ) × (held ≡ some t) × (keep_start held now ≡ some t))
keep_start_lem none now = inl (refl, refl)
keep_start_lem (some t) now = inr (t, refl, refl)

start_job-HasStarted : (now : ℕ) (r : JobRow) → HasStarted now r (start_job now r)
start_job-HasStarted now r = record {
  state = refl;
  attempts = refl;
  started_at = keep_start_lem r.started_at now;
  job_id = refl;
  scope_hash = refl;
  idempotency_hash = refl;
  request_fingerprint = refl;
  request_json = refl;
  created_at = refl;
  terminal_at = refl;
  retention_deadline = refl;
  purge_after = refl;
  cancel_requested = refl;
  pages_target = refl;
  pages_processed = refl;
  pages_succeeded = refl;
  pages_failed = refl;
  failure_summaries = refl;
  outcome = refl;
  warnings = refl;
}

claim_next_in-starts :
    (now : ℕ) (db : Tables) (r : JobRow) (x : JobRecord)
    → find_job r.job_id db.jobs ≡ some r
    → is_queued r.state ≡ true
    → (claim_next_in now db (some r)).0 ≡ some x
    → HasStarted now r x.row
unfolding claim_next_in get_any to_record
claim_next_in-starts now db r x at q h =
    let found =
      find_job-update_jobs (λ s. has_id r.job_id s && is_queued s.state) (start_job now) r.job_id
        db.jobs r (λ s. refl) at in
    let same : x.row ≡ start_job now r = ground (arith, found, h, eq_iff r.job_id r.job_id) in
    subst (HasStarted now r) (sym same) (start_job-HasStarted now r)

abbrev pub Started : ℕ → Tables → JobRecord → Type 0
Started now swept x =
    (r : JobRow) × (find_job r.job_id swept.jobs ≡ some r)
    × (is_queued r.state ≡ true)
    × IsOldest r swept.jobs
    × HasStarted now r x.row

claim_next_in-Started :
    (now : ℕ) (swept : Tables) (held : Option JobRow) (x : JobRecord)
    → oldest_queued swept.jobs ≡ held
    → HasUniqueIds swept.jobs
    → (claim_next_in now swept held).0 ≡ some x
    → Started now swept x
unfolding claim_next_in
claim_next_in-Started now swept none x e u h = ground arith
claim_next_in-Started now swept (some r) x e u h =
    let (q, o) = oldest_queued-IsOldest swept.jobs r e in
    let at = find_job-oldest swept.jobs r u e in
    (r, at, q, o, claim_next_in-starts now swept r x at q h)

-- If the ids are unique once the due rows have expired, the job that `_claim_next` returns was queued,
-- no queued job was created before it, and its row is as it was but for the state `running`, one more
-- attempt, and the start time, which is set on the first attempt only.
pub claim_next-Started :
    (cfg : Settings) (now : ℕ) (db : Tables) (x : JobRecord)
    → HasUniqueIds (expire_due cfg now db).jobs
    → (claim_next cfg now db).0 ≡ some x
    → Started now (expire_due cfg now db) x
unfolding claim_next
claim_next-Started cfg now db x u h = claim_next_in-Started now (expire_due cfg now db) _ x refl u h
