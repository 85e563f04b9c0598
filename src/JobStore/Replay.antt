-- ===== src/JobStore/Replay.antt =====
-- A claim that is made again gets the same job.
use thorondor.Prelude.{
  ℕ, String, ◌≡◌, ◌≢◌, refl, inl, inr, Bool, true, false, none, some, List, [], ◌∷◌, ◌++◌, arith,
  eq_iff, not, Bool-cases, filter_by, All,
}
use thorondor.JobStore.{JobRow, Tables, Settings, is_terminal, is_expired, update_jobs, has_id}
use thorondor.JobStore.Expiry.{expire_due, expire_rows, purge_rows, is_due, is_purgeable, tombstone}
use thorondor.JobStore.Claims.{find_key, holds_key}

-- A job that waits or runs, found by its key.
abbrev pub IsActive : JobRow → Type 0
IsActive r = (is_terminal r.state ≡ false) × (is_expired r.state ≡ false)

abbrev pub Differs : JobRow → JobRow → Type 0
Differs new r = r.job_id ≢ new.job_id

update_jobs-append :
    (test : JobRow → Bool) (change : JobRow → JobRow) (pre : List JobRow) (new : JobRow)
    → test new ≡ false
    → update_jobs test change (pre ++ new ∷ []) ≡ update_jobs test change pre ++ new ∷ []
unfolding update_jobs
update_jobs-append test change [] new h = rw h
update_jobs-append test change (r ∷ rest) new h = rw (update_jobs-append test change rest new h)

filter_by-append_keep :
    (test : JobRow → Bool) (pre : List JobRow) (new : JobRow)
    → test new ≡ true
    → filter_by test (pre ++ new ∷ []) ≡ filter_by test pre ++ new ∷ []
filter_by-append_keep test [] new h = rw h
filter_by-append_keep test (r ∷ rest) new h = elim (Bool-cases (test r)) [
  | inl t ↦ rw (t, filter_by-append_keep test rest new h)
  | inr t ↦ rw (t, filter_by-append_keep test rest new h)
]

filter_by-append_drop :
    (test : JobRow → Bool) (pre : List JobRow) (new : JobRow)
    → test new ≡ false
    → filter_by test (pre ++ new ∷ []) ≡ filter_by test pre
filter_by-append_drop test [] new h = rw h
filter_by-append_drop test (r ∷ rest) new h = elim (Bool-cases (test r)) [
  | inl t ↦ rw (t, filter_by-append_drop test rest new h)
  | inr t ↦ rw (t, filter_by-append_drop test rest new h)
]

All-filter_by {ℓ} :
    {A : Type ℓ} (P : A → Type 0) (test : A → Bool) (xs : List A)
    → All P xs
    → All P (filter_by test xs)
All-filter_by P test [] h = tt
All-filter_by P test (x ∷ xs) h = elim (Bool-cases (test x)) [
  | inl t ↦ rw t (h.0, All-filter_by P test xs h.1)
  | inr t ↦ rw t (All-filter_by P test xs h.1)
]

module _ (new : JobRow) (key : String) (keyed : new.idempotency_hash ≡ some key)
    (active : IsActive new) where
  -- The job is the last row and the only one with its id or its key.
  pub record IsLast (db : Tables) : Type 0 where
    pub pre : List JobRow
    pub jobs : db.jobs ≡ pre ++ new ∷ []
    pub unheld : find_key new.scope_hash key pre ≡ none
    pub others : All (Differs new) pre

  holds_own : holds_key new.scope_hash key new ≡ true
  holds_own = ground (arith, eq_iff new.scope_hash new.scope_hash, eq_iff key key)

  find_key-append :
      (pre : List JobRow)
      → find_key new.scope_hash key pre ≡ none
      → find_key new.scope_hash key (pre ++ new ∷ []) ≡ some new
  unfolding find_key
  find_key-append [] h = ground (arith, holds_own)
  find_key-append (r ∷ rest) h = ground (arith, find_key-append rest)

  pub find_key-IsLast : (db : Tables) → IsLast db → find_key new.scope_hash key db.jobs ≡ some new
  find_key-IsLast db l = rw l.jobs (find_key-append l.pre l.unheld)

  unheld_tombstone :
      (cfg : Settings) (d : JobRow) (pre : List JobRow)
      → find_key new.scope_hash key pre ≡ none
      → find_key new.scope_hash key
          (update_jobs (has_id d.job_id) (tombstone cfg d.retention_deadline) pre)
        ≡ none
  unfolding find_key update_jobs
  unheld_tombstone cfg d [] h = refl
  unheld_tombstone cfg d (r ∷ rest) h = ground (arith, unheld_tombstone cfg d rest)

  others_tombstone :
      (cfg : Settings) (d : JobRow) (pre : List JobRow)
      → All (Differs new) pre
      → All (Differs new) (update_jobs (has_id d.job_id) (tombstone cfg d.retention_deadline) pre)
  unfolding update_jobs
  others_tombstone cfg d [] h = tt
  others_tombstone cfg d (r ∷ rest) h = (ground (arith, h.0), others_tombstone cfg d rest h.1)

  unheld_filter :
      (test : JobRow → Bool) (pre : List JobRow)
      → find_key new.scope_hash key pre ≡ none
      → find_key new.scope_hash key (filter_by test pre) ≡ none
  unfolding find_key
  unheld_filter test [] h = refl
  unheld_filter test (r ∷ rest) h = ground (arith, unheld_filter test rest)

  expire_rows-IsLast :
      (cfg : Settings) (due : List JobRow) (db : Tables)
      → All (Differs new) due
      → IsLast db
      → IsLast (expire_rows cfg due db)
  unfolding expire_rows
  expire_rows-IsLast cfg [] db h l = l
  expire_rows-IsLast cfg (d ∷ rest) db h l = expire_rows-IsLast cfg rest _ h.1 (record {
    pre = update_jobs (has_id d.job_id) (tombstone cfg d.retention_deadline) l.pre;
    jobs = rw l.jobs (
        update_jobs-append (has_id d.job_id) (tombstone cfg d.retention_deadline) l.pre new
          (ground (arith, h.0, eq_iff new.job_id d.job_id)));
    unheld = unheld_tombstone cfg d l.pre l.unheld;
    others = others_tombstone cfg d l.pre l.others;
  })

  purge_rows-IsLast :
      (olds : List JobRow) (db : Tables)
      → All (Differs new) olds
      → IsLast db
      → IsLast (purge_rows olds db)
  unfolding purge_rows
  purge_rows-IsLast [] db h l = l
  purge_rows-IsLast (o ∷ rest) db h l = purge_rows-IsLast rest _ h.1 (record {
    pre = filter_by (λ r. not (has_id o.job_id r)) l.pre;
    jobs = rw l.jobs (
        filter_by-append_keep (λ r. not (has_id o.job_id r)) l.pre new
          (ground (arith, h.0, eq_iff new.job_id o.job_id)));
    unheld = unheld_filter (λ r. not (has_id o.job_id r)) l.pre l.unheld;
    others = All-filter_by (Differs new) (λ r. not (has_id o.job_id r)) l.pre l.others;
  })

  Differs-filter_by :
      (test : JobRow → Bool) (db : Tables)
      → test new ≡ false
      → IsLast db
      → All (Differs new) (filter_by test db.jobs)
  Differs-filter_by test db t l =
      rw (l.jobs, filter_by-append_drop test l.pre new t)
        (All-filter_by (Differs new) test l.pre l.others)

  pub expire_due-IsLast :
      (cfg : Settings) (now : ℕ) (db : Tables) → IsLast db → IsLast (expire_due cfg now db)
  unfolding expire_due
  expire_due-IsLast cfg now db l =
      let tombs =
        expire_rows-IsLast cfg (filter_by (is_due now) db.jobs) db
          (Differs-filter_by (is_due now) db (rw (active.0, is_due)) l) l in
      let swept = expire_rows cfg (filter_by (is_due now) db.jobs) db in
      purge_rows-IsLast (filter_by (is_purgeable now) swept.jobs) swept
        (Differs-filter_by (is_purgeable now) swept (rw (active.1, is_purgeable)) tombs) tombs
