-- ===== src/Admission/Runs.antt =====
-- orchestrator/resource_policy.py: `RuntimeAdmission`, its four pools in any use of their slots.
use thorondor.Prelude.{ℕ, some, ◌≡◌}
use thorondor.Admission.{
  AdmissionPool, entered, waiting, start_pool, enter, resume, time_out, leave,
}
use thorondor.Admission.Policy.{ResourcePolicy, slots}
use thorondor.Admission.Invariant.{
  IsPool, IsEntry, IsAfter, start_pool-IsPool, enter-IsPool, resume-IsPool, time_out-IsPool,
  leave-IsPool,
}

pub data Route : Type 0 where
  search : Route
  fetch : Route
  map : Route
  crawl : Route

pub record RuntimeAdmission : Type 0 where
  pub searches : AdmissionPool
  pub fetches : AdmissionPool
  pub maps : AdmissionPool
  pub crawls : AdmissionPool

abbrev pub inflight : ResourcePolicy → Route → ℕ
inflight p search = slots p.max_inflight_searches
inflight p fetch = slots p.max_inflight_fetches
inflight p map = slots p.max_inflight_maps
inflight p crawl = slots p.max_inflight_crawls

-- `__init__`
unfoldable pub start_admission : ResourcePolicy → RuntimeAdmission
start_admission p =
    let wait_s = slots p.admission_wait_s in
    record {
      searches = start_pool (slots p.max_inflight_searches) wait_s;
      fetches = start_pool (slots p.max_inflight_fetches) wait_s;
      maps = start_pool (slots p.max_inflight_maps) wait_s;
      crawls = start_pool (slots p.max_inflight_crawls) wait_s;
    }

abbrev pub pool_of : Route → RuntimeAdmission → AdmissionPool
pool_of search a = a.searches
pool_of fetch a = a.fetches
pool_of map a = a.maps
pool_of crawl a = a.crawls

abbrev pub with_pool : Route → AdmissionPool → RuntimeAdmission → RuntimeAdmission
with_pool search p a = record a { searches = p }
with_pool fetch p a = record a { fetches = p }
with_pool map p a = record a { maps = p }
with_pool crawl p a = record a { crawls = p }

-- What a task does in a pool.
pub data Move (p : AdmissionPool) : AdmissionPool → Type 0 where
  entering : (task : ℕ) (after : AdmissionPool) → enter task p ≡ entered after → Move p after
  joining : (task : ℕ) (after : AdmissionPool) → enter task p ≡ waiting after → Move p after
  resuming : (task : ℕ) (after : AdmissionPool) → resume task p ≡ some after → Move p after
  timing_out : (task : ℕ) (after : AdmissionPool) → time_out task p ≡ some after → Move p after
  leaving : (after : AdmissionPool) → leave p ≡ some after → Move p after

pub data Reach (policy : ResourcePolicy) : RuntimeAdmission → Type 0 where
  start : Reach policy (start_admission policy)
  move :
      (route : Route) (a : RuntimeAdmission) (after : AdmissionPool)
      → Reach policy a
      → Move (pool_of route a) after
      → Reach policy (with_pool route after a)

Move-IsPool :
    (limit : ℕ) (p after : AdmissionPool) → Move p after → IsPool limit p → IsPool limit after
Move-IsPool limit p _ (entering task after e) h =
    let there : IsEntry limit (enter task p) = enter-IsPool limit task p h in rw e at there
Move-IsPool limit p _ (joining task after e) h =
    let there : IsEntry limit (enter task p) = enter-IsPool limit task p h in rw e at there
Move-IsPool limit p _ (resuming task after e) h =
    let there : IsAfter limit (resume task p) = resume-IsPool limit task p h in rw e at there
Move-IsPool limit p _ (timing_out task after e) h =
    let there : IsAfter limit (time_out task p) = time_out-IsPool limit task p h in rw e at there
Move-IsPool limit p _ (leaving after e) h =
    let there : IsAfter limit (leave p) = leave-IsPool limit p h in rw e at there

abbrev AllPools : ResourcePolicy → RuntimeAdmission → Type 0
AllPools policy a = (route : Route) → IsPool (inflight policy route) (pool_of route a)

with_pool-AllPools :
    (policy : ResourcePolicy) (route : Route) (after : AdmissionPool) (a : RuntimeAdmission)
    → IsPool (inflight policy route) after
    → AllPools policy a
    → AllPools policy (with_pool route after a)
with_pool-AllPools policy search after a new h search = new
with_pool-AllPools policy search after a new h fetch = h fetch
with_pool-AllPools policy search after a new h map = h map
with_pool-AllPools policy search after a new h crawl = h crawl
with_pool-AllPools policy fetch after a new h search = h search
with_pool-AllPools policy fetch after a new h fetch = new
with_pool-AllPools policy fetch after a new h map = h map
with_pool-AllPools policy fetch after a new h crawl = h crawl
with_pool-AllPools policy map after a new h search = h search
with_pool-AllPools policy map after a new h fetch = h fetch
with_pool-AllPools policy map after a new h map = new
with_pool-AllPools policy map after a new h crawl = h crawl
with_pool-AllPools policy crawl after a new h search = h search
with_pool-AllPools policy crawl after a new h fetch = h fetch
with_pool-AllPools policy crawl after a new h map = h map
with_pool-AllPools policy crawl after a new h crawl = new

start_admission-AllPools : (policy : ResourcePolicy) → AllPools policy (start_admission policy)
unfolding start_admission
start_admission-AllPools policy search = start_pool-IsPool _ _
start_admission-AllPools policy fetch = start_pool-IsPool _ _
start_admission-AllPools policy map = start_pool-IsPool _ _
start_admission-AllPools policy crawl = start_pool-IsPool _ _

-- Whatever the tasks of the four routes do: in the pool of a route the free permits, those of woken
-- waiters and the active tasks are as many as its limit; a permit is free while a waiter waits only if
-- another waiter has been woken; and where tasks do not wait there are no waiters.
pub Reach-IsPool :
    (policy : ResourcePolicy) (a : RuntimeAdmission)
    → Reach policy a
    → (route : Route) → IsPool (inflight policy route) (pool_of route a)
Reach-IsPool policy _ start = start_admission-AllPools policy
Reach-IsPool policy _ (move route a after r m) =
    with_pool-AllPools policy route after a
      (Move-IsPool (inflight policy route) (pool_of route a) after m
        (Reach-IsPool policy a r route))
      (Reach-IsPool policy a r)
