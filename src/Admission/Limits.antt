-- ===== src/Admission/Limits.antt =====
-- orchestrator/resource_policy.py: what a task of `RuntimeAdmission` can rely on.
use thorondor.Prelude.{
  ℕ, ◌+◌, ◌≤◌, ◌<◌, true, none, ◌≡◌, refl, ◌↔◌, inl, inr, ◌==◌, ltb, not, ◌||◌, Bool-cases, arith,
}
use thorondor.Admission.{
  AdmissionPool, entered, waiting, capacity_unavailable, enter, locked, is_empty, release,
}
use thorondor.Admission.Policy.{ResourcePolicy, IsPolicy, post_init, post_init_iff}
use thorondor.Admission.Semaphores.{count_woken, has_waiting, release-wakes, empty_waiters}
use thorondor.Admission.Invariant.{IsPool}
use thorondor.Admission.Runs.{
  Route, search, fetch, map, crawl, RuntimeAdmission, inflight, pool_of, Reach, Reach-IsPool,
}

-- No route ever has more active tasks than its limit.
pub Reach-active :
    (policy : ResourcePolicy) (a : RuntimeAdmission) (route : Route)
    → Reach policy a
    → (pool_of route a).active ≤ inflight policy route
Reach-active policy a route r =
    let total = (Reach-IsPool policy a r route).total in omega (arith, total)

waiting_no : {p : AdmissionPool} → waiting p ≡ capacity_unavailable → ⊥
waiting_no h = cc

entered_no : {p : AdmissionPool} → entered p ≡ capacity_unavailable → ⊥
entered_no h = cc

refused_full :
    (limit task : ℕ) (p : AdmissionPool)
    → IsPool limit p
    → enter task p ≡ capacity_unavailable
    → (p.wait_s ≡ 0) × (p.active ≡ limit)
unfolding enter
refused_full limit task p h refused = elim (Bool-cases (locked p.semaphore)) [
  | inl full ↦ elim (Bool-cases (p.wait_s == 0)) [
    | inl x ↦
        let immediate = h.immediate in
        let no_waiters : is_empty p.semaphore.waiters ≡ true = ground (arith, immediate, x) in
        let nothing : p.semaphore.value ≡ 0 = ground (arith, full, no_waiters) in
        let woken = (empty_waiters p.semaphore.waiters no_waiters).0 in
        (ground (arith, x), omega (arith, h.total, nothing, woken))
    | inr x ↦ let no = rw (full, x) at refused in absurd (waiting_no no)
  ]
  | inr free ↦ let no = rw free at refused in absurd (entered_no no)
]

full_refused :
    (limit task : ℕ) (p : AdmissionPool)
    → IsPool limit p
    → (p.wait_s ≡ 0) × (p.active ≡ limit)
    → enter task p ≡ capacity_unavailable
unfolding enter
full_refused limit task p h (immediate, full) =
    let nothing : p.semaphore.value ≡ 0 = omega (arith, h.total, full) in
    let now : (p.wait_s == 0) ≡ true = ground (arith, immediate) in
    let shut : locked p.semaphore ≡ true = ground (arith, nothing) in rw (shut, now) refl

-- In every reachable state a task is refused a slot at once exactly if its pool does not let it wait and
-- has as many active tasks as its limit.
pub enter_refuses_iff :
    (policy : ResourcePolicy) (a : RuntimeAdmission) (route : Route) (task : ℕ)
    → Reach policy a
    → (enter task (pool_of route a) ≡ capacity_unavailable)
      ↔ (((pool_of route a).wait_s ≡ 0) × ((pool_of route a).active ≡ inflight policy route))
enter_refuses_iff policy a route task r =
    let h = Reach-IsPool policy a r route in
    (
      refused_full (inflight policy route) task (pool_of route a) h,
      full_refused (inflight policy route) task (pool_of route a) h,
    )

inflight_positive :
    (policy : ResourcePolicy) (route : Route) → IsPolicy policy → 0 < inflight policy route
inflight_positive policy route h = elim route as (λ k. 0 < inflight policy k) [
  | search ↦ h.searches
  | fetch ↦ h.fetches
  | map ↦ h.maps
  | crawl ↦ h.crawls
]

-- Under a policy that raises no error, in every reachable state in which a waiter of a route waits, a
-- task of the route is active or a waiter has been woken, so that the waiter is not forgotten; and when
-- an active task leaves, a waiter is woken, if any waits.
pub Reach-awake :
    (policy : ResourcePolicy) (a : RuntimeAdmission) (route : Route)
    → post_init policy ≡ none
    → Reach policy a
    → has_waiting (pool_of route a).semaphore.waiters ≡ true
    → (0 < (pool_of route a).active + count_woken (pool_of route a).semaphore.waiters)
      × (not (has_waiting (release (pool_of route a).semaphore).waiters)
            || ltb 0 (count_woken (release (pool_of route a).semaphore).waiters)
          ≡ true)
Reach-awake policy a route valid r waits =
    let h = Reach-IsPool policy a r route in
    let total = h.total in
    let awake = h.awake in
    let positive = inflight_positive policy route ((post_init_iff policy).0 valid) in
    (ground (arith, total, awake, positive, waits), release-wakes (pool_of route a).semaphore)
