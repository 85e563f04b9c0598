-- ===== src/Admission/Tests.antt =====
-- orchestrator/resource_policy.py: one slot for each route, with and without waiting.
use thorondor.Prelude.{
  ℕ, ◌+◌, ◌<◌, false, none, some, [], ◌∷◌, ◌≡◌, refl, ◌↔◌, not, ◌||◌, ltb, true,
}
use thorondor.Admission.{AdmissionPool, capacity_unavailable, enter, leave, release}
use thorondor.Admission.Policy.{
  pos, ResourcePolicy, must_be_at_least_1, content_exceeds_response, IsPolicy, post_init,
  post_init_iff,
}
use thorondor.Admission.Semaphores.{count_woken, has_waiting}
use thorondor.Admission.Invariant.{IsPool}
use thorondor.Admission.Runs.{
  search, start_admission, with_pool, Reach, start, move, entering, joining, Reach-IsPool,
}
use thorondor.Admission.Limits.{enter_refuses_iff, Reach-awake}

abbrev policy : ℕ → ResourcePolicy
policy wait_s = record {
  max_request_body_bytes = pos 1000;
  max_response_body_bytes = pos 1000;
  search_route_deadline_s = pos 30;
  fetch_route_deadline_s = pos 30;
  map_route_deadline_s = pos 30;
  site_crawl_route_deadline_s = pos 30;
  discovery_stage_deadline_s = pos 30;
  crawl_stage_deadline_s = pos 30;
  chunk_stage_deadline_s = pos 30;
  rerank_stage_deadline_s = pos 30;
  max_inflight_searches = pos 1;
  max_inflight_fetches = pos 1;
  max_inflight_maps = pos 1;
  max_inflight_crawls = pos 1;
  admission_wait_s = pos wait_s;
  admission_retry_after_s = pos 1;
  max_internal_fanout = pos 4;
  max_content_bytes = pos 500;
  chunk_concurrency = pos 1;
}

abbrev busy : ℕ → AdmissionPool
busy wait_s = record { semaphore = record { value = 0; waiters = [] }; wait_s = wait_s; active = 1 }

abbrev queued : AdmissionPool
queued = record {
  semaphore = record { value = 0; waiters = record { task = 2; woken = false } ∷ [] };
  wait_s = 5;
  active = 1;
}

-- Task 1 searches.
one_search :
    (wait_s : ℕ)
    → Reach (policy wait_s) (with_pool search (busy wait_s) (start_admission (policy wait_s)))
unfolding enter start_admission
one_search wait_s =
    move search (start_admission (policy wait_s)) (busy wait_s) start
      (entering 1 (busy wait_s) refl)

-- Task 2 waits for it.
two_searches :
    Reach
      (policy 5)
      (with_pool search queued (with_pool search (busy 5) (start_admission (policy 5))))
unfolding enter
two_searches =
    move search (with_pool search (busy 5) (start_admission (policy 5))) queued (one_search 5)
      (joining 2 queued refl)

-- A slot that is left goes to the waiter.
left_run :
    leave queued
    ≡ some (record {
      semaphore = record { value = 0; waiters = record { task = 2; woken = true } ∷ [] };
      wait_s = 5;
      active = 0;
    })
unfolding leave
left_run = refl

zero_run :
    post_init (record (policy 5) { max_inflight_maps = pos 0 })
    ≡ some (must_be_at_least_1 "max_inflight_maps")
unfolding post_init
zero_run = refl

content_run :
    post_init (record (policy 5) { max_content_bytes = pos 2000 }) ≡ some content_exceeds_response
unfolding post_init
content_run = refl

valid_run : post_init (policy 5) ≡ none
unfolding post_init
valid_run = refl

post_init_iff_example : (post_init (policy 5) ≡ none) ↔ IsPolicy (policy 5)
post_init_iff_example = post_init_iff (policy 5)

Reach-IsPool_example : IsPool 1 queued
Reach-IsPool_example =
    Reach-IsPool (policy 5)
      (with_pool search queued (with_pool search (busy 5) (start_admission (policy 5))))
      two_searches search

enter_refuses_iff_example :
    (enter 2 (busy 0) ≡ capacity_unavailable) ↔ (◌≡◌ {A = ℕ} 0 0 × ◌≡◌ {A = ℕ} 1 1)
enter_refuses_iff_example =
    enter_refuses_iff (policy 0) (with_pool search (busy 0) (start_admission (policy 0))) search 2
      (one_search 0)

Reach-awake_example :
    (0 < 1 + 0)
    × (not (has_waiting (release queued.semaphore).waiters)
          || ltb 0 (count_woken (release queued.semaphore).waiters)
        ≡ true)
Reach-awake_example =
    Reach-awake (policy 5)
      (with_pool search queued (with_pool search (busy 5) (start_admission (policy 5)))) search
      valid_run two_searches refl
