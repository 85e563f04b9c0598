-- ===== src/Admission/Policy.antt =====
-- orchestrator/resource_policy.py: `ResourcePolicy` and the checks of its `__post_init__`. The fields in
-- seconds are floats in the code; here they are whole numbers of a unit that may be as small as wanted,
-- so that a fraction of a second is a positive number.
use thorondor.Prelude.{
  ℕ, ◌≤◌, ◌<◌, Bool, true, false, Option, none, some, List, [], ◌∷◌, ◌≡◌, refl, ◌↔◌, ltb, not,
  if◌then◌else◌, String, All, Bool-cases, inl, inr, arith,
}

pub data ℤ : Type 0 where
  pos : ℕ → ℤ
  negsuc : ℕ → ℤ

pub record ResourcePolicy : Type 0 where
  pub max_request_body_bytes : ℤ
  pub max_response_body_bytes : ℤ
  pub search_route_deadline_s : ℤ
  pub fetch_route_deadline_s : ℤ
  pub map_route_deadline_s : ℤ
  pub site_crawl_route_deadline_s : ℤ
  pub discovery_stage_deadline_s : ℤ
  pub crawl_stage_deadline_s : ℤ
  pub chunk_stage_deadline_s : ℤ
  pub rerank_stage_deadline_s : ℤ
  pub max_inflight_searches : ℤ
  pub max_inflight_fetches : ℤ
  pub max_inflight_maps : ℤ
  pub max_inflight_crawls : ℤ
  pub admission_wait_s : ℤ
  pub admission_retry_after_s : ℤ
  pub max_internal_fanout : ℤ
  pub max_content_bytes : ℤ
  pub chunk_concurrency : ℤ

pub data PolicyError : Type 0 where
  must_be_at_least_1 : String → PolicyError
  must_be_above_0 : String → PolicyError
  must_be_at_least_0 : String → PolicyError
  content_exceeds_response : PolicyError

abbrev pub is_below : ℤ → ℤ → Bool
is_below (pos m) (pos n) = ltb m n
is_below (pos m) (negsuc n) = false
is_below (negsuc m) (pos n) = true
is_below (negsuc m) (negsuc n) = ltb n m

abbrev pub integer_fields : ResourcePolicy → List (String × ℤ)
integer_fields p =
    ("max_request_body_bytes", p.max_request_body_bytes)
    ∷ ("max_response_body_bytes", p.max_response_body_bytes)
    ∷ ("max_inflight_searches", p.max_inflight_searches)
    ∷ ("max_inflight_fetches", p.max_inflight_fetches)
    ∷ ("max_inflight_maps", p.max_inflight_maps)
    ∷ ("max_inflight_crawls", p.max_inflight_crawls)
    ∷ ("admission_retry_after_s", p.admission_retry_after_s)
    ∷ ("max_internal_fanout", p.max_internal_fanout)
    ∷ ("max_content_bytes", p.max_content_bytes)
    ∷ ("chunk_concurrency", p.chunk_concurrency)
    ∷ []

abbrev pub deadline_fields : ResourcePolicy → List (String × ℤ)
deadline_fields p =
    ("search_route_deadline_s", p.search_route_deadline_s)
    ∷ ("fetch_route_deadline_s", p.fetch_route_deadline_s)
    ∷ ("map_route_deadline_s", p.map_route_deadline_s)
    ∷ ("site_crawl_route_deadline_s", p.site_crawl_route_deadline_s)
    ∷ ("discovery_stage_deadline_s", p.discovery_stage_deadline_s)
    ∷ ("crawl_stage_deadline_s", p.crawl_stage_deadline_s)
    ∷ ("chunk_stage_deadline_s", p.chunk_stage_deadline_s)
    ∷ ("rerank_stage_deadline_s", p.rerank_stage_deadline_s)
    ∷ []

abbrev pub below_1 : ℤ → Bool
below_1 v = is_below v (pos 1)

-- `value <= 0`
abbrev pub at_most_0 : ℤ → Bool
at_most_0 v = not (is_below (pos 0) v)

-- The error of the first field of which the test holds.
unfoldable pub check_fields :
    (ℤ → Bool)
    → (String → PolicyError)
    → List (String × ℤ)
    → Option PolicyError
    → Option PolicyError
check_fields test error [] next = next
check_fields test error ((name, value) ∷ rest) next =
    let others = check_fields test error rest next in
    if test value then some (error name) else others

abbrev pub check_bounds : ResourcePolicy → Option PolicyError
check_bounds p =
    if is_below p.admission_wait_s (pos 0)
    then some (must_be_at_least_0 "admission_wait_s")
    else if is_below p.max_response_body_bytes p.max_content_bytes
    then some content_exceeds_response
    else none

-- `__post_init__`
unfoldable pub post_init : ResourcePolicy → Option PolicyError
unfolding check_fields
post_init p =
    check_fields below_1 must_be_at_least_1 (integer_fields p)
      (check_fields at_most_0 must_be_above_0 (deadline_fields p) (check_bounds p))

-- The number that an integer is, or 0 if it is negative.
abbrev pub slots : ℤ → ℕ
slots (pos n) = n
slots (negsuc n) = 0

abbrev pub IsPositive : ℤ → Type 0
IsPositive v = 0 < slots v

abbrev pub IsNatural : ℤ → Type 0
IsNatural (pos n) = Unit
IsNatural (negsuc n) = ⊥

-- The policies that `ResourcePolicy` accepts, field by field.
pub record IsPolicy (p : ResourcePolicy) : Type 0 where
  pub request_body : IsPositive p.max_request_body_bytes
  pub response_body : IsPositive p.max_response_body_bytes
  pub searches : IsPositive p.max_inflight_searches
  pub fetches : IsPositive p.max_inflight_fetches
  pub maps : IsPositive p.max_inflight_maps
  pub crawls : IsPositive p.max_inflight_crawls
  pub retry_after : IsPositive p.admission_retry_after_s
  pub fanout : IsPositive p.max_internal_fanout
  pub content : IsPositive p.max_content_bytes
  pub chunks : IsPositive p.chunk_concurrency
  pub search_route : IsPositive p.search_route_deadline_s
  pub fetch_route : IsPositive p.fetch_route_deadline_s
  pub map_route : IsPositive p.map_route_deadline_s
  pub crawl_route : IsPositive p.site_crawl_route_deadline_s
  pub discovery_stage : IsPositive p.discovery_stage_deadline_s
  pub crawl_stage : IsPositive p.crawl_stage_deadline_s
  pub chunk_stage : IsPositive p.chunk_stage_deadline_s
  pub rerank_stage : IsPositive p.rerank_stage_deadline_s
  pub wait : IsNatural p.admission_wait_s
  pub within : slots p.max_content_bytes ≤ slots p.max_response_body_bytes

-- A test that refuses exactly what is not positive.
abbrev Refuses : (ℤ → Bool) → Type 0
Refuses test = (v : ℤ) → (test v ≡ false) ↔ IsPositive v

below_1-Refuses : Refuses below_1
below_1-Refuses (pos n) = ((λ h. ground (arith, h)), (λ h. ground (arith, h)))
below_1-Refuses (negsuc n) = ((λ h. absurd cc), (λ h. absurd (omega (arith, h))))

at_most_0-Refuses : Refuses at_most_0
at_most_0-Refuses (pos n) = ((λ h. ground (arith, h)), (λ h. ground (arith, h)))
at_most_0-Refuses (negsuc n) = ((λ h. absurd cc), (λ h. absurd (omega (arith, h))))

abbrev Positive : String × ℤ → Type 0
Positive (name, value) = IsPositive value

check_fields-none :
    (test : ℤ → Bool) (error : String → PolicyError) (fields : List (String × ℤ))
    (next : Option PolicyError)
    → Refuses test
    → check_fields test error fields next ≡ none
    → All Positive fields × (next ≡ none)
unfolding check_fields
check_fields-none test error [] next exact h = (tt, h)
check_fields-none test error ((name, value) ∷ rest) next exact h = elim (Bool-cases (test value)) [
  | inl e ↦ let bad : some (error name) ≡ none = rw e at h in absurd cc
  | inr e ↦
      let (others, left) = check_fields-none test error rest next exact (rw e at h) in
      (((exact value).0 e, others), left)
]

check_fields_passes :
    (test : ℤ → Bool) (error : String → PolicyError) (fields : List (String × ℤ))
    (next : Option PolicyError)
    → Refuses test
    → All Positive fields
    → next ≡ none
    → check_fields test error fields next ≡ none
unfolding check_fields
check_fields_passes test error [] next exact h e = e
check_fields_passes test error ((name, value) ∷ rest) next exact (first, others) e =
    rw ((exact value).1 first) (check_fields_passes test error rest next exact others e)

content_within :
    (content response : ℤ)
    → 0 < slots content
    → 0 < slots response
    → is_below response content ≡ false
    → slots content ≤ slots response
content_within (pos m) (pos n) c r h = ground (arith, h)
content_within (pos m) (negsuc n) c r h = absurd (omega (arith, r))
content_within (negsuc m) response c r h = absurd (omega (arith, c))

within_content :
    (content response : ℤ)
    → 0 < slots content
    → 0 < slots response
    → slots content ≤ slots response
    → is_below response content ≡ false
within_content (pos m) (pos n) c r h = ground (arith, h)
within_content (pos m) (negsuc n) c r h = absurd (omega (arith, r))
within_content (negsuc m) response c r h = absurd (omega (arith, c))

not_negative : (v : ℤ) → is_below v (pos 0) ≡ false → IsNatural v
not_negative (pos n) h = tt
not_negative (negsuc n) h = absurd cc

natural_not_below : (v : ℤ) → IsNatural v → is_below v (pos 0) ≡ false
natural_not_below (pos n) h = ground arith
natural_not_below (negsuc n) h = absurd h

check_bounds-none :
    (p : ResourcePolicy)
    → IsPositive p.max_response_body_bytes
    → IsPositive p.max_content_bytes
    → check_bounds p ≡ none
    → IsNatural p.admission_wait_s × (slots p.max_content_bytes ≤ slots p.max_response_body_bytes)
check_bounds-none p response content h = elim (Bool-cases (is_below p.admission_wait_s (pos 0))) [
  | inl e ↦ let no : some (must_be_at_least_0 "admission_wait_s") ≡ none = rw e at h in absurd cc
  | inr e ↦ elim (Bool-cases (is_below p.max_response_body_bytes p.max_content_bytes)) [
    | inl x ↦ let no : some content_exceeds_response ≡ none = rw (e, x) at h in absurd cc
    | inr x ↦ (
      not_negative p.admission_wait_s e,
      content_within p.max_content_bytes p.max_response_body_bytes content response x,
    )
  ]
]

-- A policy raises no error exactly if each of its ten integers and each of its eight deadlines is positive,
-- its wait is not negative, and the content is not allowed more bytes than the response.
pub post_init_iff : (p : ResourcePolicy) → (post_init p ≡ none) ↔ IsPolicy p
unfolding post_init
post_init_iff p = (
  (λ h.
      let (integers, later) =
        check_fields-none below_1 must_be_at_least_1 (integer_fields p) _ below_1-Refuses h in
      let (deadlines, left) =
        check_fields-none at_most_0 must_be_above_0 (deadline_fields p) _ at_most_0-Refuses later in
      let (a, (b, (c, (d, (e, (f, (g, (k, (l, (m, _)))))))))) = integers in
      let (q, (r, (s, (t, (u, (v, (w, (x, _)))))))) = deadlines in
      let (wait, within) = check_bounds-none p b l left in
      record {
        request_body = a;
        response_body = b;
        searches = c;
        fetches = d;
        maps = e;
        crawls = f;
        retry_after = g;
        fanout = k;
        content = l;
        chunks = m;
        search_route = q;
        fetch_route = r;
        map_route = s;
        crawl_route = t;
        discovery_stage = u;
        crawl_stage = v;
        chunk_stage = w;
        rerank_stage = x;
        wait = wait;
        within = within;
      }),
  (λ h.
      let integers : All Positive (integer_fields p) = (
        h.request_body,
        (
          h.response_body,
          (
            h.searches,
            (
              h.fetches,
              (h.maps, (h.crawls, (h.retry_after, (h.fanout, (h.content, (h.chunks, tt)))))),
            ),
          ),
        ),
      ) in
      let deadlines : All Positive (deadline_fields p) = (
        h.search_route,
        (
          h.fetch_route,
          (
            h.map_route,
            (
              h.crawl_route,
              (h.discovery_stage, (h.crawl_stage, (h.chunk_stage, (h.rerank_stage, tt)))),
            ),
          ),
        ),
      ) in
      check_fields_passes below_1 must_be_at_least_1 (integer_fields p) _ below_1-Refuses integers (
        check_fields_passes at_most_0 must_be_above_0 (deadline_fields p) _ at_most_0-Refuses
          deadlines
          (rw
            (
              natural_not_below p.admission_wait_s h.wait,
              within_content p.max_content_bytes p.max_response_body_bytes h.content h.response_body
                  h.within,
            )
            refl))),
)
