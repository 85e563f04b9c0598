-- ===== src/JobStore/Pages.antt =====
-- orchestrator/crawl_job_store.py: `_build_result_page` and `_result_page`.
use thorondor.Prelude.{
  ℕ, ◌+◌, String, Bool, true, false, Option, none, some, List, [], ◌∷◌, ◌++◌, leb, ltb,
  if◌then◌else◌, length, take, filter_by,
}
use thorondor.JobStore.{
  ResultRow, FetchResult, Tables, Settings, JobRecord, Result, ok, err, result_too_large, find_job,
  results_of,
}
use thorondor.JobStore.Expiry.{expire_due}
use thorondor.JobStore.Claims.{in_scope, visible}

pub record StoredResultPage : Type 0 where
  pub results : List FetchResult
  pub last_ordinal : ℕ
  pub returned_bytes : ℕ
  pub has_more : Bool

-- The loop of `_build_result_page`, from the page so far.
unfoldable pub build_from : ℕ → ℕ → List ResultRow → StoredResultPage → StoredResultPage × Option ℕ
build_from max_items max_bytes [] page = (page, none)
build_from max_items max_bytes (r ∷ rest) page =
    let more = build_from max_items max_bytes rest (record {
      results = page.results ++ r.result ∷ [];
      last_ordinal = r.ordinal;
      returned_bytes = page.returned_bytes + r.item_bytes;
      has_more = page.has_more;
    }) in
    if leb max_items (length page.results)
    then (record page { has_more = true }, none)
    else if ltb max_bytes (page.returned_bytes + r.item_bytes)
    then if leb (length page.results) 0
      then (page, some r.item_bytes)
      else (record page { has_more = true }, none)
    else more

abbrev pub empty_page : ℕ → StoredResultPage
empty_page after_ordinal = record {
  results = [];
  last_ordinal = after_ordinal;
  returned_bytes = 0;
  has_more = false;
}

unfoldable pub build_result_page : List ResultRow → ℕ → ℕ → ℕ → StoredResultPage × Option ℕ
unfolding build_from
build_result_page rows after_ordinal max_items max_bytes =
    build_from max_items max_bytes rows (empty_page after_ordinal)

-- ORDER BY ordinal
unfoldable pub insert_ordered : ResultRow → List ResultRow → List ResultRow
insert_ordered r [] = r ∷ []
insert_ordered r (s ∷ rest) =
    if leb r.ordinal s.ordinal then r ∷ s ∷ rest else s ∷ insert_ordered r rest

unfoldable pub ordered : List ResultRow → List ResultRow
unfolding insert_ordered
ordered [] = []
ordered (r ∷ rest) = insert_ordered r (ordered rest)

unfoldable pub rows_after : String → ℕ → ℕ → List ResultRow → List ResultRow
unfolding ordered
rows_after id after_ordinal limit results =
    take limit (ordered (filter_by (λ r. ltb after_ordinal r.ordinal) (results_of id results)))

-- The arguments of `_result_page`.
pub record PageRequest : Type 0 where
  pub job_id : String
  pub scope_hash : String
  pub after_ordinal : ℕ
  pub max_items : ℕ
  pub max_bytes : ℕ

abbrev pub page_result :
    JobRecord → StoredResultPage × Option ℕ → Result (JobRecord × StoredResultPage)
page_result r (page, none) = ok (r, page)
page_result r (page, some oversized) = err (result_too_large oversized)

abbrev pub page_of : Tables → PageRequest → Result JobRecord → Result (JobRecord × StoredResultPage)
page_of db q (err e) = err e
page_of db q (ok r) = page_result r (
    build_result_page (rows_after q.job_id q.after_ordinal (q.max_items + 1) db.results)
      q.after_ordinal q.max_items q.max_bytes)

unfoldable pub result_page :
    Settings → PageRequest → ℕ → Tables → Result (JobRecord × StoredResultPage) × Tables
unfolding build_result_page rows_after expire_due find_job
result_page cfg q now db =
    let swept = expire_due cfg now db in
    (page_of swept q (visible swept (in_scope q.scope_hash (find_job q.job_id swept.jobs))), swept)
