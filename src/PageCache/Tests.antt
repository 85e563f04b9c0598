-- ===== src/PageCache/Tests.antt =====
-- orchestrator/page_cache.py: a page that is fetched at 100, and its cache at later times.
use thorondor.Prelude.{
  ◌+◌, ◌∷◌, length, lookup, insert, str_eq, leb, none, some, [], ◌≡◌, refl, ltb, if◌then◌else◌,
  arith,
}
use thorondor.PageCache.{
  PageCacheRecord, StoredTargetSnapshot, Json, CacheTables, put, get, cleanup, next_retention,
  target_row, put_target, find_target, clear_url,
}
use thorondor.PageCache.Views.{view, calls-view}
use thorondor.PageCache.Clears.{unless_of, with_page, Reach-clear_url}
use thorondor.PageCache.Steps.{Reach, start, later, putting, putting_target}
use thorondor.PageCache.Retention.{cleanup-next_retention, is_come}

abbrev sample : PageCacheRecord
sample = record {
  cache_key = "k1";
  url_identity = "example.org/a";
  requested_url = "https://example.org/a";
  final_url = none;
  outcome = "ok";
  status_code = some 200;
  content_type = some "text/html";
  title = none;
  retrieval_method = none;
  capabilities = [];
  markdown = some "text";
  raw_html = none;
  links = "[]";
  metadata = "{}";
  response_headers = "{}";
  source_hash = none;
  cleaner_version = "1";
  fetched_at = 100;
  expires_at = 200;
  retained_until = 300;
}

abbrev json : Json
json = record {
  write_page = λ r. "page";
  read_page = λ text. some sample;
  write_target = λ t. "target";
  read_target = λ text. none;
}

abbrev empty_cache : CacheTables
empty_cache = record { page_cache = []; target_snapshots = [] }

abbrev filled : CacheTables
filled = put json sample empty_cache

filled-Reach : Reach json filled
filled-Reach = later start (putting sample empty_cache)

calls-view_example :
    ((get json "k1" 250 filled).0 ≡ view json 250 "k1" filled)
    × (view json 260 "k2" (get json "k1" 250 filled).1 ≡ view json 260 "k2" filled)
    × (view json 260 "k2" (put json sample filled) ≡ (
        if str_eq "k1" "k2"
        then if leb 300 260 then none else some sample
        else view json 260 "k2" filled))
calls-view_example = calls-view json 250 260 "k1" "k2" sample filled (omega arith) refl

abbrev snapshot : StoredTargetSnapshot
snapshot = record {
  resolution = "found";
  text = some "8";
  attributes = [];
  updated_at = 100;
  baseline_text = none;
  baseline_attributes = none;
  baseline_updated_at = none;
}

abbrev watched : CacheTables
watched = record filled { target_snapshots = target_row json "k1" "l" snapshot ∷ [] }

watched-Reach : Reach json watched
unfolding put put_target insert lookup
watched-Reach = later filled-Reach (putting_target "k1" "l" snapshot filled watched refl)

clear_run : (clear_url "example.org/a" watched).1 ≡ empty_cache
unfolding clear_url put insert lookup
clear_run = refl

Reach-clear_url_example :
    (lookup "k1" (clear_url "example.org/a" watched).1.page_cache
      ≡ unless_of "example.org/a" (lookup "k1" watched.page_cache))
    × (find_target "k1" "l" (clear_url "example.org/a" watched).1.target_snapshots
        ≡ with_page
            (unless_of "example.org/a" (lookup "k1" watched.page_cache))
            (find_target "k1" "l" watched.target_snapshots))
    × ((clear_url "example.org/a" watched).0
          + length (clear_url "example.org/a" watched).1.page_cache
        ≡ length watched.page_cache)
Reach-clear_url_example = Reach-clear_url json "example.org/a" "k1" "l" watched-Reach

cleanup-next_retention_example :
    (ltb 0 (cleanup 320 filled).0 ≡ is_come (next_retention filled.page_cache) 320)
    × ((if is_come (next_retention filled.page_cache) 320
          then filled.page_cache
          else (cleanup 320 filled).1.page_cache)
        ≡ filled.page_cache)
cleanup-next_retention_example = cleanup-next_retention 320 filled
