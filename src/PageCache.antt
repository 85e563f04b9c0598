-- ===== src/PageCache.antt =====
-- orchestrator/page_cache.py: `SqlitePageCache`. The two tables are a dictionary of pages by their cache
-- key and a list of targets, each method a function on them, with the time where the method reads the
-- clock. Times are whole seconds. The JSON text of a record and of a snapshot, and its reading, which
-- fails on a text that is not such a record, are parameters. In `get` and `get_target` the DELETE of an
-- expired row follows its SELECT at once; that another call comes between them is a sequence of steps,
-- since a DELETE is a step of its own, `deleting` or `dropping_target`.
pub mod Rows
pub mod Views
pub mod References
pub mod Steps
pub mod Retention
pub mod Clears
mod Tests
use thorondor.Prelude.{
  ℕ, ◌+◌, ◌-◌, Bool, true, false, Option, none, some, List, [], ◌∷◌, ◌++◌, ◌≡◌, ◌&&◌, ◌||◌, not,
  leb, if◌then◌else◌, is_some, length, any, filter_by, min, String, str_eq, Dict, lookup, insert,
  remove,
}

pub record PageCacheRecord : Type 0 where
  pub cache_key : String
  pub url_identity : String
  pub requested_url : String
  pub final_url : Option String
  pub outcome : String
  pub status_code : Option ℕ
  pub content_type : Option String
  pub title : Option String
  pub retrieval_method : Option String
  pub capabilities : List String
  pub markdown : Option String
  pub raw_html : Option String
  pub links : String
  pub metadata : String
  pub response_headers : String
  pub source_hash : Option String
  pub cleaner_version : String
  pub fetched_at : ℕ
  pub expires_at : ℕ
  pub retained_until : ℕ

pub record StoredTargetSnapshot : Type 0 where
  pub resolution : String
  pub text : Option String
  pub attributes : Dict String
  pub updated_at : ℕ
  pub baseline_text : Option String
  pub baseline_attributes : Option (Dict String)
  pub baseline_updated_at : Option ℕ

pub record Json : Type 0 where
  pub write_page : PageCacheRecord → String
  pub read_page : String → Option PageCacheRecord
  pub write_target : StoredTargetSnapshot → String
  pub read_target : String → Option StoredTargetSnapshot

pub record PageRow : Type 0 where
  pub url_identity : String
  pub record_json : String
  pub fetched_at : ℕ
  pub expires_at : ℕ
  pub retained_until : ℕ

pub record TargetRow : Type 0 where
  pub cache_key : String
  pub locator_hash : String
  pub snapshot_json : String
  pub updated_at : ℕ

pub record CacheTables : Type 0 where
  pub page_cache : Dict PageRow
  pub target_snapshots : List TargetRow

abbrev pub is_of : String → TargetRow → Bool
is_of key t = str_eq t.cache_key key

abbrev pub is_target : String → String → TargetRow → Bool
is_target key locator t = str_eq t.cache_key key && str_eq t.locator_hash locator

-- DELETE FROM page_cache WHERE cache_key = ?; the targets of the page go with it.
unfoldable pub delete_key : String → CacheTables → CacheTables
delete_key key db = record {
  page_cache = remove key db.page_cache;
  target_snapshots = filter_by (λ t. not (is_of key t)) db.target_snapshots;
}

-- The pages that a test holds of.
unfoldable pub select_pages : (PageRow → Bool) → Dict PageRow → Dict PageRow
select_pages test [] = []
select_pages test ((k, row) ∷ rest) =
    let others = select_pages test rest in if test row then (k, row) ∷ others else others

abbrev pub has_page : Dict PageRow → TargetRow → Bool
has_page pages t = is_some (lookup t.cache_key pages)

-- DELETE FROM page_cache WHERE the test does not hold, and the number of those pages. ON DELETE CASCADE:
-- the targets with the key of a page that is deleted go with it.
unfoldable pub delete_pages : (PageRow → Bool) → CacheTables → ℕ × CacheTables
unfolding select_pages
delete_pages keep db =
    let kept = select_pages keep db.page_cache in
    let deleted = select_pages (λ row. not (keep row)) db.page_cache in
    (
      length db.page_cache - length kept,
      record {
        page_cache = kept;
        target_snapshots = filter_by (λ t. not (has_page deleted t)) db.target_snapshots;
      },
    )

abbrev pub outlives : ℕ → PageRow → Bool
outlives now row = not (leb row.retained_until now)

unfoldable pub upsert_target : TargetRow → List TargetRow → List TargetRow
upsert_target t [] = t ∷ []
upsert_target t (u ∷ rest) =
    let others = upsert_target t rest in
    if is_target t.cache_key t.locator_hash u then t ∷ rest else u ∷ others

unfoldable pub find_target : String → String → List TargetRow → Option TargetRow
find_target key locator [] = none
find_target key locator (t ∷ rest) =
    if is_target key locator t then some t else find_target key locator rest

-- DELETE FROM target_snapshots WHERE cache_key = ? AND locator_hash = ?
abbrev pub drop_target : String → String → CacheTables → CacheTables
drop_target key locator db = record db {
  target_snapshots = filter_by (λ t. not (is_target key locator t)) db.target_snapshots;
}

module _ (j : Json) where
  abbrev pub page_row : PageCacheRecord → PageRow
  page_row r = record {
    url_identity = r.url_identity;
    record_json = j.write_page r;
    fetched_at = r.fetched_at;
    expires_at = r.expires_at;
    retained_until = r.retained_until;
  }

  -- The record that a row that was read holds, or the row is deleted.
  abbrev pub read_row :
      String → CacheTables → Option PageCacheRecord → Option PageCacheRecord × CacheTables
  read_row key db none = (none, delete_key key db)
  read_row key db (some r) = (some r, db)

  unfoldable pub get_row :
      String → ℕ → CacheTables → Option PageRow → Option PageCacheRecord × CacheTables
  unfolding delete_key
  get_row key now db none = (none, db)
  get_row key now db (some row) =
      if leb row.retained_until now
      then (none, delete_key key db)
      else read_row key db (j.read_page row.record_json)

  unfoldable pub get : String → ℕ → CacheTables → Option PageCacheRecord × CacheTables
  unfolding get_row
  get key now db = get_row key now db (lookup key db.page_cache)

  -- `_write_record`, `_put`
  unfoldable pub put : PageCacheRecord → CacheTables → CacheTables
  put r db = record db { page_cache = insert r.cache_key (page_row r) db.page_cache }

  abbrev pub target_row : String → String → StoredTargetSnapshot → TargetRow
  target_row key locator s = record {
    cache_key = key;
    locator_hash = locator;
    snapshot_json = j.write_target s;
    updated_at = s.updated_at;
  }

  -- `_write_target`; without the page the foreign key fails and the transaction is rolled back.
  unfoldable pub put_target :
      String → String → StoredTargetSnapshot → CacheTables → Option CacheTables
  unfolding upsert_target
  put_target key locator s db =
      if is_some (lookup key db.page_cache)
      then some (record db {
        target_snapshots = upsert_target (target_row key locator s) db.target_snapshots;
      })
      else none

  unfoldable pub put_with_target :
      PageCacheRecord → String → StoredTargetSnapshot → CacheTables → Option CacheTables
  unfolding put put_target
  put_with_target r locator s db = put_target r.cache_key locator s (put r db)

  abbrev pub read_target_row :
      String
      → String
      → CacheTables
      → Option StoredTargetSnapshot
      → Option StoredTargetSnapshot × CacheTables
  read_target_row key locator db none = (none, drop_target key locator db)
  read_target_row key locator db (some s) = (some s, db)

  -- The row of the join, if both its sides are there.
  unfoldable pub get_target_row :
      String
      → String
      → ℕ
      → CacheTables
      → Option TargetRow
      → Option PageRow
      → Option StoredTargetSnapshot × CacheTables
  unfolding delete_key
  get_target_row key locator now db none page = (none, db)
  get_target_row key locator now db (some t) none = (none, db)
  get_target_row key locator now db (some t) (some row) =
      if leb row.retained_until now
      then (none, delete_key key db)
      else read_target_row key locator db (j.read_target t.snapshot_json)

  unfoldable pub get_target :
      String → String → ℕ → CacheTables → Option StoredTargetSnapshot × CacheTables
  unfolding get_target_row find_target
  get_target key locator now db =
      get_target_row key locator now db (find_target key locator db.target_snapshots)
        (lookup key db.page_cache)

unfoldable pub clear_url : String → CacheTables → ℕ × CacheTables
unfolding delete_pages
clear_url identity db = delete_pages (λ row. not (str_eq row.url_identity identity)) db

unfoldable pub cleanup : ℕ → CacheTables → ℕ × CacheTables
unfolding delete_pages
cleanup now db = delete_pages (outlives now) db

-- `_stats` but for the size of the file.
unfoldable pub stats : ℕ → CacheTables → (ℕ × ℕ) × CacheTables
unfolding cleanup
stats now db =
    let kept = (cleanup now db).1 in ((length kept.page_cache, length kept.target_snapshots), kept)

abbrev pub earlier : ℕ → Option ℕ → Option ℕ
earlier time none = some time
earlier time (some other) = some (min time other)

-- `_next_retention`
unfoldable pub next_retention : Dict PageRow → Option ℕ
next_retention [] = none
next_retention ((k, row) ∷ rest) = earlier row.retained_until (next_retention rest)
