-- ===== src/PageCache/Steps.antt =====
-- orchestrator/page_cache.py: the calls of the cache's methods, in any order.
use thorondor.Prelude.{ℕ, ◌≤◌, some, String, ◌≡◌, []}
use thorondor.PageCache.{
  PageCacheRecord, StoredTargetSnapshot, Json, CacheTables, get, put, put_target, put_with_target,
  get_target, drop_target, delete_key, clear_url, cleanup, stats,
}
use thorondor.PageCache.Views.{view, cleanup-view}
use thorondor.PageCache.References.{
  IsConsistent, delete_key-IsConsistent, delete_pages-IsConsistent, put-IsConsistent,
  put_target-IsConsistent, drop_target-IsConsistent, get_row-IsConsistent,
  get_target_row-IsConsistent,
}

module _ (j : Json) where
  -- One call; a call that fails is rolled back and no step. The DELETE of a read that another call
  -- preceded is `deleting` or `dropping_target`.
  pub data Step : CacheTables → CacheTables → Type 0 where
    getting : (key : String) (now : ℕ) (db : CacheTables) → Step db (get j key now db).1
    putting : (r : PageCacheRecord) (db : CacheTables) → Step db (put j r db)
    putting_both :
        (r : PageCacheRecord) (locator : String) (s : StoredTargetSnapshot) (db after : CacheTables)
        → put_with_target j r locator s db ≡ some after
        → Step db after
    getting_target :
        (key locator : String) (now : ℕ) (db : CacheTables)
        → Step db (get_target j key locator now db).1
    putting_target :
        (key locator : String) (s : StoredTargetSnapshot) (db after : CacheTables)
        → put_target j key locator s db ≡ some after
        → Step db after
    deleting : (key : String) (db : CacheTables) → Step db (delete_key key db)
    dropping_target :
        (key locator : String) (db : CacheTables) → Step db (drop_target key locator db)
    clearing : (identity : String) (db : CacheTables) → Step db (clear_url identity db).1
    cleaning : (now : ℕ) (db : CacheTables) → Step db (cleanup now db).1
    counting : (now : ℕ) (db : CacheTables) → Step db (stats now db).1

  -- The tables that calls reach from empty ones.
  pub data Reach : CacheTables → Type 0 where
    start : Reach (record { page_cache = []; target_snapshots = [] })
    later : {db after : CacheTables} → Reach db → Step db after → Reach after

  Step-IsConsistent :
      {db after : CacheTables} → Step db after → IsConsistent db → IsConsistent after
  unfolding get put_with_target get_target clear_url cleanup stats
  Step-IsConsistent (getting key now db) h = get_row-IsConsistent j key now db _ h
  Step-IsConsistent (putting r db) h = put-IsConsistent j r db h
  Step-IsConsistent (putting_both r locator s db after e) h =
      put_target-IsConsistent j r.cache_key locator s (put j r db) after e
        (put-IsConsistent j r db h)
  Step-IsConsistent (getting_target key locator now db) h =
      get_target_row-IsConsistent j key locator now db _ _ h
  Step-IsConsistent (putting_target key locator s db after e) h =
      put_target-IsConsistent j key locator s db after e h
  Step-IsConsistent (deleting key db) h = delete_key-IsConsistent key db h
  Step-IsConsistent (dropping_target key locator db) h = drop_target-IsConsistent key locator db h
  Step-IsConsistent (clearing identity db) h = delete_pages-IsConsistent _ db h
  Step-IsConsistent (cleaning now db) h = delete_pages-IsConsistent _ db h
  Step-IsConsistent (counting now db) h = delete_pages-IsConsistent _ db h

  -- Whatever calls are made of an empty cache, a cache key stands once and every target belongs to a
  -- page that is there.
  pub Reach-IsConsistent : {db : CacheTables} → Reach db → IsConsistent db
  Reach-IsConsistent start = record { unique = tt; pages = tt }
  Reach-IsConsistent (later r step) = Step-IsConsistent step (Reach-IsConsistent r)

  -- In every reachable cache a cleanup changes nothing that is seen from its time on.
  pub Reach-cleanup :
      {db : CacheTables} (now t : ℕ) (k : String)
      → Reach db
      → now ≤ t
      → view j t k (cleanup now db).1 ≡ view j t k db
  Reach-cleanup {db} now t k r le = cleanup-view j now t k db (Reach-IsConsistent r).unique le
