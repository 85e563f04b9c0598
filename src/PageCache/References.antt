-- ===== src/PageCache/References.antt =====
-- orchestrator/page_cache.py: every target belongs to a page that is there, whatever the cache does.
use thorondor.Prelude.{
  ℕ, Bool, true, false, Option, none, some, List, [], ◌∷◌, ◌≡◌, refl, not, leb, is_some, filter_by,
  String, str_eq, Dict, lookup, insert, remove, lookup-insert, lookup-remove, All, Bool-cases, inl,
  inr, eq_iff, arith,
}
use thorondor.PageCache.{
  PageCacheRecord, StoredTargetSnapshot, Json, PageRow, TargetRow, CacheTables, page_row,
  target_row, get_row, put, put_target, upsert_target, get_target_row, delete_key, delete_pages,
  select_pages, has_page, is_of, is_target, drop_target, read_row, read_target_row,
}
use thorondor.PageCache.Rows.{
  HasUniqueKeys, insert-HasUniqueKeys, remove-HasUniqueKeys, select_pages-HasUniqueKeys,
}

abbrev pub HasPage : Dict PageRow → TargetRow → Type 0
HasPage pages t = has_page pages t ≡ true

-- A cache key stands once, and every target has its page.
pub record IsConsistent (db : CacheTables) : Type 0 where
  pub unique : HasUniqueKeys db.page_cache
  pub pages : All (HasPage db.page_cache) db.target_snapshots

All-filter_by :
    (P Q : TargetRow → Type 0) (test : TargetRow → Bool) (ts : List TargetRow)
    → ((t : TargetRow) → test t ≡ true → P t → Q t)
    → All P ts
    → All Q (filter_by test ts)
All-filter_by P Q test [] keep h = tt
All-filter_by P Q test (t ∷ ts) keep (first, h) = elim (Bool-cases (test t)) [
  | inl e ↦ rw e (keep t e first, All-filter_by P Q test ts keep h)
  | inr e ↦ rw e (All-filter_by P Q test ts keep h)
]

All-change :
    (P Q : TargetRow → Type 0) (ts : List TargetRow)
    → ((t : TargetRow) → P t → Q t)
    → All P ts
    → All Q ts
All-change P Q [] keep h = tt
All-change P Q (t ∷ ts) keep (first, h) = (keep t first, All-change P Q ts keep h)

remove_other :
    (key : String) (pages : Dict PageRow) (t : TargetRow)
    → not (is_of key t) ≡ true
    → HasPage pages t
    → HasPage (remove key pages) t
remove_other key pages t other page =
    let apart : str_eq key t.cache_key ≡ false =
      ground (arith, other, eq_iff key t.cache_key, eq_iff t.cache_key key) in
    rw (lookup-remove, apart) page

insert_any :
    (key : String) (row : PageRow) (pages : Dict PageRow) (t : TargetRow)
    → HasPage pages t
    → HasPage (insert key row pages) t
insert_any key row pages t page =
    rw lookup-insert
      (elim (Bool-cases (str_eq key t.cache_key)) [ inl e ↦ rw e refl | inr e ↦ rw e page ])

pub delete_key-IsConsistent :
    (key : String) (db : CacheTables) → IsConsistent db → IsConsistent (delete_key key db)
unfolding delete_key
delete_key-IsConsistent key db h = record {
  unique = remove-HasUniqueKeys key db.page_cache h.unique;
  pages =
      All-filter_by (HasPage db.page_cache) (HasPage (remove key db.page_cache))
        (λ t. not (is_of key t)) db.target_snapshots
        (λ t other page. remove_other key db.page_cache t other page) h.pages;
}

-- A target whose page was there and is not deleted has its page.
kept_page :
    (keep : PageRow → Bool) (pages : Dict PageRow) (t : TargetRow)
    → not (has_page (select_pages (λ row. not (keep row)) pages) t) ≡ true
    → HasPage pages t
    → HasPage (select_pages keep pages) t
unfolding select_pages lookup
kept_page keep [] t e page = page
kept_page keep ((k, row) ∷ rest) t e page = elim (Bool-cases (keep row)) [
  | inl x ↦ elim (Bool-cases (str_eq k t.cache_key)) [
    | inl y ↦ rw (x, y) refl
    | inr y ↦ rw (x, y) (kept_page keep rest t (rw x at e) (rw y at page))
  ]
  | inr x ↦ elim (Bool-cases (str_eq k t.cache_key)) [
    | inl y ↦ let bad : false ≡ true = rw (x, y) at e in absurd cc
    | inr y ↦ rw x (kept_page keep rest t (rw (x, y) at e) (rw y at page))
  ]
]

pub delete_pages-IsConsistent :
    (keep : PageRow → Bool) (db : CacheTables)
    → IsConsistent db
    → IsConsistent (delete_pages keep db).1
unfolding delete_pages
delete_pages-IsConsistent keep db h = record {
  unique = select_pages-HasUniqueKeys keep db.page_cache h.unique;
  pages =
      All-filter_by (HasPage db.page_cache) (HasPage (select_pages keep db.page_cache))
        (λ t. not (has_page (select_pages (λ row. not (keep row)) db.page_cache) t))
        db.target_snapshots (kept_page keep db.page_cache) h.pages;
}

upsert_target-All :
    (P : TargetRow → Type 0) (t : TargetRow) (ts : List TargetRow)
    → P t
    → All P ts
    → All P (upsert_target t ts)
unfolding upsert_target
upsert_target-All P t [] new h = (new, tt)
upsert_target-All P t (u ∷ ts) new (first, h) =
    elim (Bool-cases (is_target t.cache_key t.locator_hash u)) [
      | inl e ↦ rw e (new, h)
      | inr e ↦ rw e (first, upsert_target-All P t ts new h)
    ]

pub drop_target-IsConsistent :
    (key locator : String) (db : CacheTables)
    → IsConsistent db
    → IsConsistent (drop_target key locator db)
drop_target-IsConsistent key locator db h = record {
  unique = h.unique;
  pages =
      All-filter_by (HasPage db.page_cache) (HasPage db.page_cache)
        (λ t. not (is_target key locator t)) db.target_snapshots (λ t e page. page) h.pages;
}

some_inj : {a b : CacheTables} → ◌≡◌ {A = Option CacheTables} (some a) (some b) → a ≡ b
some_inj h = cc

module _ (j : Json) where
  pub put-IsConsistent :
      (r : PageCacheRecord) (db : CacheTables) → IsConsistent db → IsConsistent (put j r db)
  unfolding put
  put-IsConsistent r db h = record {
    unique = insert-HasUniqueKeys r.cache_key (page_row j r) db.page_cache h.unique;
    pages =
        All-change (HasPage db.page_cache)
          (HasPage (insert r.cache_key (page_row j r) db.page_cache)) db.target_snapshots
          (λ t page. insert_any r.cache_key (page_row j r) db.page_cache t page) h.pages;
  }

  pub put_target-IsConsistent :
      (key locator : String) (s : StoredTargetSnapshot) (db after : CacheTables)
      → put_target j key locator s db ≡ some after
      → IsConsistent db
      → IsConsistent after
  unfolding put_target
  put_target-IsConsistent key locator s db after e h =
      elim (Bool-cases (is_some (lookup key db.page_cache))) [
        | inl there ↦
            let same : record db {
              target_snapshots = upsert_target (target_row j key locator s) db.target_snapshots;
            }
                ≡ after =
              some_inj (rw there at e) in
            rw (← same) (record {
              unique = h.unique;
              pages =
                  upsert_target-All (HasPage db.page_cache) (target_row j key locator s)
                    db.target_snapshots there h.pages;
            })
        | inr gone ↦ let no : none ≡ some after = rw gone at e in absurd cc
      ]

  read_row-IsConsistent :
      (key : String) (db : CacheTables) (found : Option PageCacheRecord)
      → IsConsistent db
      → IsConsistent (read_row j key db found).1
  read_row-IsConsistent key db none h = delete_key-IsConsistent key db h
  read_row-IsConsistent key db (some r) h = h

  pub get_row-IsConsistent :
      (key : String) (now : ℕ) (db : CacheTables) (found : Option PageRow)
      → IsConsistent db
      → IsConsistent (get_row j key now db found).1
  unfolding get_row
  get_row-IsConsistent key now db none h = h
  get_row-IsConsistent key now db (some row) h = elim (Bool-cases (leb row.retained_until now)) [
    | inl e ↦ rw e (delete_key-IsConsistent key db h)
    | inr e ↦ rw e (read_row-IsConsistent key db (j.read_page row.record_json) h)
  ]

  read_target_row-IsConsistent :
      (key locator : String) (db : CacheTables) (found : Option StoredTargetSnapshot)
      → IsConsistent db
      → IsConsistent (read_target_row j key locator db found).1
  read_target_row-IsConsistent key locator db none h = drop_target-IsConsistent key locator db h
  read_target_row-IsConsistent key locator db (some s) h = h

  pub get_target_row-IsConsistent :
      (key locator : String) (now : ℕ) (db : CacheTables) (found : Option TargetRow)
      (page : Option PageRow)
      → IsConsistent db
      → IsConsistent (get_target_row j key locator now db found page).1
  unfolding get_target_row
  get_target_row-IsConsistent key locator now db none page h = h
  get_target_row-IsConsistent key locator now db (some t) none h = h
  get_target_row-IsConsistent key locator now db (some t) (some row) h =
      elim (Bool-cases (leb row.retained_until now)) [
        | inl e ↦ rw e (delete_key-IsConsistent key db h)
        | inr e ↦
            rw e (read_target_row-IsConsistent key locator db (j.read_target t.snapshot_json) h)
      ]
