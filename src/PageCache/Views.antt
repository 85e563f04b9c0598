-- ===== src/PageCache/Views.antt =====
-- orchestrator/page_cache.py: what a reader of the cache sees at a time, and what each method does to it.
use thorondor.Prelude.{
  ℕ, ◌≤◌, true, Option, none, some, ◌≡◌, refl, sym, ap, ◌∙◌, leb, if◌then◌else◌, String, str_eq,
  lookup, lookup-insert, lookup-remove, Bool-cases, Option-cases, inl, inr, eq_iff, arith,
}
use thorondor.PageCache.{
  PageCacheRecord, Json, PageRow, CacheTables, get_row, get, put, delete_key, delete_pages, cleanup,
  outlives,
}
use thorondor.PageCache.Rows.{HasUniqueKeys, keep_if, lookup-select_pages}

module _ (j : Json) where
  abbrev pub seen : ℕ → Option PageRow → Option PageCacheRecord
  seen t none = none
  seen t (some row) = if leb row.retained_until t then none else j.read_page row.record_json

  -- The record of a key that is retained at a time, if its row can be read.
  abbrev pub view : ℕ → String → CacheTables → Option PageCacheRecord
  view t key db = seen t (lookup key db.page_cache)

  -- The view after a page is deleted.
  delete_key-view :
      (t : ℕ) (key k : String) (db : CacheTables)
      → view t k (delete_key key db) ≡ (if str_eq key k then none else view t k db)
  unfolding delete_key
  delete_key-view t key k db =
      rw lookup-remove (elim (Bool-cases (str_eq key k)) [ inl e ↦ rw e refl | inr e ↦ rw e refl ])

  -- Deleting a page that is not seen changes nothing that is seen.
  delete_unseen :
      (t : ℕ) (key k : String) (db : CacheTables)
      → view t key db ≡ none
      → view t k (delete_key key db) ≡ view t k db
  delete_unseen t key k db gone = delete_key-view t key k db ∙ (elim (Bool-cases (str_eq key k)) [
    | inl e ↦
        let same : key ≡ k = (eq_iff key k).0 e in
        let gone_k : view t k db ≡ none = rw (← same) gone in rw (e, gone_k) refl
    | inr e ↦ rw e refl
  ])

  seen-later :
      (now t : ℕ) (row : PageRow)
      → now ≤ t
      → leb row.retained_until now ≡ true
      → seen t (some row) ≡ none
  seen-later now t row le e =
      let expired : leb row.retained_until t ≡ true = ground (arith, le, e) in rw expired refl

  seen_unreadable :
      (t : ℕ) (row : PageRow) → j.read_page row.record_json ≡ none → seen t (some row) ≡ none
  seen_unreadable t row n = elim (Bool-cases (leb row.retained_until t)) [
    | inl e ↦ rw e refl
    | inr e ↦ rw e n
  ]

  seen-outlives :
      (now t : ℕ) (found : Option PageRow)
      → now ≤ t
      → seen t (keep_if (outlives now) found) ≡ seen t found
  seen-outlives now t none le = refl
  seen-outlives now t (some row) le = elim (Bool-cases (leb row.retained_until now)) [
    | inl e ↦ rw e (sym (seen-later now t row le e))
    | inr e ↦ rw e refl
  ]

  get_row-view :
      (now t : ℕ) (key k : String) (db : CacheTables) (found : Option PageRow)
      → now ≤ t
      → lookup key db.page_cache ≡ found
      → ((get_row j key now db found).0 ≡ seen now found)
        × (view t k (get_row j key now db found).1 ≡ view t k db)
  unfolding get_row
  get_row-view now t key k db none le e = (refl, refl)
  get_row-view now t key k db (some row) le e = elim (Bool-cases (leb row.retained_until now)) [
    | inl x ↦
        let gone : view t key db ≡ none = ap (seen t) e ∙ seen-later now t row le x in
        rw x (refl, delete_unseen t key k db gone)
    | inr x ↦ elim (Option-cases (j.read_page row.record_json)) [
      | inl n ↦
          let gone : view t key db ≡ none = ap (seen t) e ∙ seen_unreadable t row n in
          rw (x, n) (refl, delete_unseen t key k db gone)
      | inr (r, n) ↦ rw (x, n) (refl, refl)
    ]
  ]

  -- `get` returns what is seen of the key, and from then on changes nothing that is seen.
  pub get-view :
      (now t : ℕ) (key k : String) (db : CacheTables)
      → now ≤ t
      → ((get j key now db).0 ≡ view now key db) × (view t k (get j key now db).1 ≡ view t k db)
  unfolding get
  get-view now t key k db le = get_row-view now t key k db (lookup key db.page_cache) le refl

  -- If the JSON text of the record is read back as that record, then after `put` the record is seen under
  -- its key until it is no longer retained, and under every other key what was seen before.
  pub put-view :
      (t : ℕ) (k : String) (r : PageCacheRecord) (db : CacheTables)
      → j.read_page (j.write_page r) ≡ some r
      → view t k (put j r db) ≡ (
          if str_eq r.cache_key k
          then if leb r.retained_until t then none else some r
          else view t k db)
  unfolding put
  put-view t k r db back =
      rw (lookup-insert)
        (elim (Bool-cases (str_eq r.cache_key k)) [ inl e ↦ rw (e, back) refl | inr e ↦ rw e refl ])

  -- The cache is a dictionary of the retained records, if the JSON text of a record is read back as that
  -- record: `get` returns what is seen of the key and changes nothing that is seen from then on; after
  -- `put` the record is seen under its key until it is no longer retained, and under every other key what
  -- was seen before.
  pub calls-view :
      (now t : ℕ) (key k : String) (r : PageCacheRecord) (db : CacheTables)
      → now ≤ t
      → j.read_page (j.write_page r) ≡ some r
      → ((get j key now db).0 ≡ view now key db)
        × (view t k (get j key now db).1 ≡ view t k db)
        × (view t k (put j r db) ≡ (
            if str_eq r.cache_key k
            then if leb r.retained_until t then none else some r
            else view t k db))
  calls-view now t key k r db le back =
      let (answer, kept) = get-view now t key k db le in (answer, kept, put-view t k r db back)

  -- From the time of a cleanup on, the cleanup changes nothing that is seen.
  pub cleanup-view :
      (now t : ℕ) (k : String) (db : CacheTables)
      → HasUniqueKeys db.page_cache
      → now ≤ t
      → view t k (cleanup now db).1 ≡ view t k db
  unfolding cleanup delete_pages
  cleanup-view now t k db unique le =
      rw (lookup-select_pages (outlives now) k db.page_cache unique)
        (seen-outlives now t (lookup k db.page_cache) le)
