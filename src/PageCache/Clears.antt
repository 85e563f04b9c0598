-- ===== src/PageCache/Clears.antt =====
-- orchestrator/page_cache.py: what `_clear_url` deletes, with its pages' targets.
use thorondor.Prelude.{
  ◌+◌, Bool, true, false, Option, none, some, List, [], ◌∷◌, ◌≡◌, refl, ◌∙◌, not, if◌then◌else◌,
  is_some, length, filter_by, String, str_eq, Dict, lookup, All, Bool-cases, inl, inr, eq_iff,
  arith,
}
use thorondor.PageCache.{
  Json, PageRow, TargetRow, CacheTables, clear_url, delete_pages, select_pages, find_target,
}
use thorondor.PageCache.Rows.{keep_if, lookup-select_pages}
use thorondor.PageCache.Retention.{length-select_pages}
use thorondor.PageCache.References.{HasPage}
use thorondor.PageCache.Steps.{Reach, Reach-IsConsistent}

-- A page, unless it is one of the URL.
abbrev pub unless_of : String → Option PageRow → Option PageRow
unless_of identity none = none
unless_of identity (some row) = if str_eq row.url_identity identity then none else some row

-- A target, if its page is there.
abbrev pub with_page : Option PageRow → Option TargetRow → Option TargetRow
with_page none target = none
with_page (some row) target = target

-- Deleting targets by their key.
find_target-filter_by :
    (p : String → Bool) (key locator : String) (ts : List TargetRow)
    → find_target key locator (filter_by (λ t. p t.cache_key) ts)
      ≡ (if p key then find_target key locator ts else none)
unfolding find_target
find_target-filter_by p key locator [] = ground arith
find_target-filter_by p key locator (t ∷ ts) =
    let rest = find_target-filter_by p key locator ts in
    elim (Bool-cases (str_eq t.cache_key key)) [
      | inl own ↦
          let same : t.cache_key ≡ key = (eq_iff t.cache_key key).0 own in
          elim (Bool-cases (p key)) [
            | inl x ↦
                let here : p t.cache_key ≡ true = rw same x in
                let later = rest ∙ rw x refl in
                rw (here, own, x)
                  (elim (Bool-cases (str_eq t.locator_hash locator)) [
                    | inl y ↦ rw y refl
                    | inr y ↦ rw y later
                  ])
            | inr x ↦
                let here : p t.cache_key ≡ false = rw same x in rw (here, x) (rest ∙ rw x refl)
          ]
      | inr other ↦ elim (Bool-cases (p t.cache_key)) [
        | inl x ↦ rw (x, other) rest
        | inr x ↦ rw (x, other) rest
      ]
    ]

-- Without a page there is no target.
find_target-none :
    (pages : Dict PageRow) (key locator : String) (ts : List TargetRow)
    → All (HasPage pages) ts
    → lookup key pages ≡ none
    → find_target key locator ts ≡ none
unfolding find_target
find_target-none pages key locator [] h gone = refl
find_target-none pages key locator (t ∷ ts) (page, h) gone =
    elim (Bool-cases (str_eq t.cache_key key)) [
      | inl own ↦
          let same : t.cache_key ≡ key = (eq_iff t.cache_key key).0 own in
          let bad : false ≡ true = rw (same, gone) at page in absurd cc
      | inr other ↦ rw other (find_target-none pages key locator ts h gone)
    ]

unless_lem :
    (identity : String) (page : Option PageRow)
    → keep_if (λ row. not (str_eq row.url_identity identity)) page ≡ unless_of identity page
unless_lem identity none = refl
unless_lem identity (some row) = elim (Bool-cases (str_eq row.url_identity identity)) [
  | inl e ↦ rw e refl
  | inr e ↦ rw e refl
]

with_page_lem :
    (identity key locator : String) (db : CacheTables)
    (pages : All (HasPage db.page_cache) db.target_snapshots) (page deleted : Option PageRow)
    → lookup key db.page_cache ≡ page
    → deleted ≡ keep_if (λ row. not (not (str_eq row.url_identity identity))) page
    → (if not (is_some deleted) then find_target key locator db.target_snapshots else none)
      ≡ with_page (unless_of identity page) (find_target key locator db.target_snapshots)
with_page_lem identity key locator db pages none deleted at gone =
    rw (gone, find_target-none db.page_cache key locator db.target_snapshots pages at) refl
with_page_lem identity key locator db pages (some row) deleted at gone =
    elim (Bool-cases (str_eq row.url_identity identity)) [
      | inl e ↦ let d : deleted ≡ some row = rw e at gone in rw (d, e) refl
      | inr e ↦ let d : deleted ≡ none = rw e at gone in rw (d, e) refl
    ]

module _ (j : Json) where
  -- In every reachable cache `_clear_url` deletes the pages whose URL has the given identity and no other
  -- page, and returns their number; a target is there afterwards exactly if it was there and its page
  -- is not deleted.
  pub Reach-clear_url :
      {db : CacheTables} (identity key locator : String)
      → Reach j db
      → (lookup key (clear_url identity db).1.page_cache
          ≡ unless_of identity (lookup key db.page_cache))
        × (find_target key locator (clear_url identity db).1.target_snapshots
            ≡ with_page
                (unless_of identity (lookup key db.page_cache))
                (find_target key locator db.target_snapshots))
        × ((clear_url identity db).0 + length (clear_url identity db).1.page_cache
            ≡ length db.page_cache)
  unfolding clear_url delete_pages
  Reach-clear_url {db} identity key locator r =
      let h = Reach-IsConsistent j r in
      let keep = λ (row : PageRow). not (str_eq row.url_identity identity) in
      let kept = lookup-select_pages keep key db.page_cache h.unique in
      let gone = lookup-select_pages (λ row. not (keep row)) key db.page_cache h.unique in
      let size = length-select_pages keep db.page_cache in
      let deleted = select_pages (λ row. not (keep row)) db.page_cache in
      let targets =
        find_target-filter_by (λ k. not (is_some (lookup k deleted))) key locator
          db.target_snapshots in
      (
        kept ∙ unless_lem identity (lookup key db.page_cache),
        targets
            ∙ with_page_lem identity key locator db h.pages (lookup key db.page_cache) _ refl gone,
        omega (arith, size),
      )
