-- ===== src/PageCache/Retention.antt =====
-- orchestrator/page_cache.py: `_next_retention`, the time that the cleanup loop waits for.
use thorondor.Prelude.{
  ℕ, ◌≤◌, ◌<◌, Bool, true, false, Option, none, some, [], ◌∷◌, ◌≡◌, refl, ap, sym, ◌∙◌, leb, ltb,
  if◌then◌else◌, length, Dict, Bool-cases, inl, inr, arith,
}
use thorondor.PageCache.{
  PageRow, CacheTables, select_pages, delete_pages, outlives, cleanup, earlier, next_retention,
}

-- Whether the time has come.
abbrev pub is_come : Option ℕ → ℕ → Bool
is_come none now = false
is_come (some time) now = leb time now

is_come-earlier :
    (time now : ℕ) (o : Option ℕ)
    → is_come (earlier time o) now ≡ (if leb time now then true else is_come o now)
is_come-earlier time now none = ground arith
is_come-earlier time now (some other) = ground arith

select_all :
    (now : ℕ) (pages : Dict PageRow)
    → is_come (next_retention pages) now ≡ false
    → select_pages (outlives now) pages ≡ pages
unfolding next_retention select_pages
select_all now [] h = refl
select_all now ((k, row) ∷ rest) h =
    let split = is_come-earlier row.retained_until now (next_retention rest) in
    elim (Bool-cases (leb row.retained_until now)) [
      | inl e ↦
          let come : is_come (earlier row.retained_until (next_retention rest)) now ≡ true =
            rw e at split in
          let no : true ≡ false = sym come ∙ h in absurd cc
      | inr e ↦
          let come : is_come (earlier row.retained_until (next_retention rest)) now
              ≡ is_come (next_retention rest) now =
            rw e at split in
          rw e (ap (λ r. (k, row) ∷ r) (select_all now rest (sym come ∙ h)))
    ]

pub length-select_pages :
    (test : PageRow → Bool) (pages : Dict PageRow) → length (select_pages test pages) ≤ length pages
unfolding select_pages
length-select_pages test [] = omega arith
length-select_pages test ((k, row) ∷ rest) = elim (Bool-cases (test row)) [
  | inl e ↦ rw e (omega (arith, length-select_pages test rest))
  | inr e ↦ rw e (omega (arith, length-select_pages test rest))
]

select_less :
    (now : ℕ) (pages : Dict PageRow)
    → is_come (next_retention pages) now ≡ true
    → length (select_pages (outlives now) pages) < length pages
unfolding next_retention select_pages
select_less now [] h = absurd cc
select_less now ((k, row) ∷ rest) h =
    let split = is_come-earlier row.retained_until now (next_retention rest) in
    elim (Bool-cases (leb row.retained_until now)) [
      | inl e ↦ rw e (omega (arith, length-select_pages (outlives now) rest))
      | inr e ↦
          let come : is_come (earlier row.retained_until (next_retention rest)) now
              ≡ is_come (next_retention rest) now =
            rw e at split in
          rw e (omega (arith, select_less now rest (sym come ∙ h)))
    ]

-- A cleanup deletes a page exactly when the time that `next_retention` gives has come; before that time,
-- or if there is none, the pages stay as they are.
pub cleanup-next_retention :
    (now : ℕ) (db : CacheTables)
    → (ltb 0 (cleanup now db).0 ≡ is_come (next_retention db.page_cache) now)
      × ((if is_come (next_retention db.page_cache) now
            then db.page_cache
            else (cleanup now db).1.page_cache)
          ≡ db.page_cache)
unfolding cleanup delete_pages
cleanup-next_retention now db = elim (Bool-cases (is_come (next_retention db.page_cache) now)) [
  | inl e ↦ let less = select_less now db.page_cache e in rw e (ground (arith, less), refl)
  | inr e ↦ let all = select_all now db.page_cache e in rw (e, all) (ground arith, refl)
]
