-- ===== src/JobStore/Paging.antt =====
-- A page of results: a prefix of the rows within both limits, and whether it is all of them.
use thorondor.Prelude.{
  ℕ, suc, ◌+◌, ◌≤◌, ◌≡◌, refl, sym, ◌∙◌, inl, inr, true, false, Option, none, some, List, [], ◌∷◌,
  ◌++◌, arith, length, length-append, take, map, leb, ltb, is_some, not, ◌&&◌, ◌==◌, Bool-cases,
  last_or,
}
use mathlib.Core.List.{append_assoc, append-nil}
use thorondor.JobStore.{ResultRow, FetchResult}
use thorondor.JobStore.Pages.{StoredResultPage, build_from, build_result_page, empty_page}

abbrev pub total_bytes : List ResultRow → ℕ
total_bytes [] = 0
total_bytes (r ∷ rest) = r.item_bytes + total_bytes rest

abbrev pub results_in : List ResultRow → List FetchResult
results_in = map (λ r. r.result)

abbrev pub ordinals : List ResultRow → List ℕ
ordinals = map (λ r. r.ordinal)

-- The page adds the first `taken` rows to the page at the start.
pub record IsPage (rows : List ResultRow) (start : StoredResultPage) (max_items max_bytes : ℕ)
    (page : StoredResultPage) (oversized : Option ℕ) : Type 0 where
  pub taken : ℕ
  pub results : page.results ≡ start.results ++ results_in (take taken rows)
  pub bytes : page.returned_bytes ≡ start.returned_bytes + total_bytes (take taken rows)
  pub last : page.last_ordinal ≡ last_or start.last_ordinal (ordinals (take taken rows))
  pub items_bound : length page.results ≤ max_items
  pub bytes_bound : page.returned_bytes ≤ max_bytes
  pub within : taken ≤ length rows
  -- All rows are on the page exactly when it says so.
  pub complete : (not page.has_more && not (is_some oversized)) ≡ (taken == length rows)
  -- Only a first row can be too large.
  pub oversized_first : (is_some oversized && leb 1 (length page.results)) ≡ false

IsPage-stop :
    (rows : List ResultRow) (start : StoredResultPage) (max_items max_bytes : ℕ) (r : ResultRow)
    → length start.results ≤ max_items
    → start.returned_bytes ≤ max_bytes
    → IsPage (r ∷ rows) start max_items max_bytes (record start { has_more = true }) none
IsPage-stop rows start max_items max_bytes r items bytes = record {
  taken = 0;
  results = sym (append-nil start.results);
  bytes = omega arith;
  last = refl;
  items_bound = items;
  bytes_bound = bytes;
  within = omega arith;
  complete = ground arith;
  oversized_first = refl;
}

IsPage-oversized :
    (rows : List ResultRow) (start : StoredResultPage) (max_items max_bytes : ℕ) (r : ResultRow)
    (b : ℕ)
    → length start.results ≤ max_items
    → start.returned_bytes ≤ max_bytes
    → length start.results ≡ 0
    → IsPage (r ∷ rows) start max_items max_bytes start (some b)
IsPage-oversized rows start max_items max_bytes r b items bytes none_yet = record {
  taken = 0;
  results = sym (append-nil start.results);
  bytes = omega arith;
  last = refl;
  items_bound = items;
  bytes_bound = bytes;
  within = omega arith;
  complete = ground arith;
  oversized_first = ground arith;
}

abbrev extend : StoredResultPage → ResultRow → StoredResultPage
extend page r = record {
  results = page.results ++ r.result ∷ [];
  last_ordinal = r.ordinal;
  returned_bytes = page.returned_bytes + r.item_bytes;
  has_more = page.has_more;
}

IsPage-cons :
    (rows : List ResultRow) (start : StoredResultPage) (max_items max_bytes : ℕ) (r : ResultRow)
    (page : StoredResultPage) (oversized : Option ℕ)
    → IsPage rows (extend start r) max_items max_bytes page oversized
    → IsPage (r ∷ rows) start max_items max_bytes page oversized
IsPage-cons rows start max_items max_bytes r page oversized p = record {
  taken = suc p.taken;
  results = p.results ∙ append_assoc start.results (r.result ∷ []) (results_in (take p.taken rows));
  bytes = omega (arith, p.bytes);
  last = p.last;
  items_bound = p.items_bound;
  bytes_bound = p.bytes_bound;
  within = omega (arith, p.within);
  complete = ground (arith, p.complete);
  oversized_first = p.oversized_first;
}

build_from-IsPage :
    (rows : List ResultRow) (start : StoredResultPage) (max_items max_bytes : ℕ)
    → length start.results ≤ max_items
    → start.returned_bytes ≤ max_bytes
    → start.has_more ≡ false
    → IsPage rows start max_items max_bytes
        (build_from max_items max_bytes rows start).0
        (build_from max_items max_bytes rows start).1
unfolding build_from
build_from-IsPage [] start max_items max_bytes items bytes more = record {
  taken = 0;
  results = sym (append-nil start.results);
  bytes = omega arith;
  last = refl;
  items_bound = items;
  bytes_bound = bytes;
  within = omega arith;
  complete = ground arith;
  oversized_first = refl;
}
build_from-IsPage (r ∷ rows) start max_items max_bytes items bytes more =
    elim (Bool-cases (leb max_items (length start.results))) [
      | inl full ↦ rw full (IsPage-stop rows start max_items max_bytes r items bytes)
      | inr room ↦ elim (Bool-cases (ltb max_bytes (start.returned_bytes + r.item_bytes))) [
        | inl large ↦ elim (Bool-cases (leb (length start.results) 0)) [
          | inl first ↦
              rw (room, large, first)
                (IsPage-oversized rows start max_items max_bytes r r.item_bytes items bytes
                  (ground arith))
          | inr later ↦
              rw (room, large, later) (IsPage-stop rows start max_items max_bytes r items bytes)
        ]
        | inr fits ↦
            rw (room, fits)
              (IsPage-cons rows start max_items max_bytes r _ _ (
                build_from-IsPage rows (extend start r) max_items max_bytes
                  (ground (arith, length-append start.results (r.result ∷ []))) (ground arith)
                  more))
      ]
    ]

-- The page that `build_result_page` makes of any rows holds the results of a first part of them, in
-- order, with at most `max_items` results and `max_bytes` bytes; its bytes are their sum and its last
-- ordinal is that of the last row taken, or the one asked after; it holds all the rows exactly when it
-- says that there are no more and no row was too large; and only the first row can be reported as
-- too large.
pub build_result_page-IsPage :
    (rows : List ResultRow) (after_ordinal max_items max_bytes : ℕ)
    → IsPage rows
        (empty_page after_ordinal)
        max_items
        max_bytes
        (build_result_page rows after_ordinal max_items max_bytes).0
        (build_result_page rows after_ordinal max_items max_bytes).1
unfolding build_result_page
build_result_page-IsPage rows after_ordinal max_items max_bytes =
    build_from-IsPage rows (empty_page after_ordinal) max_items max_bytes (omega arith)
      (omega arith) refl
