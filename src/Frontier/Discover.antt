-- ===== src/Frontier/Discover.antt =====
-- `discover` and `pop` keep the frontier's invariant.
use thorondor.Prelude.{
  ℕ, ◌≤◌, ◌<◌, String, ◌≡◌, ◌⊎◌, inl, inr, none, some, List, [], ◌∷◌, ◌++◌, arith, length,
  get_elem?, All, All-map, All-append, length-append, lookup, insert, lookup-insert, eq_iff,
  get_elem?-concat, get_elem?-concat_last, get_elem?-concat_left,
}
use thorondor.Frontier.{UrlPolicy, FrontierRecord, CrawlFrontier}
use thorondor.Frontier.Keeps.{IsRecord, IsAdmitted, IsFilteredPath}
use thorondor.Frontier.Invariant.{IsFrontier, AdmittedAt, HasKeyAt}

module _ (p : UrlPolicy) {f : CrawlFrontier} (v : IsFrontier p f) (s : FrontierRecord)
    (room : length f.records < p.max_discovered_urls) (next : s.order ≡ length f.records)
    (shape : IsRecord p s) where
  abbrev pub longer : List FrontierRecord
  longer = f.records ++ s ∷ []

  longer_bounded : length longer ≤ p.max_discovered_urls
  longer_bounded = omega (arith, length-append f.records (s ∷ []))

  longer_numbered : (i : ℕ) (r : FrontierRecord) → get_elem? longer i ≡ some r → r.order ≡ i
  longer_numbered i r h = elim (get_elem?-concat f.records s i r h) [
    | inl old ↦ v.numbered i r old
    | inr (at, same) ↦ rw (same, at) next
  ]

  AdmittedAt-longer : (i : ℕ) → AdmittedAt p f.records i → AdmittedAt p longer i
  AdmittedAt-longer i (r, at, a) = (r, get_elem?-concat_left f.records s i r at, a)

  HasKeyAt-longer : (k : String) (i : ℕ) → HasKeyAt p f.records k i → HasKeyAt p longer k i
  HasKeyAt-longer k i (r, at, e) = (r, get_elem?-concat_left f.records s i r at, e)

  -- A record that is filtered and not indexed.
  pub unindexed-IsFrontier : IsFilteredPath s.states → IsFrontier p (record f { records = longer })
  unindexed-IsFrontier path = record {
    bounded = longer_bounded;
    shaped = All-append (IsRecord p) f.records (s ∷ []) v.shaped (shape, tt);
    numbered = longer_numbered;
    indexed = λ k i h. HasKeyAt-longer k i (v.indexed k i h);
    registered = λ i r h a. elim (get_elem?-concat f.records s i r h) [
      | inl old ↦ v.registered i r old a
      | inr (_, same) ↦ absurd (clash (rw same at a))
    ];
    waiting = All-map f.queue AdmittedAt-longer v.waiting;
  }
    where
      clash : IsAdmitted p s → ⊥
      clash a = ground (arith, a.path)

  module _ (new : lookup (p.key s.url) f.by_key ≡ none) where
    abbrev pub index : List (String × ℕ)
    index = insert (p.key s.url) (length f.records) f.by_key

    index_old : (k : String) (i : ℕ) → lookup k f.by_key ≡ some i → lookup k index ≡ some i
    index_old k i h = rw lookup-insert (ground (arith, eq_iff (p.key s.url) k))

    index_new : lookup (p.key s.url) index ≡ some (length f.records)
    index_new = rw lookup-insert (ground (arith, eq_iff (p.key s.url) (p.key s.url)))

    index_cases :
        (k : String) (i : ℕ)
        → lookup k index ≡ some i
        → (lookup k f.by_key ≡ some i) ⊎ ((p.key s.url ≡ k) × (i ≡ length f.records))
    index_cases k i h = let h' = rw lookup-insert at h in ground (arith, h', eq_iff (p.key s.url) k)

    indexed_longer : (k : String) (i : ℕ) → lookup k index ≡ some i → HasKeyAt p longer k i
    indexed_longer k i h = elim (index_cases k i h) [
      | inl old ↦ HasKeyAt-longer k i (v.indexed k i old)
      | inr (e, at) ↦ (s, rw at (get_elem?-concat_last f.records s), e)
    ]

    registered_longer :
        (i : ℕ) (r : FrontierRecord)
        → get_elem? longer i ≡ some r
        → IsAdmitted p r
        → lookup (p.key r.url) index ≡ some i
    registered_longer i r h a = elim (get_elem?-concat f.records s i r h) [
      | inl old ↦ index_old (p.key r.url) i (v.registered i r old a)
      | inr (at, same) ↦ rw (same, at) index_new
    ]

    -- A record that is indexed, and waits or was filtered.
    pub indexed-IsFrontier :
        (queue : List ℕ)
        → All (AdmittedAt p longer) queue
        → IsFrontier p (record f { records = longer; by_key = index; queue = queue })
    indexed-IsFrontier queue waits = record {
      bounded = longer_bounded;
      shaped = All-append (IsRecord p) f.records (s ∷ []) v.shaped (shape, tt);
      numbered = longer_numbered;
      indexed = indexed_longer;
      registered = registered_longer;
      waiting = waits;
    }

    pub waiting_longer : All (AdmittedAt p longer) f.queue
    waiting_longer = All-map f.queue AdmittedAt-longer v.waiting

    pub waiting_new : IsAdmitted p s → All (AdmittedAt p longer) (f.queue ++ length f.records ∷ [])
    waiting_new a =
        All-append (AdmittedAt p longer) f.queue (length f.records ∷ []) waiting_longer
          ((s, get_elem?-concat_last f.records s, a), tt)
