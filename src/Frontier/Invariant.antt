-- ===== src/Frontier/Invariant.antt =====
-- The invariant of the crawl frontier, and that every change of one record keeps it.
use thorondor.Prelude.{
  ℕ, ◌≤◌, String, ◌≡◌, ◌∙◌, inl, inr, some, List, arith, length, get_elem?, modify, All, All-map,
  All-modify, All-get_elem?, length-modify, get_elem?-modify, get_elem?-modify_inv, lookup,
}
use thorondor.Frontier.{UrlPolicy, FrontierRecord, CrawlFrontier, update, empty}
use thorondor.Frontier.Keeps.{
  IsRecord, IsAdmitted, Keeps, Keeps-IsAdmitted, Keeps-IsRecord, IsAdmitted-change,
}

module _ (p : UrlPolicy) where
  -- The record at a position is admitted.
  abbrev pub AdmittedAt : List FrontierRecord → ℕ → Type 0
  AdmittedAt records i = (r : FrontierRecord) × (get_elem? records i ≡ some r) × IsAdmitted p r

  -- The record at a position has the key.
  abbrev pub HasKeyAt : List FrontierRecord → String → ℕ → Type 0
  HasKeyAt records k i = (r : FrontierRecord) × (get_elem? records i ≡ some r) × (p.key r.url ≡ k)

  pub record IsFrontier (f : CrawlFrontier) : Type 0 where
    -- There are at most `max_discovered_urls` records.
    pub bounded : length f.records ≤ p.max_discovered_urls
    -- Each record was filtered at once, or admitted and ended at most once.
    pub shaped : All (IsRecord p) f.records
    -- A record stands at the position that its number says.
    pub numbered : (i : ℕ) (r : FrontierRecord) → get_elem? f.records i ≡ some r → r.order ≡ i
    -- The index by keys points to records with those keys,
    pub indexed : (k : String) (i : ℕ) → lookup k f.by_key ≡ some i → HasKeyAt f.records k i
    -- and has every admitted record.
    pub registered :
        (i : ℕ) (r : FrontierRecord)
        → get_elem? f.records i ≡ some r
        → IsAdmitted p r
        → lookup (p.key r.url) f.by_key ≡ some i
    -- What waits was admitted.
    pub waiting : All (AdmittedAt f.records) f.queue

  pub empty-IsFrontier : IsFrontier empty
  unfolding lookup
  empty-IsFrontier = record {
    bounded = omega arith;
    shaped = tt;
    numbered = λ i r h. ground arith;
    indexed = λ k i h. ground arith;
    registered = λ i r h a. ground arith;
    waiting = tt;
  }

  module _ {change : FrontierRecord → FrontierRecord} (k : Keeps p change) where
    pub AdmittedAt-modify :
        (records : List FrontierRecord) (i j : ℕ)
        → AdmittedAt records j
        → AdmittedAt (modify change records i) j
    AdmittedAt-modify records i j (r, at, a) =
        let (s, at', same) = get_elem?-modify change records i j r at in
        (s, at', elim same [ inl e ↦ rw e a | inr e ↦ rw e (Keeps-IsAdmitted p k r a) ])

    HasKeyAt-modify :
        (records : List FrontierRecord) (key : String) (i j : ℕ)
        → HasKeyAt records key j
        → HasKeyAt (modify change records i) key j
    HasKeyAt-modify records key i j (r, at, e) =
        let (s, at', same) = get_elem?-modify change records i j r at in
        (s, at', elim same [ inl q ↦ rw q e | inr q ↦ rw q (rw k.url e) ])

    module _ {f : CrawlFrontier} (v : IsFrontier f) (i : ℕ) where
      numbered_change :
          (j : ℕ) (s : FrontierRecord)
          → get_elem? (modify change f.records i) j ≡ some s
          → s.order ≡ j
      numbered_change j s h =
          let (r, at, same) = get_elem?-modify_inv change f.records i j s h in
          elim same [
            | inl e ↦ rw e (v.numbered j r at)
            | inr (_, e) ↦ rw e (k.order r ∙ v.numbered j r at)
          ]

      registered_change :
          (j : ℕ) (s : FrontierRecord)
          → get_elem? (modify change f.records i) j ≡ some s
          → IsAdmitted p s
          → lookup (p.key s.url) f.by_key ≡ some j
      registered_change j s h a =
          let (r, at, same) = get_elem?-modify_inv change f.records i j s h in
          elim same [
            | inl e ↦ rw e (v.registered j r at (rw e at a))
            | inr (_, e) ↦
                rw (e, k.url)
                  (v.registered j r at (
                    IsAdmitted-change p k r (All-get_elem? (IsRecord p) f.records j r v.shaped at)
                      (rw e at a)))
          ]

      pub update-IsFrontier : IsFrontier (update f i change)
      update-IsFrontier = record {
        bounded = rw length-modify v.bounded;
        shaped =
            All-modify (IsRecord p) change f.records i (λ r h. Keeps-IsRecord p k r h) v.shaped;
        numbered = numbered_change;
        indexed = λ key j h. HasKeyAt-modify f.records key i j (v.indexed key j h);
        registered = registered_change;
        waiting = All-map f.queue (λ j h. AdmittedAt-modify f.records i j h) v.waiting;
      }
