-- ===== src/Frontier/Admission.antt =====
-- What one call of `discover` does to the records that are there, to the queue and to the counts.
use thorondor.Prelude.{
  ℕ, ◌+◌, ◌≤◌, String, ◌≡◌, ◌≢◌, ◌↔◌, ◌⊎◌, refl, sym, ◌∙◌, ap, inl, inr, Bool, true, false, Option,
  none, some, List, [], ◌∷◌, ◌++◌, arith, length, length-append, get_elem?, lookup,
  get_elem?-modify, get_elem?-concat_left, Bool-cases, Option-cases, if◌then◌else◌, length-modify,
  is_some, ◌||◌, not,
}
use thorondor.Frontier.{
  UrlPolicy, FrontierRecord, CrawlFrontier, Discovery, update, discover, discover_url,
  discover_normalized, is_full, is_known, record_filtered, admit, admission_rejection,
  merge_discovery, first_rejection,
}

module _ (p : UrlPolicy) (f : CrawlFrontier) where
  -- The candidate is a URL whose key the frontier has.
  abbrev pub knows_url : Option String → Bool
  knows_url none = false
  knows_url (some url) = is_known p f url

  -- The record keeps its URL, history, reason and number, and its depth does not grow.
  abbrev pub Same : FrontierRecord → FrontierRecord → Type 0
  Same r s =
      (s.url ≡ r.url)
      × (s.states ≡ r.states)
      × (s.reason ≡ r.reason)
      × (s.order ≡ r.order)
      × (s.depth ≤ r.depth)

  -- All the tests that a candidate has to pass.
  abbrev pub Passes : String → Discovery → Type 0
  Passes candidate d =
      (url : String) × (p.normalize candidate ≡ some url)
      × (is_known p f url ≡ false)
      × (is_full p f ≡ false)
      × (p.rejection_reason url d.depth ≡ none)
      × (d.safe ≡ true)
      × (d.robots_allowed ≡ true)

  Same-refl : (r : FrontierRecord) → Same r r
  Same-refl r = (refl, refl, refl, refl, omega arith)

  longer_ne : (q : List ℕ) (n : ℕ) → q ++ n ∷ [] ≢ q
  longer_ne q n e = omega (arith, length-append q (n ∷ []), ap length e)

  -- The outcomes of a call.
  data Outcome (candidate : String) (d : Discovery) (g : CrawlFrontier) : Type 0 where
    merged :
        (i : ℕ)
        → knows_url (p.normalize candidate) ≡ true
        → g ≡ update f i (merge_discovery d)
        → Outcome candidate d g
    dropped :
        knows_url (p.normalize candidate) ≡ false
        → g ≡ record f { omitted_due_to_limit = f.omitted_due_to_limit + 1 }
        → Outcome candidate d g
    added :
        (s : FrontierRecord)
        → knows_url (p.normalize candidate) ≡ false
        → g.records ≡ f.records ++ s ∷ []
        → g.omitted_due_to_limit ≡ f.omitted_due_to_limit
        → (g.queue ≡ f.queue) ⊎ Passes candidate d
        → Outcome candidate d g

  record_filtered-Outcome :
      (candidate : String) (d : Discovery)
      → p.normalize candidate ≡ none
      → Outcome candidate d (record_filtered p f candidate d "invalid_url").0
  unfolding record_filtered
  record_filtered-Outcome candidate d bad =
      elim (Bool-cases (not (p.within_url_limit candidate) || is_full p f)) [
        | inl full ↦ rw full (dropped (rw bad) refl)
        | inr open_ ↦ rw open_ (added _ (rw bad) refl refl (inl refl))
      ]

  admit-Outcome :
      (candidate url : String) (d : Discovery) (rejection : Option String)
      → p.normalize candidate ≡ some url
      → is_known p f url ≡ false
      → is_full p f ≡ false
      → admission_rejection p url d.depth d.safe d.robots_allowed ≡ rejection
      → Outcome candidate d (admit p f url d rejection).0
  unfolding admit admission_rejection first_rejection
  admit-Outcome candidate url d (some why) from new open_ e =
      added _ (rw from new) refl refl (inl refl)
  admit-Outcome candidate url d none from new open_ e =
      added _ (rw from new) refl refl
        (inr (url, from, new, open_, ground arith, ground arith, ground arith))

  discover-Outcome :
      (candidate : String) (d : Discovery) → Outcome candidate d (discover p f candidate d).0
  unfolding discover discover_url discover_normalized is_known
  discover-Outcome candidate d = elim (Option-cases (p.normalize candidate)) [
    | inl bad ↦ rw bad (record_filtered-Outcome candidate d bad)
    | inr (url, from) ↦ elim (Option-cases (lookup (p.key url) f.by_key)) [
      | inl new ↦ elim (Bool-cases (is_full p f)) [
        | inl full ↦ rw (from, new, full) (dropped (rw (from, new)) refl)
        | inr open_ ↦
            rw (from, new, open_) (admit-Outcome candidate url d _ from (rw new) open_ refl)
      ]
      | inr (i, known) ↦ rw (from, known) (merged i (rw (from, known)) refl)
    ]
  ]

  Outcome-counts :
      (candidate : String) (d : Discovery) (g : CrawlFrontier)
      → Outcome candidate d g
      → length g.records + g.omitted_due_to_limit
        ≡ length f.records
          + f.omitted_due_to_limit
          + (if knows_url (p.normalize candidate) then 0 else 1)
  Outcome-counts candidate d g (merged i known e) =
      rw (e, known) (omega (arith, length-modify (merge_discovery d) f.records i))
  Outcome-counts candidate d g (dropped new e) = rw (e, new) (omega arith)
  Outcome-counts candidate d g (added s new e o q) =
      rw (e, o, new) (omega (arith, length-append f.records (s ∷ [])))

  -- Each call of `discover` finds a known record, adds one record, or counts one omitted URL.
  pub discover_counts :
      (candidate : String) (d : Discovery)
      → length (discover p f candidate d).0.records
          + (discover p f candidate d).0.omitted_due_to_limit
        ≡ length f.records
          + f.omitted_due_to_limit
          + (if knows_url (p.normalize candidate) then 0 else 1)
  discover_counts candidate d = Outcome-counts candidate d _ (discover-Outcome candidate d)

  Outcome-keeps :
      (candidate : String) (d : Discovery) (g : CrawlFrontier) (i : ℕ) (r : FrontierRecord)
      → Outcome candidate d g
      → get_elem? f.records i ≡ some r
      → (s : FrontierRecord) × (get_elem? g.records i ≡ some s) × Same r s
  unfolding merge_discovery
  Outcome-keeps candidate d g i r (merged j known e) at =
      let (s, at', same) = get_elem?-modify (merge_discovery d) f.records j i r at in
      (
        s,
        rw e at',
        elim same [
          | inl q ↦ rw q (Same-refl r)
          | inr q ↦ rw q (refl, refl, refl, refl, omega arith)
        ],
      )
  Outcome-keeps candidate d g i r (dropped new e) at = (r, rw e at, Same-refl r)
  Outcome-keeps candidate d g i r (added s new e o q) at =
      (r, rw e (get_elem?-concat_left f.records s i r at), Same-refl r)

  -- No call of `discover` changes the URL, the history, the reason or the number of a record that is
  -- there, and none makes it deeper.
  pub discover_keeps :
      (candidate : String) (d : Discovery) (i : ℕ) (r : FrontierRecord)
      → get_elem? f.records i ≡ some r
      → (s : FrontierRecord) × (get_elem? (discover p f candidate d).0.records i ≡ some s)
        × Same r s
  discover_keeps candidate d i r at =
      Outcome-keeps candidate d _ i r (discover-Outcome candidate d) at

  Outcome-Passes :
      (candidate : String) (d : Discovery) (g : CrawlFrontier)
      → Outcome candidate d g
      → g.queue ≡ f.queue ++ length f.records ∷ []
      → Passes candidate d
  Outcome-Passes candidate d g (merged i known e) q =
      absurd (longer_ne f.queue (length f.records) (sym q ∙ ap (λ (h : CrawlFrontier). h.queue) e))
  Outcome-Passes candidate d g (dropped new e) q =
      absurd (longer_ne f.queue (length f.records) (sym q ∙ ap (λ (h : CrawlFrontier). h.queue) e))
  Outcome-Passes candidate d g (added s new e o (inl same)) q =
      absurd (longer_ne f.queue (length f.records) (sym q ∙ same))
  Outcome-Passes candidate d g (added s new e o (inr passes)) q = passes

  Passes-discover :
      (candidate : String) (d : Discovery)
      → Passes candidate d
      → (discover p f candidate d).0.queue ≡ f.queue ++ length f.records ∷ []
  unfolding discover discover_url discover_normalized is_known admission_rejection first_rejection
      admit
  Passes-discover candidate d (url, from, new, open_, scope, safe, allowed) =
      elim (Option-cases (lookup (p.key url) f.by_key)) [
        | inl e ↦ rw (from, e, open_, scope, safe, allowed)
        | inr (i, e) ↦ absurd (known_clash i (rw e at new))
      ]
    where
      known_clash : (i : ℕ) → is_some (some i) ≡ false → ⊥
      known_clash i h = ground arith

  -- A call of `discover` puts a new record at the end of the queue exactly when the candidate
  -- normalizes to a URL that is not known, the frontier is not full, the policy does not reject the
  -- URL at that depth, and the URL is safe and allowed by robots.txt.
  pub discover_admits_iff :
      (candidate : String) (d : Discovery)
      → ((discover p f candidate d).0.queue ≡ f.queue ++ length f.records ∷ []) ↔ Passes candidate d
  discover_admits_iff candidate d =
      (Outcome-Passes candidate d _ (discover-Outcome candidate d), Passes-discover candidate d)
